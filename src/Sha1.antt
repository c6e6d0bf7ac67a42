-- ===== src/Sha1.antt =====
-- The SHA-1 of src/wic.c: `sha1_context`, its block transform, and `server_hash`.
use wic.Base.{
  ℕ, zero, suc, ◌+◌, ◌-◌, List, [], ◌∷◌, ◌++◌, ◌&&◌, u8, u32, ltb, leb, ◌==◌, if◌then◌else◌, ◌<<<◌,
  ◌>>>◌, length, get_or, set, take, drop, replicate, write_at, codes, bit_and, bit_or, bit_xor,
}

-- The five words of `state`, or the variables A to E.
pub record Digest : Type 0 where
  pub a : ℕ
  pub b : ℕ
  pub c : ℕ
  pub d : ℕ
  pub e : ℕ

-- sha1_context
pub record Context : Type 0 where
  pub total_0 : ℕ
  pub total_1 : ℕ
  pub state : Digest
  pub buffer : List ℕ

unfoldable pub sha1_init : Context
sha1_init = record {
  total_0 = 0;
  total_1 = 0;
  state = record { a = 0; b = 0; c = 0; d = 0; e = 0 };
  buffer = replicate 64 0;
}

unfoldable pub sha1_starts : Context → Context
sha1_starts ctx = record ctx {
  total_0 = 0;
  total_1 = 0;
  state = record { a = 0x67452301; b = 0xEFCDAB89; c = 0x98BADCFE; d = 0x10325476; e = 0xC3D2E1F0 };
}

-- GET_UINT32_BE
unfoldable pub get_uint32_be : List ℕ → ℕ → ℕ
get_uint32_be b i =
    bit_or (get_or b i 0 <<< 24)
      (bit_or (get_or b (i + 1) 0 <<< 16) (bit_or (get_or b (i + 2) 0 <<< 8) (get_or b (i + 3) 0)))

-- PUT_UINT32_BE: the four bytes that are stored.
unfoldable pub put_uint32_be : ℕ → List ℕ
put_uint32_be n = u8 (n >>> 24) ∷ u8 (n >>> 16) ∷ u8 (n >>> 8) ∷ u8 n ∷ []

-- S(x, n)
unfoldable pub rotate : ℕ → ℕ → ℕ
rotate x n = bit_or (u32 (x <<< n)) (x >>> (32 - n))

-- F(x, y, z) in round t
unfoldable pub mix : ℕ → ℕ → ℕ → ℕ → ℕ
mix t x y z =
    if ltb t 20
    then bit_xor z (bit_and x (bit_xor y z))
    else if ltb t 40
    then bit_xor (bit_xor x y) z
    else if ltb t 60
    then bit_or (bit_and x y) (bit_and z (bit_or x y))
    else bit_xor (bit_xor x y) z

-- K in round t
unfoldable pub round_constant : ℕ → ℕ
round_constant t =
    if ltb t 20
    then 0x5A827999
    else if ltb t 40
    then 0x6ED9EBA1
    else if ltb t 60
    then 0x8F1BBCDC
    else 0xCA62C1D6

-- R(t) stores this word in `W[t & 0x0F]`.
unfoldable pub expand : List ℕ → ℕ → ℕ
expand w t =
    rotate (bit_xor (bit_xor (bit_xor (word (t - 3)) (word (t - 8))) (word (t - 14))) (word t)) 1
  where
    word : ℕ → ℕ
    word k = get_or w (bit_and k 0x0F) 0

-- P(A, B, C, D, E, x), with the five variables renamed as the next call of P names them.
unfoldable pub sha1_round : ℕ → ℕ → Digest → Digest
sha1_round t x r = record {
  a = u32 (r.e + rotate r.a 5 + mix t r.b r.c r.d + round_constant t + x);
  b = r.a;
  c = rotate r.b 30;
  d = r.c;
  e = r.d;
}

-- The rounds from `t` on, `left` of them: the first 16 take W[t], the others R(t).
unfoldable pub sha1_rounds : ℕ → ℕ → List ℕ → Digest → Digest
sha1_rounds zero t w r = r
sha1_rounds (suc left) t w r =
    let w' = if ltb t 16 then w else set w (bit_and t 0x0F) (expand w t) in
    sha1_rounds left (t + 1) w' (sha1_round t (get_or w' (bit_and t 0x0F) 0) r)

-- The 16 words of a block, from index `i` of the block on.
unfoldable pub block_words : ℕ → ℕ → List ℕ → List ℕ
block_words zero i block = []
block_words (suc n) i block = get_uint32_be block i ∷ block_words n (i + 4) block

unfoldable pub add_digest : Digest → Digest → Digest
add_digest s r = record {
  a = u32 (s.a + r.a);
  b = u32 (s.b + r.b);
  c = u32 (s.c + r.c);
  d = u32 (s.d + r.d);
  e = u32 (s.e + r.e);
}

unfoldable pub sha1_process : Digest → List ℕ → Digest
unfolding sha1_rounds sha1_round expand mix round_constant rotate block_words get_uint32_be
    add_digest
sha1_process state block = add_digest state (sha1_rounds 80 0 (block_words 16 0 block) state)

-- `while(ilen >= 64)`, with fuel: the digest, and the input that is left.
unfoldable pub sha1_blocks : ℕ → Digest → List ℕ → Digest × List ℕ
sha1_blocks zero state input = (state, input)
sha1_blocks (suc fuel) state input =
    let rest = sha1_blocks fuel (sha1_process state (take 64 input)) (drop 64 input) in
    if ltb (length input) 64 then (state, input) else rest

-- The end of `sha1_update_ret`, from the loop on.
unfoldable pub sha1_tail : Context → ℕ → List ℕ → Context
sha1_tail ctx left input =
    let (state, rest) = sha1_blocks (length input) ctx.state input in
    record ctx {
      state = state;
      buffer = if ltb 0 (length rest) then write_at ctx.buffer left rest else ctx.buffer;
    }

-- `total[0] += ilen`, with the carry into `total[1]`.
unfoldable pub count_bytes : Context → ℕ → Context
count_bytes ctx ilen =
    let total = u32 (ctx.total_0 + u32 ilen) in
    record ctx {
      total_0 = total;
      total_1 = if ltb total (u32 ilen) then u32 (ctx.total_1 + 1) else ctx.total_1;
    }

unfoldable pub sha1_update : Context → List ℕ → Context
unfolding sha1_process sha1_blocks sha1_tail count_bytes
sha1_update ctx input =
    let left = bit_and ctx.total_0 0x3F in
    let fill = 64 - left in
    let counted = count_bytes ctx (length input) in
    if length input == 0
    then ctx
    else if ltb 0 left && leb fill (length input)
    then (let buffer = write_at counted.buffer left (take fill input) in
        sha1_tail (record counted { buffer = buffer; state = sha1_process counted.state buffer }) 0
          (drop fill input))
    else sha1_tail counted left input

-- `0x80`, then zeros up to the length field; the block before is processed where they do not fit.
unfoldable pub sha1_pad : Context → ℕ → Context
sha1_pad ctx used =
    if leb used 56
    then record ctx { buffer = write_at ctx.buffer used (replicate (56 - used) 0) }
    else (let full = write_at ctx.buffer used (replicate (64 - used) 0) in
        record ctx {
          state = sha1_process ctx.state full;
          buffer = write_at full 0 (replicate 56 0);
        })

-- The 20 bytes of `output`.
unfoldable pub sha1_finish : Context → List ℕ
unfolding sha1_process sha1_pad put_uint32_be
sha1_finish ctx =
    let used = bit_and ctx.total_0 0x3F in
    let marked = record ctx { buffer = write_at ctx.buffer used (0x80 ∷ []) } in
    let padded = sha1_pad marked (used + 1) in
    let high = bit_or (ctx.total_0 >>> 29) (u32 (ctx.total_1 <<< 3)) in
    let low = u32 (ctx.total_0 <<< 3) in
    let last = write_at (write_at padded.buffer 56 (put_uint32_be high)) 60 (put_uint32_be low) in
    let s = sha1_process padded.state last in
    put_uint32_be s.a
    ++ put_uint32_be s.b
    ++ put_uint32_be s.c
    ++ put_uint32_be s.d
    ++ put_uint32_be s.e

unfoldable pub guid : List ℕ
guid = codes "258EAFA5-E914-47DA-95CA-C5AB0DC85B11"

unfoldable pub server_hash : List ℕ → List ℕ
unfolding sha1_init sha1_starts sha1_update sha1_finish guid
server_hash nonce = sha1_finish (sha1_update (sha1_update (sha1_starts sha1_init) nonce) guid)
