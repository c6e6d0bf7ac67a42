-- ===== src/Base64.antt =====
-- The base64 encoder of src/wic.c.
use wic.Base.{
  ℕ, ◌+◌, ◌*◌, ◌/◌, ◌%◌, List, [], ◌∷◌, ◌++◌, ◌&&◌, u8, leb, ◌==◌, if◌then◌else◌, ◌<<<◌, ◌>>>◌,
  length, get_or, codes, bit_and, bit_or,
}

unfoldable pub b64_map : List ℕ
b64_map = codes "ABCDEFGHIJKLMNOPQRSTUVWXYZabcdefghijklmnopqrstuvwxyz0123456789+/"

unfoldable pub b64_encode_byte : ℕ → ℕ
b64_encode_byte in_ = get_or b64_map (bit_and in_ 0x3f) 0

unfoldable pub b64_encoded_size : ℕ → ℕ
b64_encoded_size size = 4 * (size / 3 + (if size % 3 == 0 then 0 else 1))

-- One round of the loop, `switch(i % 3)`: the characters written, and the accumulator.
unfoldable pub b64_round : ℕ → ℕ → ℕ → List ℕ × ℕ
b64_round i acc c =
    if i % 3 == 1
    then (b64_encode_byte (bit_or acc (c >>> 4)) ∷ [], u8 (c <<< 2))
    else if i % 3 == 2
    then (b64_encode_byte (bit_or acc (c >>> 6)) ∷ b64_encode_byte c ∷ [], acc)
    else (b64_encode_byte (c >>> 2) ∷ [], u8 (c <<< 4))

-- The loop from index `i` on: the characters written, and the accumulator at its end.
unfoldable pub b64_loop : ℕ → ℕ → List ℕ → List ℕ × ℕ
b64_loop i acc [] = ([], acc)
b64_loop i acc (c ∷ rest) =
    let (here, acc') = b64_round i acc c in
    let (later, last) = b64_loop (i + 1) acc' rest in (here ++ later, last)

-- The characters and the padding behind the last whole group of three bytes.
unfoldable pub b64_padding : ℕ → ℕ → List ℕ
b64_padding len acc =
    if len % 3 == 0
    then []
    else if len % 3 == 1
    then b64_encode_byte acc ∷ b'=' ∷ b'=' ∷ []
    else b64_encode_byte acc ∷ b'=' ∷ []

-- What is written to `out`, which has room for `max` characters.
unfoldable pub b64_encode : List ℕ → ℕ → List ℕ
unfolding b64_encoded_size b64_loop b64_round b64_padding b64_encode_byte b64_map
b64_encode bytes max =
    if leb (b64_encoded_size len) max && leb len (b64_encoded_size len)
    then (let (out, acc) = b64_loop 0 0 bytes in out ++ b64_padding len acc)
    else []
  where
    len : ℕ
    len = length bytes
