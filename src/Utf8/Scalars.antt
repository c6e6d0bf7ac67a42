-- ===== src/Utf8/Scalars.antt =====
-- What the UTF-8 automaton accepts: the encodings of Unicode scalar values (RFC 3629).
use wic.Base.{
  ℕ, zero, suc, ◌+◌, ◌/◌, ◌%◌, ◌≤◌, ◌<◌, ◌≡◌, refl, ◌∙◌, ap, ◌↔◌, inl, inr, true, List, [], ◌∷◌,
  ◌++◌, arith, ltb, ==_iff, length, Bool-cases,
}
use native.Mathlib.Decide.{dec_lt}
use wic.Utf8.{utf8_parse_string, utf8_is_complete}
use wic.Utf8.Text.{
  IsScalar, encode, IsText, nil, cons, AllBytes, first, step, utf8_parse-step, rejects,
}
use wic.Utf8.Split.{Split, Split-1, Split-2, Split-3, Split-4}

-- The ranges of a first byte, with the state behind it.
data Lead (b : ℕ) : Type 0 where
  one : b < 0x80 → first b ≡ 0 → Lead b
  two : 0xc2 ≤ b → b < 0xe0 → first b ≡ 2 → Lead b
  three : 3 ≤ first b → first b < 6 → 0xe0 ≤ b → b < 0xf0 → Lead b
  four : 6 ≤ first b → first b < 9 → 0xf0 ≤ b → b < 0xf5 → Lead b
  bad : first b ≡ 1 → Lead b

lead : (b : ℕ) → Lead b
lead b = elim (dec_lt b 0x80) [
  | yes h ↦ one h (ground arith)
  | no h ↦ elim (dec_lt b 0xc2) [
    | yes i ↦ bad (ground arith)
    | no i ↦ elim (dec_lt b 0xe0) [
      | yes j ↦ two (omega arith) j (ground arith)
      | no j ↦ elim (dec_lt b 0xf0) [
        | yes k ↦ three (ground arith) (ground arith) (omega arith) k
        | no k ↦ elim (dec_lt b 0xf5) [
          | yes l ↦ four (ground arith) (ground arith) (omega arith) l
          | no l ↦ bad (ground arith)
        ]
      ]
    ]
  ]
]

Split-Lead :
    (b : ℕ) (bytes : List ℕ)
    → Lead b
    → AllBytes bytes
    → utf8_parse_string (first b) bytes ≡ 0
    → Split (b ∷ bytes)
Split-Lead b bytes (one h e) hb acc = Split-1 b bytes h hb (rw e at acc)
Split-Lead b bytes (two p q e) hb acc = Split-2 b bytes p q hb (rw e at acc)
Split-Lead b bytes (three l h p q) hb acc =
    Split-3 (first b) b bytes l h p q (λ x. ground arith) (λ x. ground arith) hb acc
Split-Lead b bytes (four l h p q) hb acc =
    Split-4 (first b) b bytes l h p q (λ x. ground arith) (λ x. ground arith) hb acc
Split-Lead b bytes (bad e) hb acc = absurd (ground (arith, rejects bytes hb))

accepted-IsText :
    (n : ℕ) (bytes : List ℕ)
    → length bytes ≤ n
    → AllBytes bytes
    → utf8_parse_string 0 bytes ≡ 0
    → IsText bytes
unfolding utf8_parse_string
accepted-IsText n [] h hb e = nil
accepted-IsText zero (b ∷ bytes) h hb e = absurd (omega arith)
accepted-IsText (suc n) (b ∷ bytes) h hb e =
    let t = Split-Lead b bytes (lead b) hb.1 (rw (utf8_parse-step 0 b (omega arith) hb.0) at e) in
    cons t.point t.scalar t.joined
      (accepted-IsText n t.rest (omega (arith, t.shorter)) t.rest_bytes t.accepted)

goes :
    (s b t : ℕ) (rest : List ℕ)
    → s < 9
    → b < 256
    → step s b ≡ t
    → utf8_parse_string s (b ∷ rest) ≡ utf8_parse_string t rest
unfolding utf8_parse_string
goes s b t rest hs hb e = ap (λ k. utf8_parse_string k rest) (utf8_parse-step s b hs hb ∙ e)

goes_2 :
    (c : ℕ) (rest : List ℕ)
    → 0x80 ≤ c
    → c < 0x800
    → utf8_parse_string 0 ((192 + c / 64) ∷ (128 + c % 64) ∷ rest) ≡ utf8_parse_string 0 rest
goes_2 c rest p q =
    goes 0 (192 + c / 64) 2 ((128 + c % 64) ∷ rest) (omega arith) (omega arith) (ground arith)
    ∙ goes 2 (128 + c % 64) 0 rest (omega arith) (omega arith) (ground arith)

goes_3 :
    (c : ℕ) (rest : List ℕ)
    → 0x800 ≤ c
    → c < 0x10000
    → IsScalar c
    → utf8_parse_string 0 ((224 + c / 4096) ∷ (128 + c / 64 % 64) ∷ (128 + c % 64) ∷ rest)
      ≡ utf8_parse_string 0 rest
goes_3 c rest p q h =
    let s : ℕ = first (224 + c / 4096) in
    goes 0 (224 + c / 4096) s ((128 + c / 64 % 64) ∷ (128 + c % 64) ∷ rest) (omega arith)
      (omega arith) refl
    ∙ goes s (128 + c / 64 % 64) 2 ((128 + c % 64) ∷ rest) (ground arith) (omega arith)
        (ground arith)
    ∙ goes 2 (128 + c % 64) 0 rest (omega arith) (omega arith) (ground arith)

goes_4 :
    (c : ℕ) (rest : List ℕ)
    → 0x10000 ≤ c
    → c < 0x110000
    → utf8_parse_string 0
        ((240 + c / 262144) ∷ (128 + c / 4096 % 64) ∷ (128 + c / 64 % 64) ∷ (128 + c % 64) ∷ rest)
      ≡ utf8_parse_string 0 rest
goes_4 c rest p q =
    let s : ℕ = first (240 + c / 262144) in
    let last : List ℕ = (128 + c / 64 % 64) ∷ (128 + c % 64) ∷ rest in
    goes 0 (240 + c / 262144) s ((128 + c / 4096 % 64) ∷ last) (omega arith) (omega arith) refl
    ∙ goes s (128 + c / 4096 % 64) 3 last (ground arith) (omega arith) (ground arith)
    ∙ goes 3 (128 + c / 64 % 64) 2 ((128 + c % 64) ∷ rest) (omega arith) (omega arith)
        (ground arith)
    ∙ goes 2 (128 + c % 64) 0 rest (omega arith) (omega arith) (ground arith)

-- The bytes of one scalar value take the automaton from 0 back to 0.
utf8_parse_string-encode :
    (c : ℕ) (rest : List ℕ)
    → IsScalar c
    → utf8_parse_string 0 (encode c ++ rest) ≡ utf8_parse_string 0 rest
unfolding encode
utf8_parse_string-encode c rest h = elim (Bool-cases (ltb c 0x80)) [
  | inl a ↦ rw a (goes 0 c 0 rest (omega arith) (ground arith) (ground arith))
  | inr a ↦ elim (Bool-cases (ltb c 0x800)) [
    | inl b ↦ rw (a, b) (goes_2 c rest (ground arith) (ground arith))
    | inr b ↦ elim (Bool-cases (ltb c 0x10000)) [
      | inl d ↦ rw (a, b, d) (goes_3 c rest (ground arith) (ground arith) h)
      | inr d ↦ rw (a, b, d) (goes_4 c rest (ground arith) (ground arith))
    ]
  ]
]

IsText-accepted : {bytes : List ℕ} → IsText bytes → utf8_parse_string 0 bytes ≡ 0
unfolding utf8_parse_string
IsText-accepted nil = refl
IsText-accepted (cons c {rest = rest} h e t) =
    rw (e, utf8_parse_string-encode c rest h) (IsText-accepted t)

-- On bytes, the automaton ends in its accepting state exactly when they are a sequence of UTF-8
-- encodings of Unicode scalar values, none overlong, no surrogate, nothing cut off.
pub utf8_parse_string-IsText :
    (bytes : List ℕ)
    → AllBytes bytes
    → (utf8_is_complete (utf8_parse_string 0 bytes) ≡ true) ↔ IsText bytes
unfolding utf8_is_complete
utf8_parse_string-IsText bytes hb = (
  λ e. accepted-IsText (length bytes) bytes (omega arith) hb ((==_iff _ _).0 e),
  λ t. (==_iff _ _).1 (IsText-accepted t),
)
