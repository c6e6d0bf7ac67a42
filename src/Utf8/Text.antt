-- ===== src/Utf8/Text.antt =====
-- UTF-8 by its code points (RFC 3629), and the automaton's table by ranges of bytes.
use wic.Base.{
  ℕ, ◌+◌, ◌/◌, ◌%◌, ◌≤◌, ◌<◌, ◌≡◌, refl, ◌≢◌, ◌⊎◌, inl, inr, true, ◌&&◌, List, [], ◌∷◌, ◌++◌, arith,
  ltb, leb, ◌==◌, ==_iff, if◌then◌else◌, every, every_pair-elim, Bool-cases,
}
use wic.Utf8.{utf8_parse, utf8_parse_string}

-- A code point that is no surrogate.
abbrev pub IsScalar : ℕ → Type 0
IsScalar c = (c < 0xD800) ⊎ ((0xE000 ≤ c) × (c < 0x110000))

-- The encoding of a code point, by its size.
unfoldable pub encode : ℕ → List ℕ
encode c =
    if ltb c 0x80
    then c ∷ []
    else if ltb c 0x800
    then (192 + c / 64) ∷ (128 + c % 64) ∷ []
    else if ltb c 0x10000
    then (224 + c / 4096) ∷ (128 + c / 64 % 64) ∷ (128 + c % 64) ∷ []
    else (240 + c / 262144) ∷ (128 + c / 4096 % 64) ∷ (128 + c / 64 % 64) ∷ (128 + c % 64) ∷ []

-- A sequence of encoded scalar values.
pub data IsText : List ℕ → Type 0 where
  nil : IsText []
  cons :
      (c : ℕ) {bytes rest : List ℕ}
      → IsScalar c
      → bytes ≡ encode c ++ rest
      → IsText rest
      → IsText bytes

abbrev pub AllBytes : List ℕ → Type 0
AllBytes [] = Unit
AllBytes (b ∷ bytes) = (b < 256) × AllBytes bytes

-- The bytes that a state other than 0 and 1 goes on with, and where.
abbrev pub low : ℕ → ℕ
low s = if s == 4 then 0xa0 else if s == 6 then 0x90 else 0x80

abbrev pub high : ℕ → ℕ
high s = if s == 5 then 0x9f else if s == 8 then 0x8f else 0xbf

abbrev pub next : ℕ → ℕ
next s = if s == 2 then 0 else if leb s 5 then 2 else 3

abbrev pub first : ℕ → ℕ
first b =
    if ltb b 0x80
    then 0
    else if ltb b 0xc2
    then 1
    else if ltb b 0xe0
    then 2
    else if b == 0xe0
    then 4
    else if b == 0xed
    then 5
    else if ltb b 0xf0
    then 3
    else if b == 0xf0
    then 6
    else if ltb b 0xf4
    then 7
    else if b == 0xf4
    then 8
    else 1

abbrev pub step : ℕ → ℕ → ℕ
step s b =
    if s == 0
    then first b
    else if s == 1
    then 1
    else if leb (low s) b && leb b (high s)
    then next s
    else 1

step_table : every (λ s. every (λ b. utf8_parse s b == step s b) 256) 9 ≡ true
unfolding every utf8_parse
step_table = refl

pub utf8_parse-step : (s b : ℕ) → s < 9 → b < 256 → utf8_parse s b ≡ step s b
utf8_parse-step s b hs hb =
    (==_iff _ _).0 (every_pair-elim (λ s b. utf8_parse s b == step s b) 9 256 step_table s b hs hb)

pub rejects : (bytes : List ℕ) → AllBytes bytes → utf8_parse_string 1 bytes ≡ 1
unfolding utf8_parse_string
rejects [] h = refl
rejects (b ∷ bytes) h = rw (utf8_parse-step 1 b (omega arith) h.0) (rejects bytes h.1)

-- A text does not end inside a character.
pub ends_inside : (s : ℕ) → 2 ≤ s → utf8_parse_string s [] ≢ 0
unfolding utf8_parse_string
ends_inside s l e = omega arith

-- From a state inside a character the next byte is one that the state allows.
pub continues :
    (s b : ℕ) (rest : List ℕ)
    → 2 ≤ s
    → s < 9
    → AllBytes (b ∷ rest)
    → utf8_parse_string s (b ∷ rest) ≡ 0
    → (low s ≤ b) × (b ≤ high s) × (utf8_parse_string (next s) rest ≡ 0)
unfolding utf8_parse_string
continues s b rest l h hb e = elim (Bool-cases (leb (low s) b && leb b (high s))) [
  | inl fits ↦ (ground arith, ground arith, ground (arith, utf8_parse-step s b h hb.0))
  | inr out ↦ absurd (ground (arith, utf8_parse-step s b h hb.0, rejects rest hb.1))
]
