-- ===== src/Utf8.antt =====
-- The UTF-8 automaton of src/wic.c (after Bjoern Hoehrmann): `utf8_parse` and its callers.
pub mod Text
pub mod Split
pub mod Scalars
use wic.Base.{ℕ, ◌+◌, ◌*◌, List, [], ◌∷◌, ◌++◌, Bool, ◌==◌, replicate, get_or, u8}

-- The first 256 entries of `utf8d`: the class of a byte.
unfoldable pub utf8_types : List ℕ
utf8_types =
    replicate 128 0
    ++ (replicate 16 1
        ++ (replicate 16 9
            ++ (replicate 32 7
                ++ (replicate 2 8
                    ++ (replicate 30 2
                        ++ (0xa ∷ replicate 12 0x3
                            ++ (0x4
                                ∷ 0x3
                                ∷ 0x3
                                ∷ 0xb
                                ∷ 0x6
                                ∷ 0x6
                                ∷ 0x6
                                ∷ 0x5
                                ∷ replicate 11 0x8)))))))

-- The rest of `utf8d`: sixteen entries for each state, by the byte's class.
unfoldable pub utf8_states : List ℕ
utf8_states =
    0x0 ∷ 0x1 ∷ 0x2 ∷ 0x3 ∷ 0x5 ∷ 0x8 ∷ 0x7 ∷ 0x1 ∷ 0x1 ∷ 0x1 ∷ 0x4 ∷ 0x6 ∷ 0x1 ∷ 0x1 ∷ 0x1 ∷ 0x1
    ∷ 1 ∷ 1 ∷ 1 ∷ 1 ∷ 1 ∷ 1 ∷ 1 ∷ 1 ∷ 1 ∷ 1 ∷ 1 ∷ 1 ∷ 1 ∷ 1 ∷ 1 ∷ 1 ∷ 1 ∷ 0 ∷ 1 ∷ 1 ∷ 1 ∷ 1 ∷ 1 ∷ 0
    ∷ 1 ∷ 0 ∷ 1 ∷ 1 ∷ 1 ∷ 1 ∷ 1 ∷ 1 ∷ 1 ∷ 2 ∷ 1 ∷ 1 ∷ 1 ∷ 1 ∷ 1 ∷ 2 ∷ 1 ∷ 2 ∷ 1 ∷ 1 ∷ 1 ∷ 1 ∷ 1 ∷ 1
    ∷ 1 ∷ 1 ∷ 1 ∷ 1 ∷ 1 ∷ 1 ∷ 1 ∷ 2 ∷ 1 ∷ 1 ∷ 1 ∷ 1 ∷ 1 ∷ 1 ∷ 1 ∷ 1 ∷ 1 ∷ 2 ∷ 1 ∷ 1 ∷ 1 ∷ 1 ∷ 1 ∷ 1
    ∷ 1 ∷ 2 ∷ 1 ∷ 1 ∷ 1 ∷ 1 ∷ 1 ∷ 1 ∷ 1 ∷ 1 ∷ 1 ∷ 1 ∷ 1 ∷ 1 ∷ 1 ∷ 3 ∷ 1 ∷ 3 ∷ 1 ∷ 1 ∷ 1 ∷ 1 ∷ 1 ∷ 1
    ∷ 1 ∷ 3 ∷ 1 ∷ 1 ∷ 1 ∷ 1 ∷ 1 ∷ 3 ∷ 1 ∷ 3 ∷ 1 ∷ 1 ∷ 1 ∷ 1 ∷ 1 ∷ 1 ∷ 1 ∷ 3 ∷ 1 ∷ 1 ∷ 1 ∷ 1 ∷ 1 ∷ 1
    ∷ 1 ∷ 1 ∷ 1 ∷ 1 ∷ 1 ∷ 1 ∷ 1 ∷ 1 ∷ []

-- An index past the table, which no state below 9 gives, reads 0.
unfoldable pub utf8_parse : ℕ → ℕ → ℕ
unfolding utf8_types utf8_states
utf8_parse state in_ =
    let type = get_or utf8_types (u8 in_) 0 in get_or utf8_states (state * 16 + type) 0

unfoldable pub utf8_parse_string : ℕ → List ℕ → ℕ
utf8_parse_string state [] = state
utf8_parse_string state (b ∷ bytes) = utf8_parse_string (utf8_parse state b) bytes

unfoldable pub utf8_is_complete : ℕ → Bool
utf8_is_complete state = state == 0

unfoldable pub utf8_is_invalid : ℕ → Bool
utf8_is_invalid state = state == 1
