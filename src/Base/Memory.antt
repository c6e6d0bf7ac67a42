-- ===== src/Base/Memory.antt =====
-- C memory as lists of bytes: block writes, and NUL-terminated strings.
use Prim.Native.Nat.{ℕ, zero, suc}
use Prim.Native.Char.{code}
use Prim.Native.String.{String}
use mathlib.Core.List.{List, [], ◌∷◌}
use wic.Base.Tests.{◌==◌, if◌then◌else◌}

-- `memcpy(&memory[p], bytes, n)`; what falls behind the end of the memory is dropped.
unfoldable pub write_at : List ℕ → ℕ → List ℕ → List ℕ
write_at [] p bytes = []
write_at (x ∷ xs) (suc p) bytes = x ∷ write_at xs p bytes
write_at (x ∷ xs) zero [] = x ∷ xs
write_at (x ∷ xs) zero (b ∷ bytes) = b ∷ write_at xs zero bytes

-- `strlen`; the end of the memory counts as a NUL.
unfoldable pub strlen : List ℕ → ℕ
strlen [] = 0
strlen (x ∷ xs) = let rest = strlen xs in if x == 0 then 0 else suc rest

-- The bytes of an ASCII literal.
abbrev pub codes : String → List ℕ
codes String.[] = []
codes (String.◌∷◌ c s) = code c ∷ codes s
