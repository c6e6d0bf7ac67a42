-- ===== src/Base/Blocks.antt =====
-- Laws of block writes.
use Prim.Native.Nat.{ℕ, zero, suc, ◌+◌, ◌≤◌}
use mathlib.Core.Path.{◌≡◌, refl, ap}
use mathlib.Core.List.{List, [], ◌∷◌, ◌++◌}
use native.Mathlib.Omega.{arith}
use wic.Base.Lists.{length, take}
use wic.Base.Memory.{write_at}

pub length-write_at : (m : List ℕ) (p : ℕ) (bytes : List ℕ) → length (write_at m p bytes) ≡ length m
unfolding write_at
length-write_at [] p bytes = refl
length-write_at (x ∷ xs) (suc p) bytes = ap suc (length-write_at xs p bytes)
length-write_at (x ∷ xs) zero [] = refl
length-write_at (x ∷ xs) zero (b ∷ bytes) = ap suc (length-write_at xs zero bytes)

take-write_at_start :
    (m bytes : List ℕ) → length bytes ≤ length m → take (length bytes) (write_at m 0 bytes) ≡ bytes
unfolding write_at
take-write_at_start m [] h = refl
take-write_at_start [] (b ∷ bytes) h = absurd (omega arith)
take-write_at_start (x ∷ m) (b ∷ bytes) h =
    ap (λ t. b ∷ t) (take-write_at_start m bytes (omega arith))

-- A write that fits shows up behind what stood below it. The end `e` is a variable, since
-- `0 + n` is stuck.
pub take-write_at :
    (m : List ℕ) (p : ℕ) (bytes : List ℕ) (e : ℕ)
    → p + length bytes ≡ e
    → e ≤ length m
    → take e (write_at m p bytes) ≡ take p m ++ bytes
unfolding write_at
take-write_at m zero bytes e q h =
    let q' : e ≡ length bytes = omega arith in rw q' (take-write_at_start m bytes (omega arith))
take-write_at [] (suc p) bytes e q h = absurd (omega arith)
take-write_at (x ∷ m) (suc p) bytes zero q h = absurd (omega arith)
take-write_at (x ∷ m) (suc p) bytes (suc e) q h =
    ap (λ t. x ∷ t) (take-write_at m p bytes e (omega arith) (omega arith))

pub length-take_le : (n : ℕ) (xs : List ℕ) → n ≤ length xs → length (take n xs) ≡ n
length-take_le zero xs h = refl
length-take_le (suc n) [] h = absurd (omega arith)
length-take_le (suc n) (x ∷ xs) h = ap suc (length-take_le n xs (omega arith))
