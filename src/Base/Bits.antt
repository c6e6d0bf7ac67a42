-- ===== src/Base/Bits.antt =====
-- Laws of the bit operations on bytes, each checked on every pair of them.
use Prim.Native.Nat.{ℕ, zero, suc, ◌<◌, bit_xor}
use mathlib.Core.Path.{◌≡◌, refl}
use mathlib.Core.Bool.{Bool, true, false}
use native.Mathlib.Omega.{arith}
use wic.Base.Tests.{◌==◌, ltb, ==_iff, ltb→lt, if◌then◌else◌}

-- The test holds of each number below the bound.
unfoldable pub every : (ℕ → Bool) → ℕ → Bool
every test zero = true
every test (suc bound) = let rest = every test bound in if test bound then rest else false

pub every-elim :
    (test : ℕ → Bool) (k bound : ℕ) → k < bound → every test bound ≡ true → test k ≡ true
unfolding every
every-elim test k zero below holds = elim below [ ]
every-elim test k (suc bound) below holds = ground (arith, every-elim test k bound)

-- The same for two numbers.
pub every_pair-elim :
    (test : ℕ → ℕ → Bool) (m n : ℕ)
    → every (λ a. every (test a) n) m ≡ true
    → (a b : ℕ) → a < m
    → b < n
    → test a b ≡ true
every_pair-elim test m n holds a b below_m below_n =
    every-elim (test a) b n below_n (every-elim (λ a. every (test a) n) a m below_m holds)

xor_is_byte : every (λ a. every (λ b. ltb (bit_xor a b) 256) 256) 256 ≡ true
unfolding every
xor_is_byte = refl

pub bit_xor-lt : (a b : ℕ) → a < 256 → b < 256 → bit_xor a b < 256
bit_xor-lt a b ha hb =
    ltb→lt _ _ (every_pair-elim (λ a b. ltb (bit_xor a b) 256) 256 256 xor_is_byte a b ha hb)

xor_undoes : every (λ a. every (λ b. bit_xor (bit_xor a b) b == a) 256) 256 ≡ true
unfolding every
xor_undoes = refl

-- Masking twice gives the byte back.
pub bit_xor_twice : (a b : ℕ) → a < 256 → b < 256 → bit_xor (bit_xor a b) b ≡ a
bit_xor_twice a b ha hb =
    (==_iff _ _).0
      (every_pair-elim (λ a b. bit_xor (bit_xor a b) b == a) 256 256 xor_undoes a b ha hb)
