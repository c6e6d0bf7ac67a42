-- ===== src/Base/Xor.antt =====
-- Exclusive or, digit by digit, and cut to a byte.
use Prim.Native.Nat.{
  ℕ, zero, suc, ◌+◌, ◌*◌, ◌/◌, ◌%◌, ◌≤◌, ◌<◌, bit_xor, digits, bit_xor-bitwise, differ,
}
use mathlib.Core.Path.{◌≡◌, refl, ap, ◌∙◌}
use native.Mathlib.Omega.{arith}

abbrev xor_digits : ℕ → ℕ → ℕ → ℕ
xor_digits fuel a b = digits (λ y. y) differ fuel a b

-- Any fuel that reaches the first operand will do.
enough_fuel : (a b f g : ℕ) → a ≤ g → a ≤ f → xor_digits f a b ≡ xor_digits g a b
enough_fuel zero b zero zero hg hf = refl
enough_fuel zero b zero (suc g) hg hf = refl
enough_fuel zero b (suc f) zero hg hf = refl
enough_fuel zero b (suc f) (suc g) hg hf = refl
enough_fuel (suc a) b zero g hg hf = elim hf [ ]
enough_fuel (suc a) b (suc f) zero hg hf = elim hg [ ]
enough_fuel (suc a) b (suc f) (suc g) hg hf =
    ap (λ rest. rest * 2 + differ (suc a % 2) (b % 2))
      (enough_fuel (suc a / 2) (b / 2) f g (omega arith) (omega arith))

-- The lowest digit, and the rest.
bit_xor_step : (a b : ℕ) → bit_xor a b ≡ bit_xor (a / 2) (b / 2) * 2 + differ (a % 2) (b % 2)
bit_xor_step zero b = simp bit_xor-bitwise (omega arith)
bit_xor_step (suc a) b =
    simp bit_xor-bitwise
      (omega (arith, enough_fuel (suc a / 2) (b / 2) a (suc a / 2) (omega arith) (omega arith)))

-- The law below for `m`.
abbrev Cuts : ℕ → Type 0
Cuts m = (a b : ℕ) → bit_xor a b % m ≡ bit_xor (a % m) (b % m)

-- From `m` to its double `n`, with the facts on `n` that make it so.
Cuts-double :
    (m n : ℕ)
    → ((a : ℕ) → (a % n / 2 ≡ a / 2 % m) × (a % n % 2 ≡ a % 2))
    → ((x d : ℕ) → d < 2 → (x * 2 + d) % n ≡ x % m * 2 + d)
    → ((x y : ℕ) → differ (x % 2) (y % 2) < 2)
    → Cuts m
    → Cuts n
Cuts-double m n half sum small h a b = ground (
  arith,
  bit_xor_step a b,
  bit_xor_step (a % n) (b % n),
  half a,
  half b,
  sum (bit_xor (a / 2) (b / 2)) (differ (a % 2) (b % 2)) (small a b),
  h (a / 2) (b / 2),
)

differ-lt : (x y : ℕ) → differ (x % 2) (y % 2) < 2
differ-lt x y = go (x % 2) (y % 2) (omega arith) (omega arith)
  where
    go : (p q : ℕ) → p < 2 → q < 2 → differ p q < 2
    go zero q hp hq = hq
    go (suc zero) zero hp hq = omega arith
    go (suc zero) (suc zero) hp hq = omega arith
    go (suc zero) (suc (suc q)) hp hq = absurd (omega arith)
    go (suc (suc p)) q hp hq = absurd (omega arith)

Cuts-1 : Cuts 1
Cuts-1 a b =
    let ea : a % 1 ≡ 0 = omega arith in
    let eb : b % 1 ≡ 0 = omega arith in rw (ea, eb) (omega arith)

Cuts-2 : Cuts 2
Cuts-2 = Cuts-double 1 2 (λ a. (omega arith, omega arith)) (λ x d h. omega arith) differ-lt Cuts-1

Cuts-4 : Cuts 4
Cuts-4 = Cuts-double 2 4 (λ a. (omega arith, omega arith)) (λ x d h. omega arith) differ-lt Cuts-2

Cuts-8 : Cuts 8
Cuts-8 = Cuts-double 4 8 (λ a. (omega arith, omega arith)) (λ x d h. omega arith) differ-lt Cuts-4

Cuts-16 : Cuts 16
Cuts-16 = Cuts-double 8 16 (λ a. (omega arith, omega arith)) (λ x d h. omega arith) differ-lt Cuts-8

Cuts-32 : Cuts 32
Cuts-32 =
    Cuts-double 16 32 (λ a. (omega arith, omega arith)) (λ x d h. omega arith) differ-lt Cuts-16

Cuts-64 : Cuts 64
Cuts-64 =
    Cuts-double 32 64 (λ a. (omega arith, omega arith)) (λ x d h. omega arith) differ-lt Cuts-32

Cuts-128 : Cuts 128
Cuts-128 =
    Cuts-double 64 128 (λ a. (omega arith, omega arith)) (λ x d h. omega arith) differ-lt Cuts-64

Cuts-256 : Cuts 256
Cuts-256 =
    Cuts-double 128 256 (λ a. (omega arith, omega arith)) (λ x d h. omega arith) differ-lt Cuts-128

-- Cut to a byte, only the lowest byte of the first operand counts.
pub bit_xor_u8 : (a b : ℕ) → b < 256 → bit_xor a b % 256 ≡ bit_xor (a % 256) b
bit_xor_u8 a b h =
    let e : b % 256 ≡ b = omega arith in Cuts-256 a b ∙ ap (λ c. bit_xor (a % 256) c) e
