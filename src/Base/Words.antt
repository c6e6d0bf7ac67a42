-- ===== src/Base/Words.antt =====
-- Fixed-width arithmetic of C: what the source's unsigned types wrap to.
use Prim.Native.Nat.{ℕ, ◌+◌, ◌-◌, ◌*◌, ◌/◌, ◌%◌, ◌^◌}

-- `uint8_t`
abbrev pub u8 : ℕ → ℕ
u8 value = value % 0x100

-- `uint16_t`
abbrev pub u16 : ℕ → ℕ
u16 value = value % 0x10000

-- `uint32_t`
abbrev pub u32 : ℕ → ℕ
u32 value = value % 0x1_0000_0000

-- `uint64_t`
abbrev pub u64 : ℕ → ℕ
u64 value = value % 0x1_0000_0000_0000_0000

-- `size_t` subtraction, on a target where `size_t` has 64 bits.
abbrev pub sub_size : ℕ → ℕ → ℕ
sub_size a b = (18446744073709551616 + a - b) % 18446744073709551616

abbrev pub size_max : ℕ
size_max = 18446744073709551615

infixl 72 ◌<<<◌ ◌>>>◌
abbrev pub ◌<<<◌ : ℕ → ℕ → ℕ
x <<< k = x * 2 ^ k

abbrev pub ◌>>>◌ : ℕ → ℕ → ℕ
x >>> k = x / 2 ^ k
