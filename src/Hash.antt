-- ===== src/Hash.antt =====
-- The hash macros of src/kernel.h: products of 32-bit words in 64-bit arithmetic, and the range
-- reduction that maps a hash onto the slots of a table.
use Prim.Native.Nat.{bit_xor}
use native.Mathlib.Nat.{mul-le-mul_right}
use mo_to_buddy.Prelude.{ℕ, ◌+◌, ◌*◌, ◌/◌, ◌%◌, ◌≤◌, ◌<◌, arith}

abbrev u32 : ℕ → ℕ
u32 x = x % 4294967296

abbrev u64 : ℕ → ℕ
u64 x = x % 18446744073709551616

abbrev hash_k0 : ℕ
hash_k0 = 0xC13FA9A99E3779B9

abbrev hash_k1 : ℕ
hash_k1 = 0x91E10DA5C79E7B1D

abbrev hash_k2 : ℕ
hash_k2 = 0xC2B2AE3D27D4EB4F

-- Two words side by side; the halves do not overlap, so `|` is a sum.
hash_w2 : ℕ → ℕ → ℕ
hash_w2 a b = u32 a * 4294967296 + u32 b

hash_fold : ℕ → ℕ
hash_fold x = bit_xor x (u64 (x * 4294967296)) / 4294967296

unfoldable pub hash1 : ℕ → ℕ
hash1 a = u32 (u32 a * u32 hash_k0)

unfoldable pub hash2 : ℕ → ℕ → ℕ
unfolding hash_w2 hash_fold
hash2 a b = hash_fold (u64 (hash_w2 a b * hash_k0))

unfoldable pub hash3 : ℕ → ℕ → ℕ → ℕ
unfolding hash_w2 hash_fold
hash3 a b c = hash_fold (u64 (hash_w2 a b * hash_k0 + u32 c * hash_k1))

unfoldable pub hash4 : ℕ → ℕ → ℕ → ℕ → ℕ
unfolding hash_w2 hash_fold
hash4 a b c d = hash_fold (u64 (hash_w2 a b * hash_k0 + hash_w2 c d * hash_k2))

unfoldable pub hash5 : ℕ → ℕ → ℕ → ℕ → ℕ → ℕ
unfolding hash_w2 hash_fold
hash5 a b c d e = hash_fold (u64 (hash_w2 a b * hash_k0 + u32 c * hash_k1 + hash_w2 d e * hash_k2))

unfoldable pub hash_node : ℕ → ℕ → ℕ → ℕ
unfolding hash_w2
hash_node level low high =
    u64 (bit_xor (hash_w2 low high) (u64 (u32 level * hash_k1)) * hash_k0) / 4294967296

unfoldable pub hash_range : ℕ → ℕ → ℕ
hash_range h n = u32 h * u32 n / 4294967296

-- For a table of between 1 and 2^32 - 1 entries, the range reduction gives a slot of the table.
pub hash_range-lt : (h n : ℕ) → 0 < n → n < 4294967296 → hash_range h n < n
unfolding hash_range
hash_range-lt h n pos fits =
    let top : u32 h ≤ 4294967295 = omega arith in omega (arith, mul-le-mul_right (u32 n) top)
