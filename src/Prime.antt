-- ===== src/Prime.antt =====
-- src/prime.c: arithmetic on 64-bit numbers made of two 32-bit halves, the check of Miller and Rabin,
-- and the search for primes. The numbers that `rand` returns are a parameter, read from a position
-- on.
pub mod Words
pub mod Fermat
pub mod Search
use mo_to_buddy.Prelude.{
  ℕ, zero, suc, ◌+◌, ◌-◌, ◌*◌, ◌/◌, ◌%◌, ◌^◌, Bool, true, false, not, ◌&&◌, ◌||◌, Option, none,
  some, ltb, leb, ◌==◌, if◌then◌else◌,
}

-- An `unsigned int` is below this number.
abbrev pub word : ℕ
word = 4294967296

pub record Uint64 : Type 0 where
  pub hi : ℕ
  pub lo : ℕ

-- The bit that a shift to the left moves out of an `unsigned int`.
abbrev pub top_bit : ℕ → ℕ
top_bit a = if leb 2147483648 a then 1 else 0

-- MAX and GETCARRY
abbrev pub get_carry : ℕ → ℕ → ℕ
get_carry a b = if ltb ((a + b) % word) (if ltb b a then a else b) then 1 else 0

-- The additions of a round of `u64_mul`.
abbrev pub add_wide : Uint64 → ℕ → ℕ → Uint64
add_wide r yh yl = record { hi = (r.hi + yh + get_carry r.lo yl) % word; lo = (r.lo + yl) % word }

unfoldable pub mul_loop : ℕ → ℕ → ℕ → ℕ → Uint64 → Uint64
mul_loop zero x yh yl r = r
mul_loop (suc n) x yh yl r =
    mul_loop n (x / 2) (yh * 2 % word + top_bit yl) (yl * 2 % word)
      (if x % 2 == 1 then add_wide r yh yl else r)

unfoldable pub u64_mul : ℕ → ℕ → Uint64
unfolding mul_loop
u64_mul x y = mul_loop 32 x 0 y (record { hi = 0; lo = 0 })

-- `u64_shl`: the number and what was shifted out of it.
abbrev pub u64_shl : Uint64 → ℕ → Uint64 × ℕ
u64_shl a carry = (
  record { hi = a.hi * 2 % word + top_bit a.lo; lo = a.lo * 2 % word },
  carry * 2 % word + top_bit a.hi,
)

unfoldable pub mod_loop : ℕ → ℕ → Uint64 → ℕ → ℕ
mod_loop zero divisor a remainder = remainder
mod_loop (suc n) divisor a remainder =
    let (a', remainder') =
      u64_shl a (if leb divisor remainder then remainder - divisor else remainder) in
    mod_loop n divisor a' remainder'

unfoldable pub u64_mod : Uint64 → ℕ → ℕ
unfolding mod_loop
u64_mod dividend divisor =
    let (a, remainder) = u64_shl dividend 0 in mod_loop 64 divisor a remainder / 2

-- `u64_mulmod` without a 64-bit type of the compiler.
abbrev pub u64_mulmod : ℕ → ℕ → ℕ → ℕ
u64_mulmod a b c = u64_mod (u64_mul a b) c

-- `u64_mulmod` with GCC, where the product is a `long long`: it wraps around at 64 bits, a negative
-- number has a remainder that is not positive, and the cast to `unsigned int` wraps at 32 bits.
unfoldable pub signed_remainder : ℕ → ℕ → ℕ
signed_remainder product c =
    if ltb product 9223372036854775808
    then product % c
    else (word - (18446744073709551616 - product) % c) % word

abbrev pub mulmod : ℕ → ℕ → ℕ → ℕ
mulmod a b c = signed_remainder (a * b % 18446744073709551616) c

abbrev pub bit_is_set : ℕ → ℕ → Bool
bit_is_set src b = src / 2 ^ b % 2 == 1

-- The loop of `numberOfBits` over the bits from `b` down to 1.
unfoldable pub bits_loop : ℕ → ℕ → ℕ
bits_loop src zero = 1
bits_loop src (suc b) = if bit_is_set src (suc b) then suc b + 1 else bits_loop src b

unfoldable pub number_of_bits : ℕ → ℕ
unfolding bits_loop
number_of_bits src = if src == 0 then 0 else bits_loop src 31

-- The loop of `isWitness` over the bits below the count.
unfoldable pub witness_loop : ℕ → ℕ → ℕ → ℕ → Bool
witness_loop witness src zero d = not (d == 1)
witness_loop witness src (suc i) d =
    let square = mulmod d d src in
    let rest =
      witness_loop witness src i
        (if bit_is_set (src - 1) i then mulmod square witness src else square) in
    if (square == 1) && (not (d == 1) && not (d == src - 1)) then true else rest

unfoldable pub is_witness : ℕ → ℕ → Bool
unfolding witness_loop number_of_bits
is_witness witness src = witness_loop witness src (number_of_bits (src - 1)) 1

-- hasFactor and `hasEasyFactors`
abbrev pub has_factor : ℕ → ℕ → Bool
has_factor src n = not (src == n) && (src % n == 0)

abbrev pub has_easy_factors : ℕ → Bool
has_easy_factors src =
    has_factor src 3
    || (has_factor src 5 || (has_factor src 7 || (has_factor src 11 || has_factor src 13)))

-- What `rand` returns at each call.
module _ (rand : ℕ → ℕ) where
  -- Random
  abbrev pub random : ℕ → ℕ → ℕ
  random at i = rand at % i + 1

  -- The answer, and the position of the next draw.
  unfoldable pub rounds : ℕ → ℕ → ℕ → Bool × ℕ
  unfolding is_witness
  rounds zero src at = (true, at)
  rounds (suc n) src at =
      let rest = rounds n src (at + 1) in
      if is_witness (random at (src - 1)) src then (false, at + 1) else rest

  unfoldable pub is_miller_rabin_prime : ℕ → ℕ → Bool × ℕ
  unfolding rounds
  is_miller_rabin_prime src at = rounds 20 src at

  unfoldable pub is_prime : ℕ → ℕ → Bool × ℕ
  unfolding is_miller_rabin_prime
  is_prime src at = if has_easy_factors src then (false, at) else is_miller_rabin_prime src at

  -- The loops of the two searches; `none` where the fuel runs out.
  unfoldable pub search_up : ℕ → ℕ → ℕ → Option ℕ
  search_up zero src at = none
  search_up (suc fuel) src at =
      let (found, next) = is_prime src at in
      let rest = search_up fuel ((src + 2) % word) next in if found then some src else rest

  unfoldable pub search_down : ℕ → ℕ → ℕ → Option ℕ
  search_down zero src at = none
  search_down (suc fuel) src at =
      let (found, next) = is_prime src at in
      let rest = search_down fuel ((src + word - 2) % word) next in if found then some src else rest

  unfoldable pub bdd_prime_gte : ℕ → ℕ → ℕ → Option ℕ
  unfolding search_up
  bdd_prime_gte fuel src at = search_up fuel (if src % 2 == 0 then src + 1 else src) at

  unfoldable pub bdd_prime_lte : ℕ → ℕ → ℕ → Option ℕ
  unfolding search_down
  bdd_prime_lte fuel src at =
      search_down fuel (if src % 2 == 0 then (src + word - 1) % word else src) at
