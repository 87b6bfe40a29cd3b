-- ===== src/Prime/Fermat.antt =====
-- The witness check of src/prime.c computes a power by squaring.
use mo_to_buddy.Prelude.{
  ℕ, zero, suc, ◌+◌, ◌-◌, ◌*◌, ◌/◌, ◌%◌, ◌^◌, ◌≤◌, ◌<◌, ◌≡◌, sym, ◌∙◌, ap, inl, inr, true, false,
  not, ◌&&◌, ◌==◌, arith, Bool-cases,
}
use native.Mathlib.Nat.{
  pow-suc, add-mul-mod_self_right, mod-eq_of_lt, div-div-eq-div-mul, div-add-mod', div-one,
  div-eq_of_lt, div-lt_iff_lt-mul, one-le-pow, pow-zero, mod-lt, mul-le-mul,
}
use mo_to_buddy.Prime.Words.{mulmod-exact}
use mo_to_buddy.Prime.{mulmod, bit_is_set, bits_loop, number_of_bits, witness_loop, is_witness}

pow-add : (a m n : ℕ) → a ^ (m + n) ≡ a ^ m * a ^ n
pow-add a m zero =
    let e : m + 0 ≡ m = omega arith in rw e (omega (arith, ap (λ (t : ℕ). a ^ m * t) (pow-zero a)))
pow-add a m (suc n) =
    let e : m + suc n ≡ suc (m + n) = omega arith in
    rw e (
      pow-suc a (m + n)
      ∙ omega
          (arith, ap (λ (t : ℕ). t * a) (pow-add a m n), ap (λ (t : ℕ). a ^ m * t) (pow-suc a n)))

mod-mul : (a b c : ℕ) → (a % c) * b % c ≡ a * b % c
mod-mul a b c =
    let e : a / c * c + a % c ≡ a = div-add-mod' a c in
    let whole : (a % c) * b + a / c * b * c ≡ a * b = omega (arith, ap (λ (t : ℕ). t * b) e) in
    sym (add-mul-mod_self_right ((a % c) * b) (a / c * b) c) ∙ ap (λ (t : ℕ). t % c) whole

mul-mod : (a b c : ℕ) → a * (b % c) % c ≡ a * b % c
mul-mod a b c =
    let e : a * (b % c) ≡ (b % c) * a = omega arith in
    let e' : b * a ≡ a * b = omega arith in
    ap (λ (t : ℕ). t % c) e ∙ mod-mul b a c ∙ ap (λ (t : ℕ). t % c) e'

-- The largest modulus below which no product of two remainders reaches the sign bit of 64 bits.
abbrev pub largest_modulus : ℕ
largest_modulus = 3037000500

product_small :
    (a b src : ℕ) → a < src → b < src → src ≤ largest_modulus → a * b < 9223372036854775808
product_small a b src h k small =
    let (a_most, b_most) : (a ≤ 3037000499) × (b ≤ 3037000499) = (omega arith, omega arith) in
    let most : a * b ≤ 3037000499 * 3037000499 = mul-le-mul a_most b_most in omega (arith, most)

-- The modulus, and a power that is reduced.
module _ (w src : ℕ) (base : w < src) (small : src ≤ largest_modulus) where
  power-lt : (d k : ℕ) → d ≡ w ^ k % src → d < src
  power-lt d k e = omega (arith, e, mod-lt (w ^ k) {m = src} (omega arith))

  square_step : (d k : ℕ) → d ≡ w ^ k % src → mulmod d d src ≡ w ^ (2 * k) % src
  square_step d k e =
      let twice : k + k ≡ 2 * k = omega arith in
      mulmod-exact d d src (product_small d d src (power-lt d k e) (power-lt d k e) small)
      ∙ ap (λ (t : ℕ). t * t % src) e
      ∙ mod-mul (w ^ k) (w ^ k % src) src
      ∙ mul-mod (w ^ k) (w ^ k) src
      ∙ ap (λ (t : ℕ). t % src) (sym (pow-add w k k) ∙ ap (λ (t : ℕ). w ^ t) twice)

  times_step : (d k : ℕ) → d ≡ w ^ k % src → mulmod d w src ≡ w ^ (k + 1) % src
  times_step d k e =
      let itself : w ^ 1 ≡ w = pow-suc w 0 ∙ omega (arith, ap (λ (t : ℕ). t * w) (pow-zero w)) in
      let one : w ^ k * w ≡ w ^ (k + 1) =
        ap (λ (t : ℕ). w ^ k * t) (sym itself) ∙ sym (pow-add w k 1) in
      mulmod-exact d w src (product_small d w src (power-lt d k e) base small)
      ∙ ap (λ (t : ℕ). t * w % src) e
      ∙ mod-mul (w ^ k) w src
      ∙ ap (λ (t : ℕ). t % src) one

  -- The bits read so far are the exponent.
  witness_loop-power :
      (i d : ℕ)
      → d ≡ w ^ ((src - 1) / 2 ^ i) % src
      → witness_loop w src i d ≡ false
      → w ^ (src - 1) % src ≡ 1
  unfolding witness_loop
  witness_loop-power zero d e h =
      let whole : (src - 1) / 2 ^ 0 ≡ src - 1 = div-one (src - 1) in
      let one : d ≡ 1 = ground arith in ap (λ (t : ℕ). w ^ t % src) (sym whole) ∙ sym e ∙ one
  witness_loop-power (suc i) d e h =
      let k : ℕ = (src - 1) / 2 ^ suc i in
      let j : ℕ = (src - 1) / 2 ^ i in
      let half : k ≡ j / 2 =
        ap (λ (t : ℕ). (src - 1) / t) (pow-suc 2 i)
        ∙ sym (div-div-eq-div-mul (src - 1) (2 ^ i) 2) in
      let square = mulmod d d src in
      let squared : square ≡ w ^ (2 * k) % src = square_step d k e in
      let stays = (square == 1) && (not (d == 1) && not (d == src - 1)) in
      elim (Bool-cases stays) [
        | inl found ↦ let clash : true ≡ false = (rw found at h) in cc
        | inr on ↦ elim (Bool-cases (bit_is_set (src - 1) i)) [
          | inl set ↦
              let odd : 2 * k + 1 ≡ j =
                let bit : j % 2 ≡ 1 = ground arith in omega (arith, half, bit) in
              witness_loop-power i (mulmod square w src)
                (times_step square (2 * k) squared ∙ ap (λ (t : ℕ). w ^ t % src) odd)
                (rw (witness_loop, on, set) at h)
          | inr clear ↦
              let even : 2 * k ≡ j =
                let bit : j % 2 ≡ 0 = ground arith in omega (arith, half, bit) in
              witness_loop-power i square (squared ∙ ap (λ (t : ℕ). w ^ t % src) even)
                (rw (witness_loop, on, clear) at h)
        ]
      ]

bits_loop-bound : (src b : ℕ) → src < 2 ^ (b + 1) → src < 2 ^ bits_loop src b
unfolding bits_loop
bits_loop-bound src zero h = h
bits_loop-bound src (suc b) h = elim (Bool-cases (bit_is_set src (suc b))) [
  | inl set ↦ rw set h
  | inr clear ↦
      let m : ℕ = 2 ^ suc b in
      let pos : 0 < m = one-le-pow (suc b) 2 (omega arith) in
      let next : suc b + 1 ≡ suc (suc b) = omega arith in
      let size : src < 2 * m = omega (arith, h, ap (λ (t : ℕ). 2 ^ t) next, pow-suc 2 (suc b)) in
      let two : src / m < 2 = (div-lt_iff_lt-mul pos).1 size in
      let none_left : src / m < 1 = ground arith in
      let less : src < 1 * m = (div-lt_iff_lt-mul pos).0 none_left in
      let same : suc b ≡ b + 1 = omega arith in
      rw clear (bits_loop-bound src b (rw (← same) (omega (arith, less))))
]

-- Where `isWitness`, with the signed 64-bit type of GCC, does not answer that a number from 2 up to
-- 3037000500 is composite, for a base below the number, then the base raised to the number less one
-- leaves the remainder one, as it does for a prime.
pub is_witness-Fermat :
    (w src : ℕ)
    → 2 ≤ src
    → w < src
    → src ≤ largest_modulus
    → is_witness w src ≡ false
    → w ^ (src - 1) % src ≡ 1
unfolding is_witness number_of_bits
is_witness-Fermat w src big base small h =
    let m : ℕ = src - 1 in
    let some_bit : (m == 0) ≡ false = ground arith in
    let size : m < 2 ^ bits_loop m 31 = bits_loop-bound m 31 (omega arith) in
    let start : m / 2 ^ bits_loop m 31 ≡ 0 = div-eq_of_lt size in
    witness_loop-power w src base small (bits_loop m 31) 1
      (rw start (sym (ap (λ (t : ℕ). t % src) (pow-zero w) ∙ mod-eq_of_lt (omega arith))))
      (rw some_bit at h)
