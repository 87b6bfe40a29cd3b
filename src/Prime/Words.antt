-- ===== src/Prime/Words.antt =====
-- The multiplication and the remainder of src/prime.c on two halves are those of a 64-bit type, as long
-- as no product reaches the sign bit.
use mo_to_buddy.Prelude.{
  ℕ, zero, suc, ◌+◌, ◌-◌, ◌*◌, ◌/◌, ◌%◌, ◌^◌, ◌≤◌, ◌<◌, ◌≡◌, refl, sym, ◌∙◌, ap, inl, inr, true,
  ltb, leb, ◌==◌, if◌then◌else◌, arith, Bool-cases, ℕ_discrete, dec_lt,
}
use native.Mathlib.Nat.{pow-suc, mul-le-mul_right, mod-eq_of_lt, add-mul-mod_self_right, mul-le-mul}
use mo_to_buddy.Prime.{
  word, Uint64, top_bit, get_carry, add_wide, mul_loop, u64_mul, u64_shl, mod_loop, u64_mod,
  u64_mulmod, signed_remainder, mulmod,
}

-- A product within the positive half of 64 bits is reduced as a number.
pub mulmod-exact : (a b c : ℕ) → a * b < 9223372036854775808 → mulmod a b c ≡ a * b % c
unfolding signed_remainder
mulmod-exact a b c small =
    let kept : a * b % 18446744073709551616 ≡ a * b = omega arith in
    let positive : ltb (a * b) 9223372036854775808 ≡ true = ground arith in rw (kept, positive) refl

-- The number that the two halves stand for.
abbrev pub wide : Uint64 → ℕ
wide a = a.hi * word + a.lo

pub record Halves (a : Uint64) : Type 0 where
  hi : a.hi < word
  lo : a.lo < word

carries : (a b : ℕ) → a < word → b < word → (a + b) % word + get_carry a b * word ≡ a + b
carries a b h k = ground arith

add_wide-wide :
    (r : Uint64) (yh yl : ℕ)
    → Halves r
    → yh < word
    → yl < word
    → wide r + (yh * word + yl) < word * word
    → (wide (add_wide r yh yl) ≡ wide r + (yh * word + yl)) × Halves (add_wide r yh yl)
add_wide-wide r yh yl b h l small =
    let c = carries r.lo yl b.lo l in
    let fits : r.hi + yh + get_carry r.lo yl < word = omega (arith, c, b.hi, b.lo) in
    (omega (arith, c, fits), record { hi = omega arith; lo = omega arith })

shl-wide :
    (hi lo : ℕ)
    → hi < word
    → lo < word
    → (hi * 2 % word + top_bit lo) * word + lo * 2 % word + top_bit hi * (word * word)
      ≡ 2 * (hi * word + lo)
shl-wide hi lo h l = ground arith

halved : (x y : ℕ) → x * y ≡ x / 2 * (2 * y) + x % 2 * y
halved x y = let e : x ≡ x / 2 * 2 + x % 2 = omega arith in omega (arith, ap (λ (t : ℕ). t * y) e)

-- While a bit of the factor is left, the number has room to be doubled.
doubled :
    (x yh yl k : ℕ)
    → yh < word
    → yl < word
    → k + x / 2 * (2 * (yh * word + yl)) < word * word
    → x / 2 * ((yh * 2 % word + top_bit yl) * word + yl * 2 % word) ≡ x / 2 * (2 * (yh * word + yl))
doubled x yh yl k h l small = elim (ℕ_discrete (x / 2) 0) [
  | yes e ↦ rw e (omega arith)
  | no ne ↦
      let y : ℕ = yh * word + yl in
      let one : 1 * (2 * y) ≤ x / 2 * (2 * y) = mul-le-mul_right (2 * y) (omega arith) in
      let fits : top_bit yh ≡ 0 = ground arith in
      ap (λ (t : ℕ). x / 2 * t) (omega (arith, shl-wide yh yl h l, fits))
]

-- One round adds the number where the lowest bit of the factor is set, and doubles it while a bit
-- is left.
mul_loop-wide :
    (n x yh yl : ℕ) (r : Uint64)
    → x < 2 ^ n
    → Halves r
    → yh < word
    → yl < word
    → wide r + x * (yh * word + yl) < word * word
    → wide (mul_loop n x yh yl r) ≡ wide r + x * (yh * word + yl)
unfolding mul_loop
mul_loop-wide zero x yh yl r e b h l small = let z : x ≡ 0 = omega arith in rw z (omega arith)
mul_loop-wide (suc n) x yh yl r e b h l small =
    let y : ℕ = yh * word + yl in
    let split = halved x y in
    let fewer : x / 2 < 2 ^ n = omega (arith, pow-suc 2 n) in
    let yh' : ℕ = yh * 2 % word + top_bit yl in
    let yl' : ℕ = yl * 2 % word in
    let high' : yh' < word = ground arith in
    elim (Bool-cases (x % 2 == 1)) [
      | inl odd ↦
          let one : x % 2 ≡ 1 = ground arith in
          let more : x * y ≡ x / 2 * (2 * y) + y =
            omega (arith, split, ap (λ (t : ℕ). t * y) one) in
          let (e', b') = add_wide-wide r yh yl b h l (omega arith) in
          let same = doubled x yh yl (wide r) h l (omega arith) in
          rw (mul_loop, odd)
            (mul_loop-wide n (x / 2) yh' yl' (add_wide r yh yl) fewer b' high' (omega arith)
                (omega (arith, same, e'))
              ∙ omega (arith, same, e'))
      | inr even ↦
          let none_left : x % 2 ≡ 0 = ground arith in
          let more : x * y ≡ x / 2 * (2 * y) =
            omega (arith, split, ap (λ (t : ℕ). t * y) none_left) in
          let same = doubled x yh yl (wide r) h l (omega arith) in
          rw (mul_loop, even)
            (mul_loop-wide n (x / 2) yh' yl' r fewer b high' (omega arith) (omega (arith, same))
              ∙ omega (arith, same))
    ]

u64_mul-wide : (x y : ℕ) → x < word → y < word → wide (u64_mul x y) ≡ x * y
unfolding u64_mul
u64_mul-wide x y h k =
    let x_most : x ≤ 4294967295 = omega arith in
    let y_most : y ≤ 4294967295 = omega arith in
    let most : x * y ≤ 4294967295 * 4294967295 = mul-le-mul x_most y_most in
    mul_loop-wide 32 x 0 y (record { hi = 0; lo = 0 }) h
      (record { hi = omega arith; lo = omega arith }) (omega arith) k (omega (arith, most))
    ∙ omega arith

-- A remainder below twice the divisor, after the subtraction of a round.
abbrev reduced : ℕ → ℕ → ℕ
reduced d r = if leb d r then r - d else r

reduced-lt : (d r : ℕ) → r < 2 * d → reduced d r < d
reduced-lt d r h = ground arith

reduced-mod : (d r k q : ℕ) → (reduced d r * k + q) % d ≡ (r * k + q) % d
reduced-mod d r k q = elim (Bool-cases (leb d r)) [
  | inr less ↦ rw less refl
  | inl more ↦
      let e : r ≡ (r - d) + d = ground arith in
      rw more (
        sym (add-mul-mod_self_right ((r - d) * k + q) k d)
        ∙ ap (λ (t : ℕ). t % d) (omega (arith, ap (λ (t : ℕ). t * k) e)))
]

-- One round brings the top bit of the rest of the dividend to the remainder.
mod_loop-mod :
    (n d : ℕ) (a : Uint64) (r q u : ℕ)
    → d ≤ 2147483648
    → r < 2 * d
    → Halves a
    → q < 2 ^ n
    → wide a ≡ q * u
    → 2 ^ n * u ≡ word * word
    → mod_loop (suc n) d a r / 2 ≡ (r * 2 ^ n + q) % d
unfolding mod_loop
mod_loop-mod zero d a r q u small h b few e size =
    let z : q ≡ 0 = omega arith in
    let empty : wide a ≡ 0 = e ∙ omega (arith, ap (λ (t : ℕ). t * u) z) in
    let lt = reduced-lt d r h in
    let low : a.hi < 2147483648 = omega arith in
    let kept : (reduced d r * 2 % word + top_bit a.hi) / 2 ≡ reduced d r = ground arith in
    kept
    ∙ sym (mod-eq_of_lt lt)
    ∙ ap (λ (t : ℕ). t % d) (omega arith)
    ∙ reduced-mod d r 1 0
    ∙ ap (λ (t : ℕ). t % d) (omega (arith, z))
mod_loop-mod (suc n) d a r q u small h b few e size =
    let lt = reduced-lt d r h in
    let m : ℕ = 2 ^ n in
    let twice = pow-suc 2 n in
    let size' : m * (2 * u) ≡ word * word = omega (arith, size, ap (λ (t : ℕ). t * u) twice) in
    let shifted = shl-wide a.hi a.lo b.hi b.lo in
    let a' = (u64_shl a 0).0 in
    let b' : Halves a' = record { hi = ground arith; lo = omega arith } in
    let whole : reduced d r * (2 ^ suc n) + q ≡ reduced d r * 2 * m + q =
      omega (arith, ap (λ (t : ℕ). reduced d r * t) twice) in
    let unit : 0 < u = elim (dec_lt 0 u) [
      | yes p ↦ p
      | no p ↦
          let zero : u ≡ 0 = omega arith in
          absurd (omega (arith, size, ap (λ (t : ℕ). 2 ^ suc n * t) zero))
    ] in
    elim (dec_lt q m) [
      | yes low ↦
          let under : (q + 1) * u ≤ m * u = mul-le-mul_right u (omega arith) in
          let under_half : wide a < 9223372036854775808 = omega (arith, under, size', unit, e) in
          let low_half : a.hi < 2147483648 = omega arith in
          let off : top_bit a.hi ≡ 0 = ground arith in
          let rest = reduced d r * 2 in
          let same : reduced d r * 2 % word + top_bit a.hi ≡ rest = omega (arith, off) in
          rw same (
            mod_loop-mod n d a' rest q (2 * u) small (omega arith) b' low
              (omega (arith, shifted, off, e, ap (λ (t : ℕ). 2 * t) e)) size'
            ∙ ap (λ (t : ℕ). t % d) (sym whole)
            ∙ reduced-mod d r (2 ^ suc n) q)
      | no high ↦
          let over : m * u ≤ q * u = mul-le-mul_right u (omega arith) in
          let over_half : 9223372036854775808 ≤ wide a = omega (arith, over, size', e) in
          let high_half : 2147483648 ≤ a.hi = omega arith in
          let on : top_bit a.hi ≡ 1 = ground arith in
          let rest : ℕ = reduced d r * 2 + 1 in
          let same : reduced d r * 2 % word + top_bit a.hi ≡ rest = omega (arith, on) in
          let left : q ≡ (q - m) + m = omega arith in
          rw same (
            mod_loop-mod n d a' rest (q - m) (2 * u) small (omega arith) b' (omega arith)
              (omega (arith, shifted, on, e, size', ap (λ (t : ℕ). t * (2 * u)) left)) size'
            ∙ ap (λ (t : ℕ). t % d) (omega (arith, whole, left))
            ∙ reduced-mod d r (2 ^ suc n) q)
    ]

u64_mod-mod : (a : Uint64) (d : ℕ) → Halves a → 0 < d → d ≤ 2147483648 → u64_mod a d ≡ wide a % d
unfolding u64_mod
u64_mod-mod a d b pos small =
    let top : ℕ = top_bit a.hi in
    let bound : top ≤ 1 = ground arith in
    let shifted = shl-wide a.hi a.lo b.hi b.lo in
    let a' = (u64_shl a 0).0 in
    let b' : Halves a' = record { hi = ground arith; lo = omega arith } in
    let carried : 0 * 2 % word + top ≡ top = omega arith in
    let within : top * 9223372036854775808 ≤ wide a = ground arith in
    rw carried (
      mod_loop-mod 63 d a' top (wide a - top * 9223372036854775808) 2 small (omega arith) b'
        (ground arith) (omega (arith, shifted, within)) (omega arith)
      ∙ ap (λ (t : ℕ). t % d) (omega (arith, within)))

mul_loop-Halves : (n x yh yl : ℕ) (r : Uint64) → Halves r → Halves (mul_loop n x yh yl r)
unfolding mul_loop
mul_loop-Halves zero x yh yl r b = b
mul_loop-Halves (suc n) x yh yl r b = elim (Bool-cases (x % 2 == 1)) [
  | inl odd ↦
      rw (mul_loop, odd)
        (mul_loop-Halves n (x / 2) (yh * 2 % word + top_bit yl) (yl * 2 % word) (add_wide r yh yl)
          (record { hi = omega arith; lo = omega arith }))
  | inr even ↦
      rw (mul_loop, even)
        (mul_loop-Halves n (x / 2) (yh * 2 % word + top_bit yl) (yl * 2 % word) r b)
]

u64_mul-Halves : (x y : ℕ) → Halves (u64_mul x y)
unfolding u64_mul
u64_mul-Halves x y =
    mul_loop-Halves 32 x 0 y (record { hi = 0; lo = 0 })
      (record { hi = omega arith; lo = omega arith })

-- For a modulus up to 2^31, and two words whose product is below 2^63, the multiplication and the
-- remainder on two halves give what the signed 64-bit type of GCC gives, and that is the remainder of
-- the product.
pub u64_mulmod-mulmod :
    (a b c : ℕ)
    → a < word
    → b < word
    → 0 < c
    → c ≤ 2147483648
    → a * b < 9223372036854775808
    → (u64_mulmod a b c ≡ mulmod a b c) × (mulmod a b c ≡ a * b % c)
u64_mulmod-mulmod a b c h k pos small fits =
    let halves : u64_mulmod a b c ≡ a * b % c =
      u64_mod-mod (u64_mul a b) c (u64_mul-Halves a b) pos small
      ∙ ap (λ (t : ℕ). t % c) (u64_mul-wide a b h k) in
    (halves ∙ sym (mulmod-exact a b c fits), mulmod-exact a b c fits)
