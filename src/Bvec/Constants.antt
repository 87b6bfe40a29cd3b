-- ===== src/Bvec/Constants.antt =====
-- `bvec_con` and `bvec_val` of src/bvec.c.
use mo_to_buddy.Prelude.{
  ℕ, zero, suc, ◌+◌, ◌*◌, ◌^◌, ◌/◌, ◌<◌, ◌≡◌, refl, ◌∙◌, ap, ◌==◌, List, [], ◌∷◌, arith, true,
  false, ℕ_discrete,
}
use native.Mathlib.Nat.{pow-succ'}
use mo_to_buddy.Bvec.{con, val, val_loop, reversed, isconst}

-- The number of constant bits.
abbrev bits_number : List ℕ → ℕ
bits_number [] = 0
bits_number (b ∷ bs) = b + 2 * bits_number bs

abbrev AllBits : List ℕ → Type 0
AllBits [] = Unit
AllBits (b ∷ bs) = (b < 2) × AllBits bs

loop_step : (b : ℕ) (bs : List ℕ) (v : ℕ) → b < 2 → val_loop (b ∷ bs) v ≡ val_loop bs (b + 2 * v)
unfolding val_loop
loop_step b bs v small = elim (ℕ_discrete b 1) [
  | yes e ↦ let t : (b == 1) ≡ true = ground arith in rw t (ap (val_loop bs) (omega arith))
  | no ne ↦
      let t : (b == 1) ≡ false = ground arith in
      let z : (b == 0) ≡ true = ground arith in rw (t, z) (ap (val_loop bs) (omega arith))
]

-- The loop goes through the bits from the last one.
loop_all :
    (bs acc : List ℕ) → AllBits bs → val_loop (reversed bs acc) 0 ≡ val_loop acc (bits_number bs)
loop_all [] acc a = refl
loop_all (b ∷ bs) acc (small, a) = loop_all bs (b ∷ acc) a ∙ loop_step b acc (bits_number bs) small

con-AllBits : (n v : ℕ) → AllBits (con n v)
unfolding con
con-AllBits zero v = tt
con-AllBits (suc n) v = (omega arith, con-AllBits n (v / 2))

con_number : (n v : ℕ) → v < 2 ^ n → bits_number (con n v) ≡ v
unfolding con
con_number zero v h = omega (arith, h)
con_number (suc n) v h =
    let bound : v < 2 * 2 ^ n = omega (arith, pow-succ' 2 n) in
    let rest = con_number n (v / 2) (omega arith) in omega arith

all_const : (bs : List ℕ) → AllBits bs → isconst bs ≡ true
all_const [] a = refl
all_const (b ∷ bs) (small, a) = let rest = all_const bs a in ground arith

-- A number that fits in the bits is what `bvec_val` reads from the vector that `bvec_con` made of it,
-- and `bvec_isconst` takes that vector for a constant.
pub val-con : (n v : ℕ) → v < 2 ^ n → (val (con n v) ≡ v) × (isconst (con n v) ≡ true)
unfolding val val_loop
val-con n v h =
    let bits = con-AllBits n v in
    (loop_all (con n v) [] bits ∙ con_number n v h, all_const (con n v) bits)
