-- ===== src/Imatrix/Relation.antt =====
-- The matrix of src/imatrix.c stands for a relation between variables.
use mo_to_buddy.Prelude.{
  Option, none, some, ◌∙◌, ℕ, zero, suc, ◌-◌, ◌/◌, ◌%◌, ◌^◌, ◌<◌, ◌≡◌, refl, ap, inl, inr, Bool,
  true, false, not, ◌&&◌, ◌||◌, List, [], ◌∷◌, ◌==◌, ltb, if◌then◌else◌, arith, Bool-cases,
}
use Prim.Native.Nat.{bit_and, bit_or, bit_and-bitwise}
use mo_to_buddy.Imatrix.{
  Imatrix, imatrix_new, inside, set_bit, clear_bit, get_bit, imatrix_set, imatrix_clr,
  imatrix_depends,
}

-- Whether a test holds of the numbers below a bound.
holds_below : ℕ → (ℕ → Bool) → Bool
holds_below zero test = true
holds_below (suc bound) test = if test bound then holds_below bound test else false

holds_below-at :
    (bound : ℕ) (test : ℕ → Bool) (x : ℕ)
    → x < bound
    → holds_below bound test ≡ true
    → test x ≡ true
unfolding holds_below
holds_below-at zero test x less holds = absurd (omega arith)
holds_below-at (suc bound) test x less holds = ground (arith, holds_below-at bound test x)

abbrev is_set : ℕ → ℕ → Bool
is_set v k = not (bit_and v (2 ^ k) == 0)

abbrev same : Bool → Bool → Bool
same a b = if a then b else not b

-- What the two writes do to a byte, checked for every byte and every pair of bits.
abbrev set_fits : ℕ → ℕ → ℕ → Bool
set_fits v k j =
    same (is_set (bit_or v (2 ^ k)) j) ((k == j) || is_set v j) && ltb (bit_or v (2 ^ k)) 256

abbrev clr_fits : ℕ → ℕ → ℕ → Bool
clr_fits v k j =
    same (is_set (bit_and v (255 - 2 ^ k)) j) (not (k == j) && is_set v j)
    && ltb (bit_and v (255 - 2 ^ k)) 256

abbrev everywhere : (ℕ → ℕ → ℕ → Bool) → Bool
everywhere p = holds_below 256 (λ v. holds_below 8 (λ k. holds_below 8 (λ j. p v k j)))

everywhere-at :
    (p : ℕ → ℕ → ℕ → Bool) (v k j : ℕ)
    → everywhere p ≡ true
    → v < 256
    → k < 8
    → j < 8
    → p v k j ≡ true
everywhere-at p v k j h lv lk lj =
    let at_v = holds_below-at 256 (λ v. holds_below 8 (λ k. holds_below 8 (λ j. p v k j))) v lv h in
    let at_k = holds_below-at 8 (λ k. holds_below 8 (λ j. p v k j)) k lk at_v in
    holds_below-at 8 (λ j. p v k j) j lj at_k

set_table : everywhere set_fits ≡ true
unfolding holds_below
set_table = refl

clr_table : everywhere clr_fits ≡ true
unfolding holds_below
clr_table = refl

-- The matrix stands for the relation: rows of bytes, and the answers are those of the relation.
pub record Stands (m : Imatrix) (rel : ℕ → ℕ → Bool) : Type 0 where
  pub bytes : (a i : ℕ) → m.rows a i < 256
  pub depends : (a b : ℕ) → not (get_bit m a b == 0) ≡ rel a b

abbrev pub related : ℕ → ℕ → (ℕ → ℕ → Bool) → ℕ → ℕ → Bool
related a b rel c d = ((a == c) && (b == d)) || rel c d

abbrev pub unrelated : ℕ → ℕ → (ℕ → ℕ → Bool) → ℕ → ℕ → Bool
unrelated a b rel c d = not ((a == c) && (b == d)) && rel c d

set_bit-Stands :
    (m : Imatrix) (rel : ℕ → ℕ → Bool) (a b : ℕ)
    → Stands m rel
    → Stands (set_bit m a b) (related a b rel)
unfolding set_bit get_bit
set_bit-Stands m rel a b s = record {
  bytes = λ c i.
      let fits =
        everywhere-at set_fits (m.rows a (b / 8)) (b % 8) 0 set_table (s.bytes a (b / 8))
          (omega arith) (omega arith) in
      let old = s.bytes c i in ground arith;
  depends = λ c d.
      let fits =
        everywhere-at set_fits (m.rows a (b / 8)) (b % 8) (d % 8) set_table (s.bytes a (b / 8))
          (omega arith) (omega arith) in
      let old = s.depends c d in
      elim (Bool-cases ((c == a) && (d / 8 == b / 8))) [
        | inl hit ↦
            let row : m.rows c (d / 8) ≡ m.rows a (b / 8) = ground arith in
            let bits : (b % 8 == d % 8) ≡ ((a == c) && (b == d)) = ground arith in
            let before : is_set (m.rows a (b / 8)) (d % 8) ≡ rel c d = rw (row) at old in
            rw hit (ground arith)
        | inr miss ↦
            let other : ((a == c) && (b == d)) ≡ false = ground arith in rw (miss, other) old
      ];
}

clear_bit-Stands :
    (m : Imatrix) (rel : ℕ → ℕ → Bool) (a b : ℕ)
    → Stands m rel
    → Stands (clear_bit m a b) (unrelated a b rel)
unfolding clear_bit get_bit
clear_bit-Stands m rel a b s = record {
  bytes = λ c i.
      let fits =
        everywhere-at clr_fits (m.rows a (b / 8)) (b % 8) 0 clr_table (s.bytes a (b / 8))
          (omega arith) (omega arith) in
      let old = s.bytes c i in ground arith;
  depends = λ c d.
      let fits =
        everywhere-at clr_fits (m.rows a (b / 8)) (b % 8) (d % 8) clr_table (s.bytes a (b / 8))
          (omega arith) (omega arith) in
      let old = s.depends c d in
      elim (Bool-cases ((c == a) && (d / 8 == b / 8))) [
        | inl hit ↦
            let row : m.rows c (d / 8) ≡ m.rows a (b / 8) = ground arith in
            let bits : (b % 8 == d % 8) ≡ ((a == c) && (b == d)) = ground arith in
            let before : is_set (m.rows a (b / 8)) (d % 8) ≡ rel c d = rw (row) at old in
            rw hit (ground arith)
        | inr miss ↦
            let other : ((a == c) && (b == d)) ≡ false = ground arith in rw (miss, other) old
      ];
}

-- What reordering does to the matrix.
pub data Change : Type 0 where
  set clear : ℕ → ℕ → Change

abbrev pub then_run : Option Imatrix → (Imatrix → Option Imatrix) → Option Imatrix
then_run none rest = none
then_run (some m) rest = rest m

unfoldable pub run : List Change → Imatrix → Option Imatrix
unfolding imatrix_set imatrix_clr
run [] m = some m
run (set a b ∷ changes) m = then_run (imatrix_set m a b) (run changes)
run (clear a b ∷ changes) m = then_run (imatrix_clr m a b) (run changes)

-- The changes are between variables below the size.
abbrev pub Within : ℕ → List Change → Type 0
Within size [] = Unit
Within size (set a b ∷ changes) = (a < size) × (b < size) × Within size changes
Within size (clear a b ∷ changes) = (a < size) × (b < size) × Within size changes

abbrev pub meaning : List Change → (ℕ → ℕ → Bool) → ℕ → ℕ → Bool
meaning [] rel = rel
meaning (set a b ∷ changes) rel = meaning changes (related a b rel)
meaning (clear a b ∷ changes) rel = meaning changes (unrelated a b rel)

-- The bit of a pair below the size is in an allocated byte.
inside_lem : (m : Imatrix) (a b : ℕ) → a < m.size → b < m.size → inside m a b ≡ true
inside_lem m a b h k = ground arith

set_inside :
    (m : Imatrix) (a b : ℕ) → a < m.size → b < m.size → imatrix_set m a b ≡ some (set_bit m a b)
unfolding imatrix_set
set_inside m a b h k = rw (inside_lem m a b h k) refl

clear_inside :
    (m : Imatrix) (a b : ℕ) → a < m.size → b < m.size → imatrix_clr m a b ≡ some (clear_bit m a b)
unfolding imatrix_clr
clear_inside m a b h k = rw (inside_lem m a b h k) refl

set_bit_size : (m : Imatrix) (a b : ℕ) → (set_bit m a b).size ≡ m.size
unfolding set_bit
set_bit_size m a b = refl

clear_bit_size : (m : Imatrix) (a b : ℕ) → (clear_bit m a b).size ≡ m.size
unfolding clear_bit
clear_bit_size m a b = refl

run-Stands :
    (size : ℕ) (changes : List Change) (m : Imatrix) (rel : ℕ → ℕ → Bool)
    → Within size changes
    → m.size ≡ size
    → Stands m rel
    → (m' : Imatrix) × (run changes m ≡ some m')
      × (m'.size ≡ size)
      × Stands m' (meaning changes rel)
unfolding run
run-Stands size [] m rel w e s = (m, refl, e, s)
run-Stands size (set a b ∷ changes) m rel (ha, hb, w) e s =
    let (m', run', e', s') =
      run-Stands size changes (set_bit m a b) (related a b rel) w (set_bit_size m a b ∙ e)
        (set_bit-Stands m rel a b s) in
    (
      m',
      ap (λ o. then_run o (run changes)) (set_inside m a b (omega arith) (omega arith)) ∙ run',
      e',
      s',
    )
run-Stands size (clear a b ∷ changes) m rel (ha, hb, w) e s =
    let (m', run', e', s') =
      run-Stands size changes (clear_bit m a b) (unrelated a b rel) w (clear_bit_size m a b ∙ e)
        (clear_bit-Stands m rel a b s) in
    (
      m',
      ap (λ o. then_run o (run changes)) (clear_inside m a b (omega arith) (omega arith)) ∙ run',
      e',
      s',
    )

zero-bit_and : (k : ℕ) → bit_and 0 k ≡ 0
zero-bit_and k = bit_and-bitwise 0 k

imatrix_new-Stands : (size : ℕ) → Stands (imatrix_new size) (λ a b. false)
unfolding imatrix_new get_bit
imatrix_new-Stands size = record {
  bytes = λ a i. omega arith;
  depends = λ a b. rw (zero-bit_and (2 ^ (b % 8))) refl;
}

imatrix_new_size : (size : ℕ) → (imatrix_new size).size ≡ size
unfolding imatrix_new
imatrix_new_size size = refl

depends_inside :
    (m : Imatrix) (a b : ℕ) → a < m.size → b < m.size → imatrix_depends m a b ≡ some (get_bit m a b)
unfolding imatrix_depends
depends_inside m a b h k = rw (inside_lem m a b h k) refl

-- After any sequence of entries and removals between variables below the size of a new matrix,
-- `imatrixDepends` answers for each such pair, and a number other than 0 exactly for the pairs of the
-- relation that the sequence makes of the empty one; no byte outside the allocated ones is accessed.
pub imatrix_depends-meaning :
    (size : ℕ) (changes : List Change) (a b : ℕ)
    → Within size changes
    → a < size
    → b < size
    → (m : Imatrix) × (answer : ℕ) × (run changes (imatrix_new size) ≡ some m)
      × (imatrix_depends m a b ≡ some answer)
      × (not (answer == 0) ≡ meaning changes (λ c d. false) a b)
imatrix_depends-meaning size changes a b w ha hb =
    let (m, e, n, s) =
      run-Stands size changes (imatrix_new size) (λ c d. false) w (imatrix_new_size size)
        (imatrix_new-Stands size) in
    (m, get_bit m a b, e, depends_inside m a b (omega arith) (omega arith), s.depends a b)
