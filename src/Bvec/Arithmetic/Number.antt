-- ===== src/Bvec/Arithmetic/Number.antt =====
-- The numbers that vectors stand for, and what the loops of `bvec_add` and `bvec_sub` in src/bvec.c
-- make of their digits.
use mo_to_buddy.Prelude.{
  ℕ, zero, suc, ◌+◌, ◌*◌, ◌^◌, ◌%◌, ◌<◌, ◌≡◌, refl, sym, ◌∙◌, ap, subst, inl, inr, Bool, true,
  false, List, [], ◌∷◌, length, map, if◌then◌else◌, arith, Bool-cases,
}
use native.Mathlib.Nat.{mod-eq_of_lt, add-mod_right, pow-succ'}
use mo_to_buddy.Tree.{Assignment}
use mo_to_buddy.Session.{Ref}
use mo_to_buddy.Bvec.Laws.{In, Fn, sum_bit, carry_bit, borrow_bit}

-- The bits of the result and the last carry, from those of the operands and the first carry.
abbrev pub trace :
    (Fn → Fn → Fn → Fn) → (Fn → Fn → Fn → Fn) → List Ref → List Ref → Fn → List Fn × Fn
trace bit_of carry_of [] rs c = ([], c)
trace bit_of carry_of (l ∷ ls) [] c = ([], c)
trace bit_of carry_of (l ∷ ls) (r ∷ rs) c =
    let rest = trace bit_of carry_of ls rs (carry_of l.truth r.truth c) in
    (bit_of l.truth r.truth c ∷ rest.0, rest.1)

abbrev pub digit : Bool → ℕ
digit b = if b then 1 else 0

-- The number that a vector is under an assignment.
abbrev pub number : List Fn → Assignment → ℕ
number [] ρ = 0
number (f ∷ fs) ρ = digit (f ρ) + 2 * number fs ρ

abbrev pub truths : List Ref → List Fn
truths v = map (λ (x : Ref). x.truth) v

abbrev pub bdds : List Ref → List ℕ
bdds v = map (λ (x : Ref). x.bdd) v

abbrev pub AllIn : List Ref → List Ref → Type 0
AllIn [] held = Unit
AllIn (x ∷ xs) held = In x held × AllIn xs held

-- The bits of a result, one after the other, are put before what is held.
abbrev pub pile : List Ref → List Ref → List Ref
pile [] held = held
pile (x ∷ xs) held = pile xs (x ∷ held)

pub AllIn-more : (xs held : List Ref) (y : Ref) → AllIn xs held → AllIn xs (y ∷ held)
AllIn-more [] held y a = tt
AllIn-more (x ∷ xs) held y (i, a) = (inr i, AllIn-more xs held y a)

-- One bit of a sum, and of a difference.
sum_digit :
    (a b c : Bool)
    → digit (sum_bit (λ _. a) (λ _. b) (λ _. c) (λ _. false))
        + 2 * digit (carry_bit (λ _. a) (λ _. b) (λ _. c) (λ _. false))
      ≡ digit a + digit b + digit c
sum_digit true true true = refl
sum_digit true true false = refl
sum_digit true false true = refl
sum_digit true false false = refl
sum_digit false true true = refl
sum_digit false true false = refl
sum_digit false false true = refl
sum_digit false false false = refl

difference_digit :
    (a b c : Bool)
    → digit (sum_bit (λ _. a) (λ _. b) (λ _. c) (λ _. false)) + digit b + digit c
      ≡ digit a + 2 * digit (borrow_bit (λ _. a) (λ _. b) (λ _. c) (λ _. false))
difference_digit true true true = refl
difference_digit true true false = refl
difference_digit true false true = refl
difference_digit true false false = refl
difference_digit false true true = refl
difference_digit false true false = refl
difference_digit false false true = refl
difference_digit false false false = refl

-- A digit behind `n` others.
abbrev behind : ℕ → ℕ → ℕ
behind zero d = d
behind (suc n) d = 2 * behind n d

pub trace-add :
    (ls rs : List Ref) (c : Fn) (ρ : Assignment)
    → length ls ≡ length rs
    → let out = trace sum_bit carry_bit ls rs c in
      number out.0 ρ + behind (length ls) (digit (out.1 ρ))
      ≡ number (truths ls) ρ + number (truths rs) ρ + digit (c ρ)
trace-add [] [] c ρ e = omega arith
trace-add [] (r ∷ rs) c ρ e = absurd (omega arith)
trace-add (l ∷ ls) [] c ρ e = absurd (omega arith)
trace-add (l ∷ ls) (r ∷ rs) c ρ e =
    let now = sum_digit (l.truth ρ) (r.truth ρ) (c ρ) in
    let rest = trace-add ls rs (carry_bit l.truth r.truth c) ρ (omega arith) in omega arith

pub trace-sub :
    (ls rs : List Ref) (c : Fn) (ρ : Assignment)
    → length ls ≡ length rs
    → let out = trace sum_bit borrow_bit ls rs c in
      number out.0 ρ + number (truths rs) ρ + digit (c ρ)
      ≡ number (truths ls) ρ + behind (length ls) (digit (out.1 ρ))
trace-sub [] [] c ρ e = omega arith
trace-sub [] (r ∷ rs) c ρ e = absurd (omega arith)
trace-sub (l ∷ ls) [] c ρ e = absurd (omega arith)
trace-sub (l ∷ ls) (r ∷ rs) c ρ e =
    let now = difference_digit (l.truth ρ) (r.truth ρ) (c ρ) in
    let rest = trace-sub ls rs (borrow_bit l.truth r.truth c) ρ (omega arith) in omega arith

pub length-bdds : (v : List Ref) → length (bdds v) ≡ length v
length-bdds [] = refl
length-bdds (x ∷ v) = ap suc (length-bdds v)

length-truths : (v : List Ref) → length (truths v) ≡ length v
length-truths [] = refl
length-truths (x ∷ v) = ap suc (length-truths v)

length-trace :
    (bit_of carry_of : Fn → Fn → Fn → Fn) (ls rs : List Ref) (c : Fn)
    → length ls ≡ length rs
    → length (trace bit_of carry_of ls rs c).0 ≡ length ls
length-trace bit_of carry_of [] rs c e = refl
length-trace bit_of carry_of (l ∷ ls) [] c e = absurd (omega arith)
length-trace bit_of carry_of (l ∷ ls) (r ∷ rs) c e =
    ap suc (length-trace bit_of carry_of ls rs (carry_of l.truth r.truth c) (omega arith))

pub bits_size :
    (bits ls rs : List Ref) (bit_of carry_of : Fn → Fn → Fn → Fn)
    → truths bits ≡ (trace bit_of carry_of ls rs (λ ρ. false)).0
    → length ls ≡ length rs
    → length bits ≡ length ls
bits_size bits ls rs bit_of carry_of t e =
    sym (length-truths bits) ∙ ap length t ∙ length-trace bit_of carry_of ls rs (λ ρ. false) e

-- The numbers of `n` bits are below the weight of the next bit.
number-lt : (fs : List Fn) (ρ : Assignment) → number fs ρ < behind (length fs) 1
number-lt [] ρ = omega arith
number-lt (f ∷ fs) ρ =
    let rest = number-lt fs ρ in
    elim (Bool-cases (f ρ)) [ inl e ↦ rw e (omega arith) | inr e ↦ rw e (omega arith) ]

pub bits_lt :
    (bits ls : List Ref) (ρ : Assignment)
    → length bits ≡ length ls
    → number (truths bits) ρ < behind (length ls) 1
bits_lt bits ls ρ e =
    subst (λ n. number (truths bits) ρ < behind n 1) (length-truths bits ∙ e)
      (number-lt (truths bits) ρ)

behind-zero : (n : ℕ) → behind n 0 ≡ 0
behind-zero zero = refl
behind-zero (suc n) = let e = behind-zero n in omega arith

behind-pow : (n : ℕ) → behind n 1 ≡ 2 ^ n
behind-pow zero = refl
behind-pow (suc n) = ap (λ m. 2 * m) (behind-pow n) ∙ sym (pow-succ' 2 n)

-- What is left of a number when one bit behind `n` others is taken away.
pub remainder : (n a b : ℕ) (d : Bool) → a < behind n 1 → a + behind n (digit d) ≡ b → b % 2 ^ n ≡ a
remainder n a b true lt e =
    subst (λ m. b % m ≡ a) (behind-pow n)
      (ap (λ x. x % behind n 1) (sym e) ∙ add-mod_right a (behind n 1) ∙ mod-eq_of_lt lt)
remainder n a b false lt e =
    subst (λ m. b % m ≡ a) (behind-pow n)
      (ap (λ x. x % behind n 1) (sym e ∙ ap (λ z. a + z) (behind-zero n) ∙ omega arith)
        ∙ mod-eq_of_lt lt)
