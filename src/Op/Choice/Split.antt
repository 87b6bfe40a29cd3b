-- ===== src/Op/Choice/Split.antt =====
-- The seven branches of `ite_rec` in src/bddop.c as one: at the lowest level of the operands, those
-- that stand there are halved, and the others are used on both sides.
use mo_to_buddy.Prelude.{
  ℕ, ◌≤◌, ◌<◌, ◌≡◌, sym, subst, true, false, if◌then◌else◌, ltb, leb, ◌==◌, arith, dec_lt,
  Bool-cases, inl, inr, ℕ_discrete,
}
use mo_to_buddy.Tree.{Tree}
use mo_to_buddy.Kernel.{Kernel, Cmd, level, low, high}
use mo_to_buddy.Op.{join}
use mo_to_buddy.Op.Ite.{ite_split}
use mo_to_buddy.Op.Ready.{Ready}
use mo_to_buddy.Op.Cofactor.{Arg, Halves, at_level, past_level}

-- An operand on one side of level `l`.
abbrev pub side : Kernel → ℕ → (Kernel → ℕ → ℕ) → ℕ → Kernel → ℕ
side s l half r x = if level s r == l then half x r else r

-- The operand whose level the result takes.
abbrev pub lowest : Kernel → ℕ → ℕ → ℕ → ℕ
lowest s f g h =
    if leb (level s f) (level s g)
    then (if leb (level s f) (level s h) then f else h)
    else (if leb (level s g) (level s h) then g else h)

pub ite_split-joined :
    (make : ℕ → ℕ → ℕ → Cmd ℕ) (negate : ℕ → Cmd ℕ) (call : ℕ → ℕ → ℕ → Cmd ℕ) (f g h : ℕ)
    (s : Kernel)
    → ite_split make negate call f g h s ≡ (
        let m = lowest s f g h in
        let lo = side s (level s m) low in
        let hi = side s (level s m) high in
        join make
          (λ x. level x m)
          (λ x. call (lo f x) (lo g x) (lo h x) x)
          (λ x. call (hi f x) (hi g x) (hi h x) x)
          s)
unfolding ite_split
ite_split-joined make negate call f g h s = elim (ℕ_discrete (level s f) (level s g)) [
  | yes e ↦ elim (ℕ_discrete (level s f) (level s h)) [
    | yes e' ↦ ground arith
    | no ne' ↦ elim (dec_lt (level s f) (level s h)) [
      | yes lt ↦ ground arith
      | no ge ↦ ground arith
    ]
  ]
  | no ne ↦
      let apart : (level s f == level s g) ≡ false = ground arith in
      let apart' : (level s g == level s f) ≡ false = ground arith in
      elim (dec_lt (level s f) (level s g)) [
        | yes lt ↦
            let less : ltb (level s f) (level s g) ≡ true = ground arith in
            let most : leb (level s f) (level s g) ≡ true = ground arith in
            elim (dec_lt (level s h) (level s f)) [
              | yes lt' ↦
                  let at_h : leb (level s f) (level s h) ≡ false = ground arith in
                  let other : (level s f == level s h) ≡ false = ground arith in
                  rw (apart, less, most, at_h, other) (ground arith)
              | no ge ↦
                  let at_f : leb (level s f) (level s h) ≡ true = ground arith in
                  rw (apart, less, most, at_f, apart') (ground arith)
            ]
        | no ge ↦
            let less : ltb (level s f) (level s g) ≡ false = ground arith in
            let most : leb (level s f) (level s g) ≡ false = ground arith in
            elim (dec_lt (level s h) (level s g)) [
              | yes lt' ↦
                  let at_h : leb (level s g) (level s h) ≡ false = ground arith in
                  let other : (level s g == level s h) ≡ false = ground arith in
                  rw (apart, less, most, at_h, other) (ground arith)
              | no ge' ↦
                  let at_g : leb (level s g) (level s h) ≡ true = ground arith in
                  rw (apart, less, most, at_g) (ground arith)
            ]
      ]
]

pub lowest_least :
    (s : Kernel) (f g h : ℕ)
    → (level s (lowest s f g h) ≤ level s f)
      × (level s (lowest s f g h) ≤ level s g)
      × (level s (lowest s f g h) ≤ level s h)
lowest_least s f g h = ground arith

pub side-Halves :
    {top : ℕ} {s : Kernel} (j l r : ℕ) (t : Tree)
    → Ready top s
    → Arg s j r t
    → l < top
    → l ≤ level s r
    → Halves s l t (side s l low r) (side s l high r)
side-Halves {top} {s} j l r t ready a lt le = elim (ℕ_discrete (level s r) l) [
  | yes e ↦
      let test : (level s r == l) ≡ true = ground arith in
      subst (λ b. Halves s l t (λ x. if b then low x r else r) (λ x. if b then high x r else r))
        (sym test) ((at_level j l r t ready a e lt).halves)
  | no ne ↦
      let test : (level s r == l) ≡ false = ground arith in
      subst (λ b. Halves s l t (λ x. if b then low x r else r) (λ x. if b then high x r else r))
        (sym test) (past_level j l r t a (omega arith))
]

-- What holds of each operand holds of the lowest.
pub lowest-elim : (P : ℕ → Type 0) (s : Kernel) (f g h : ℕ) → P f → P g → P h → P (lowest s f g h)
lowest-elim P s f g h a b c = elim (Bool-cases (leb (level s f) (level s g))) [
  | inl y ↦ elim (Bool-cases (leb (level s f) (level s h))) [
    | inl z ↦ rw (y, z) a
    | inr z ↦ rw (y, z) c
  ]
  | inr y ↦ elim (Bool-cases (leb (level s g) (level s h))) [
    | inl z ↦ rw (y, z) b
    | inr z ↦ rw (y, z) c
  ]
]
