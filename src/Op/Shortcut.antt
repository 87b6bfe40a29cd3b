-- ===== src/Op/Shortcut.antt =====
-- The cases of `apply_rec` in src/bddop.c that need no recursion: the operands that decide the result
-- at once, and two constants.
use mo_to_buddy.Prelude.{
  ℕ, ◌<◌, ◌≡◌, refl, sym, ◌∙◌, ap, subst, Bool, true, false, some, if◌then◌else◌, arith, ℕ_discrete,
}
use mathlib.Core.Path.{ap₂}
use mo_to_buddy.Tree.{Tree, leaf, Assignment, eval}
use mo_to_buddy.Kernel.{Kernel}
use mo_to_buddy.Represents.{Rep}
use mo_to_buddy.Represents.Canonicity.{Rep-functional}
use mo_to_buddy.Op.{Op, and, xor, or, nand, nor, imp, biimp, diff, less, invimp, shortcut, oprres}
use mo_to_buddy.Op.Fact.{Fact, Fact-weaken, self-Fact, const-Fact}
use mo_to_buddy.Op.Ready.{op_bool, Before2}

-- The constant of a truth value.
abbrev pub num : Bool → ℕ
num b = if b then 1 else 0

-- Why an operand may decide the result.
data Reason (op : Op) (l r res : ℕ) : Type 0 where
  equal : l ≡ r → res ≡ l → ((b : Bool) → op_bool op b b ≡ b) → Reason op l r res
  cancel : l ≡ r → res ≡ 0 → ((b : Bool) → op_bool op b b ≡ false) → Reason op l r res
  left_unit :
      (b : Bool) → l ≡ num b → res ≡ r → ((y : Bool) → op_bool op b y ≡ y) → Reason op l r res
  left_zero :
      (b c : Bool) → l ≡ num b → res ≡ num c → ((y : Bool) → op_bool op b y ≡ c) → Reason op l r res
  right_unit :
      (b : Bool) → r ≡ num b → res ≡ l → ((x : Bool) → op_bool op x b ≡ x) → Reason op l r res
  right_zero :
      (b c : Bool) → r ≡ num b → res ≡ num c → ((x : Bool) → op_bool op x b ≡ c) → Reason op l r res

reason : (op : Op) (l r res : ℕ) → shortcut op l r ≡ some res → Reason op l r res
unfolding shortcut
reason and l r res e = elim (ℕ_discrete l r) [
  | yes z ↦ equal z (ground arith) (λ b. ground arith)
  | no n0 ↦ elim (ℕ_discrete l 0) [
    | yes z ↦ left_zero false false z (ground arith) (λ b. ground arith)
    | no n1 ↦ elim (ℕ_discrete r 0) [
      | yes z ↦ right_zero false false z (ground arith) (λ b. ground arith)
      | no n2 ↦ elim (ℕ_discrete l 1) [
        | yes z ↦ left_unit true z (ground arith) (λ b. ground arith)
        | no n3 ↦ elim (ℕ_discrete r 1) [
          | yes z ↦ right_unit true z (ground arith) (λ b. ground arith)
          | no n4 ↦ absurd (ground arith)
        ]
      ]
    ]
  ]
]
reason xor l r res e = elim (ℕ_discrete l r) [
  | yes z ↦ cancel z (ground arith) (λ b. ground arith)
  | no n0 ↦ elim (ℕ_discrete l 0) [
    | yes z ↦ left_unit false z (ground arith) (λ b. ground arith)
    | no n1 ↦ elim (ℕ_discrete r 0) [
      | yes z ↦ right_unit false z (ground arith) (λ b. ground arith)
      | no n2 ↦ absurd (ground arith)
    ]
  ]
]
reason or l r res e = elim (ℕ_discrete l r) [
  | yes z ↦ equal z (ground arith) (λ b. ground arith)
  | no n0 ↦ elim (ℕ_discrete l 1) [
    | yes z ↦ left_zero true true z (ground arith) (λ b. ground arith)
    | no n1 ↦ elim (ℕ_discrete r 1) [
      | yes z ↦ right_zero true true z (ground arith) (λ b. ground arith)
      | no n2 ↦ elim (ℕ_discrete l 0) [
        | yes z ↦ left_unit false z (ground arith) (λ b. ground arith)
        | no n3 ↦ elim (ℕ_discrete r 0) [
          | yes z ↦ right_unit false z (ground arith) (λ b. ground arith)
          | no n4 ↦ absurd (ground arith)
        ]
      ]
    ]
  ]
]
reason nand l r res e = elim (ℕ_discrete l 0) [
  | yes z ↦ left_zero false true z (ground arith) (λ b. ground arith)
  | no n0 ↦ elim (ℕ_discrete r 0) [
    | yes z ↦ right_zero false true z (ground arith) (λ b. ground arith)
    | no n1 ↦ absurd (ground arith)
  ]
]
reason nor l r res e = elim (ℕ_discrete l 1) [
  | yes z ↦ left_zero true false z (ground arith) (λ b. ground arith)
  | no n0 ↦ elim (ℕ_discrete r 1) [
    | yes z ↦ right_zero true false z (ground arith) (λ b. ground arith)
    | no n1 ↦ absurd (ground arith)
  ]
]
reason imp l r res e = elim (ℕ_discrete l 0) [
  | yes z ↦ left_zero false true z (ground arith) (λ b. ground arith)
  | no n0 ↦ elim (ℕ_discrete l 1) [
    | yes z ↦ left_unit true z (ground arith) (λ b. ground arith)
    | no n1 ↦ elim (ℕ_discrete r 1) [
      | yes z ↦ right_zero true true z (ground arith) (λ b. ground arith)
      | no n2 ↦ absurd (ground arith)
    ]
  ]
]
reason biimp l r res e = absurd (ground arith)
reason diff l r res e = absurd (ground arith)
reason less l r res e = absurd (ground arith)
reason invimp l r res e = absurd (ground arith)

-- A BDD that is a constant has its value.
pub const-eval :
    (s : Kernel) (t : Tree) (n : ℕ) (b : Bool)
    → Rep s n t
    → n ≡ num b
    → (ρ : Assignment) → eval t ρ ≡ b
const-eval s t n b rep e ρ = ap (λ v. eval v ρ) (Rep-functional s t (leaf b) n rep e)

constant_bool : (n : ℕ) → n < 2 → (b : Bool) × (n ≡ num b)
constant_bool n h = elim (ℕ_discrete n 0) [ yes e ↦ (false, e) | no e ↦ (true, omega arith) ]

-- The table `oprres` is that of the connective.
oprres_table : (op : Op) (x y : Bool) → oprres op (num x) (num y) ≡ num (op_bool op x y)
unfolding oprres
oprres_table and true true = refl
oprres_table and true false = refl
oprres_table and false true = refl
oprres_table and false false = refl
oprres_table xor true true = refl
oprres_table xor true false = refl
oprres_table xor false true = refl
oprres_table xor false false = refl
oprres_table or true true = refl
oprres_table or true false = refl
oprres_table or false true = refl
oprres_table or false false = refl
oprres_table nand true true = refl
oprres_table nand true false = refl
oprres_table nand false true = refl
oprres_table nand false false = refl
oprres_table nor true true = refl
oprres_table nor true false = refl
oprres_table nor false true = refl
oprres_table nor false false = refl
oprres_table imp true true = refl
oprres_table imp true false = refl
oprres_table imp false true = refl
oprres_table imp false false = refl
oprres_table biimp true true = refl
oprres_table biimp true false = refl
oprres_table biimp false true = refl
oprres_table biimp false false = refl
oprres_table diff true true = refl
oprres_table diff true false = refl
oprres_table diff false true = refl
oprres_table diff false false = refl
oprres_table less true true = refl
oprres_table less true false = refl
oprres_table less false true = refl
oprres_table less false false = refl
oprres_table invimp true true = refl
oprres_table invimp true false = refl
oprres_table invimp false true = refl
oprres_table invimp false false = refl

module _ (s : Kernel) (op : Op) (l r : ℕ) (t u : Tree) (rt : Rep s l t) (ru : Rep s r u) where
  Reason-Fact :
      (res : ℕ)
      → Reason op l r res
      → Fact s (Before2 t u) (λ ρ. op_bool op (eval t ρ) (eval u ρ)) res
  Reason-Fact res (equal e out law) =
      subst (Fact s (Before2 t u) (λ ρ. op_bool op (eval t ρ) (eval u ρ))) (sym out) (
        Fact-weaken s (λ j b. b.0)
          (λ ρ.
            sym (law (eval t ρ))
            ∙ ap (λ v. op_bool op (eval t ρ) (eval v ρ))
                (Rep-functional s t u r (subst (λ x. Rep s x t) e rt) ru))
          (self-Fact s t l rt))
  Reason-Fact res (cancel e out law) =
      subst (Fact s (Before2 t u) (λ ρ. op_bool op (eval t ρ) (eval u ρ))) (sym out) (
        Fact-weaken s (λ j b. b)
          (λ ρ.
            sym (law (eval t ρ))
            ∙ ap (λ v. op_bool op (eval t ρ) (eval v ρ))
                (Rep-functional s t u r (subst (λ x. Rep s x t) e rt) ru))
          (const-Fact s (Before2 t u) false))
  Reason-Fact res (left_unit b e out law) =
      subst (Fact s (Before2 t u) (λ ρ. op_bool op (eval t ρ) (eval u ρ))) (sym out) (
        Fact-weaken s (λ j b. b.1)
          (λ ρ.
            sym (ap (λ v. op_bool op v (eval u ρ)) (const-eval s t l b rt e ρ) ∙ law (eval u ρ)))
          (self-Fact s u r ru))
  Reason-Fact res (left_zero b c e out law) =
      subst (Fact s (Before2 t u) (λ ρ. op_bool op (eval t ρ) (eval u ρ))) (sym out) (
        Fact-weaken s (λ j b. b)
          (λ ρ.
            sym (ap (λ v. op_bool op v (eval u ρ)) (const-eval s t l b rt e ρ) ∙ law (eval u ρ)))
          (const-Fact s (Before2 t u) c))
  Reason-Fact res (right_unit b e out law) =
      subst (Fact s (Before2 t u) (λ ρ. op_bool op (eval t ρ) (eval u ρ))) (sym out) (
        Fact-weaken s (λ j b. b.0)
          (λ ρ.
            sym (ap (λ v. op_bool op (eval t ρ) v) (const-eval s u r b ru e ρ) ∙ law (eval t ρ)))
          (self-Fact s t l rt))
  Reason-Fact res (right_zero b c e out law) =
      subst (Fact s (Before2 t u) (λ ρ. op_bool op (eval t ρ) (eval u ρ))) (sym out) (
        Fact-weaken s (λ j b. b)
          (λ ρ.
            sym (ap (λ v. op_bool op (eval t ρ) v) (const-eval s u r b ru e ρ) ∙ law (eval t ρ)))
          (const-Fact s (Before2 t u) c))

  pub shortcut-Fact :
      (res : ℕ)
      → shortcut op l r ≡ some res
      → Fact s (Before2 t u) (λ ρ. op_bool op (eval t ρ) (eval u ρ)) res
  shortcut-Fact res e = Reason-Fact res (reason op l r res e)

  -- Two constants are looked up in the table of the operator.
  pub const2-Fact :
      l < 2 → r < 2 → Fact s (Before2 t u) (λ ρ. op_bool op (eval t ρ) (eval u ρ)) (oprres op l r)
  const2-Fact a b =
      let (x, ex) = constant_bool l a in
      let (y, ey) = constant_bool r b in
      subst (Fact s (Before2 t u) (λ ρ. op_bool op (eval t ρ) (eval u ρ)))
        (sym (ap₂ (oprres op) ex ey ∙ oprres_table op x y))
        (Fact-weaken s (λ j b. b)
          (λ ρ. sym (ap₂ (op_bool op) (const-eval s t l x rt ex ρ) (const-eval s u r y ru ey ρ)))
          (const-Fact s (Before2 t u) (op_bool op x y)))
