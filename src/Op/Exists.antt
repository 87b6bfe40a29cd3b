-- ===== src/Op/Exists.antt =====
-- What the results of `quant_rec` in src/bddop.c mean: some assignment, or all assignments, to the
-- variables of the set.
use mo_to_buddy.Prelude.{
  ℕ, suc, ◌+◌, ◌*◌, ◌≤◌, ◌<◌, ◌≡◌, ◌≢◌, refl, sym, ◌∙◌, ap, ◌⊎◌, ◌↔◌, inl, inr, Bool, true, false,
  length, arith, Bool-cases, ℕ_discrete,
}
use mathlib.Core.Logic.{⊎_elim}
use mo_to_buddy.Tree.{Tree, leaf, node, Assignment, eval, IsOrdered}
use mo_to_buddy.Tree.Canonical.{assign, eval-assign}
use mo_to_buddy.Kernel.{Kernel, done}
use mo_to_buddy.Kernel.Protected.{Protected}
use mo_to_buddy.Kernel.Makenode.{makenode}
use mo_to_buddy.Kernel.Makenode.Resize.{FindsPrimes}
use mo_to_buddy.Represents.{Denotes}
use mo_to_buddy.Represents.Unfold.{Rep-IsOrdered}
use mo_to_buddy.Op.{and, or, apply_rec}
use mo_to_buddy.Op.Quantify.{quant_rec}
use mo_to_buddy.Op.Stack.{Retains}
use mo_to_buddy.Op.Fact.{outcome}
use mo_to_buddy.Op.Ready.{exist, forall, quantified, Ready}
use mo_to_buddy.Op.Quantified.{Setup, quant_rec-Runs}

-- Two assignments differ at most on the set.
abbrev pub Agree : (ℕ → Bool) → Assignment → Assignment → Type 0
Agree set ρ ρ' = (l : ℕ) → set l ≡ false → ρ' l ≡ ρ l

Agree-assign :
    (set : ℕ → Bool) (ρ ρ' : Assignment) (l : ℕ) (b : Bool)
    → set l ≡ true
    → Agree set ρ ρ'
    → Agree set ρ (assign ρ' l b)
Agree-assign set ρ ρ' l b inside same i out = elim (ℕ_discrete i l) [
  | yes e ↦ let clash : set i ≡ true = ap set e ∙ inside in absurd (ground arith)
  | no ne ↦ let e = same i out in ground arith
]

assigned : (ρ : Assignment) (l : ℕ) (b : Bool) → assign ρ l b l ≡ b
assigned ρ l b = ground arith

-- The chosen side of a node of the set.
pub low_side :
    (l : ℕ) (t u : Tree) (ρ : Assignment)
    → IsOrdered (suc l) t
    → eval (node l t u) (assign ρ l false) ≡ eval t ρ
low_side l t u ρ o =
    let e = assigned ρ l false in rw e (eval-assign t l (suc l) false ρ o (omega arith))

pub high_side :
    (l : ℕ) (t u : Tree) (ρ : Assignment)
    → IsOrdered (suc l) u
    → eval (node l t u) (assign ρ l true) ≡ eval u ρ
high_side l t u ρ o =
    let e = assigned ρ l true in rw e (eval-assign u l (suc l) true ρ o (omega arith))

pub exists_some :
    (set : ℕ → Bool) (t : Tree) (j : ℕ) (ρ : Assignment)
    → IsOrdered j t
    → quantified or set t ρ ≡ true
    → (ρ' : Assignment) × Agree set ρ ρ' × (eval t ρ' ≡ true)
exists_some set (leaf b) j ρ o e = (ρ, λ l out. refl, e)
exists_some set (node l t u) j ρ (le, ot, ou) e = elim (Bool-cases (set l)) [
  | inl inside ↦ elim (Bool-cases (quantified or set t ρ)) [
    | inl yes_low ↦
        let (ρ', same, v) = exists_some set t (suc l) ρ ot yes_low in
        (assign ρ' l false, Agree-assign set ρ ρ' l false inside same, low_side l t u ρ' ot ∙ v)
    | inr no_low ↦
        let (ρ', same, v) = exists_some set u (suc l) ρ ou (ground arith) in
        (assign ρ' l true, Agree-assign set ρ ρ' l true inside same, high_side l t u ρ' ou ∙ v)
  ]
  | inr outside ↦ elim (Bool-cases (ρ l)) [
    | inl up ↦
        let (ρ', same, v) = exists_some set u (suc l) ρ ou (ground arith) in
        let side : ρ' l ≡ true = same l outside ∙ up in (ρ', same, rw side v)
    | inr down ↦
        let (ρ', same, v) = exists_some set t (suc l) ρ ot (ground arith) in
        let side : ρ' l ≡ false = same l outside ∙ down in (ρ', same, rw side v)
  ]
]

pub some_exists :
    (set : ℕ → Bool) (t : Tree) (ρ ρ' : Assignment)
    → Agree set ρ ρ'
    → eval t ρ' ≡ true
    → quantified or set t ρ ≡ true
some_exists set (leaf b) ρ ρ' same e = e
some_exists set (node l t u) ρ ρ' same e =
    let lower = λ (v : eval t ρ' ≡ true). some_exists set t ρ ρ' same v in
    let upper = λ (v : eval u ρ' ≡ true). some_exists set u ρ ρ' same v in
    elim (Bool-cases (ρ' l)) [
      | inl up ↦
          let v : quantified or set u ρ ≡ true = upper (rw up at e) in
          elim (Bool-cases (set l)) [
            | inl inside ↦ ground arith
            | inr outside ↦ let side : ρ l ≡ true = sym (same l outside) ∙ up in ground arith
          ]
      | inr down ↦
          let v : quantified or set t ρ ≡ true = lower (rw down at e) in
          elim (Bool-cases (set l)) [
            | inl inside ↦ ground arith
            | inr outside ↦ let side : ρ l ≡ false = sym (same l outside) ∙ down in ground arith
          ]
    ]

pub forall_all :
    (set : ℕ → Bool) (t : Tree) (ρ ρ' : Assignment)
    → quantified and set t ρ ≡ true
    → Agree set ρ ρ'
    → eval t ρ' ≡ true
forall_all set (leaf b) ρ ρ' e same = e
forall_all set (node l t u) ρ ρ' e same = elim (Bool-cases (ρ' l)) [
  | inl up ↦
      let q : quantified and set u ρ ≡ true = elim (Bool-cases (set l)) [
        | inl inside ↦ ground arith
        | inr outside ↦ let side : ρ l ≡ true = sym (same l outside) ∙ up in ground arith
      ] in
      rw up (forall_all set u ρ ρ' q same)
  | inr down ↦
      let q : quantified and set t ρ ≡ true = elim (Bool-cases (set l)) [
        | inl inside ↦ ground arith
        | inr outside ↦ let side : ρ l ≡ false = sym (same l outside) ∙ down in ground arith
      ] in
      rw down (forall_all set t ρ ρ' q same)
]

pub all_forall :
    (set : ℕ → Bool) (t : Tree) (j : ℕ) (ρ : Assignment)
    → IsOrdered j t
    → ((ρ' : Assignment) → Agree set ρ ρ' → eval t ρ' ≡ true)
    → quantified and set t ρ ≡ true
all_forall set (leaf b) j ρ o all = all ρ (λ l out. refl)
all_forall set (node l t u) j ρ (le, ot, ou) all = elim (Bool-cases (set l)) [
  | inl inside ↦
      let a = all_forall set t (suc l) ρ ot (λ ρ' same.
        sym (low_side l t u ρ' ot)
        ∙ all (assign ρ' l false) (Agree-assign set ρ ρ' l false inside same)) in
      let b = all_forall set u (suc l) ρ ou (λ ρ' same.
        sym (high_side l t u ρ' ou)
        ∙ all (assign ρ' l true) (Agree-assign set ρ ρ' l true inside same)) in
      ground arith
  | inr outside ↦ elim (Bool-cases (ρ l)) [
    | inl up ↦
        let b = all_forall set u (suc l) ρ ou (λ ρ' same.
          let e = all ρ' same in let side : ρ' l ≡ true = same l outside ∙ up in rw side at e) in
        ground arith
    | inr down ↦
        let a = all_forall set t (suc l) ρ ot (λ ρ' same.
          let e = all ρ' same in let side : ρ' l ≡ false = same l outside ∙ down in rw side at e) in
        ground arith
  ]
]

module _ (prime_lte : ℕ → ℕ) (primes : FindsPrimes prime_lte) where
  -- In a state in which operators may be called, let the table of the variable set be that of a
  -- protected BDD, and a protected BDD have a truth function, with fuel above the number of levels for
  -- `quant_rec` and for the `apply_rec` that it calls, and room for two references a level on the
  -- stack. Then `quant_rec` with the disjunction and the tag of `bdd_exist` returns, operators may be
  -- called again, protected nodes and the stack are as they were, and unless an error occurred the
  -- result is true exactly where some assignment that differs at most on the set makes the operand
  -- true.
  pub quant_rec-exists :
      {top : ℕ} (var last : ℕ) (in_set : ℕ → Bool) (v : Tree) (apply_fuel fuel : ℕ) (s : Kernel)
      (r : ℕ) (f : Assignment → Bool)
      → Ready top s
      → Setup s exist var in_set last v
      → Denotes s r f
      → Protected s r
      → top < fuel
      → top < apply_fuel
      → length s.refstack + 2 * top ≤ s.refslots
      → (res : ℕ) × (s' : Kernel) × (quant_rec
            (makenode prime_lte)
            (apply_rec (makenode prime_lte) or apply_fuel)
            in_set
            last
            (var * 8 + 0)
            fuel
            r
            s
          ≡ done res s')
        × Ready top s'
        × Retains s s'
        × (s'.refstack ≡ s.refstack)
        × ((s'.errorcond ≢ 0)
            ⊎ ((g : Assignment → Bool) × Denotes s' res g
                × ((ρ : Assignment)
                    → (g ρ ≡ true) ↔ ((ρ' : Assignment) × Agree in_set ρ ρ' × (f ρ' ≡ true)))))
  quant_rec-exists {top} var last in_set v apply_fuel fuel s r f ready setup (t, rep, same) held few
        few' room =
      let o = Rep-IsOrdered t r 0 ready.well rep (inr (omega arith)) in
      let (res, s', run, d) =
        quant_rec-Runs prime_lte primes exist var last in_set v apply_fuel fuel top 0 s r t ready
          setup (record { rep = rep; held = held; ordered = o }) (omega arith) few few' room in
      let g = quantified or in_set t in
      (
        res,
        s',
        run,
        d.ready,
        d.retains,
        d.stack,
        ⊎_elim inl
            (λ (dn : Denotes s' res g). inr (
              g,
              dn,
              λ ρ. (
                λ e.
                    let (ρ', agree, e') = exists_some in_set t 0 ρ o e in
                    (ρ', agree, sym (same ρ') ∙ e'),
                λ (ρ', agree, e). some_exists in_set t ρ ρ' agree (same ρ' ∙ e),
              ),
            ))
            (outcome s' (λ ρ. refl) d.fact),
      )

  -- In a state in which operators may be called, let the table of the variable set be that of a
  -- protected BDD, and a protected BDD have a truth function, with fuel above the number of levels for
  -- `quant_rec` and for the `apply_rec` that it calls, and room for two references a level on the
  -- stack. Then `quant_rec` with the conjunction and the tag of `bdd_forall` returns, operators may be
  -- called again, protected nodes and the stack are as they were, and unless an error occurred the
  -- result is true exactly where every assignment that differs at most on the set makes the operand
  -- true.
  pub quant_rec-forall :
      {top : ℕ} (var last : ℕ) (in_set : ℕ → Bool) (v : Tree) (apply_fuel fuel : ℕ) (s : Kernel)
      (r : ℕ) (f : Assignment → Bool)
      → Ready top s
      → Setup s forall var in_set last v
      → Denotes s r f
      → Protected s r
      → top < fuel
      → top < apply_fuel
      → length s.refstack + 2 * top ≤ s.refslots
      → (res : ℕ) × (s' : Kernel) × (quant_rec
            (makenode prime_lte)
            (apply_rec (makenode prime_lte) and apply_fuel)
            in_set
            last
            (var * 8 + 1)
            fuel
            r
            s
          ≡ done res s')
        × Ready top s'
        × Retains s s'
        × (s'.refstack ≡ s.refstack)
        × ((s'.errorcond ≢ 0)
            ⊎ ((g : Assignment → Bool) × Denotes s' res g
                × ((ρ : Assignment)
                    → (g ρ ≡ true) ↔ ((ρ' : Assignment) → Agree in_set ρ ρ' → f ρ' ≡ true))))
  quant_rec-forall {top} var last in_set v apply_fuel fuel s r f ready setup (t, rep, same) held few
        few' room =
      let o = Rep-IsOrdered t r 0 ready.well rep (inr (omega arith)) in
      let (res, s', run, d) =
        quant_rec-Runs prime_lte primes forall var last in_set v apply_fuel fuel top 0 s r t ready
          setup (record { rep = rep; held = held; ordered = o }) (omega arith) few few' room in
      let g = quantified and in_set t in
      (
        res,
        s',
        run,
        d.ready,
        d.retains,
        d.stack,
        ⊎_elim inl
            (λ (dn : Denotes s' res g). inr (
              g,
              dn,
              λ ρ. (
                λ e ρ' agree. sym (same ρ') ∙ forall_all in_set t ρ ρ' e agree,
                λ all. all_forall in_set t 0 ρ o (λ ρ' agree. same ρ' ∙ all ρ' agree),
              ),
            ))
            (outcome s' (λ ρ. refl) d.fact),
      )
