-- ===== src/Op/Fact.antt =====
-- What is known of the result of an operator: a valid BDD in its place in the order, with the truth
-- function asked for unless an error occurred.
use mo_to_buddy.Prelude.{
  ℕ, suc, ◌<◌, ◌≡◌, ◌≢◌, refl, ◌∙◌, ◌⊎◌, inl, inr, Bool, true, false, arith, if◌then◌else◌, dec_lt,
  ℕ_discrete,
}
use mathlib.Core.Logic.{⊎_elim}
use mo_to_buddy.Tree.{Tree, leaf, node, Assignment, eval, IsOrdered}
use mo_to_buddy.Kernel.{Kernel}
use mo_to_buddy.Kernel.WellFormed.{Ok, Beyond}
use mo_to_buddy.Kernel.Protected.{Protected}
use mo_to_buddy.Kernel.Makenode.Made.{Extends}
use mo_to_buddy.Represents.{Rep, Denotes}
use mo_to_buddy.Represents.Unfold.{Rep-Ok}
use mo_to_buddy.Represents.Frame.{Rep-Extends}
use mo_to_buddy.Op.Stack.{Retains, Rep-Retains}

-- Level `j` comes before all levels of a tree.
abbrev pub Before : Tree → ℕ → Type 0
Before t j = IsOrdered (suc j) t

-- `B` names the levels that come before all operands.
pub record Fact (s : Kernel) (B : ℕ → Type 0) (f : Assignment → Bool) (r : ℕ) : Type 0 where
  pub ok : Ok s.nodesize s.nodes r
  pub under : (j : ℕ) → B j → Beyond s.nodes j r
  pub right : s.errorcond ≡ 0 → Denotes s r f

Ok-Extends :
    (s s' : Kernel) → Extends s s' → (n : ℕ) → Ok s.nodesize s.nodes n → Ok s'.nodesize s'.nodes n
Ok-Extends s s' x n o = ⊎_elim inl (λ l. inr ((x n l).0)) o

Beyond-Extends :
    (s s' : Kernel)
    → Extends s s'
    → (j n : ℕ) → Ok s.nodesize s.nodes n
    → Beyond s.nodes j n
    → Beyond s'.nodes j n
Beyond-Extends s s' x j n (inl c) b = inl c
Beyond-Extends s s' x j n (inr l) b =
    ⊎_elim inl (λ (h : j < (s.nodes n).level). inr (omega (arith, (x n l).1.level))) b

pub Fact-Extends :
    (s s' : Kernel) {B : ℕ → Type 0} {f : Assignment → Bool} {r : ℕ}
    → Extends s s'
    → (s'.errorcond ≡ 0 → s.errorcond ≡ 0)
    → Fact s B f r
    → Fact s' B f r
Fact-Extends s s' {B} {f} {r} x err a = record {
  ok = Ok-Extends s s' x r a.ok;
  under = λ j b. Beyond-Extends s s' x j r a.ok (a.under j b);
  right = λ z. let (t, rep, same) = a.right (err z) in (t, Rep-Extends s s' t r x rep, same);
}

pub Fact-weaken :
    (s : Kernel) {B B' : ℕ → Type 0} {f g : Assignment → Bool} {r : ℕ}
    → ((j : ℕ) → B' j → B j)
    → ((ρ : Assignment) → f ρ ≡ g ρ)
    → Fact s B f r
    → Fact s B' g r
Fact-weaken s less same a = record {
  ok = a.ok;
  under = λ j b. a.under j (less j b);
  right = λ z. let (t, rep, e) = a.right z in (t, rep, λ ρ. e ρ ∙ same ρ);
}

pub Beyond-Retains :
    (s s' : Kernel) (j r : ℕ)
    → Retains s s'
    → Protected s r
    → Beyond s.nodes j r
    → Beyond s'.nodes j r
Beyond-Retains s s' j r k p b = elim (dec_lt r 2) [
  | yes small ↦ inl small
  | no big ↦
      ⊎_elim inl
        (λ (h : j < (s.nodes r).level). inr (omega (arith, (k.node r p (omega arith)).level))) b
]

-- A fact about a protected result lasts.
pub Fact-Retains :
    (s s' : Kernel) {B : ℕ → Type 0} {f : Assignment → Bool} {r : ℕ}
    → Retains s s'
    → (s'.errorcond ≡ 0 → s.errorcond ≡ 0)
    → Protected s r
    → Ok s'.nodesize s'.nodes r
    → Fact s B f r
    → Fact s' B f r
Fact-Retains s s' {B} {f} {r} k err p ok a = record {
  ok = ok;
  under = λ j b. Beyond-Retains s s' j r k p (a.under j b);
  right = λ z. let (t, rep, same) = a.right (err z) in (t, Rep-Retains t r k p rep, same);
}

Before-Beyond : (s : Kernel) (t : Tree) (r j : ℕ) → Rep s r t → Before t j → Beyond s.nodes j r
Before-Beyond s (leaf true) r j rep b = inl (omega arith)
Before-Beyond s (leaf false) r j rep b = inl (omega arith)
Before-Beyond s (node l t u) r j (live, e, x, y) b = inr (omega arith)

-- A BDD is the result that has its own truth function.
pub self-Fact : (s : Kernel) (t : Tree) (r : ℕ) → Rep s r t → Fact s (Before t) (eval t) r
self-Fact s t r rep = record {
  ok = Rep-Ok s r t rep;
  under = λ j b. Before-Beyond s t r j rep b;
  right = λ z. (t, rep, λ ρ. refl);
}

pub const-Fact : (s : Kernel) (B : ℕ → Type 0) (b : Bool) → Fact s B (λ ρ. b) (if b then 1 else 0)
const-Fact s B true = record {
  ok = inl (omega arith);
  under = λ j h. inl (omega arith);
  right = λ z. (leaf true, refl, λ ρ. refl);
}
const-Fact s B false = record {
  ok = inl (omega arith);
  under = λ j h. inl (omega arith);
  right = λ z. (leaf false, refl, λ ρ. refl);
}

-- Either an error occurred, or the result has the truth function.
pub outcome :
    (s : Kernel) {B : ℕ → Type 0} {f g : Assignment → Bool} {r : ℕ}
    → ((ρ : Assignment) → f ρ ≡ g ρ)
    → Fact s B f r
    → (s.errorcond ≢ 0) ⊎ Denotes s r g
outcome s same a = elim (ℕ_discrete s.errorcond 0) [
  | yes z ↦ let (t, rep, e) = a.right z in inr (t, rep, λ ρ. e ρ ∙ same ρ)
  | no failed ↦ inl failed
]
