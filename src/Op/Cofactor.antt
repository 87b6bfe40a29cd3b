-- ===== src/Op/Cofactor.antt =====
-- The operands of the recursions of src/bddop.c, and their halves at a level.
use mo_to_buddy.Prelude.{
  ℕ, zero, suc, ◌+◌, ◌≤◌, ◌<◌, ◌≡◌, refl, ap, subst, inl, inr, true, false, if◌then◌else◌, arith,
  Bool-cases,
}
use mo_to_buddy.Tree.{Tree, leaf, node, Assignment, height, eval, IsOrdered}
use mo_to_buddy.Kernel.{Kernel, level, low, high}
use mo_to_buddy.Kernel.WellFormed.{WellFormed}
use mo_to_buddy.Kernel.Protected.{Protected, by_low, by_high}
use mo_to_buddy.Represents.{Rep}
use mo_to_buddy.Op.Stack.{Retains, Protected-Retains, Rep-Retains}
use mo_to_buddy.Op.Fact.{Before}
use mo_to_buddy.Op.Ready.{Ready}

-- A protected BDD and its tree, which has no level below `j`.
pub record Arg (s : Kernel) (j r : ℕ) (t : Tree) : Type 0 where
  pub rep : Rep s r t
  pub held : Protected s r
  pub ordered : IsOrdered j t

pub Arg-Retains : {s s' : Kernel} {j r : ℕ} {t : Tree} → Retains s s' → Arg s j r t → Arg s' j r t
Arg-Retains {s} {s'} {j} {r} {t} k x = record {
  rep = Rep-Retains t r k x.held x.rep;
  held = Protected-Retains k x.held;
  ordered = x.ordered;
}

-- The operands that an operand leaves for the two sides of level `l`, in every later state.
pub record Halves (s : Kernel) (l : ℕ) (t : Tree) (lo hi : Kernel → ℕ) : Type 0 where
  pub low_tree : Tree
  pub high_tree : Tree
  pub low_arg : (s' : Kernel) → Retains s s' → Arg s' (suc l) (lo s') low_tree
  pub high_arg : (s' : Kernel) → Retains s s' → Arg s' (suc l) (hi s') high_tree
  pub shannon : (ρ : Assignment) → eval t ρ ≡ (if ρ l then eval high_tree ρ else eval low_tree ρ)

-- An operand that stands at level `l`.
pub record Here (s : Kernel) (j l r : ℕ) (t : Tree) : Type 0 where
  pub halves : Halves s l t (λ x. low x r) (λ x. high x r)
  pub start : j ≤ l
  pub before : (i : ℕ) → Before t i → i < l
  pub level_at : (x : Kernel) → Retains s x → level x r ≡ l
  pub low_height : height halves.low_tree < height t
  pub high_height : height halves.high_tree < height t

pub child_args :
    (x : Kernel) (j r m : ℕ) (t u : Tree)
    → Arg x j r (node m t u)
    → Arg x (suc m) (low x r) t × Arg x (suc m) (high x r) u
child_args x j r m t u a =
    let (live, e, rt, ru) = a.rep in
    let (le, ot, ou) = a.ordered in
    (
      record { rep = rt; held = by_low a.held live refl; ordered = ot },
      record { rep = ru; held = by_high a.held live refl; ordered = ou },
    )

pub at_level :
    {top : ℕ} {s : Kernel} (j l r : ℕ) (t : Tree)
    → Ready top s
    → Arg s j r t
    → level s r ≡ l
    → l < top
    → Here s j l r t
at_level {top} {s} j l r (leaf true) ready a e lt =
    let c = ready.consts r (omega (arith, a.rep)) in absurd (omega arith)
at_level {top} {s} j l r (leaf false) ready a e lt =
    let c = ready.consts r (omega (arith, a.rep)) in absurd (omega arith)
at_level {top} {s} j l r (node m t u) ready a e lt =
    let (live, em, rt, ru) = a.rep in
    let (le, ot, ou) = a.ordered in
    let same : m ≡ l = omega arith in
    record {
      halves = record {
        low_tree = t;
        high_tree = u;
        low_arg = λ x k.
            subst (λ i. Arg x (suc i) (low x r) t) same
              ((child_args x j r m t u (Arg-Retains k a)).0);
        high_arg = λ x k.
            subst (λ i. Arg x (suc i) (high x r) u) same
              ((child_args x j r m t u (Arg-Retains k a)).1);
        shannon = λ ρ. ap (λ i. if ρ i then eval u ρ else eval t ρ) same;
      };
      start = omega arith;
      before = λ i b. omega (arith, b.0);
      level_at = λ x k. let (live', e', rt', ru') = (Arg-Retains k a).rep in omega arith;
      low_height = omega arith;
      high_height = omega arith;
    }

-- An operand that stands beyond level `l` is both halves of itself.
pub past_level :
    {s : Kernel} (j l r : ℕ) (t : Tree)
    → Arg s j r t
    → l < level s r
    → Halves s l t (λ x. r) (λ x. r)
past_level {s} j l r t a lt =
    let far : Arg s (suc l) r t = record {
      rep = a.rep;
      held = a.held;
      ordered = deeper t a.rep a.ordered;
    } in
    record {
      low_tree = t;
      high_tree = t;
      low_arg = λ x k. Arg-Retains k far;
      high_arg = λ x k. Arg-Retains k far;
      shannon = λ ρ. elim (Bool-cases (ρ l)) [ inl h ↦ rw h refl | inr h ↦ rw h refl ];
    }
  where
    deeper : (v : Tree) → Rep s r v → IsOrdered j v → IsOrdered (suc l) v
    deeper (leaf b) rep o = tt
    deeper (node m v w) (live, e, rv, rw) (le, ov, ow) = (omega arith, ov, ow)

-- The operand is no constant.
pub live_level :
    {top : ℕ} {s : Kernel} (r : ℕ) (t : Tree) → Ready top s → Rep s r t → 1 < r → level s r < top
live_level {top} {s} r (leaf true) ready rep big = absurd (omega arith)
live_level {top} {s} r (leaf false) ready rep big = absurd (omega arith)
live_level {top} {s} r (node m t u) ready rep big = (ready.well.live r rep.0).level

-- No level is left for an operand that is no constant, unless the bound of the levels leaves one.
pub some_depth :
    {top : ℕ} {s : Kernel} (j k r : ℕ) (t : Tree)
    → Ready top s
    → Arg s j r t
    → 1 < r
    → top ≤ j + k
    → 0 < k
some_depth {top} {s} j k r (leaf true) ready a big h = absurd (omega (arith, a.rep))
some_depth {top} {s} j k r (leaf false) ready a big h = absurd (omega (arith, a.rep))
some_depth {top} {s} j k r (node m t u) ready a big h =
    omega (arith, a.ordered.0, a.rep.1, (ready.well.live r a.rep.0).level)

-- A tree over the levels from `j` up to `top` is no higher than their number.
pub deep_height :
    {top : ℕ} {s : Kernel} (t : Tree) (j k r : ℕ)
    → WellFormed top s
    → Rep s r t
    → IsOrdered j t
    → top ≤ j + k
    → height t ≤ k
deep_height (leaf b) j k r w rep o h = omega arith
deep_height {top} {s} (node m t u) j zero r w rep o h =
    absurd (omega (arith, o.0, rep.1, (w.live r rep.0).level))
deep_height {top} {s} (node m t u) j (suc k) r w rep o h =
    let a = deep_height t (suc m) k (s.nodes r).low w rep.2 o.1 (omega (arith, o.0)) in
    let b = deep_height u (suc m) k (s.nodes r).high w rep.3 o.2 (omega (arith, o.0)) in omega arith
