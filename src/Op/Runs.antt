-- ===== src/Op/Runs.antt =====
-- The recursions of src/bddop.c step by step: two results are computed, pushed, combined and popped.
pub mod Joined
use mo_to_buddy.Prelude.{
  ℕ, ◌+◌, ◌≤◌, ◌<◌, ◌≡◌, ◌≢◌, sym, ◌∙◌, ap, subst, ◌⊎◌, inl, inr, Bool, length, if◌then◌else◌,
  arith, Bool-cases,
}
use mathlib.Core.Logic.{⊎_elim}
use mo_to_buddy.Tree.{node, Assignment, eval}
use mo_to_buddy.Kernel.{Kernel, Cmd}
use mo_to_buddy.Kernel.WellFormed.{Beyond}
use mo_to_buddy.Kernel.Protected.{Protected-Ok}
use mo_to_buddy.Kernel.Makenode.{makenode}
use mo_to_buddy.Kernel.Makenode.Resize.{FindsPrimes}
use mo_to_buddy.Kernel.Makenode.Build.{Fitting}
use mo_to_buddy.Kernel.Makenode.Made.{IsNode, makenode-Made}
use mo_to_buddy.Represents.{Rep, Denotes}
use mo_to_buddy.Represents.Canonicity.{Rep-functional}
use mo_to_buddy.Op.{join}
use mo_to_buddy.Op.Stack.{push, Retains, Keeps-Retains, Protected-Retains}
use mo_to_buddy.Op.Fact.{Fact-weaken, Fact-Retains}
use mo_to_buddy.Op.Ready.{Made-Ready}
pub use mo_to_buddy.Op.Runs.Joined.{Good, Runs, here-Good, written-Good, Pushed, join_with-Runs}

module _ (prime_lte : ℕ → ℕ) (primes : FindsPrimes prime_lte) where
  made-Denotes :
      (s : Kernel) (l a b r : ℕ) (f1 f2 f : Assignment → Bool)
      → Denotes s a f1
      → Denotes s b f2
      → ((ρ : Assignment) → (if ρ l then f2 ρ else f1 ρ) ≡ f ρ)
      → IsNode l a b s r
      → Denotes s r f
  made-Denotes s l a b r f1 f2 f (t, rt, et) (u, ru, eu) same (inl (e, out)) =
      let one : t ≡ u = Rep-functional s t u b (subst (λ x. Rep s x t) e rt) ru in
      (
        t,
        subst (λ x. Rep s x t) (sym out) rt,
        λ ρ. elim (Bool-cases (ρ l)) [
          | inl h ↦ ap (λ x. eval x ρ) one ∙ eu ρ ∙ rw h at (same ρ)
          | inr h ↦ et ρ ∙ rw h at (same ρ)
        ],
      )
  made-Denotes s l a b r f1 f2 f (t, rt, et) (u, ru, eu) same (inr (d, live, (el, ea, eb))) = (
    node l t u,
    (live, el, subst (λ x. Rep s x t) (sym ea) rt, subst (λ x. Rep s x u) (sym eb) ru),
    λ ρ.
        ap (λ x. if ρ l then x else eval t ρ) (eu ρ)
        ∙ ap (λ x. if ρ l then f2 ρ else x) (et ρ)
        ∙ same ρ,
  )

  made-Beyond :
      (s : Kernel) (l a b r j : ℕ)
      → j < l
      → Beyond s.nodes l a
      → ((s.errorcond ≢ 0) × (r ≡ 0)) ⊎ IsNode l a b s r
      → Beyond s.nodes j r
  made-Beyond s l a b r j lt h (inl (e, z)) = inl (omega arith)
  made-Beyond s l a b r j lt h (inr (inl (e, out))) =
      subst (Beyond s.nodes j) (sym out)
        (⊎_elim inl (λ (k : l < (s.nodes a).level). inr (omega arith)) h)
  made-Beyond s l a b r j lt h (inr (inr (d, live, (el, ea, eb)))) = inr (omega arith)

  -- The node of level `l` of two results has the function that the two are the halves of.
  pub makenode-Runs :
      {top : ℕ} (s t : Kernel) (l a b : ℕ) (B1 B2 B : ℕ → Type 0) (f1 f2 f : Assignment → Bool)
      → Pushed top s t B1 B2 f1 f2 a b
      → l < top
      → B1 l
      → B2 l
      → ((j : ℕ) → B j → j < l)
      → ((ρ : Assignment) → (if ρ l then f2 ρ else f1 ρ) ≡ f ρ)
      → Runs top t (makenode prime_lte l a b) B f
  makenode-Runs {top} s t l a b B1 B2 B f1 f2 f p below in1 in2 before same =
      let near : Beyond t.nodes l a = p.first.under l in1 in
      let fitting : Fitting top l a b t = record {
        below = below;
        low_ok = p.first.ok;
        high_ok = p.second.ok;
        low_beyond = near;
        high_beyond = p.second.under l in2;
      } in
      let (r, s3, e, m) =
        makenode-Made prime_lte primes l a b p.ready.well p.ready.limits p.ready.no_jump fitting
          p.held_a p.held_b in
      let kept = Keeps-Retains m.keeps in
      let fa =
        Fact-Retains t s3 kept m.error p.held_a
          (Protected-Ok m.well (Protected-Retains kept p.held_a)) p.first in
      let fb =
        Fact-Retains t s3 kept m.error p.held_b
          (Protected-Ok m.well (Protected-Retains kept p.held_b)) p.second in
      (
        r,
        s3,
        e,
        record {
          ready = Made-Ready m p.ready;
          retains = kept;
          stack = m.keeps.stack;
          slots = m.keeps.slots;
          fact = record {
            ok = m.ok;
            under = λ j h. made-Beyond s3 l a b r j (before j h) (fa.under l in1) m.outcome;
            right = λ z.
                ⊎_elim (λ (bad : (s3.errorcond ≢ 0) × (r ≡ 0)). absurd (bad.0 z))
                  (made-Denotes s3 l a b r f1 f2 f (fa.right z) (fb.right z) same) m.outcome;
          };
          error = m.error;
          running = m.running;
        },
      )

  -- A join of two calls at level `l`.
  pub join-Runs :
      {top : ℕ} (at : Kernel → ℕ) (first second : Cmd ℕ) (s : Kernel) (l : ℕ) (B1 B2 B : ℕ → Type 0)
      (f1 f2 f : Assignment → Bool)
      → Runs top s first B1 f1
      → ((a : ℕ) (s1 : Kernel) → Good top s s1 B1 f1 a → Runs top (push a s1) second B2 f2)
      → ((t : Kernel) → Retains s t → at t ≡ l)
      → length s.refstack + 2 ≤ s.refslots
      → l < top
      → B1 l
      → B2 l
      → ((j : ℕ) → B j → j < l)
      → ((ρ : Assignment) → (if ρ l then f2 ρ else f1 ρ) ≡ f ρ)
      → Runs top s (join (makenode prime_lte) at first second) B f
  unfolding join
  join-Runs {top} at first second s l B1 B2 B f1 f2 f first_runs second_runs level_at room below in1
        in2 before same =
      join_with-Runs (λ a b t. makenode prime_lte (at t) a b t) first second s first_runs
        second_runs
        (λ a b t p.
          subst (λ x. Runs top t (λ k. makenode prime_lte x a b k) B f) (sym (level_at t p.retains))
            (makenode-Runs s t l a b B1 B2 B f1 f2 f p below in1 in2 before same))
        room

-- A weaker place in the order, and an equal truth function.
pub reshape :
    {top : ℕ} {s s' : Kernel} {B B' : ℕ → Type 0} {f g : Assignment → Bool} {r : ℕ}
    → ((j : ℕ) → B' j → B j)
    → ((ρ : Assignment) → f ρ ≡ g ρ)
    → Good top s s' B f r
    → Good top s s' B' g r
reshape {top} {s} {s'} less same d = record {
  ready = d.ready;
  retains = d.retains;
  stack = d.stack;
  slots = d.slots;
  fact = Fact-weaken s' less same d.fact;
  error = d.error;
  running = d.running;
}
