-- ===== src/Op/Runs/Joined.antt =====
-- What a call of a recursion in src/bddop.c leaves, and two calls whose results are combined.
use mo_to_buddy.Prelude.{ℕ, ◌+◌, ◌≤◌, ◌≡◌, refl, ◌∙◌, ap, inl, Bool, ◌∷◌, length, arith}
use mo_to_buddy.Tree.{Assignment}
use mo_to_buddy.Kernel.{Kernel, Caches, done, Cmd}
use mo_to_buddy.Kernel.Protected.{Protected, stacked, Protected-Ok}
use mo_to_buddy.Op.{join_with}
use mo_to_buddy.Op.Stack.{
  restack, push, Retains, Protected-Retains, Retains-trans, same_nodes-Retains, push-Retains,
  join_run,
}
use mo_to_buddy.Op.Fact.{Fact, Fact-Extends, Fact-Retains}
use mo_to_buddy.Op.Ready.{
  CachesSound, Ready, restack-Ready, push-Ready, restack-Extends, recache, recache-Ready,
  recache-Extends,
}

-- What a call leaves: operators may be called again, protected nodes and the stack are as they were,
-- and the result is as asked for.
pub record Good (top : ℕ) (s s' : Kernel) (B : ℕ → Type 0) (f : Assignment → Bool) (r : ℕ)
    : Type 0 where
  pub ready : Ready top s'
  pub retains : Retains s s'
  pub stack : s'.refstack ≡ s.refstack
  pub slots : s'.refslots ≡ s.refslots
  pub fact : Fact s' B f r
  pub error : s'.errorcond ≡ 0 → s.errorcond ≡ 0
  pub running : s'.running ≡ s.running

-- The call returns, and leaves that.
abbrev pub Runs : ℕ → Kernel → Cmd ℕ → (ℕ → Type 0) → (Assignment → Bool) → Type 0
Runs top s call B f = (r : ℕ) × (s' : Kernel) × (call s ≡ done r s') × Good top s s' B f r

-- A call that only returns.
pub here-Good :
    {top : ℕ} {s : Kernel} {B : ℕ → Type 0} {f : Assignment → Bool} {r : ℕ}
    → Ready top s
    → Fact s B f r
    → Good top s s B f r
here-Good {top} {s} ready fact = record {
  ready = ready;
  retains = same_nodes-Retains s s.refstack (λ n m. m);
  stack = refl;
  slots = refl;
  fact = fact;
  error = λ z. z;
  running = refl;
}

-- The result is written into a cache.
pub written-Good :
    {top : ℕ} {s s' : Kernel} {B : ℕ → Type 0} {f : Assignment → Bool} {r : ℕ} (c : Caches)
    → Good top s s' B f r
    → CachesSound s' c
    → Good top s (recache s' c) B f r
written-Good {top} {s} {s'} c g k = record {
  ready = recache-Ready c g.ready k;
  retains = record {
    node = g.retains.node;
    const = g.retains.const;
    stack = g.retains.stack;
    size = g.retains.size;
  };
  stack = g.stack;
  slots = g.slots;
  fact = Fact-Extends s' (recache s' c) (recache-Extends s' c) (λ z. z) g.fact;
  error = g.error;
  running = g.running;
}

-- What holds of the two results before they are combined.
pub record Pushed (top : ℕ) (s t : Kernel) (B1 B2 : ℕ → Type 0) (f1 f2 : Assignment → Bool)
    (a b : ℕ) : Type 0 where
  pub ready : Ready top t
  pub retains : Retains s t
  pub held_a : Protected t a
  pub held_b : Protected t b
  pub first : Fact t B1 f1 a
  pub second : Fact t B2 f2 b
  pub error : t.errorcond ≡ 0 → s.errorcond ≡ 0
  pub depth : length t.refstack ≡ length s.refstack + 2
  pub slots : t.refslots ≡ s.refslots

module _ {top : ℕ} {s s1 s2 : Kernel} {B1 B2 : ℕ → Type 0} {f1 f2 : Assignment → Bool} (a b : ℕ)
    (g1 : Good top s s1 B1 f1 a) (g2 : Good top (push a s1) s2 B2 f2 b) where
  later : Retains (push a s1) (push b s2)
  later = Retains-trans g2.retains (push-Retains s2 b)

  held : Protected (push b s2) a
  held = Protected-Retains later (stacked (inl refl))

  pushed : Pushed top s (push b s2) B1 B2 f1 f2 a b
  pushed =
      let ready : Ready top (push b s2) = push-Ready b g2.ready g2.fact.ok in
      record {
        ready = ready;
        retains = Retains-trans (Retains-trans g1.retains (push-Retains s1 a)) later;
        held_a = held;
        held_b = stacked (inl refl);
        first =
            Fact-Retains (push a s1) (push b s2) later g2.error (stacked (inl refl))
              (Protected-Ok ready.well held)
              (Fact-Extends s1 (push a s1) (restack-Extends s1 (a ∷ s1.refstack)) (λ z. z) g1.fact);
        second =
            Fact-Extends s2 (push b s2) (restack-Extends s2 (b ∷ s2.refstack)) (λ z. z) g2.fact;
        error = λ z. g1.error (g2.error z);
        depth = omega (arith, ap length g1.stack, ap length g2.stack);
        slots = g2.slots ∙ g1.slots;
      }

  module _ {s3 : Kernel} {B : ℕ → Type 0} {f : Assignment → Bool} {r : ℕ}
      (g3 : Good top (push b s2) s3 B f r) where
    through : Retains s s3
    through = Retains-trans pushed.retains g3.retains

    popped : Good top s (restack s3 s.refstack) B f r
    popped = record {
      ready =
          restack-Ready s.refstack g3.ready (λ n m. g3.ready.well.stacked n (through.stack n m));
      retains = record {
        node = through.node;
        const = through.const;
        stack = λ n m. m;
        size = through.size;
      };
      stack = refl;
      slots = g3.slots ∙ g2.slots ∙ g1.slots;
      fact =
          Fact-Extends s3 (restack s3 s.refstack) (restack-Extends s3 s.refstack) (λ z. z) g3.fact;
      error = λ z. pushed.error (g3.error z);
      running = g3.running ∙ g2.running ∙ g1.running;
    }

    pushed_stack : s3.refstack ≡ b ∷ a ∷ s.refstack
    pushed_stack = g3.stack ∙ ap (λ xs. b ∷ xs) (g2.stack ∙ ap (λ xs. a ∷ xs) g1.stack)

-- Two calls and the combination of their results, with room for two references.
pub join_with-Runs :
    {top : ℕ} (combine : ℕ → ℕ → Cmd ℕ) (first second : Cmd ℕ) (s : Kernel) {B1 B2 B : ℕ → Type 0}
    {f1 f2 f : Assignment → Bool}
    → Runs top s first B1 f1
    → ((a : ℕ) (s1 : Kernel) → Good top s s1 B1 f1 a → Runs top (push a s1) second B2 f2)
    → ((a b : ℕ) (t : Kernel) → Pushed top s t B1 B2 f1 f2 a b → Runs top t (combine a b) B f)
    → length s.refstack + 2 ≤ s.refslots
    → Runs top s (join_with combine first second) B f
join_with-Runs {top} combine first second s (a, s1, e1, g1) second_runs combine_runs room =
    let (b, s2, e2, g2) = second_runs a s1 g1 in
    let (r, s3, e3, g3) = combine_runs a b (push b s2) (pushed a b g1 g2) in
    (
      r,
      restack s3 s.refstack,
      join_run combine first second a b r s s1 s2 s3 s.refstack e1
          (omega (arith, ap length g1.stack, g1.slots)) e2 (g2.stack ∙ ap (λ xs. a ∷ xs) g1.stack)
          (omega (arith, ap length g1.stack, ap length g2.stack, g1.slots, g2.slots)) e3
          (pushed_stack a b g1 g2 g3),
      popped a b g1 g2 g3,
    )
