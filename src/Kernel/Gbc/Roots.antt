-- ===== src/Kernel/Gbc/Roots.antt =====
-- The marking phase of `bdd_gbc`: all that the stack and the reference counts keep alive is marked.
use mo_to_buddy.Prelude.{
  ℕ, zero, suc, ◌+◌, ◌≤◌, ◌<◌, ◌≡◌, ◌≢◌, refl, sym, ◌∙◌, subst, ◌⊎◌, inl, inr, true, some, List, [],
  ◌∷◌, ltb, Among, arith, Bool-cases, ==_iff, ltb→lt, ℕ_discrete,
}
use mathlib.Core.Logic.{⊎_elim}
use mo_to_buddy.Terminal.{maxlevel}
use mo_to_buddy.Kernel.{Nodes}
use mo_to_buddy.Kernel.WellFormed.{Ok, AllOk}
use mo_to_buddy.Kernel.Gbc.{mark_stack, mark_referenced, mark_counted, clear_hash}
use mo_to_buddy.Kernel.Gbc.Marking.{Visited, SameBase, Closed, Hereditary, Markable, mark-Marked}

cleared : (nodes : Nodes) (n m : ℕ) → m ≡ n → (clear_hash nodes n m).hash ≡ 0
cleared nodes n m e = ground arith

uncleared : (nodes : Nodes) (n m : ℕ) → m ≢ n → (clear_hash nodes n m).hash ≡ (nodes m).hash
uncleared nodes n m ne = ground arith

module _ (top size : ℕ) (base : Nodes) (top_max : top ≤ maxlevel) (all_ok : AllOk top size base)
    (P : ℕ → Type 0) (her : Hereditary top size base top_max all_ok P) (fuel : ℕ)
    (enough : top + 2 ≤ fuel) where
  -- The roots of `R` were visited on the way from `nodes` to `nodes'`.
  pub record Rooted (R : ℕ → Type 0) (nodes nodes' : Nodes) : Type 0 where
    pub same : SameBase top size base top_max all_ok nodes'
    pub closed : Closed top size base top_max all_ok 0 nodes'
    pub visited : (n : ℕ) → R n → Visited nodes' n
    pub keeps : (n : ℕ) → (nodes n).mark ≡ true → (nodes' n).mark ≡ true
    pub sound : (n : ℕ) → (nodes' n).mark ≡ true → ((nodes n).mark ≡ true) ⊎ P n

  root-Markable : (n : ℕ) → Ok size base n → P n → Markable top size base top_max all_ok P fuel 0 n
  root-Markable n ok p = record {
    ok = ok;
    fits = (omega arith, λ h. omega arith);
    within = p;
    floor = inr (omega arith);
  }

  pub mark_stack-Rooted :
      (rs : List ℕ) (nodes : Nodes)
      → SameBase top size base top_max all_ok nodes
      → Closed top size base top_max all_ok 0 nodes
      → ((n : ℕ) → Among n rs → Ok size base n × P n)
      → (nodes' : Nodes) × (mark_stack fuel rs nodes ≡ some nodes')
        × Rooted (λ n. Among n rs) nodes nodes'
        × ((n : ℕ) → (nodes' n).hash ≡ (nodes n).hash)
  unfolding mark_stack
  mark_stack-Rooted [] nodes same closed roots = (
    nodes,
    refl,
    record {
      same = same;
      closed = closed;
      visited = λ n m. absurd m;
      keeps = λ n m. m;
      sound = λ n m. inl m;
    },
    λ n. refl,
  )
  mark_stack-Rooted (r ∷ rs) nodes same closed roots =
      let (n1, e1, a, h) = mark_stack-Rooted rs nodes same closed (λ n m. roots n (inr m)) in
      let (ok, p) = roots r (inl refl) in
      let (n2, e2, b) =
        mark-Marked top size base top_max all_ok P her fuel 0 r n1 a.same a.closed
          (root-Markable r ok p) in
      (
        n2,
        rw (e1, mark_stack) e2,
        record {
          same = b.same;
          closed = b.closed;
          visited = λ n m. elim m [
            | inl e ↦ rw e b.visited
            | inr m' ↦ ⊎_elim inl (λ v. inr (b.keeps n v)) (a.visited n m')
          ];
          keeps = λ n m. b.keeps n (a.keeps n m);
          sound = λ n m. elim (b.sound n m) [ inl m1 ↦ a.sound n m1 | inr p ↦ inr p ];
        },
        λ n. b.heads n ∙ h n,
      )

  -- The base node `n` holds a reference.
  abbrev pub Counted : ℕ → Type 0
  Counted n = (n < size) × (0 < (base n).refcou)

  clear_mark : (nodes : Nodes) (n m : ℕ) → (clear_hash nodes n m).mark ≡ (nodes m).mark
  clear_mark nodes n m = ground (arith, ==_iff m n)

  clear_same :
      (nodes : Nodes) (n : ℕ)
      → SameBase top size base top_max all_ok nodes
      → SameBase top size base top_max all_ok (clear_hash nodes n)
  clear_same nodes n same m = ground (arith, same m, ==_iff m n)

  clear-Visited : (nodes : Nodes) (n m : ℕ) → Visited nodes m → Visited (clear_hash nodes n) m
  clear-Visited nodes n m v = ⊎_elim inl (λ a. inr (clear_mark nodes n m ∙ a)) v

  clear-Closed :
      (nodes : Nodes) (n : ℕ)
      → Closed top size base top_max all_ok 0 nodes
      → Closed top size base top_max all_ok 0 (clear_hash nodes n)
  clear-Closed nodes n closed m l a deep =
      let (c, d) = closed m l (sym (clear_mark nodes n m) ∙ a) deep in
      (clear-Visited nodes n _ c, clear-Visited nodes n _ d)

  -- One round: node `n` is visited if it holds a reference.
  mark_referenced-Rooted :
      (n : ℕ) (nodes : Nodes)
      → SameBase top size base top_max all_ok nodes
      → Closed top size base top_max all_ok 0 nodes
      → (0 < (base n).refcou → Ok size base n × P n)
      → (nodes' : Nodes) × (mark_referenced fuel n nodes ≡ some nodes')
        × Rooted (λ m. (m ≡ n) × (0 < (base n).refcou)) nodes nodes'
        × ((m : ℕ) → (nodes' m).hash ≡ (nodes m).hash)
  unfolding mark_referenced
  mark_referenced-Rooted n nodes same closed root = elim (Bool-cases (ltb 0 (nodes n).refcou)) [
    | inl held ↦
        let (ok, p) = root (omega (arith, (same n).refcou, ltb→lt 0 (nodes n).refcou held)) in
        let (n1, e, b) =
          mark-Marked top size base top_max all_ok P her fuel 0 n nodes same closed
            (root-Markable n ok p) in
        (
          n1,
          rw held e,
          record {
            same = b.same;
            closed = b.closed;
            visited = λ m (a, _). rw a b.visited;
            keeps = b.keeps;
            sound = b.sound;
          },
          b.heads,
        )
    | inr idle ↦ (
      nodes,
      rw idle,
      record {
        same = same;
        closed = closed;
        visited = λ m (a, pos). absurd (ground (arith, same n));
        keeps = λ m a. a;
        sound = λ m a. inl a;
      },
      λ m. refl,
    )
  ]

  pub mark_counted-Rooted :
      (count n : ℕ) (nodes : Nodes)
      → n + count ≡ size
      → SameBase top size base top_max all_ok nodes
      → Closed top size base top_max all_ok 0 nodes
      → ((m : ℕ) → Counted m → Ok size base m × P m)
      → (nodes' : Nodes) × (mark_counted fuel count n nodes ≡ some nodes')
        × Rooted (λ m. (n ≤ m) × Counted m) nodes nodes'
        × ((m : ℕ) → n ≤ m → m < size → (nodes' m).hash ≡ 0)
        × ((m : ℕ) → m < n → (nodes' m).hash ≡ (nodes m).hash)
  unfolding mark_counted
  mark_counted-Rooted zero n nodes sum same closed roots = (
    nodes,
    refl,
    record {
      same = same;
      closed = closed;
      visited = λ m (le, c). absurd (omega arith);
      keeps = λ m a. a;
      sound = λ m a. inl a;
    },
    λ m le lt. absurd (omega arith),
    λ m lt. refl,
  )
  mark_counted-Rooted (suc count) n nodes sum same closed roots =
      let (n1, e1, a, h1) =
        mark_referenced-Rooted n nodes same closed (λ pos. roots n (omega arith, pos)) in
      let (n2, e2, b, zero2, old2) =
        mark_counted-Rooted count (n + 1) (clear_hash n1 n) (omega arith) (clear_same n1 n a.same)
          (clear-Closed n1 n a.closed) roots in
      let keeps : (m : ℕ) → (n1 m).mark ≡ true → (n2 m).mark ≡ true =
        λ m x. b.keeps m (clear_mark n1 n m ∙ x) in
      (
        n2,
        rw (e1, mark_counted) e2,
        record {
          same = b.same;
          closed = b.closed;
          visited = λ m (le, c). elim (ℕ_discrete m n) [
            | yes e ↦
                ⊎_elim inl (λ x. inr (keeps m x))
                  (a.visited m (e, subst (λ (v : ℕ). 0 < (base v).refcou) e c.1))
            | no ne ↦ b.visited m (omega arith, c)
          ];
          keeps = λ m x. keeps m (a.keeps m x);
          sound = λ m x. elim (b.sound m x) [
            | inl y ↦ a.sound m (sym (clear_mark n1 n m) ∙ y)
            | inr p ↦ inr p
          ];
        },
        λ m le lt. elim (ℕ_discrete m n) [
          | yes e ↦ old2 m (omega arith) ∙ cleared n1 n m e
          | no ne ↦ zero2 m (omega arith) lt
        ],
        λ m lt. old2 m (omega arith) ∙ uncleared n1 n m (omega arith) ∙ h1 m,
      )
