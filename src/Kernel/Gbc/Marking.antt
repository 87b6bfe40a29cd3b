-- ===== src/Kernel/Gbc/Marking.antt =====
-- `bdd_mark` marks what can be reached from its argument, and nothing else.
use mo_to_buddy.Prelude.{
  ℕ, zero, suc, ◌+◌, ◌≤◌, ◌<◌, ◌≡◌, refl, sym, ◌∙◌, ap, subst, ◌⊎◌, inl, inr, true, false, Option,
  some, arith, ==_iff,
}
use mathlib.Core.Logic.{⊎_elim}
use mo_to_buddy.Terminal.{maxlevel}
use mo_to_buddy.Kernel.{Node, Nodes, update}
use mo_to_buddy.Kernel.WellFormed.{Live, Ok, Beyond, AllOk}
use mo_to_buddy.Kernel.Gbc.{with_mark, in_turn, mark}

-- Two nodes that agree but for the mark and the links.
pub record SameButMark (m m' : Node) : Type 0 where
  pub high : m'.high ≡ m.high
  pub low : m'.low ≡ m.low
  pub refcou : m'.refcou ≡ m.refcou
  pub level : m'.level ≡ m.level

-- `n` needs no further visit.
abbrev pub Visited : Nodes → ℕ → Type 0
Visited nodes n = (n < 2) ⊎ ((nodes n).mark ≡ true)

in_turn-some :
    (visit : ℕ → Nodes → Option Nodes) (a b : ℕ) (nodes : Nodes) {n1 n2 : Nodes}
    → visit a nodes ≡ some n1
    → visit b n1 ≡ some n2
    → in_turn visit a b nodes ≡ some n2
unfolding in_turn
in_turn-some visit a b nodes e1 e2 = rw (e1, in_turn) e2

module _ (top size : ℕ) (base : Nodes) (top_max : top ≤ maxlevel)
    (all_ok : AllOk top size base) where
  abbrev pub SameBase : Nodes → Type 0
  SameBase nodes = (n : ℕ) → SameButMark (base n) (nodes n)

  -- The children of every marked node at level `k` or deeper are visited.
  abbrev pub Closed : ℕ → Nodes → Type 0
  Closed k nodes =
      (n : ℕ)
      → Live size base n
      → (nodes n).mark ≡ true
      → k ≤ (base n).level
      → Visited nodes (base n).low × Visited nodes (base n).high

  -- `P` holds of the children of every live node of which it holds.
  abbrev pub Hereditary : (ℕ → Type 0) → Type 0
  Hereditary P = (n : ℕ) → Live size base n → P n → P (base n).low × P (base n).high

  abbrev pub Fits : ℕ → ℕ → Type 0
  Fits fuel i = (1 ≤ fuel) × (1 < i → top + 1 ≤ (base i).level + fuel)

  pub record Marked (P : ℕ → Type 0) (k i : ℕ) (nodes nodes' : Nodes) : Type 0 where
    pub same : SameBase nodes'
    pub closed : Closed k nodes'
    pub visited : Visited nodes' i
    pub keeps : (n : ℕ) → (nodes n).mark ≡ true → (nodes' n).mark ≡ true
    pub deeper : (n : ℕ) → (nodes' n).mark ≡ true → ((nodes n).mark ≡ true) ⊎ (k ≤ (base n).level)
    pub sound : (n : ℕ) → (nodes' n).mark ≡ true → ((nodes n).mark ≡ true) ⊎ P n
    pub heads : (n : ℕ) → (nodes' n).hash ≡ (nodes n).hash

  unmoved :
      (P : ℕ → Type 0) (k i : ℕ) (nodes : Nodes)
      → SameBase nodes
      → Closed k nodes
      → Visited nodes i
      → Marked P k i nodes nodes
  unmoved P k i nodes same closed v = record {
    same = same;
    closed = closed;
    visited = v;
    keeps = λ n m. m;
    deeper = λ n m. inl m;
    sound = λ n m. inl m;
    heads = λ n. refl;
  }

  Visited-keeps :
      (nodes nodes' : Nodes) (n : ℕ)
      → ((m : ℕ) → (nodes m).mark ≡ true → (nodes' m).mark ≡ true)
      → Visited nodes n
      → Visited nodes' n
  Visited-keeps nodes nodes' n keeps v = ⊎_elim inl (λ m. inr (keeps n m)) v

  abbrev set_mark : Nodes → ℕ → Nodes
  set_mark nodes i = update nodes i (with_mark true (nodes i))

  set_mark_same : (nodes : Nodes) (i : ℕ) → SameBase nodes → SameBase (set_mark nodes i)
  set_mark_same nodes i same n = ground (arith, same n, ==_iff n i)

  set_mark_keeps :
      (nodes : Nodes) (i n : ℕ) → (nodes n).mark ≡ true → (set_mark nodes i n).mark ≡ true
  set_mark_keeps nodes i n m = ground arith

  set_mark_heads : (nodes : Nodes) (i n : ℕ) → (set_mark nodes i n).hash ≡ (nodes n).hash
  set_mark_heads nodes i n = ground (arith, ==_iff n i)

  set_mark_self : (nodes : Nodes) (i : ℕ) → (set_mark nodes i i).mark ≡ true
  set_mark_self nodes i = ground arith

  set_mark_cases :
      (nodes : Nodes) (i n : ℕ)
      → (set_mark nodes i n).mark ≡ true
      → (n ≡ i) ⊎ ((nodes n).mark ≡ true)
  set_mark_cases nodes i n m = ground (arith, ==_iff n i)

  -- Behind a newly marked node the marks are closed one level deeper.
  set_mark-Closed :
      (nodes : Nodes) (k i : ℕ)
      → k ≤ (base i).level
      → Closed k nodes
      → Closed (suc (base i).level) (set_mark nodes i)
  set_mark-Closed nodes k i le closed n l m deep = elim (set_mark_cases nodes i n m) [
    | inl e ↦ absurd (omega (arith, ap (λ a. (base a).level) e))
    | inr old ↦
        let (a, b) = closed n l old (omega arith) in
        let keeps = set_mark_keeps nodes i in
        (
          Visited-keeps nodes (set_mark nodes i) _ keeps a,
          Visited-keeps nodes (set_mark nodes i) _ keeps b,
        )
  ]

  -- The two recursive calls at a newly marked node.
  children-Marked :
      (P : ℕ → Type 0) (k i : ℕ) (nodes n1 n2 : Nodes)
      → k ≤ (base i).level
      → Live size base i
      → P i
      → Closed k nodes
      → Marked P (suc (base i).level) (base i).low (set_mark nodes i) n1
      → Marked P (suc (base i).level) (base i).high n1 n2
      → Marked P k i nodes n2
  children-Marked P k i nodes n1 n2 le live p closed a b = record {
    same = b.same;
    closed = λ n l m deep. elim (origin n m) [
      | inl e ↦
          subst (λ (v : ℕ). Visited n2 (base v).low × Visited n2 (base v).high) (sym e)
            (Visited-keeps n1 n2 _ b.keeps a.visited, b.visited)
      | inr (inl old) ↦
          let (c, d) = closed n l old deep in
          (Visited-keeps nodes n2 _ keeps c, Visited-keeps nodes n2 _ keeps d)
      | inr (inr below) ↦ b.closed n l m below
    ];
    visited = inr (b.keeps i (a.keeps i (set_mark_self nodes i)));
    keeps = keeps;
    deeper = λ n m. elim (origin n m) [
      | inl e ↦ inr (rw e le)
      | inr (inl old) ↦ inl old
      | inr (inr below) ↦ inr (omega arith)
    ];
    sound = λ n m. elim (b.sound n m) [
      | inr q ↦ inr q
      | inl m1 ↦ elim (a.sound n m1) [
        | inr q ↦ inr q
        | inl m0 ↦ elim (set_mark_cases nodes i n m0) [ inl e ↦ inr (rw e p) | inr old ↦ inl old ]
      ]
    ];
    heads = λ n. b.heads n ∙ a.heads n ∙ set_mark_heads nodes i n;
  }
    where
      keeps : (n : ℕ) → (nodes n).mark ≡ true → (n2 n).mark ≡ true
      keeps n m = b.keeps n (a.keeps n (set_mark_keeps nodes i n m))

      origin :
          (n : ℕ)
          → (n2 n).mark ≡ true
          → (n ≡ i) ⊎ (((nodes n).mark ≡ true) ⊎ (suc (base i).level ≤ (base n).level))
      origin n m = elim (b.deeper n m) [
        | inr below ↦ inr (inr below)
        | inl m1 ↦ elim (a.deeper n m1) [
          | inr below ↦ inr (inr below)
          | inl m0 ↦ elim (set_mark_cases nodes i n m0) [ inl e ↦ inl e | inr old ↦ inr (inl old) ]
        ]
      ]

  -- What `bdd_mark` needs of its argument and its fuel.
  pub record Markable (P : ℕ → Type 0) (fuel k i : ℕ) : Type 0 where
    pub ok : Ok size base i
    pub fits : Fits fuel i
    pub within : P i
    pub floor : (i < 2) ⊎ (k ≤ (base i).level)

  child-Markable :
      (P : ℕ → Type 0) (fuel i c : ℕ)
      → (base i).level < top
      → top + 1 ≤ (base i).level + suc fuel
      → Ok size base c
      → P c
      → Beyond base (base i).level c
      → Markable P fuel (suc (base i).level) c
  child-Markable P fuel i c lt fits ok p beyond = record {
    ok = ok;
    fits = (
      omega arith,
      λ h.
          ⊎_elim (λ (b : c < 2). absurd (omega arith))
            (λ (b : (base i).level < (base c).level). omega arith) beyond,
    );
    within = p;
    floor = beyond;
  }

  mark_step :
      (fuel i : ℕ) (nodes : Nodes)
      → SameBase nodes
      → Live size base i
      → (nodes i).mark ≡ false
      → mark (suc fuel) i nodes ≡ in_turn (mark fuel) (base i).low (base i).high (set_mark nodes i)
  unfolding mark
  mark_step fuel i nodes same live m = ground (arith, same i, all_ok i live)

  mark_done :
      (fuel i : ℕ) (nodes : Nodes)
      → SameBase nodes
      → Ok size base i
      → Visited nodes i
      → mark (suc fuel) i nodes ≡ some nodes
  unfolding mark
  mark_done fuel i nodes same ok v = ground arith

  Markable-Visited :
      (P : ℕ → Type 0) (fuel k i : ℕ) (nodes : Nodes)
      → Markable P fuel k i
      → Visited nodes i ⊎ (Live size base i × ((nodes i).mark ≡ false) × (k ≤ (base i).level))
  Markable-Visited P fuel k i nodes h = ground (arith, h.ok, h.floor)

  pub mark-Marked :
      (P : ℕ → Type 0)
      → Hereditary P
      → (fuel k i : ℕ) (nodes : Nodes) → SameBase nodes
      → Closed k nodes
      → Markable P fuel k i
      → (nodes' : Nodes) × (mark fuel i nodes ≡ some nodes') × Marked P k i nodes nodes'
  mark-Marked P her zero k i nodes same closed h = absurd (omega arith)
  mark-Marked P her (suc fuel) k i nodes same closed h =
      elim (Markable-Visited P (suc fuel) k i nodes h) [
        | inl v ↦ (nodes, mark_done fuel i nodes same h.ok v, unmoved P k i nodes same closed v)
        | inr (live, m, le) ↦
            let good = all_ok i live in
            let fits = h.fits.1 live.0 in
            let (p, q) = her i live h.within in
            let l = suc (base i).level in
            let (n1, e1, a) =
              mark-Marked P her fuel l (base i).low (set_mark nodes i) (set_mark_same nodes i same)
                (set_mark-Closed nodes k i le closed)
                (child-Markable P fuel i (base i).low good.level fits good.low_ok p
                  good.low_beyond) in
            let (n2, e2, b) = mark-Marked P her fuel l (base i).high n1 a.same a.closed (
              child-Markable P fuel i (base i).high good.level fits good.high_ok q
                good.high_beyond) in
            (
              n2,
              mark_step fuel i nodes same live m ∙ in_turn-some (mark fuel) _ _ _ e1 e2,
              children-Marked P k i nodes n1 n2 le live h.within closed a b,
            )
      ]
