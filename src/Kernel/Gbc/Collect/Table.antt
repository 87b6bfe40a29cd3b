-- ===== src/Kernel/Gbc/Collect/Table.antt =====
-- The table that the rehashing loop of `bdd_gbc` leaves: well-formed, with the protected nodes.
use mo_to_buddy.Prelude.{
  ℕ, ◌+◌, ◌-◌, ◌<◌, ◌≡◌, ◌≢◌, refl, sym, ◌∙◌, ap, ◌⊎◌, inl, inr, true, false, arith, Bool-cases,
}
use mo_to_buddy.Terminal.{maxlevel}
use mo_to_buddy.Kernel.{Nodes, Kernel, invalid}
use mo_to_buddy.Kernel.Partition.{Partition, Partition-frame}
use mo_to_buddy.Kernel.WellFormed.{Live, Free, WellFormed}
use mo_to_buddy.Kernel.Protected.{
  Protected, stacked, by_low, by_high, SameNode, Keeps, Protected-Ok,
}
use mo_to_buddy.Kernel.Inherits.{Inherits, Ok-Inherits, AllOk-Inherits, Unique-Inherits}
use mo_to_buddy.Kernel.Gbc.{is_kept, rehash, operator_reset}
use mo_to_buddy.Kernel.Gbc.Marking.{SameButMark, Visited}
use mo_to_buddy.Kernel.Gbc.Sweep.{Swept, Range}
use mo_to_buddy.Kernel.Gbc.Sweep.Whole.{from_empty, whole-Swept}

-- The marking phase marks exactly the protected nodes.
pub record MarkedAll (s : Kernel) (nodes : Nodes) : Type 0 where
  pub same : (n : ℕ) → SameButMark (s.nodes n) (nodes n)
  pub full : {n : ℕ} → Protected s n → Visited nodes n
  pub sound : (n : ℕ) → 1 < n → n < s.nodesize → (nodes n).mark ≡ true → Protected s n
  pub heads : (n : ℕ) → n < s.nodesize → (nodes n).hash ≡ 0

-- What the rehashing loop makes of the table in which the protected nodes are marked.
module _ {top : ℕ} {s : Kernel} (w : WellFormed top s) (nodes : Nodes)
    (marked : MarkedAll s nodes) where
  pub kept_live :
      (n : ℕ)
      → 1 < n
      → n < s.nodesize
      → is_kept true (nodes n) ≡ true
      → Protected s n × Live s.nodesize s.nodes n
  kept_live n h lt k =
      let p : Protected s n = marked.sound n h lt (ground arith) in
      (p, (h, lt, ground (arith, marked.same n)))

  Protected-kept :
      (n : ℕ) → Protected s n → 1 < n → (n < s.nodesize) × (is_kept true (nodes n) ≡ true)
  Protected-kept n p h = elim (Protected-Ok w p) [
    | inl small ↦ absurd (omega arith)
    | inr (a, lt, ne) ↦ elim (marked.full p) [
      | inl small ↦ absurd (omega arith)
      | inr m ↦ (lt, ground (arith, marked.same n))
    ]
  ]

  levels :
      (n : ℕ) → 1 < n → n < s.nodesize → is_kept true (nodes n) ≡ true → (nodes n).level < maxlevel
  levels n h lt k =
      let (p, l) = kept_live n h lt k in
      omega (arith, (marked.same n).level, (w.live n l).level, w.top_max)

  abbrev start : Kernel
  start = from_empty s nodes

  abbrev swept_state : Kernel
  swept_state = rehash true (s.nodesize - 2) start

  swept : Swept true nodes s.nodesize start refl w.size_min w.size_max levels 2 swept_state
  swept = whole-Swept true nodes s w.size_min w.size_max levels marked.heads

  abbrev final : Kernel
  final = record swept_state {
    caches = operator_reset swept_state.caches;
    gbcollectnum = swept_state.gbcollectnum + 1;
  }

  kept_same :
      (n : ℕ)
      → 1 < n
      → n < s.nodesize
      → is_kept true (nodes n) ≡ true
      → SameNode (s.nodes n) (swept_state.nodes n) × ((swept_state.nodes n).mark ≡ false)
  kept_same n h lt k =
      let f = swept.past n h lt in
      let m = marked.same n in
      (
        record {
          level = f.level ∙ rw k m.level;
          low = f.low ∙ rw k m.low;
          high = f.high ∙ rw k m.high;
          refcou = f.refcou ∙ rw k m.refcou;
        },
        f.mark ∙ rw k refl,
      )

  dropped_node :
      (n : ℕ)
      → 1 < n
      → n < s.nodesize
      → is_kept true (nodes n) ≡ false
      → ((swept_state.nodes n).low ≡ invalid)
        × ((swept_state.nodes n).refcou ≡ 0)
        × ((swept_state.nodes n).mark ≡ false)
  dropped_node n h lt k =
      let f = swept.past n h lt in
      (f.low ∙ rw k refl, f.refcou ∙ rw k refl, f.mark ∙ rw k (no_mark (Bool-cases (nodes n).mark)))
    where
      no_mark : ((nodes n).mark ≡ true) ⊎ ((nodes n).mark ≡ false) → (nodes n).mark ≡ false
      no_mark (inr clear) = clear
      no_mark (inl m) = let (lt', k') = Protected-kept n (marked.sound n h lt m) h in absurd (cc)

  pub kept_of_live : (n : ℕ) → Live s.nodesize swept_state.nodes n → is_kept true (nodes n) ≡ true
  kept_of_live n (h, lt, ne) = elim (Bool-cases (is_kept true (nodes n))) [
    | inl k ↦ k
    | inr k ↦ absurd (ne ((dropped_node n h lt k).0))
  ]

  pub live_of_protected : (n : ℕ) → Protected s n → 1 < n → Live s.nodesize swept_state.nodes n
  live_of_protected n p h =
      let (lt, k) = Protected-kept n p h in
      let (q, l) = kept_live n h lt k in (h, lt, λ e. l.2 (sym ((kept_same n h lt k).0.low) ∙ e))

  -- A node in use after the collection was in use before, and is unchanged.
  pub collected_old :
      (n : ℕ)
      → Live s.nodesize swept_state.nodes n
      → Live s.nodesize s.nodes n × SameNode (s.nodes n) (swept_state.nodes n)
  collected_old n l =
      let k = kept_of_live n l in ((kept_live n l.0 l.1 k).1, (kept_same n l.0 l.1 k).0)

  inherits : Inherits s.nodesize s.nodes s.nodesize swept_state.nodes (Protected s)
  inherits = record {
    down = λ n l.
        let (old, same) = collected_old n l in
        (old, same, (kept_live n l.0 l.1 (kept_of_live n l)).0);
    up = λ n l p. live_of_protected n p l.0;
    children = λ n l p. (by_low p l refl, by_high p l refl);
  }

  range_live :
      (n : ℕ)
      → Range true nodes s.nodesize start refl w.size_min w.size_max levels 2 true n
      → Live s.nodesize swept_state.nodes n
  range_live n (h, lt, k) = live_of_protected n (kept_live n h lt k).0 h

  Range-Free :
      (n : ℕ)
      → Range true nodes s.nodesize start refl w.size_min w.size_max levels 2 false n
      → Free s.nodesize swept_state.nodes n
  Range-Free n (h, lt, k) = (h, lt, (dropped_node n h lt k).0)

  Free-Range :
      (n : ℕ)
      → Free s.nodesize swept_state.nodes n
      → Range true nodes s.nodesize start refl w.size_min w.size_max levels 2 false n
  Free-Range n (h, lt, e) = elim (Bool-cases (is_kept true (nodes n))) [
    | inr k ↦ (h, lt, k)
    | inl k ↦ absurd ((range_live n (h, lt, k)).2 e)
  ]

  final_part :
      Partition s.nodesize swept_state.nodes
        (Live s.nodesize swept_state.nodes)
        (Free s.nodesize swept_state.nodes)
        swept_state.freepos
        swept_state.freenum
  final_part =
      Partition-frame s.nodesize swept_state.nodes swept_state.nodes _ _ _ _
        (λ n. (refl, refl, λ l. refl)) range_live (λ n l. (l.0, l.1, kept_of_live n l)) Range-Free
        Free-Range swept.part

  -- The final state, over the fields of `s`.
  abbrev pub collected : Kernel
  collected = record s {
    nodes = swept_state.nodes;
    freepos = swept_state.freepos;
    freenum = swept_state.freenum;
    terminals = swept_state.terminals;
    caches = operator_reset s.caches;
    gbcollectnum = s.gbcollectnum + 1;
  }

  pub final-collected : final ≡ collected
  final-collected =
      ap
        (λ (t : Kernel). record t {
          caches = operator_reset t.caches;
          gbcollectnum = t.gbcollectnum + 1;
        })
        swept.rest

  collected_counted :
      (n : ℕ)
      → 1 < n
      → n < s.nodesize
      → 0 < (swept_state.nodes n).refcou
      → (swept_state.nodes n).low ≢ invalid
  collected_counted n h lt r = elim (Bool-cases (is_kept true (nodes n))) [
    | inl k ↦ (range_live n (h, lt, k)).2
    | inr k ↦ absurd (omega (arith, (dropped_node n h lt k).1))
  ]

  collected_clean : (n : ℕ) → 1 < n → n < s.nodesize → (swept_state.nodes n).mark ≡ false
  collected_clean n h lt = elim (Bool-cases (is_kept true (nodes n))) [
    | inl k ↦ (kept_same n h lt k).1
    | inr k ↦ (dropped_node n h lt k).2
  ]

  pub collected-WellFormed : WellFormed top collected
  collected-WellFormed = record {
    size_min = w.size_min;
    size_max = w.size_max;
    top_max = w.top_max;
    top_varnum = w.top_varnum;
    live = AllOk-Inherits inherits w.live;
    unique = Unique-Inherits inherits w.unique;
    clean = collected_clean;
    stacked = λ n m. Ok-Inherits inherits n (stacked m) (w.stacked n m);
    counted = collected_counted;
    part = final_part;
    same_children = w.same_children;
  }

  pub collected-Keeps : Keeps s collected
  collected-Keeps = record {
    node = λ n p h. let (lt, k) = Protected-kept n p h in (kept_same n h lt k).0;
    const = λ n h.
        let f = swept.todo n h in
        let m = marked.same n in
        record {
          level = f.level ∙ m.level;
          low = f.low ∙ m.low;
          high = f.high ∙ m.high;
          refcou = f.refcou ∙ m.refcou;
        };
    stack = refl;
    slots = refl;
    size = omega arith;
    varnum = refl;
  }
