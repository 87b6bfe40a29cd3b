-- ===== src/Kernel/Makenode/Resize/Table.antt =====
-- The table that the rehashing loop leaves after `bdd_noderesize` of src/kernel.c has added slots:
-- every node is where it was, and its new bucket leads to it.
use mo_to_buddy.Prelude.{
  ℕ, ◌+◌, ◌-◌, ◌≤◌, ◌<◌, ◌≡◌, ◌≢◌, refl, sym, ◌∙◌, ap, inr, true, false, arith, dec_lt,
}
use mathlib.Core.Logic.{⊎_elim}
use mo_to_buddy.Terminal.{maxlevel}
use mo_to_buddy.Kernel.{Node, Nodes, Kernel, invalid}
use mo_to_buddy.Kernel.Partition.{Partition, Partition-frame, SameFields}
use mo_to_buddy.Kernel.WellFormed.{Live, Free, Ok, WellFormed}
use mo_to_buddy.Kernel.Protected.{SameNode, Keeps, Protected-Ok}
use mo_to_buddy.Kernel.Inherits.{Inherits, Ok-Inherits, AllOk-Inherits, Unique-Inherits}
use mo_to_buddy.Kernel.Gbc.{is_kept, rehash, rehash_all}
use mo_to_buddy.Kernel.Gbc.Tidied.{after}
use mo_to_buddy.Kernel.Gbc.Sweep.{Swept}
use mo_to_buddy.Kernel.Gbc.Sweep.Whole.{from_empty, whole-Swept}
use mo_to_buddy.Kernel.Makenode.{grown_nodes, emptied}

unfoldable pub base_nodes : Kernel → ℕ → Nodes
unfolding emptied grown_nodes
base_nodes s newsize = emptied true s.nodesize (grown_nodes s newsize)

base_old :
    (s : Kernel) (newsize n : ℕ)
    → n < s.nodesize
    → SameFields (s.nodes n) (base_nodes s newsize n) × ((base_nodes s newsize n).hash ≡ 0)
unfolding base_nodes
base_old s newsize n lt = ground arith

base_new :
    (s : Kernel) (newsize n : ℕ)
    → s.nodesize ≤ n
    → n < newsize
    → ((base_nodes s newsize n).low ≡ invalid)
      × ((base_nodes s newsize n).refcou ≡ 0)
      × ((base_nodes s newsize n).mark ≡ false)
      × ((base_nodes s newsize n).hash ≡ 0)
unfolding base_nodes
base_new s newsize n le lt = ground arith

after-false : (a : Node) → after false a ≡ a
after-false a = ground arith

-- The table grows from `s` to `newsize` slots.
module _ {top : ℕ} {s : Kernel} (w : WellFormed top s) (newsize : ℕ) (grows : s.nodesize ≤ newsize)
    (fits : newsize < invalid) where
  abbrev base : Nodes
  base = base_nodes s newsize

  abbrev grown : Kernel
  grown = record s {
    nodes = base;
    nodesize = newsize;
    freepos = s.nodesize;
    freenum = s.freenum + (newsize - s.nodesize);
  }

  size_min : 2 ≤ newsize
  size_min = omega (arith, w.size_min)

  old_live :
      (n : ℕ) → 1 < n → n < newsize → is_kept false (base n) ≡ true → Live s.nodesize s.nodes n
  old_live n h lt k = elim (dec_lt n s.nodesize) [
    | yes old ↦ (h, old, ground (arith, (base_old s newsize n old).0.low))
    | no new ↦ absurd (ground (arith, (base_new s newsize n (omega arith) lt).0))
  ]

  live_kept : (n : ℕ) → Live s.nodesize s.nodes n → is_kept false (base n) ≡ true
  live_kept n (h, lt, ne) = ground (arith, (base_old s newsize n lt).0.low)

  levels : (n : ℕ) → 1 < n → n < newsize → is_kept false (base n) ≡ true → (base n).level < maxlevel
  levels n h lt k =
      let l = old_live n h lt k in
      omega (arith, (base_old s newsize n l.1).0.level, (w.live n l).level, w.top_max)

  no_head : (b : ℕ) → b < newsize → (base b).hash ≡ 0
  no_head b lt = elim (dec_lt b s.nodesize) [
    | yes old ↦ (base_old s newsize b old).1
    | no new ↦ (base_new s newsize b (omega arith) lt).3
  ]

  abbrev swept_state : Kernel
  swept_state = rehash false (newsize - 2) (from_empty grown base)

  swept : Swept false base newsize (from_empty grown base) refl size_min fits levels 2 swept_state
  swept = whole-Swept false base grown size_min fits levels no_head

  -- The table after the loop, over the fields of `s`.
  abbrev resized : Kernel
  resized = record s {
    nodes = swept_state.nodes;
    nodesize = newsize;
    freepos = swept_state.freepos;
    freenum = swept_state.freenum;
    terminals = swept_state.terminals;
    resized = true;
  }

  pub rehash_all-resized : record (rehash_all false grown) { resized = true } ≡ resized
  rehash_all-resized = ap (λ (t : Kernel). record t { resized = true }) swept.rest

  fields : (n : ℕ) → 1 < n → n < newsize → SameFields (base n) (swept_state.nodes n)
  fields n h lt = rw (after-false (base n)) at (swept.past n h lt)

  old_same :
      (n : ℕ)
      → 1 < n
      → n < s.nodesize
      → SameNode (s.nodes n) (swept_state.nodes n) × ((swept_state.nodes n).mark ≡ (s.nodes n).mark)
  old_same n h lt =
      let a = (base_old s newsize n lt).0 in
      let b = fields n h (omega arith) in
      (
        record {
          level = b.level ∙ a.level;
          low = b.low ∙ a.low;
          high = b.high ∙ a.high;
          refcou = b.refcou ∙ a.refcou;
        },
        b.mark ∙ a.mark,
      )

  live_up : (n : ℕ) → Live s.nodesize s.nodes n → Live newsize swept_state.nodes n
  live_up n (h, lt, ne) = (h, omega arith, λ e. ne (sym ((old_same n h lt).0.low) ∙ e))

  live_down : (n : ℕ) → Live newsize swept_state.nodes n → Live s.nodesize s.nodes n
  live_down n (h, lt, ne) = elim (dec_lt n s.nodesize) [
    | yes old ↦ (h, old, λ e. ne ((old_same n h old).0.low ∙ e))
    | no new ↦ absurd (ne ((fields n h lt).low ∙ (base_new s newsize n (omega arith) lt).0))
  ]

  inherits : Inherits s.nodesize s.nodes newsize swept_state.nodes (Ok s.nodesize s.nodes)
  inherits = record {
    down = λ n l. let old = live_down n l in (old, (old_same n old.0 old.1).0, inr old);
    up = λ n l p. live_up n l;
    children = λ n l p. ((w.live n l).low_ok, (w.live n l).high_ok);
  }

  resized_clean : (n : ℕ) → 1 < n → n < newsize → (swept_state.nodes n).mark ≡ false
  resized_clean n h lt = elim (dec_lt n s.nodesize) [
    | yes old ↦ (old_same n h old).1 ∙ w.clean n h old
    | no new ↦ (fields n h lt).mark ∙ (base_new s newsize n (omega arith) lt).2
  ]

  resized_counted :
      (n : ℕ)
      → 1 < n
      → n < newsize
      → 0 < (swept_state.nodes n).refcou
      → (swept_state.nodes n).low ≢ invalid
  resized_counted n h lt r = elim (dec_lt n s.nodesize) [
    | yes old ↦
        let same = (old_same n h old).0 in
        λ e. w.counted n h old (omega (arith, same.refcou)) (sym same.low ∙ e)
    | no new ↦
        absurd (omega (arith, (fields n h lt).refcou, (base_new s newsize n (omega arith) lt).1))
  ]

  resized_part :
      Partition newsize swept_state.nodes
        (Live newsize swept_state.nodes)
        (Free newsize swept_state.nodes)
        swept_state.freepos
        swept_state.freenum
  resized_part =
      Partition-frame newsize swept_state.nodes swept_state.nodes _ _ _ _
        (λ n. (refl, refl, λ l. refl)) (λ n (h, lt, k). live_up n (old_live n h lt k))
        (λ n l. (l.0, l.1, live_kept n (live_down n l)))
        (λ n (h, lt, k). (h, lt, ground (arith, (fields n h lt).low)))
        (λ n (h, lt, e). (h, lt, ground (arith, (fields n h lt).low))) swept.part

  pub resized_old :
      (n : ℕ)
      → Live newsize swept_state.nodes n
      → Live s.nodesize s.nodes n × SameNode (s.nodes n) (swept_state.nodes n)
  resized_old n l = let o = live_down n l in (o, (old_same n o.0 o.1).0)

  pub resized-WellFormed : WellFormed top resized
  resized-WellFormed = record {
    size_min = size_min;
    size_max = fits;
    top_max = w.top_max;
    top_varnum = w.top_varnum;
    live = AllOk-Inherits inherits w.live;
    unique = Unique-Inherits inherits w.unique;
    clean = resized_clean;
    stacked = λ n m. Ok-Inherits inherits n (w.stacked n m) (w.stacked n m);
    counted = resized_counted;
    part = resized_part;
    same_children = w.same_children;
  }

  pub resized-Keeps : Keeps s resized
  resized-Keeps = record {
    node = λ n p h.
        ⊎_elim (λ (c : n < 2). absurd (omega arith))
          (λ (l : Live s.nodesize s.nodes n). (old_same n l.0 l.1).0) (Protected-Ok w p);
    const = λ n h.
        let f = swept.todo n h in
        let m = (base_old s newsize n (omega (arith, w.size_min))).0 in
        record {
          level = f.level ∙ m.level;
          low = f.low ∙ m.low;
          high = f.high ∙ m.high;
          refcou = f.refcou ∙ m.refcou;
        };
    stack = refl;
    slots = refl;
    size = grows;
    varnum = refl;
  }
