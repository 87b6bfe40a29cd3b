-- ===== src/Kernel/WellFormed.antt =====
-- The well-formedness of the node table of src/kernel.c in a session of plain BDDs.
use mo_to_buddy.Prelude.{ℕ, ◌+◌, ◌≤◌, ◌<◌, ◌≡◌, ◌≢◌, ◌⊎◌, true, false, Among, arith}
use mo_to_buddy.Terminal.{maxlevel}
use mo_to_buddy.Kernel.{Nodes, Kernel, invalid}
use mo_to_buddy.Kernel.Partition.{Partition}

-- A node in use, and a free one; the constants 0 and 1 are neither.
abbrev pub Live : ℕ → Nodes → ℕ → Type 0
Live size nodes n = (1 < n) × (n < size) × ((nodes n).low ≢ invalid)

abbrev pub Free : ℕ → Nodes → ℕ → Type 0
Free size nodes n = (1 < n) × (n < size) × ((nodes n).low ≡ invalid)

-- What may stand for a BDD.
abbrev pub Ok : ℕ → Nodes → ℕ → Type 0
Ok size nodes n = (n < 2) ⊎ Live size nodes n

-- `n` is a constant or stands at a level beyond `l`.
abbrev pub Beyond : Nodes → ℕ → ℕ → Type 0
Beyond nodes l n = (n < 2) ⊎ (l < (nodes n).level)

-- A live node is reduced and ordered, and its level is below `top`.
pub record NodeOk (top size : ℕ) (nodes : Nodes) (n : ℕ) : Type 0 where
  pub level : (nodes n).level < top
  pub low_ok : Ok size nodes (nodes n).low
  pub high_ok : Ok size nodes (nodes n).high
  pub low_beyond : Beyond nodes (nodes n).level (nodes n).low
  pub high_beyond : Beyond nodes (nodes n).level (nodes n).high
  pub differ : (nodes n).low ≢ (nodes n).high

abbrev pub AllOk : ℕ → ℕ → Nodes → Type 0
AllOk top size nodes = (n : ℕ) → Live size nodes n → NodeOk top size nodes n

-- Two live nodes with one level and the same children are one node.
abbrev pub Unique : ℕ → Nodes → Type 0
Unique size nodes =
    (m n : ℕ)
    → Live size nodes m
    → Live size nodes n
    → (nodes m).level ≡ (nodes n).level
    → (nodes m).low ≡ (nodes n).low
    → (nodes m).high ≡ (nodes n).high
    → m ≡ n

-- `top` bounds the levels in use; it is the number of variables, and one more while
-- `bdd_setvarnum` makes the nodes of the next variable.
pub record WellFormed (top : ℕ) (s : Kernel) : Type 0 where
  pub size_min : 2 ≤ s.nodesize
  pub size_max : s.nodesize < invalid
  pub top_max : top ≤ maxlevel
  pub top_varnum : top ≤ s.varnum + 1
  pub live : AllOk top s.nodesize s.nodes
  pub unique : Unique s.nodesize s.nodes
  pub clean : (n : ℕ) → 1 < n → n < s.nodesize → (s.nodes n).mark ≡ false
  pub stacked : (n : ℕ) → Among n s.refstack → Ok s.nodesize s.nodes n
  pub counted :
      (n : ℕ) → 1 < n → n < s.nodesize → 0 < (s.nodes n).refcou → (s.nodes n).low ≢ invalid
  pub part :
      Partition s.nodesize s.nodes
        (Live s.nodesize s.nodes)
        (Free s.nodesize s.nodes)
        s.freepos
        s.freenum
  pub same_children : s.check_same_children ≡ true

-- The table of `s` in another state.
abbrev pub over : Kernel → Kernel → Kernel
over s s' = record s' {
  nodes = s.nodes;
  nodesize = s.nodesize;
  freepos = s.freepos;
  freenum = s.freenum;
  check_same_children = s.check_same_children;
}

pub WellFormed-over :
    {top top' : ℕ} {s : Kernel} (s' : Kernel)
    → WellFormed top s
    → top ≤ top'
    → top' ≤ maxlevel
    → top' ≤ s'.varnum + 1
    → ((n : ℕ) → Among n s'.refstack → Ok s.nodesize s.nodes n)
    → WellFormed top' (over s s')
WellFormed-over s' w le max deep ok = record {
  size_min = w.size_min;
  size_max = w.size_max;
  top_max = max;
  top_varnum = deep;
  live = λ n l.
      let good = w.live n l in
      record {
        level = omega (arith, good.level);
        low_ok = good.low_ok;
        high_ok = good.high_ok;
        low_beyond = good.low_beyond;
        high_beyond = good.high_beyond;
        differ = good.differ;
      };
  unique = w.unique;
  clean = w.clean;
  stacked = ok;
  counted = w.counted;
  part = w.part;
  same_children = w.same_children;
}
