-- ===== src/Kernel/Gbc.antt =====
-- Garbage collection of src/kernel.c: `bdd_mark`, `bdd_gbc` and the rehashing of `bdd_gbc_rehash`.
-- The callbacks and the clock of `bdd_gbc` only report, and are left out.
pub mod Marking
pub mod Roots
pub mod Tidied
pub mod Sweep
pub mod Collect
use mo_to_buddy.Prelude.{
  [], ℕ, zero, suc, ◌+◌, ◌-◌, Bool, true, false, not, ◌&&◌, Option, none, some, List, ◌∷◌, ltb,
  ◌==◌, if◌then◌else◌,
}
use mo_to_buddy.Cache.{reset}
use mo_to_buddy.Terminal.{delete_terminal, maxlevel}
use mo_to_buddy.Kernel.{
  Node, Nodes, update, Caches, Kernel, done, out_of_fuel, Cmd, invalid, bucket_of,
}
use mo_to_buddy.Kernel.Partition.{link, release}

-- SETMARK and UNMARK
abbrev pub with_mark : Bool → Node → Node
with_mark b n = record n { mark = b }

-- The two recursive calls, one after the other.
unfoldable pub in_turn : (ℕ → Nodes → Option Nodes) → ℕ → ℕ → Nodes → Option Nodes
in_turn visit a b nodes = elim (visit a nodes) [ none ↦ none | some nodes' ↦ visit b nodes' ]

-- `bdd_mark`. The fuel bounds the depth of the recursion.
unfoldable pub mark : ℕ → ℕ → Nodes → Option Nodes
unfolding in_turn
mark zero i nodes = none
mark (suc fuel) i nodes =
    let marked = update nodes i (with_mark true (nodes i)) in
    if ltb i 2
    then some nodes
    else if (nodes i).mark
    then some nodes
    else if (nodes i).low == invalid
    then some nodes
    else if (nodes i).level == maxlevel
    then some marked
    else in_turn (mark fuel) (nodes i).low (nodes i).high marked

-- The first loop of `bdd_gbc`, over the stack from its bottom.
unfoldable pub mark_stack : ℕ → List ℕ → Nodes → Option Nodes
mark_stack fuel [] nodes = some nodes
mark_stack fuel (r ∷ rs) nodes = elim (mark_stack fuel rs nodes) [
  | none ↦ none
  | some nodes' ↦ mark fuel r nodes'
]

-- Its second loop: `count` nodes from `n` on are marked if they are referenced, and lose their
-- bucket.
mark_referenced : ℕ → ℕ → Nodes → Option Nodes
mark_referenced fuel n nodes = if ltb 0 (nodes n).refcou then mark fuel n nodes else some nodes

abbrev pub clear_hash : Nodes → ℕ → Nodes
clear_hash nodes n = update nodes n (record (nodes n) { hash = 0 })

unfoldable pub mark_counted : ℕ → ℕ → ℕ → Nodes → Option Nodes
unfolding mark_referenced
mark_counted fuel zero n nodes = some nodes
mark_counted fuel (suc count) n nodes = elim (mark_referenced fuel n nodes) [
  | none ↦ none
  | some nodes' ↦ mark_counted fuel count (n + 1) (clear_hash nodes' n)
]

-- The two rehashing loops run alike; `collect` tells that of `bdd_gbc` from `bdd_gbc_rehash`.
abbrev pub is_kept : Bool → Node → Bool
is_kept collect n = if collect then n.mark && not (n.low == invalid) else not (n.low == invalid)

-- What a loop writes in a node that it links, and in one that it frees.
abbrev pub tidy : Bool → Node → Node
tidy collect n = if collect then with_mark false n else n

abbrev pub discard : Bool → Node → Node
discard collect n = if collect then record n { low = invalid; level = 0; refcou = 0 } else n

-- One round at node `n`.
unfoldable pub rehash_node : Bool → ℕ → Kernel → Kernel
rehash_node collect n s =
    if is_kept collect node
    then record s { nodes = link (update s.nodes n (tidy collect node)) (bucket_of s node) n }
    else record s {
      nodes = release s.nodes n (discard collect node) s.freepos;
      freepos = n;
      freenum = s.freenum + 1;
      terminals =
          if collect && (node.level == maxlevel)
          then delete_terminal s.terminals node.high node.low
          else s.terminals;
    }
  where
    node : Node
    node = s.nodes n

-- `for (n = bddnodesize-1; n >= 2; n--)`, with `count` rounds left.
unfoldable pub rehash : Bool → ℕ → Kernel → Kernel
rehash collect zero s = s
rehash collect (suc count) s = rehash collect count (rehash_node collect (count + 2) s)

abbrev pub rehash_all : Bool → Kernel → Kernel
rehash_all collect s = rehash collect (s.nodesize - 2) (record s { freepos = 0; freenum = 0 })

-- `bdd_operator_reset`. The caches that programs register with src/mtbdd_cache_registry.c are not
-- part of the state.
unfoldable pub operator_reset : Caches → Caches
operator_reset c = record {
  apply = reset c.apply;
  ite = reset c.ite;
  quant = reset c.quant;
  appex = reset c.appex;
  replace = reset c.replace;
  misc = reset c.misc;
  mtbdd_apply = reset c.mtbdd_apply;
  mtbdd_ite = reset c.mtbdd_ite;
  mtbdd_operation = reset c.mtbdd_operation;
}

-- Levels grow along each path, so no recursion of `bdd_mark` is deeper than this.
abbrev pub depth_fuel : Kernel → ℕ
depth_fuel s = s.varnum + 3

abbrev pub mark_all : Kernel → Option Nodes
mark_all s = elim (mark_stack (depth_fuel s) s.refstack s.nodes) [
  | none ↦ none
  | some nodes ↦ mark_counted (depth_fuel s) s.nodesize 0 nodes
]

unfoldable pub gbc : Cmd (Unit {0})
gbc s = elim (mark_all s) [
  | none ↦ out_of_fuel
  | some nodes ↦
      let s' = rehash_all true (record s { nodes = nodes }) in
      done tt (record s' { caches = operator_reset s'.caches; gbcollectnum = s'.gbcollectnum + 1 })
]
