-- ===== src/Kernel.antt =====
-- The state of src/kernel.c: the node table, its free list, the reference stack, the operator
-- caches, and the counters that decide when to collect and to grow.
pub mod Chain
pub mod Gbc
pub mod Makenode
pub mod Partition
pub mod WellFormed
pub mod Protected
pub mod Inherits
pub mod Refs
pub mod Settings
pub mod Visit
pub mod Scan
use mo_to_buddy.Prelude.{ℕ, Bool, not, ◌&&◌, List, ◌==◌, if◌then◌else◌}
use mo_to_buddy.Hash.{hash_node, hash_range}
use mo_to_buddy.Cache.{Cache}
use mo_to_buddy.Terminal.{Terminals, terminal_hash_gbc, not_short, maxlevel}

-- The pattern of -1, by which `low` marks a free node.
abbrev pub invalid : ℕ
invalid = 4294967295

abbrev pub maxref : ℕ
maxref = 0x3FF

-- `low` and `high` are the 32-bit patterns of two ints. In a terminal they are the members `type`
-- and `index` of the union, which lie at the same place. `hash` is the head of the bucket with
-- this node's number, and `next` links a bucket or the free list.
pub record Node : Type 0 where
  pub high : ℕ
  pub low : ℕ
  pub refcou : ℕ
  pub level : ℕ
  pub mark : Bool
  pub hash : ℕ
  pub next : ℕ

abbrev pub Nodes : Type 0
Nodes = ℕ → Node

-- `nodes[n] = node`
abbrev pub update : Nodes → ℕ → Node → Nodes
update nodes n node m = if m == n then node else nodes m

-- What `bdd_reorder_ready` reads, of src/reorder.c.
pub record Reorder : Type 0 where
  pub method : ℕ
  pub has_vartree : Bool
  pub times : ℕ
  pub disabled : Bool

-- The operator caches of src/bddop.c that hold nodes.
pub record Caches : Type 0 where
  pub apply : Cache
  pub ite : Cache
  pub quant : Cache
  pub appex : Cache
  pub replace : Cache
  pub misc : Cache
  pub mtbdd_apply : Cache
  pub mtbdd_ite : Cache
  pub mtbdd_operation : Cache

-- `refstack` lists the references from the top down, and `refslots` is the room of the array.
pub record Kernel : Type 0 where
  pub nodes : Nodes
  pub nodesize : ℕ
  pub maxnodesize : ℕ
  pub maxnodeincrease : ℕ
  pub minfreenodes : ℕ
  pub freepos : ℕ
  pub freenum : ℕ
  pub produced : ℕ
  pub varnum : ℕ
  pub level2var : ℕ → ℕ
  pub varset : ℕ → ℕ
  pub refstack : List ℕ
  pub refslots : ℕ
  pub errorcond : ℕ
  pub resized : Bool
  pub running : Bool
  pub check_same_children : Bool
  pub usednodes_nextreorder : ℕ
  pub gbcollectnum : ℕ
  pub reorder : Reorder
  pub caches : Caches
  pub terminals : Terminals

-- How a call ends: with a value, by the jump to `bddexception`, by `abort`, or not within the fuel.
pub data Run (A : Type 0) : Type 0 where
  done : A → Kernel → Run A
  longjmp : Kernel → Run A
  abort : Run A
  out_of_fuel : Run A

abbrev pub Cmd : Type 0 → Type 0
Cmd A = Kernel → Run A

module _ {A B : Type 0} where
  abbrev pub and_then : Run A → (A → Cmd B) → Run B
  and_then (done a s) k = k a s
  and_then (longjmp s) k = longjmp s
  and_then abort k = abort
  and_then out_of_fuel k = out_of_fuel

  infixl 5 ◌>>=◌ ◌>>◌
  abbrev pub ◌>>=◌ : Cmd A → (A → Cmd B) → Cmd B
  m >>= k = λ s. and_then (m s) k

  abbrev pub ◌>>◌ : Cmd A → Cmd B → Cmd B
  m >> k = m >>= λ _. k

-- LEVEL, LOW and HIGH
abbrev pub level : Kernel → ℕ → ℕ
level s n = (s.nodes n).level

abbrev pub low : Kernel → ℕ → ℕ
low s n = (s.nodes n).low

abbrev pub high : Kernel → ℕ → ℕ
high s n = (s.nodes n).high

-- NODEHASH
abbrev pub node_hash : Kernel → ℕ → ℕ → ℕ → ℕ
node_hash s l a b = hash_range (hash_node l a b) s.nodesize

-- The bucket that the rehashing loops compute for a node.
unfoldable pub bucket_of : Kernel → Node → ℕ
bucket_of s n =
    if n.level == maxlevel && not_short s.terminals.domain
    then terminal_hash_gbc s.terminals s.nodesize n.high n.low
    else node_hash s n.level n.low n.high

-- `bdd_reorder_ready`, where method 0 is BDD_REORDER_NONE.
unfoldable pub reorder_ready : Kernel → Bool
reorder_ready s = not (r.method == 0) && r.has_vartree && not (r.times == 0) && not r.disabled
  where
    open s use {reorder as r}
