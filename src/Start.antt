-- ===== src/Start.antt =====
-- How a session of src/kernel.c begins: `bdd_init` for plain BDDs with what it calls, and
-- `bdd_setvarnum`. Allocations are taken to succeed; hooks, clocks and statistics are left out.
pub mod Fresh
pub mod Growing
pub mod Relevel
pub mod Declaring
pub mod Declared
use mo_to_buddy.Prelude.{
  [], ℕ, zero, suc, ◌+◌, ◌-◌, ◌*◌, Bool, true, false, not, ◌&&◌, ◌||◌, ltb, leb, ◌==◌,
  if◌then◌else◌,
}
use mo_to_buddy.Cache.{init, reset}
use mo_to_buddy.Terminal.{maxlevel}
use mo_to_buddy.Kernel.{
  Node, Nodes, update, Kernel, Caches, Reorder, done, Cmd, ◌>>=◌, and_then, invalid, maxref,
}
use mo_to_buddy.Kernel.Makenode.{makenode}
use mo_to_buddy.Kernel.Refs.{pushref, popref}
use mo_to_buddy.Kernel.Settings.{Argument, nat, neg, Answer, value, err_running}
use mo_to_buddy.Op.Varset.{Varset}
use mo_to_buddy.Pairs.{Pairs, bdd_pairs_init, bdd_pairs_resize}
use mo_to_buddy.VarTree.{Blocks, bdd_clrvarblocks}

-- What the other files keep beside the node table: replacement tables, the quantified variables,
-- `bddvar2level`, and the variable blocks.
pub record Tables : Type 0 where
  pub pairs : Pairs
  pub quantvarset : Varset
  pub var2level : ℕ → ℕ
  pub blocks : Blocks

-- The nodes that `bdd_init` writes: two constants, and free nodes linked in their order.
unfoldable pub initial_nodes : ℕ → Nodes
initial_nodes size n =
    let free : Node = record {
      high = 0;
      low = invalid;
      refcou = 0;
      level = 0;
      mark = false;
      hash = 0;
      next = if n + 1 == size then 0 else n + 1;
    } in
    if ltb n 2 then record free { high = n; low = n; refcou = maxref; level = maxlevel } else free

-- `bdd_operator_init` and `mtbdd_operator_init`
unfoldable pub operator_init : ℕ → Caches
operator_init size = record {
  apply = init size;
  ite = init size;
  quant = init size;
  appex = init size;
  replace = init size;
  misc = init size;
  mtbdd_apply = init size;
  mtbdd_ite = init size;
  mtbdd_operation = init size;
}

-- `bdd_reorder_init`
abbrev pub reorder_init : Reorder
reorder_init = record { method = 0; has_vartree = false; times = 0; disabled = false }

-- The assignments of `bdd_init`; `cachesize` is a size that `bdd_prime_gte` gave.
abbrev pub initial : ℕ → ℕ → Kernel → Kernel
initial size cachesize s = record s {
  nodes = initial_nodes size;
  nodesize = size;
  resized = false;
  caches = operator_init cachesize;
  freepos = 2;
  freenum = size - 2;
  running = true;
  varnum = 0;
  gbcollectnum = 0;
  usednodes_nextreorder = size;
  maxnodeincrease = 50000;
  errorcond = 0;
  reorder = reorder_init;
}

abbrev pub initial_tables : Tables → Tables
initial_tables t = record t {
  pairs = bdd_pairs_init;
  quantvarset = record t.quantvarset { id = 0 };
  blocks = bdd_clrvarblocks t.blocks;
}

unfoldable pub bdd_init : (ℕ → ℕ) → ℕ → ℕ → Tables → Kernel → Answer × Tables × Kernel
bdd_init prime_gte initnodesize cs t s =
    if s.running
    then (err_running, t, s)
    else (value 0, initial_tables t, initial (prime_gte initnodesize) (prime_gte cs) s)

-- How `bdd_setvarnum` ends. `out_of_range` was reported, and the caller gets 0, as after `declared`.
pub data Declaration : Type 0 where
  declared not_running out_of_range decreasing : Declaration
  failed : ℕ → Declaration

-- The references to the two nodes of the next variable.
abbrev pub enter_nodes : ℕ → ℕ → Kernel → Kernel
enter_nodes a b s = record s {
  varset = λ i. if i == s.varnum * 2 then a else if i == s.varnum * 2 + 1 then b else s.varset i;
}

abbrev pub saturate : ℕ → Kernel → Kernel
saturate n s = record s { nodes = update s.nodes n (record (s.nodes n) { refcou = maxref }) }

-- The counts of both nodes are set to MAXREF, and the variable gets the next level.
abbrev pub add_variable : ℕ → ℕ → Kernel → Kernel
add_variable a b s =
    let t = saturate b (saturate a s) in
    record t {
      level2var = λ l. if l == s.varnum then s.varnum else s.level2var l;
      varnum = s.varnum + 1;
    }

abbrev pub set_disabled : Bool → Kernel → Kernel
set_disabled b s = record s { reorder = record s.reorder { disabled = b } }

-- `LEVEL(n) = l`
abbrev pub relevel : ℕ → ℕ → Nodes → Nodes
relevel n l nodes = update nodes n (record (nodes n) { level = l })

-- `bddvar2level` after the loop has come to a variable.
abbrev pub numbered : ℕ → ℕ → (ℕ → ℕ) → ℕ → ℕ
numbered oldvarnum end var2level v = if leb oldvarnum v && ltb v end then v else var2level v

-- What follows the loop; the caches of counts are reset by `bdd_operator_varresize`.
unfoldable pub finish : ℕ → ℕ → Tables → Kernel → Tables × Kernel
finish oldvarnum num t s =
    let s' = record s {
      nodes = relevel 1 num (relevel 0 num s.nodes);
      level2var = λ l. if l == num then num else s.level2var l;
    } in
    (
      record t {
        pairs = bdd_pairs_resize oldvarnum num t.pairs s';
        quantvarset = record t.quantvarset { ids = λ l. 0; positive = λ l. true; id = 0 };
        var2level = λ v. if v == num then num else numbered oldvarnum num t.var2level v;
      },
      set_disabled false (record s' { caches = record s.caches { misc = reset s.caches.misc } }),
    )

-- The state before the loop, with a new reference stack.
abbrev pub begun : ℕ → Kernel → Kernel
begun num s = record (set_disabled true s) { refstack = []; refslots = num * 128 + 8192 }

-- How the call ends, with all variables or after an error.
unfoldable pub conclude : ℕ → ℕ → Tables → Bool → Cmd (Declaration × Tables)
unfolding finish
conclude oldvarnum num t true s = let (t', s') = finish oldvarnum num t s in done (declared, t') s'
conclude oldvarnum num t false s =
    done (failed s.errorcond, record t { var2level = numbered oldvarnum s.varnum t.var2level })
      (record s { varnum = oldvarnum })

-- The rest of a round: the loop ends at an error, and otherwise `rest` goes on.
unfoldable pub turn : Cmd Bool → ℕ × ℕ → Cmd Bool
turn rest (a, b) s =
    let entered = enter_nodes a b s in
    if s.errorcond == 0 then rest (add_variable a b entered) else done false entered

module _ (prime_lte : ℕ → ℕ) where
  -- The two nodes of the next variable; the first stays on the reference stack meanwhile.
  unfoldable pub make_variable : Cmd (ℕ × ℕ)
  make_variable s =
      (do
        a ← makenode prime_lte s.varnum 0 1
        x ← pushref a
        b ← makenode prime_lte s.varnum 1 0
        u ← popref 1
        done (x, b))
        s

  -- The loop over the variables that are still to come; false after an error.
  unfoldable pub declare : ℕ → Cmd Bool
  unfolding make_variable turn
  declare zero s = done true s
  declare (suc count) s = and_then (make_variable s) (turn (declare count))

  unfoldable pub bdd_setvarnum : Argument → Tables → Cmd (Declaration × Tables)
  unfolding declare conclude
  bdd_setvarnum (neg n) t s =
      if not s.running
      then done (not_running, t) s
      else done (out_of_range, t) (set_disabled true s)
  bdd_setvarnum (nat num) t s =
      let off = set_disabled true s in
      if not s.running
      then done (not_running, t) s
      else if ltb num 1 || leb maxlevel num
      then done (out_of_range, t) off
      else if ltb num s.varnum
      then done (decreasing, t) off
      else if num == s.varnum
      then done (declared, t) off
      else and_then (declare (num - s.varnum) (begun num s)) (conclude s.varnum num t)
