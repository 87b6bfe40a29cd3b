-- ===== src/Kernel/Makenode.antt =====
-- `bdd_noderesize` and `bdd_makenode` of src/kernel.c. `bdd_prime_lte` is a parameter: its search
-- draws on `rand`, so what it returns is not a function of the program's state.
pub mod Build
pub mod Made
pub mod Resize
use mo_to_buddy.Prelude.{
  ℕ, suc, ◌+◌, ◌-◌, ◌*◌, ◌/◌, ◌%◌, Bool, true, false, not, ◌&&◌, ◌||◌, ltb, leb, ◌==◌,
  if◌then◌else◌,
}
use mo_to_buddy.Terminal.{maxlevel, not_short}
use mo_to_buddy.Kernel.{
  Node, Nodes, update, Kernel, Run, done, longjmp, out_of_fuel, Cmd, ◌>>=◌, ◌>>◌, invalid,
  node_hash, reorder_ready,
}
use mo_to_buddy.Kernel.Chain.{Walk, found, missed, unfinished, find}
use mo_to_buddy.Kernel.Partition.{link}
use mo_to_buddy.Kernel.Gbc.{gbc, rehash_all}

-- BDD_NODENUM is -17, and `bdderrorcond` keeps its absolute value.
abbrev pub nodenum : ℕ
nodenum = 17

-- The slots from the old size on made free.
abbrev pub fresh_node : ℕ → Node → Node
fresh_node n node = record node {
  low = invalid;
  refcou = 0;
  level = 0;
  mark = false;
  hash = 0;
  next = n + 1;
}

-- The node table with the new slots, the last one linked to the old free list.
unfoldable pub grown_nodes : Kernel → ℕ → Nodes
grown_nodes s newsize n = if n + 1 == newsize then record (slot n) { next = s.freepos } else slot n
  where
    slot : Nodes
    slot i = if leb s.nodesize i && ltb i newsize then fresh_node i (s.nodes i) else s.nodes i

-- The old slots lose their buckets before a rehash.
unfoldable pub emptied : Bool → ℕ → Nodes → Nodes
emptied do_rehash oldsize nodes n =
    if do_rehash && ltb n oldsize then record (nodes n) { hash = 0 } else nodes n

-- The order of two ints, by their patterns of 32 bits.
unfoldable pub int_lt : ℕ → ℕ → Bool
int_lt a b = ltb ((a + 2147483648) % 4294967296) ((b + 2147483648) % 4294967296)

-- `bddnodesize` after doubling, capped by the largest increase and the largest size. The doubling and
-- the sum wrap around at 32 bits.
unfoldable pub wanted_size : Kernel → ℕ
unfolding int_lt
wanted_size s =
    let doubled = s.nodesize * 2 % 4294967296 in
    let most = (s.nodesize + s.maxnodeincrease) % 4294967296 in
    let capped = if int_lt most doubled then most else doubled in
    if int_lt s.maxnodesize capped && ltb 0 s.maxnodesize then s.maxnodesize else capped

-- `(bddfreenum*100) / bddnodesize`, where the product wraps around at 32 bits. A negative quotient is
-- counted as 0, which no limit tells from it.
unfoldable pub percent_free : Kernel → ℕ
percent_free s =
    let product = s.freenum * 100 % 4294967296 in
    if ltb product 2147483648 then product / s.nodesize else 0

-- Takes the first free node, fills it, and links it into its bucket.
unfoldable pub build : ℕ → ℕ → ℕ → Cmd ℕ
build level low high s =
    let res = s.freepos in
    let node = record (s.nodes res) {
      level = level;
      low = low;
      high = high;
      refcou = 0;
      mark = false;
    } in
    done res (record s {
      nodes = link (update s.nodes res node) (node_hash s level low high) res;
      freepos = (s.nodes res).next;
      freenum = s.freenum - 1;
      produced = s.produced + 1;
    })

-- Panic if there is still no free node.
unfoldable pub settle : Cmd Bool
settle s = if s.freepos == 0 then done false (record s { errorcond = nodenum }) else done true s

module _ (prime_lte : ℕ → ℕ) where
  -- `bdd_noderesize`; false stands for its result -1 at the largest size. `realloc` is taken to
  -- succeed, and the old buckets are emptied as the table is rehashed.
  unfoldable pub noderesize : Bool → Kernel → Bool × Kernel
  unfolding wanted_size grown_nodes emptied
  noderesize do_rehash s =
      if leb s.maxnodesize s.nodesize && ltb 0 s.maxnodesize
      then (false, s)
      else let newsize = prime_lte (wanted_size s) in
        let grown = record s {
          nodes = emptied do_rehash s.nodesize (grown_nodes s newsize);
          nodesize = newsize;
          freepos = s.nodesize;
          freenum = s.freenum + (newsize - s.nodesize);
        } in
        (true, record (if do_rehash then rehash_all false grown else grown) { resized = true })

  -- The table is grown if the collection left too few free nodes.
  unfoldable pub grow_if_few : Kernel → Kernel
  unfolding noderesize percent_free
  grow_if_few s = if leb (percent_free s) s.minfreenodes then (noderesize true s).1 else s

  -- What `bdd_makenode` does when no node is free: it collects, may jump out to reorder, grows the
  -- table if little was gained, and otherwise gives up.
  unfoldable pub make_room : Cmd Bool
  unfolding grow_if_few settle
  make_room = gbc >> λ s.
      if leb s.usednodes_nextreorder (s.nodesize - s.freenum) && reorder_ready s
      then longjmp s
      else settle (grow_if_few s)

  -- No such node exists, so one is built.
  unfoldable pub insert : ℕ → ℕ → ℕ → Cmd ℕ
  unfolding make_room build
  insert level low high s =
      if not (s.freepos == 0)
      then build level low high s
      else if not (s.errorcond == 0)
      then done 0 s
      else (make_room >>= λ room. if room then build level low high else done 0) s

  -- The end of the walk along the bucket.
  unfoldable pub resolve : ℕ → ℕ → ℕ → Kernel → Walk → Run ℕ
  unfolding insert
  resolve level low high s (found res) = done res s
  resolve level low high s missed = insert level low high s
  resolve level low high s unfinished = out_of_fuel

  -- `bdd_makenode`. A terminal of a wide domain is always built anew; its caller has looked for it.
  unfoldable pub makenode : ℕ → ℕ → ℕ → Cmd ℕ
  unfolding resolve
  makenode level low high s =
      let head = (s.nodes (node_hash s level low high)).hash in
      let walk = find (suc s.nodesize) s.nodes level low high head in
      if not (level == maxlevel) || not (not_short s.terminals.domain)
      then (if s.check_same_children && not (level == maxlevel) && (low == high)
          then done low s
          else resolve level low high s walk)
      else insert level low high s
