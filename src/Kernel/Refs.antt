-- ===== src/Kernel/Refs.antt =====
-- Reference counts and the reference stack: `bdd_addref`, `bdd_delref`, PUSHREF, READREF, POPREF.
pub mod Counted
use mo_to_buddy.Prelude.{
  ℕ, ◌+◌, ◌-◌, ◌||◌, ◌&&◌, not, ◌∷◌, ltb, ◌==◌, if◌then◌else◌, length, drop, get_or,
}
use mo_to_buddy.Kernel.{Node, update, Kernel, done, abort, Cmd, invalid, maxref, low}

-- What a public call returns: a node, or one of the negative codes given to `bdd_error`. The error
-- handler is taken to return.
pub data Result : Type 0 where
  node : ℕ → Result
  ill_bdd : Result

-- INCREF and DECREF: a count at MAXREF stays there.
abbrev pub incref : Node → Node
incref n = if ltb n.refcou maxref then record n { refcou = n.refcou + 1 } else n

abbrev pub decref : Node → Node
decref n =
    if not (n.refcou == maxref) && ltb 0 n.refcou then record n { refcou = n.refcou - 1 } else n

unfoldable pub addref : ℕ → Kernel → Result × Kernel
addref root s =
    if ltb root 2 || not s.running
    then (node root, s)
    else if not (ltb root s.nodesize)
    then (ill_bdd, s)
    else if low s root == invalid
    then (ill_bdd, s)
    else (node root, record s { nodes = update s.nodes root (incref (s.nodes root)) })

-- A node with no reference is reported by `bdd_error(BDD_BREAK)`, and the call goes on.
unfoldable pub delref : ℕ → Kernel → Result × Kernel
delref root s =
    if ltb root 2 || not s.running
    then (node root, s)
    else if not (ltb root s.nodesize)
    then (ill_bdd, s)
    else if low s root == invalid
    then (ill_bdd, s)
    else (node root, record s { nodes = update s.nodes root (decref (s.nodes root)) })

-- PUSHREF, after its operand was computed; a full stack aborts.
unfoldable pub pushref : ℕ → Cmd ℕ
pushref a s =
    if ltb (length s.refstack) s.refslots
    then done a (record s { refstack = a ∷ s.refstack })
    else abort

-- READREF(k) counts from 1.
abbrev pub readref : ℕ → Kernel → ℕ
readref k s = get_or s.refstack (k - 1) 0

unfoldable pub popref : ℕ → Cmd (Unit {0})
popref k s =
    if ltb (length s.refstack) k then abort else done tt (record s { refstack = drop k s.refstack })
