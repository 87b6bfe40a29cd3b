-- ===== src/Kernel/Settings.antt =====
-- The settings and queries of src/kernel.c with their checks of the arguments. An `int` argument is
-- a natural number or negative; the error handler is taken to return.
use mo_to_buddy.Prelude.{
  ℕ, ◌+◌, ◌-◌, ◌*◌, ◌≡◌, ◌≢◌, refl, ◌∙◌, inl, inr, Bool, true, false, not, ◌&&◌, ◌||◌, ltb, leb,
  ◌==◌, if◌then◌else◌, arith,
}
use mo_to_buddy.Kernel.{Kernel, invalid, level, low, high}
use mo_to_buddy.Kernel.WellFormed.{Live, Ok, WellFormed}

pub data Argument : Type 0 where
  nat : ℕ → Argument
  -- `neg n` is -(n+1).
  neg : ℕ → Argument

-- What a call returns: a value, or the error that it gave to `bdd_error`.
pub data Answer : Type 0 where
  value : ℕ → Answer
  err_var err_range err_running err_nodes err_ill_bdd err_size err_op err_set : Answer

unfoldable pub set_max_increase : Argument → Kernel → Answer × Kernel
set_max_increase (neg n) s = (err_size, s)
set_max_increase (nat size) s = (value s.maxnodeincrease, record s { maxnodeincrease = size })

unfoldable pub set_max_node_num : Argument → Kernel → Answer × Kernel
set_max_node_num (neg n) s = (err_nodes, s)
set_max_node_num (nat size) s =
    if ltb s.nodesize size || (size == 0)
    then (value s.maxnodesize, record s { maxnodesize = size })
    else (err_nodes, s)

unfoldable pub set_min_free_nodes : Argument → Kernel → Answer × Kernel
set_min_free_nodes (neg n) s = (err_range, s)
set_min_free_nodes (nat mf) s =
    if ltb 100 mf then (err_range, s) else (value s.minfreenodes, record s { minfreenodes = mf })

abbrev pub get_node_num : Kernel → ℕ
get_node_num s = s.nodesize - s.freenum

abbrev pub get_alloc_num : Kernel → ℕ
get_alloc_num s = s.nodesize

abbrev pub is_running : Kernel → Bool
is_running s = s.running

-- CHECK(r), before the rest of a call.
unfoldable pub check : ℕ → Kernel → Answer → Answer
check r s rest =
    if not s.running
    then err_running
    else if leb s.nodesize r
    then err_ill_bdd
    else if leb 2 r && (low s r == invalid)
    then err_ill_bdd
    else rest

unfoldable pub bdd_var : ℕ → Kernel → Answer
unfolding check
bdd_var root s =
    check root s (if ltb root 2 then err_ill_bdd else value (s.level2var (level s root)))

unfoldable pub bdd_low : ℕ → Kernel → Answer
unfolding check
bdd_low root s = check root s (if ltb root 2 then err_ill_bdd else value (low s root))

unfoldable pub bdd_high : ℕ → Kernel → Answer
unfolding check
bdd_high root s = check root s (if ltb root 2 then err_ill_bdd else value (high s root))

-- An unknown variable is reported, and the constant false returned.
unfoldable pub ithvar : Argument → Kernel → ℕ
ithvar (neg n) s = 0
ithvar (nat var) s = if leb s.varnum var then 0 else s.varset (var * 2)

unfoldable pub nithvar : Argument → Kernel → ℕ
nithvar (neg n) s = 0
nithvar (nat var) s = if leb s.varnum var then 0 else s.varset (var * 2 + 1)

-- In a running, well-formed table CHECK lets every BDD pass.
pub check-Ok :
    {top : ℕ} {s : Kernel} (root : ℕ) (rest : Answer)
    → WellFormed top s
    → s.running ≡ true
    → Ok s.nodesize s.nodes root
    → check root s rest ≡ rest
unfolding check
check-Ok {top} {s} root rest w run (inl small) =
    let size = w.size_min in
    let in_table : leb s.nodesize root ≡ false = ground arith in
    let constant : leb 2 root ≡ false = ground arith in rw (run, in_table, constant) refl
check-Ok {top} {s} root rest w run (inr (big, lt, used)) =
    let in_table : leb s.nodesize root ≡ false = ground arith in
    let live : (low s root == invalid) ≡ false = ground arith in
    let node : leb 2 root ≡ true = ground arith in rw (run, in_table, node, live) refl

-- In a running, well-formed table the children that `bdd_low` and `bdd_high` return for a live node
-- are BDDs of the table again, and not equal.
children-Ok :
    {top : ℕ} {s : Kernel} (root : ℕ)
    → WellFormed top s
    → s.running ≡ true
    → Live s.nodesize s.nodes root
    → (a : ℕ) × (b : ℕ) × (bdd_low root s ≡ value a)
      × (bdd_high root s ≡ value b)
      × Ok s.nodesize s.nodes a
      × Ok s.nodesize s.nodes b
      × (a ≢ b)
unfolding bdd_low bdd_high
children-Ok {top} {s} root w run l =
    let good = w.live root l in
    let node : ltb root 2 ≡ false = let big = l.0 in ground arith in
    (
      low s root,
      high s root,
      check-Ok root (if ltb root 2 then err_ill_bdd else value (low s root)) w run (inr l)
          ∙ rw node refl,
      check-Ok root (if ltb root 2 then err_ill_bdd else value (high s root)) w run (inr l)
          ∙ rw node refl,
      good.low_ok,
      good.high_ok,
      good.differ,
    )
