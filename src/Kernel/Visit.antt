-- ===== src/Kernel/Visit.antt =====
-- The other recursions over marked nodes of src/kernel.c: `bdd_mark_upto`, `bdd_markcount`,
-- `bdd_unmark` and `bdd_unmark_upto`. The fuel bounds the depth of the recursion.
use mo_to_buddy.Prelude.{
  ℕ, zero, suc, ◌+◌, true, false, not, ◌||◌, Option, none, some, ltb, ◌==◌, if◌then◌else◌,
}
use mo_to_buddy.Kernel.{Nodes, update, invalid}
use mo_to_buddy.Kernel.Gbc.{with_mark, in_turn}

unfoldable pub mark_upto : ℕ → ℕ → ℕ → Nodes → Option Nodes
unfolding in_turn
mark_upto zero level i nodes = none
mark_upto (suc fuel) level i nodes =
    let rest =
      in_turn (mark_upto fuel level) (nodes i).low (nodes i).high
        (update nodes i (with_mark true (nodes i))) in
    if ltb i 2
    then some nodes
    else if (nodes i).mark || ((nodes i).low == invalid)
    then some nodes
    else if ltb level (nodes i).level
    then some nodes
    else rest

-- With the count of nodes marked so far.
unfoldable pub markcount : ℕ → ℕ → Nodes → ℕ → Option (Nodes × ℕ)
markcount zero i nodes cou = none
markcount (suc fuel) i nodes cou =
    let rest : Option (Nodes × ℕ) =
      elim (markcount fuel (nodes i).low (update nodes i (with_mark true (nodes i))) (cou + 1)) [
        | none ↦ none
        | some (nodes', cou') ↦ markcount fuel (nodes' i).high nodes' cou'
      ] in
    if ltb i 2
    then some (nodes, cou)
    else if (nodes i).mark || ((nodes i).low == invalid)
    then some (nodes, cou)
    else rest

unfoldable pub unmark : ℕ → ℕ → Nodes → Option Nodes
unfolding in_turn
unmark zero i nodes = none
unmark (suc fuel) i nodes =
    let rest =
      in_turn (unmark fuel) (nodes i).low (nodes i).high
        (update nodes i (with_mark false (nodes i))) in
    if ltb i 2
    then some nodes
    else if not (nodes i).mark || ((nodes i).low == invalid)
    then some nodes
    else rest

unfoldable pub unmark_upto : ℕ → ℕ → ℕ → Nodes → Option Nodes
unfolding in_turn
unmark_upto zero level i nodes = none
unmark_upto (suc fuel) level i nodes =
    let cleared = update nodes i (with_mark false (nodes i)) in
    let rest = in_turn (unmark_upto fuel level) (nodes i).low (nodes i).high cleared in
    if ltb i 2
    then some nodes
    else if not (nodes i).mark
    then some nodes
    else if ltb level (nodes i).level
    then some cleared
    else rest
