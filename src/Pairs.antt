-- ===== src/Pairs.antt =====
-- The replacement tables of src/pairs.c. A table is known by its address; memory is taken to be there.
pub mod Distinct
pub mod Ids
use mo_to_buddy.Prelude.{
  [], ℕ, zero, suc, ◌+◌, Bool, true, ◌&&◌, ◌||◌, List, ◌∷◌, map, leb, ltb, ◌==◌, if◌then◌else◌,
}
use mo_to_buddy.Kernel.{Kernel}
use mo_to_buddy.Kernel.Gbc.{operator_reset}
use mo_to_buddy.Kernel.Refs.{Result, node, ill_bdd, addref, delref}
use mo_to_buddy.Kernel.Settings.{Argument, nat, neg, Answer, value, err_var, ithvar, check}

-- `bddPair`, with its address in place of the pointers that lead to it.
pub record BddPair : Type 0 where
  pub address : ℕ
  pub result : ℕ → ℕ
  pub last : Argument
  pub id : ℕ

-- `pairsid` and `pairs`
pub record Pairs : Type 0 where
  pub pairsid : ℕ
  pub pairs : List BddPair

abbrev pub bdd_pairs_init : Pairs
bdd_pairs_init = record { pairsid = 0; pairs = [] }

-- INT_MAX >> 2
abbrev pub last_pairsid : ℕ
last_pairsid = 536870911

abbrev pub renumber : ℕ → List BddPair → List BddPair
renumber id [] = []
renumber id (p ∷ ps) = record p { id = id } ∷ renumber (id + 1) ps

abbrev pub count : List BddPair → ℕ
count [] = 0
count (p ∷ ps) = suc (count ps)

-- The number that it returns is the new `pairsid`.
unfoldable pub update_pairsid : Pairs → Kernel → Pairs × Kernel
update_pairsid t s =
    let id = t.pairsid + 1 in
    if id == last_pairsid
    then (
      record { pairsid = count t.pairs; pairs = renumber 0 t.pairs },
      record s { caches = operator_reset s.caches },
    )
    else (record t { pairsid = id }, s)

-- Writes to the table at an address.
abbrev pub at_address : ℕ → (BddPair → BddPair) → List BddPair → List BddPair
at_address a f [] = []
at_address a f (p ∷ ps) = (if p.address == a then f p else p) ∷ at_address a f ps

abbrev pub is_above : ℕ → Argument → Bool
is_above l (neg n) = true
is_above l (nat last) = ltb last l

-- The table of no replacements, at a new address.
unfoldable pub bdd_newpair : ℕ → Pairs → Kernel → Pairs × Kernel
unfolding update_pairsid
bdd_newpair a t s =
    let (t', s') = update_pairsid t s in
    let p : BddPair = record {
      address = a;
      result = λ n. ithvar (nat (s.level2var n)) s;
      last = neg 0;
      id = t'.pairsid;
    } in
    (record t' { pairs = p ∷ t'.pairs }, s')

-- The entry of one level becomes another BDD, under a new number.
abbrev pub replaced : ℕ → ℕ → ℕ → Pairs → Kernel → Pairs × Kernel
replaced a l new t s =
    let (t', s') = update_pairsid t s in
    (
      record t' {
        pairs =
            at_address a
              (λ p. record p {
                result = λ n. if n == l then new else p.result n;
                last = if is_above l p.last then nat l else p.last;
                id = t'.pairsid;
              })
              t'.pairs;
      },
      s',
    )

abbrev pub entry_of : ℕ → ℕ → List BddPair → ℕ
entry_of a l [] = 0
entry_of a l (p ∷ ps) = if p.address == a then p.result l else entry_of a l ps

abbrev pub unless_refused :
    Answer → Answer × Pairs × Kernel → Pairs → Kernel → Answer × Pairs × Kernel
unless_refused (value n) rest t s = rest
unless_refused e rest t s = (e, t, s)

-- `bddvar2level`
module _ (var2level : ℕ → ℕ) where
  unfoldable pub bdd_setpair : ℕ → Argument → Argument → Pairs → Kernel → Answer × Pairs × Kernel
  unfolding update_pairsid delref ithvar
  bdd_setpair a (neg n) newvar t s = (err_var, t, s)
  bdd_setpair a (nat oldvar) (neg n) t s = (err_var, t, s)
  bdd_setpair a (nat oldvar) (nat newvar) t s =
      let l = var2level oldvar in
      let s1 = (delref (entry_of a l t.pairs) s).1 in
      let (t', s') = replaced a l (ithvar (nat newvar) s) t s1 in
      if leb s.varnum oldvar || leb s.varnum newvar then (err_var, t, s) else (value 0, t', s')

  abbrev pub node_of : Result → ℕ → ℕ
  node_of (node n) r = n
  node_of ill_bdd r = 0

  -- The call behind CHECK.
  abbrev pub set_entry : ℕ → Argument → ℕ → Pairs → Kernel → Answer × Pairs × Kernel
  set_entry a (neg n) newvar t s = (err_var, t, s)
  set_entry a (nat oldvar) newvar t s =
      let l = var2level oldvar in
      let s1 = (delref (entry_of a l t.pairs) s).1 in
      let (r, s2) = addref newvar s1 in
      let (t', s') = replaced a l (node_of r newvar) t s2 in
      if leb s.varnum oldvar then (err_var, t, s) else (value 0, t', s')

  unfoldable pub bdd_setbddpair : ℕ → Argument → ℕ → Pairs → Kernel → Answer × Pairs × Kernel
  unfolding update_pairsid delref addref check
  bdd_setbddpair a oldvar newvar t s =
      unless_refused (check newvar s (value 0)) (set_entry a oldvar newvar t s) t s

-- The next round of a loop, or the error that ends it.
abbrev pub go_on :
    Answer × Pairs × Kernel → (Pairs → Kernel → Answer × Pairs × Kernel) → Answer × Pairs × Kernel
go_on (value n, t, s) rest = rest t s
go_on r rest = r

unfoldable pub bdd_setpairs :
    (ℕ → ℕ) → ℕ → List (Argument × Argument) → Pairs → Kernel → Answer × Pairs × Kernel
unfolding bdd_setpair
bdd_setpairs var2level a [] t s = (value 0, t, s)
bdd_setpairs var2level a ((oldvar, newvar) ∷ xs) t s =
    go_on (bdd_setpair var2level a oldvar newvar t s) (bdd_setpairs var2level a xs)

unfoldable pub bdd_setbddpairs :
    (ℕ → ℕ) → ℕ → List (Argument × ℕ) → Pairs → Kernel → Answer × Pairs × Kernel
unfolding bdd_setbddpair
bdd_setbddpairs var2level a [] t s = (value 0, t, s)
bdd_setbddpairs var2level a ((oldvar, newvar) ∷ xs) t s =
    go_on (bdd_setbddpair var2level a oldvar newvar t s) (bdd_setbddpairs var2level a xs)

-- The old entries are not released, and the new ones go by variables, not by levels.
unfoldable pub bdd_resetpair : ℕ → Pairs → Kernel → Pairs × Kernel
unfolding update_pairsid ithvar
bdd_resetpair a t s =
    let (t', s') = update_pairsid t s in
    (
      record t' {
        pairs =
            at_address a
              (λ p. record p {
                result = λ n. if ltb n s.varnum then ithvar (nat n) s else p.result n;
                last = nat 0;
                id = t'.pairsid;
              })
              t'.pairs;
      },
      s',
    )

abbrev pub without : ℕ → List BddPair → List BddPair
without a [] = []
without a (p ∷ ps) = if p.address == a then ps else p ∷ without a ps

-- The loop of `bdd_freepair` over the entries.
unfoldable pub release_entries : ℕ → ℕ → ℕ → Pairs → Kernel → Kernel
unfolding delref
release_entries zero n a t s = s
release_entries (suc rounds) n a t s =
    release_entries rounds (n + 1) a t (delref (entry_of a n t.pairs) s).1

unfoldable pub bdd_freepair : ℕ → Pairs → Kernel → Pairs × Kernel
unfolding release_entries
bdd_freepair a t s = (record t { pairs = without a t.pairs }, release_entries s.varnum 0 a t s)

-- `bdd_pairs_done`, which also frees the tables.
unfoldable pub bdd_pairs_done : List BddPair → Pairs → Kernel → Kernel
unfolding release_entries
bdd_pairs_done [] t s = s
bdd_pairs_done (p ∷ ps) t s = bdd_pairs_done ps t (release_entries s.varnum 0 p.address t s)

-- Two adjacent levels change places.
unfoldable pub bdd_pairs_vardown : ℕ → Pairs → Pairs
bdd_pairs_vardown l t = record t {
  pairs =
      map
        (λ (p : BddPair). record p {
          result = λ n.
              if n == l then p.result (l + 1) else if n == l + 1 then p.result l else p.result n;
          last = elim p.last [ neg m ↦ neg m | nat k ↦ if k == l then nat (k + 1) else nat k ];
        })
        t.pairs;
}

unfoldable pub bdd_pairs_resize : ℕ → ℕ → Pairs → Kernel → Pairs
unfolding ithvar
bdd_pairs_resize oldsize newsize t s = record t {
  pairs =
      map
        (λ (p : BddPair). record p {
          result = λ n.
              if leb oldsize n && ltb n newsize then ithvar (nat (s.level2var n)) s else p.result n;
        })
        t.pairs;
}
