-- ===== src/Pairs/Ids.antt =====
-- The numbers of the replacement tables of src/pairs.c, which tell cached results apart.
use mo_to_buddy.Prelude.{
  ℕ, ◌≤◌, ◌≡◌, ◌≢◌, refl, sym, subst, inl, inr, ◌||◌, List, [], ◌∷◌, leb, ◌==◌, arith, All,
  Bool-cases,
}
use mo_to_buddy.Kernel.{Kernel}
use mo_to_buddy.Kernel.Settings.{Argument, nat, neg, Answer, value, check}
use mo_to_buddy.Pairs.{
  BddPair, Pairs, bdd_pairs_init, update_pairsid, bdd_newpair, replaced, bdd_setpair,
  bdd_setbddpair, bdd_setpairs, bdd_setbddpairs, go_on, set_entry, unless_refused, bdd_resetpair,
  without, bdd_freepair,
}
use mo_to_buddy.Pairs.Distinct.{
  id_of, address_of, IsFree, Different, IsDistinct, All-mono, update_pairsid-Drawn,
  at_address-IsDistinct,
}

bdd_newpair-IsDistinct :
    (a : ℕ) (t : Pairs) (s : Kernel)
    → IsFree a t.pairs
    → IsDistinct t
    → IsDistinct (bdd_newpair a t s).0
unfolding bdd_newpair
bdd_newpair-IsDistinct a t s free d =
    let t' = (update_pairsid t s).0 in
    let r = update_pairsid-Drawn t s d in
    record {
      below = (omega arith, All-mono t'.pairs (λ p h. omega arith) r.below);
      ids = (All-mono t'.pairs (λ p h e. absurd (omega arith)) r.below, r.ids);
      addresses = (r.free a free, r.addresses);
    }

replaced-IsDistinct :
    (a l new : ℕ) (t : Pairs) (s : Kernel) → IsDistinct t → IsDistinct (replaced a l new t s).0
replaced-IsDistinct a l new t s d =
    at_address-IsDistinct a (update_pairsid t s).0.pairsid _ (λ p. refl) (λ p. refl) refl
      (update_pairsid-Drawn t s d)

bdd_resetpair-IsDistinct :
    (a : ℕ) (t : Pairs) (s : Kernel) → IsDistinct t → IsDistinct (bdd_resetpair a t s).0
unfolding bdd_resetpair
bdd_resetpair-IsDistinct a t s d =
    at_address-IsDistinct a (update_pairsid t s).0.pairsid _ (λ p. refl) (λ p. refl) refl
      (update_pairsid-Drawn t s d)

bdd_setpair-IsDistinct :
    (var2level : ℕ → ℕ) (a : ℕ) (oldvar newvar : Argument) (t : Pairs) (s : Kernel)
    → IsDistinct t
    → IsDistinct (bdd_setpair var2level a oldvar newvar t s).1
unfolding bdd_setpair
bdd_setpair-IsDistinct var2level a (neg n) newvar t s d = d
bdd_setpair-IsDistinct var2level a (nat oldvar) (neg n) t s d = d
bdd_setpair-IsDistinct var2level a (nat oldvar) (nat newvar) t s d =
    elim (Bool-cases (leb s.varnum oldvar || leb s.varnum newvar)) [
      | inl e ↦ rw e d
      | inr e ↦ rw e (replaced-IsDistinct a (var2level oldvar) _ t _ d)
    ]

set_entry-IsDistinct :
    (var2level : ℕ → ℕ) (a : ℕ) (oldvar : Argument) (newvar : ℕ) (t : Pairs) (s : Kernel)
    → IsDistinct t
    → IsDistinct (set_entry var2level a oldvar newvar t s).1
set_entry-IsDistinct var2level a (neg n) newvar t s d = d
set_entry-IsDistinct var2level a (nat oldvar) newvar t s d =
    elim (Bool-cases (leb s.varnum oldvar)) [
      | inl e ↦ rw e d
      | inr e ↦ rw e (replaced-IsDistinct a (var2level oldvar) _ t _ d)
    ]

unless_refused-IsDistinct :
    (x : Answer) (rest : Answer × Pairs × Kernel) (t : Pairs) (s : Kernel)
    → IsDistinct rest.1
    → IsDistinct t
    → IsDistinct (unless_refused x rest t s).1
unless_refused-IsDistinct (value n) rest t s r d = r
unless_refused-IsDistinct x rest t s r d = d

bdd_setbddpair-IsDistinct :
    (var2level : ℕ → ℕ) (a : ℕ) (oldvar : Argument) (newvar : ℕ) (t : Pairs) (s : Kernel)
    → IsDistinct t
    → IsDistinct (bdd_setbddpair var2level a oldvar newvar t s).1
unfolding bdd_setbddpair
bdd_setbddpair-IsDistinct var2level a oldvar newvar t s d =
    unless_refused-IsDistinct (check newvar s (value 0)) (set_entry var2level a oldvar newvar t s) t
      s (set_entry-IsDistinct var2level a oldvar newvar t s d) d

go_on-IsDistinct :
    (r : Answer × Pairs × Kernel) (rest : Pairs → Kernel → Answer × Pairs × Kernel)
    → IsDistinct r.1
    → ((t : Pairs) (s : Kernel) → IsDistinct t → IsDistinct (rest t s).1)
    → IsDistinct (go_on r rest).1
go_on-IsDistinct (value n, t, s) rest d next = next t s d
go_on-IsDistinct r rest d next = d

bdd_setpairs-IsDistinct :
    (var2level : ℕ → ℕ) (a : ℕ) (xs : List (Argument × Argument)) (t : Pairs) (s : Kernel)
    → IsDistinct t
    → IsDistinct (bdd_setpairs var2level a xs t s).1
unfolding bdd_setpairs
bdd_setpairs-IsDistinct var2level a [] t s d = d
bdd_setpairs-IsDistinct var2level a ((oldvar, newvar) ∷ xs) t s d =
    go_on-IsDistinct (bdd_setpair var2level a oldvar newvar t s) (bdd_setpairs var2level a xs)
      (bdd_setpair-IsDistinct var2level a oldvar newvar t s d)
      (bdd_setpairs-IsDistinct var2level a xs)

bdd_setbddpairs-IsDistinct :
    (var2level : ℕ → ℕ) (a : ℕ) (xs : List (Argument × ℕ)) (t : Pairs) (s : Kernel)
    → IsDistinct t
    → IsDistinct (bdd_setbddpairs var2level a xs t s).1
unfolding bdd_setbddpairs
bdd_setbddpairs-IsDistinct var2level a [] t s d = d
bdd_setbddpairs-IsDistinct var2level a ((oldvar, newvar) ∷ xs) t s d =
    go_on-IsDistinct (bdd_setbddpair var2level a oldvar newvar t s) (bdd_setbddpairs var2level a xs)
      (bdd_setbddpair-IsDistinct var2level a oldvar newvar t s d)
      (bdd_setbddpairs-IsDistinct var2level a xs)

without-All : (P : BddPair → Type 0) (a : ℕ) (ps : List BddPair) → All P ps → All P (without a ps)
without-All P a [] h = tt
without-All P a (p ∷ ps) (x, h) = elim (Bool-cases (p.address == a)) [
  | inl e ↦ rw e h
  | inr e ↦ rw e (x, without-All P a ps h)
]

without-Different :
    (field : BddPair → ℕ) (a : ℕ) (ps : List BddPair)
    → Different field ps
    → Different field (without a ps)
without-Different field a [] d = tt
without-Different field a (p ∷ ps) (ne, d) = elim (Bool-cases (p.address == a)) [
  | inl e ↦ rw e d
  | inr e ↦ rw e (without-All (λ q. field q ≢ field p) a ps ne, without-Different field a ps d)
]

-- The tables that a session can come to. Each call may find the kernel in any state, and a new table
-- stands at an address that none in use has.
pub data Reached : Pairs → Type 0 where
  begin : {t : Pairs} → t ≡ bdd_pairs_init → Reached t
  new :
      {t t' : Pairs} (a : ℕ) (s : Kernel)
      → IsFree a t.pairs
      → Reached t
      → t' ≡ (bdd_newpair a t s).0
      → Reached t'
  set :
      {t t' : Pairs} (var2level : ℕ → ℕ) (a : ℕ) (oldvar newvar : Argument) (s : Kernel)
      → Reached t
      → t' ≡ (bdd_setpair var2level a oldvar newvar t s).1
      → Reached t'
  set_bdd :
      {t t' : Pairs} (var2level : ℕ → ℕ) (a : ℕ) (oldvar : Argument) (newvar : ℕ) (s : Kernel)
      → Reached t
      → t' ≡ (bdd_setbddpair var2level a oldvar newvar t s).1
      → Reached t'
  set_many :
      {t t' : Pairs} (var2level : ℕ → ℕ) (a : ℕ) (xs : List (Argument × Argument)) (s : Kernel)
      → Reached t
      → t' ≡ (bdd_setpairs var2level a xs t s).1
      → Reached t'
  set_many_bdds :
      {t t' : Pairs} (var2level : ℕ → ℕ) (a : ℕ) (xs : List (Argument × ℕ)) (s : Kernel)
      → Reached t
      → t' ≡ (bdd_setbddpairs var2level a xs t s).1
      → Reached t'
  reset :
      {t t' : Pairs} (a : ℕ) (s : Kernel) → Reached t → t' ≡ (bdd_resetpair a t s).0 → Reached t'
  free : {t t' : Pairs} (a : ℕ) (s : Kernel) → Reached t → t' ≡ (bdd_freepair a t s).0 → Reached t'

-- After any sequence of calls that make, change, reset and free replacement tables, the tables in use
-- have different numbers, also where the numbers ran out and were given anew, and no table has a
-- number above the last one drawn.
pub Reached-IsDistinct : {t : Pairs} → Reached t → IsDistinct t
unfolding bdd_freepair
Reached-IsDistinct (begin e) =
    subst IsDistinct (sym e) (record { below = tt; ids = tt; addresses = tt })
Reached-IsDistinct (new {t} a s f r e) =
    subst IsDistinct (sym e) (bdd_newpair-IsDistinct a t s f (Reached-IsDistinct r))
Reached-IsDistinct (set {t} v a o n s r e) =
    subst IsDistinct (sym e) (bdd_setpair-IsDistinct v a o n t s (Reached-IsDistinct r))
Reached-IsDistinct (set_bdd {t} v a o n s r e) =
    subst IsDistinct (sym e) (bdd_setbddpair-IsDistinct v a o n t s (Reached-IsDistinct r))
Reached-IsDistinct (set_many {t} v a xs s r e) =
    subst IsDistinct (sym e) (bdd_setpairs-IsDistinct v a xs t s (Reached-IsDistinct r))
Reached-IsDistinct (set_many_bdds {t} v a xs s r e) =
    subst IsDistinct (sym e) (bdd_setbddpairs-IsDistinct v a xs t s (Reached-IsDistinct r))
Reached-IsDistinct (reset {t} a s r e) =
    subst IsDistinct (sym e) (bdd_resetpair-IsDistinct a t s (Reached-IsDistinct r))
Reached-IsDistinct (free {t} a s r e) = subst IsDistinct (sym e) (
    let d = Reached-IsDistinct r in
    record {
      below = without-All (λ p. p.id ≤ t.pairsid) a t.pairs d.below;
      ids = without-Different id_of a t.pairs d.ids;
      addresses = without-Different address_of a t.pairs d.addresses;
    })
