-- ===== src/Op/Varset.antt =====
-- The variable tables of src/bddop.c: `varset2vartable` and `varset2svartable` enter the levels of a
-- variable set under a new identity, which INVARSET and INSVARSET compare.
pub mod Entering
use mo_to_buddy.Prelude.{
  [], ℕ, zero, suc, ◌+◌, ◌≤◌, ◌<◌, ◌≡◌, ◌≢◌, refl, sym, ◌∙◌, ap, ◌⊎◌, ◌↔◌, inl, inr, Bool, true,
  false, Option, none, some, List, ◌∷◌, ltb, ◌==◌, if◌then◌else◌, arith, Among, ℕ_discrete,
}
use mathlib.Core.Logic.{⊎_elim}
use mo_to_buddy.Kernel.{Kernel, level, low, high}
use mo_to_buddy.Kernel.WellFormed.{Live, Ok, WellFormed}
use mo_to_buddy.Kernel.Scan.{scan, scan_constant, scan_node}

-- `quantvarset` as absolute values and signs, `quantvarsetID` and `quantlast`.
pub record Varset : Type 0 where
  pub ids : ℕ → ℕ
  pub positive : ℕ → Bool
  pub id : ℕ
  pub last : ℕ

abbrev pub int_max : ℕ
int_max = 2147483647

-- INVARSET and INSVARSET
abbrev pub in_varset : Varset → ℕ → Bool
in_varset t l = if t.ids l == t.id then t.positive l else false

abbrev pub in_svarset : Varset → ℕ → Bool
in_svarset t l = t.ids l == t.id

-- A new identity; where the numbers run out the table is cleared.
unfoldable pub next_id : ℕ → Varset → Varset
next_id limit t =
    if t.id + 1 == limit
    then record t { ids = λ l. 0; positive = λ l. true; id = 1 }
    else record t { id = t.id + 1 }

abbrev pub enter : Varset → ℕ → Bool → Varset
enter t l sign = record t {
  ids = λ i. if i == l then t.id else t.ids i;
  positive = λ i. if i == l then sign else t.positive i;
}

-- The loop along the high branches.
unfoldable pub enter_all : ℕ → Kernel → ℕ → Varset → Option Varset
enter_all zero s n t = none
enter_all (suc fuel) s n t =
    let rest =
      enter_all fuel s (high s n) (record (enter t (level s n) true) { last = level s n }) in
    if ltb 1 n then rest else some t

-- How filling the table ends: a constant is no variable set and is reported.
pub data Filling : Type 0 where
  filled : Varset → Filling
  err_varset unfinished : Filling

abbrev pub ending : Option Varset → Filling
ending none = unfinished
ending (some t) = filled t

unfoldable pub varset2vartable : ℕ → Kernel → ℕ → Varset → Filling
unfolding next_id enter_all
varset2vartable fuel s r t =
    if ltb r 2 then err_varset else ending (enter_all fuel s r (next_id int_max t))

-- The loop along the branches that are not the constant false, by sign.
unfoldable pub enter_signed : ℕ → Kernel → ℕ → Varset → Option Varset
enter_signed zero s n t = none
enter_signed (suc fuel) s n t =
    let up = high s n in
    let down = low s n in
    let rest_up =
      enter_signed fuel s up (record (enter t (level s n) true) { last = level s up }) in
    let rest_down =
      enter_signed fuel s down (record (enter t (level s n) false) { last = level s down }) in
    if ltb n 2 then some t else if low s n == 0 then rest_up else rest_down

unfoldable pub varset2svartable : ℕ → Kernel → ℕ → Varset → Filling
unfolding next_id enter_signed
varset2svartable fuel s r t =
    if ltb r 2 then err_varset else ending (enter_signed fuel s r (next_id 1073741823 t))

-- What the loop makes of a table: the levels of the list are entered, and no others.
record Entered (t t' : Varset) (ls : List ℕ) : Type 0 where
  id : t'.id ≡ t.id
  new : (l : ℕ) → Among l ls → t'.ids l ≡ t.id
  old : (l : ℕ) → ¬ Among l ls → t'.ids l ≡ t.ids l

Among-cases : (a : ℕ) (xs : List ℕ) → Among a xs ⊎ (¬ Among a xs)
Among-cases a [] = inr (λ m. m)
Among-cases a (x ∷ xs) = elim (ℕ_discrete a x) [
  | yes e ↦ inl (inl e)
  | no ne ↦
      ⊎_elim (λ (m : Among a xs). inl (inr m)) (λ (out : ¬ Among a xs). inr (⊎_elim ne out))
        (Among-cases a xs)
]

enter_new : (t : Varset) (l : ℕ) (b : Bool) → (enter t l b).ids l ≡ t.id
enter_new t l b = ground arith

enter_old : (t : Varset) (l i : ℕ) (b : Bool) → i ≢ l → (enter t l b).ids i ≡ t.ids i
enter_old t l i b ne = ground arith

Entered-more :
    (t : Varset) (l : ℕ) (ls : List ℕ) (t' : Varset)
    → Entered (record (enter t l true) { last = l }) t' ls
    → Entered t t' (l ∷ ls)
Entered-more t l ls t' r = record {
  id = r.id;
  new = λ i m. elim (Among-cases i ls) [
    | inl later ↦ r.new i later
    | inr out ↦ r.old i out ∙ ⊎_elim (here i) (λ later. absurd (out later)) m
  ];
  old = λ i out. r.old i (λ m. out (inr m)) ∙ enter_old t l i true (λ e. out (inl e));
}
  where
    here : (i : ℕ) → i ≡ l → (enter t l true).ids i ≡ t.id
    here i e = rw e (enter_new t l true)

pub enter_all_more :
    (fuel : ℕ) (s : Kernel) (n : ℕ) (t : Varset)
    → 1 < n
    → enter_all (suc fuel) s n t
      ≡ enter_all fuel s (high s n) (record (enter t (level s n) true) { last = level s n })
unfolding enter_all
enter_all_more fuel s n t big = let more : ltb 1 n ≡ true = ground arith in rw more refl

pub enter_all_stop :
    (fuel : ℕ) (s : Kernel) (n : ℕ) (t : Varset) → n < 2 → enter_all (suc fuel) s n t ≡ some t
unfolding enter_all
enter_all_stop fuel s n t small = let stop : ltb 1 n ≡ false = ground arith in rw stop refl

enter_all-Entered :
    {top : ℕ} {s : Kernel} (k n : ℕ) (t : Varset)
    → WellFormed top s
    → Ok s.nodesize s.nodes n
    → (n < 2) ⊎ (top ≤ (s.nodes n).level + k)
    → (ls : List ℕ) × (t' : Varset) × (enter_all (suc k) s n t ≡ some t')
      × (scan (suc k) s n ≡ some ls)
      × Entered t t' ls
enter_all-Entered {top} {s} k n t w (inl c) h = (
  [],
  t,
  enter_all_stop k s n t c,
  scan_constant k s n c,
  record { id = refl; new = λ l m. absurd m; old = λ l out. refl },
)
enter_all-Entered {top} {s} zero n t w (inr live) h = absurd (
    ⊎_elim (λ (c : n < 2). omega (arith, live.0))
      (λ (b : top ≤ (s.nodes n).level + 0). omega (arith, (w.live n live).level)) h)
enter_all-Entered {top} {s} (suc k) n t w (inr live) h =
    let good = w.live n live in
    let t1 = record (enter t (level s n) true) { last = level s n } in
    let (ls, t', e, sc, r) = enter_all-Entered k (high s n) t1 w good.high_ok (
      ⊎_elim inl
        (λ (lt : (s.nodes n).level < (s.nodes (high s n)).level). inr (
          ⊎_elim (λ (c : n < 2). absurd (omega (arith, live.0)))
            (λ (b : top ≤ (s.nodes n).level + suc k). omega arith) h))
        good.high_beyond) in
    (
      level s n ∷ ls,
      t',
      enter_all_more (suc k) s n t live.0 ∙ e,
      scan_node (suc k) s n ls live.0 sc,
      Entered-more t (level s n) ls t' r,
    )

-- No entry has an identity still to come, and the numbers do not run out.
abbrev pub IsPast : Varset → Type 0
IsPast t = (t.id + 1 < int_max) × ((l : ℕ) → t.ids l ≤ t.id)

pub next_id_plain :
    (t : Varset) → t.id + 1 < int_max → next_id int_max t ≡ record t { id = t.id + 1 }
unfolding next_id
next_id_plain t h = let e : (t.id + 1 == int_max) ≡ false = ground arith in rw e refl

pub varset_more :
    (fuel : ℕ) (s : Kernel) (r : ℕ) (t t' : Varset)
    → 1 < r
    → enter_all fuel s r (next_id int_max t) ≡ some t'
    → varset2vartable fuel s r t ≡ filled t'
unfolding varset2vartable
varset_more fuel s r t t' big e = let more : ltb r 2 ≡ false = ground arith in rw (more, e) refl

-- In a well-formed table, with no entry of an identity still to come and a number left, entering a
-- node as a variable set ends within one round more than there are levels in use; afterwards the
-- identity is carried by the levels along the node's high branches, and by no others.
pub varset2vartable-exact :
    {top : ℕ} {s : Kernel} (r : ℕ) (t : Varset)
    → WellFormed top s
    → Live s.nodesize s.nodes r
    → IsPast t
    → (ls : List ℕ) × (t' : Varset) × (varset2vartable (suc top) s r t ≡ filled t')
      × (scan (suc top) s r ≡ some ls)
      × ((l : ℕ) → (t'.ids l ≡ t'.id) ↔ Among l ls)
varset2vartable-exact {top} {s} r t w live (left, past) =
    let t1 = record t { id = t.id + 1 } in
    let (ls, t', e, sc, q) = enter_all-Entered top r t1 w (inr live) (inr (omega arith)) in
    (
      ls,
      t',
      varset_more (suc top) s r t t' live.0
          (ap (enter_all (suc top) s r) (next_id_plain t left) ∙ e),
      sc,
      λ l. (
        λ same. elim (Among-cases l ls) [
          | inl m ↦ m
          | inr out ↦ absurd (omega (arith, past l, q.old l out, q.id))
        ],
        λ m. q.new l m ∙ sym q.id,
      ),
    )
