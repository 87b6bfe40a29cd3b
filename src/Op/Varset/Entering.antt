-- ===== src/Op/Varset/Entering.antt =====
-- `varset2vartable` of src/bddop.c on a BDD: the table and `quantlast` afterwards.
use mo_to_buddy.Prelude.{
  ℕ, zero, suc, ◌+◌, ◌≤◌, ◌<◌, ◌≡◌, refl, sym, ◌∙◌, ap, inl, inr, Bool, true, false, some, ◌==◌,
  if◌then◌else◌, arith, Bool-cases,
}
use mo_to_buddy.Tree.{Tree, leaf, node, IsOrdered}
use mo_to_buddy.Kernel.{Kernel, high}
use mo_to_buddy.Kernel.WellFormed.{WellFormed}
use mo_to_buddy.Represents.{Rep}
use mo_to_buddy.Op.Ready.{in_tree}
use mo_to_buddy.Op.Varset.{
  Varset, enter, enter_all, in_varset, varset2vartable, filled, IsPast, enter_all_more,
  enter_all_stop, varset_more, next_id_plain,
}

-- What the loop makes of a table: the levels of the tree are entered.
pub record TreeEntered (t t' : Varset) (j : ℕ) (u : Tree) : Type 0 where
  new : (l : ℕ) → in_tree u l ≡ true → in_varset t' l ≡ true
  old : (l : ℕ) → in_tree u l ≡ false → in_varset t' l ≡ in_varset t l
  last : (l : ℕ) → in_tree u l ≡ true → l ≤ t'.last
  grow : t.last ≤ j → t.last ≤ t'.last

abbrev entered : Varset → ℕ → Varset
entered t m = record (enter t m true) { last = m }

entered_here : (t : Varset) (m l : ℕ) → l ≡ m → in_varset (entered t m) l ≡ true
entered_here t m l e = ground arith

entered_else : (t : Varset) (m l : ℕ) → (l == m) ≡ false → in_varset (entered t m) l ≡ in_varset t l
entered_else t m l e = rw (e) refl

node-TreeEntered :
    (t t' : Varset) (j m : ℕ) (u v : Tree)
    → j ≤ m
    → TreeEntered (entered t m) t' (suc m) v
    → TreeEntered t t' j (node m u v)
node-TreeEntered t t' j m u v le r = record {
  new = λ l h. elim (Bool-cases (in_tree v l)) [
    | inl e ↦ r.new l e
    | inr e ↦ r.old l e ∙ entered_here t m l (ground arith)
  ];
  old = λ l h. r.old l (ground arith) ∙ entered_else t m l (ground arith);
  last = λ l h. elim (Bool-cases (in_tree v l)) [
    | inl e ↦ r.last l e
    | inr e ↦ let same : l ≡ m = ground arith in omega (arith, r.grow (omega arith))
  ];
  grow = λ h. omega (arith, r.grow (omega arith));
}

enter_all-TreeEntered :
    {top : ℕ} {s : Kernel} (k n j : ℕ) (t : Varset) (u : Tree)
    → WellFormed top s
    → Rep s n u
    → IsOrdered j u
    → top ≤ j + k
    → (t' : Varset) × (enter_all (suc k) s n t ≡ some t') × TreeEntered t t' j u
enter_all-TreeEntered {top} {s} k n j t (leaf b) w rep o h = (
  t,
  enter_all_stop k s n t (small b rep),
  record {
    new = λ l e. absurd (ground arith);
    old = λ l e. refl;
    last = λ l e. absurd (ground arith);
    grow = λ e. omega arith;
  },
)
  where
    small : (b : Bool) → n ≡ (if b then 1 else 0) → n < 2
    small true e = omega (arith, e)
    small false e = omega (arith, e)
enter_all-TreeEntered {top} {s} zero n j t (node m u v) w (live, e, ru, rv) (le, ou, ov) h =
    absurd (omega (arith, (w.live n live).level))
enter_all-TreeEntered {top} {s} (suc k) n j t (node m u v) w (live, e, ru, rv) (le, ou, ov) h =
    let (t', run, r) =
      enter_all-TreeEntered k (high s n) (suc m) (entered t m) v w rv ov (omega arith) in
    (
      t',
      enter_all_more (suc k) s n t live.0
          ∙ ap (λ l. enter_all (suc k) s (high s n) (entered t l)) e
          ∙ run,
      node-TreeEntered t t' j m u v le r,
    )

-- In a well-formed table, with no entry of an identity still to come and a number left, with fuel
-- above the number of levels, entering a BDD as a variable set ends; the set is that of the levels
-- along its high branches, and none is past `quantlast`.
pub varset2vartable-in_tree :
    {top : ℕ} {s : Kernel} (fuel var : ℕ) (t : Varset) (v : Tree)
    → WellFormed top s
    → Rep s var v
    → IsOrdered 0 v
    → 1 < var
    → top < fuel
    → IsPast t
    → (t' : Varset) × (varset2vartable fuel s var t ≡ filled t')
      × ((l : ℕ) → in_varset t' l ≡ in_tree v l)
      × ((l : ℕ) → t'.last < l → in_varset t' l ≡ false)
varset2vartable-in_tree {top} {s} zero var t v w rep o big few (left, past) = absurd (omega arith)
varset2vartable-in_tree {top} {s} (suc fuel) var t v w rep o big few (left, past) =
    let t1 = record t { id = t.id + 1 } in
    let (t', run, r) = enter_all-TreeEntered fuel var 0 t1 v w rep o (omega arith) in
    let none_before : (l : ℕ) → in_varset t1 l ≡ false = λ l.
      (let p = past l in let e : (t.ids l == t.id + 1) ≡ false = ground arith in rw (e) refl) in
    let same : (l : ℕ) → in_varset t' l ≡ in_tree v l = λ l. elim (Bool-cases (in_tree v l)) [
      | inl e ↦ r.new l e ∙ sym e
      | inr e ↦ r.old l e ∙ none_before l ∙ sym e
    ] in
    (
      t',
      varset_more (suc fuel) s var t t' big
          (ap (enter_all (suc fuel) s var) (next_id_plain t left) ∙ run),
      same,
      λ l h. elim (Bool-cases (in_tree v l)) [
        | inl e ↦ absurd (omega (arith, r.last l e))
        | inr e ↦ same l ∙ e
      ],
    )
