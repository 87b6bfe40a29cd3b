-- ===== src/Session/Held.antt =====
-- References stay what they are while operators of src/bddop.c run, and `bdd_addref` and `bdd_delref`
-- add and drop one.
pub mod Kept
use mo_to_buddy.Prelude.{
  [], ℕ, zero, suc, ◌+◌, ◌-◌, ◌≤◌, ◌<◌, ◌≡◌, ◌≢◌, refl, sym, ◌∙◌, subst, ◌⊎◌, inl, inr, Bool, true,
  false, List, ◌∷◌, ltb, ◌==◌, if◌then◌else◌, arith, dec_lt, ℕ_discrete,
}
use mathlib.Core.Logic.{⊎_elim}
use mo_to_buddy.Tree.{leaf, Assignment}
use mo_to_buddy.Kernel.{Kernel, maxref}
use mo_to_buddy.Kernel.WellFormed.{Live, Ok}
use mo_to_buddy.Kernel.Protected.{counted}
use mo_to_buddy.Kernel.Refs.{Result, addref, delref}
use mo_to_buddy.Kernel.Refs.Counted.{recount, recount_count, more, fewer, addref_live, delref_live}
use mo_to_buddy.Represents.{Denotes}
use mo_to_buddy.Session.{Ref, owners, nth, remove, AllTrue, Session}
pub use mo_to_buddy.Session.Held.Kept.{
  held-Protected, Session-Retains, Session-Good, Session-Collected,
}
use mo_to_buddy.Session.Held.Kept.{recount-Extends, recount-Ready, Denotes-Extends, AllTrue-Extends}

-- The count of one node changes, and with it the references that are held.
module _ {top : ℕ} {s : Kernel} {held held' : List Ref} (root c : ℕ) where
  Session-recount :
      Session top s held
      → Live s.nodesize s.nodes root
      → ((n : ℕ) → 1 < n → n ≢ root → owners n held' ≡ owners n held)
      → (owners root held' ≤ c) ⊎ (maxref ≤ c)
      → (s.errorcond ≡ 0 → AllTrue s held')
      → Session top (recount s root c) held'
  Session-recount h live others enough truths = record {
    ready = recount-Ready root c h.ready live;
    running = h.running;
    room = h.room;
    counted = λ n big own. elim (ℕ_discrete n root) [
      | yes e ↦
          subst
            (λ i.
              Live s.nodesize (recount s root c).nodes i
              × ((owners i held' ≤ ((recount s root c).nodes i).refcou)
                  ⊎ (maxref ≤ ((recount s root c).nodes i).refcou)))
            (sym e)
            (
              (recount-Extends s root c root live).0,
              ⊎_elim (λ (a : owners root held' ≤ c). inl (omega (arith, recount_count s root c)))
                  (λ (a : maxref ≤ c). inr (omega (arith, recount_count s root c))) enough,
            )
      | no ne ↦
          let (l, a) = h.counted n big (omega (arith, others n big ne)) in
          let same : ((recount s root c).nodes n).refcou ≡ (s.nodes n).refcou = ground arith in
          (
            (recount-Extends s root c n l).0,
            ⊎_elim
                (λ (b : owners n held ≤ (s.nodes n).refcou). inl (omega (arith, others n big ne)))
                (λ (b : maxref ≤ (s.nodes n).refcou). inr (omega arith)) a,
          )
    ];
    truths = λ z. AllTrue-Extends s (recount s root c) held' (recount-Extends s root c) (truths z);
  }

  -- A constant is never counted.
  Session-constant :
      Session top s held
      → root < 2
      → ((n : ℕ) → 1 < n → n ≢ root → owners n held' ≡ owners n held)
      → (s.errorcond ≡ 0 → AllTrue s held')
      → Session top s held'
  Session-constant h small others truths = record {
    ready = h.ready;
    running = h.running;
    room = h.room;
    counted = λ n big own.
        let e = others n big (λ e. omega arith) in
        let (l, a) = h.counted n big (omega arith) in
        (l, ⊎_elim (λ (b : owners n held ≤ (s.nodes n).refcou). inl (omega arith)) inr a);
    truths = truths;
  }

addref_const : (r : ℕ) (s : Kernel) → r < 2 → addref r s ≡ (Result.node r, s)
unfolding addref
addref_const r s small = let e : ltb r 2 ≡ true = ground arith in rw e refl

delref_const : (r : ℕ) (s : Kernel) → r < 2 → delref r s ≡ (Result.node r, s)
unfolding delref
delref_const r s small = let e : ltb r 2 ≡ true = ground arith in rw e refl

more_enough : (o c : ℕ) → (o ≤ c) ⊎ (maxref ≤ c) → (1 + o ≤ more c) ⊎ (maxref ≤ more c)
more_enough o c h = elim (dec_lt c maxref) [
  | yes lt ↦
      let e : more c ≡ c + 1 = ground arith in
      ⊎_elim (λ (a : o ≤ c). inl (omega arith)) (λ (a : maxref ≤ c). absurd (omega arith)) h
  | no ge ↦ let e : more c ≡ c = ground arith in inr (omega arith)
]

fewer_enough : (o c : ℕ) → (1 + o ≤ c) ⊎ (maxref ≤ c) → (o ≤ fewer c) ⊎ (maxref ≤ fewer c)
fewer_enough o c h = elim (ℕ_discrete c maxref) [
  | yes stuck ↦ let e : fewer c ≡ c = ground arith in inr (omega arith)
  | no ne ↦
      ⊎_elim (λ (a : 1 + o ≤ c). let e : fewer c ≡ c - 1 = ground arith in inl (omega arith))
        (λ (a : maxref ≤ c). let e : fewer c ≡ c - 1 = ground arith in inr (omega arith)) h
]

-- `bdd_addref` of a valid BDD returns it, and makes it held.
pub Session-own :
    {top : ℕ} {s : Kernel} {held : List Ref} (r : ℕ) (f : Assignment → Bool)
    → Session top s held
    → Ok s.nodesize s.nodes r
    → (s.errorcond ≡ 0 → Denotes s r f)
    → ((addref r s).0 ≡ Result.node r)
      × Session top (addref r s).1 (record { bdd = r; truth = f } ∷ held)
Session-own {top} {s} {held} r f h (inl small) d =
    rw (addref_const r s small)
      (refl, Session-constant r 0 h small (λ n big ne. ground arith) (λ z. (d z, h.truths z)))
Session-own {top} {s} {held} r f h (inr live) d =
    let one : owners r (record { bdd = r; truth = f } ∷ held) ≡ 1 + owners r held = ground arith in
    let old : (owners r held ≤ (s.nodes r).refcou) ⊎ (maxref ≤ (s.nodes r).refcou) =
      elim (ℕ_discrete (owners r held) 0) [
        | yes z ↦ inl (omega arith)
        | no some ↦ (h.counted r live.0 (omega arith)).1
      ] in
    rw (addref_live s r h.running live) (
      refl,
      Session-recount r (more (s.nodes r).refcou) h live (λ n big ne. ground arith)
          (subst (λ o. (o ≤ more (s.nodes r).refcou) ⊎ (maxref ≤ more (s.nodes r).refcou)) (sym one)
            (more_enough (owners r held) (s.nodes r).refcou old))
          (λ z. (d z, h.truths z)),
    )

owners-nth :
    (held : List Ref) (i n : ℕ)
    → 1 < n
    → owners n held ≡ (if n == (nth held i).bdd then 1 else 0) + owners n (remove held i)
owners-nth [] i n big = ground arith
owners-nth (x ∷ held) zero n big = refl
owners-nth (x ∷ held) (suc i) n big = let e = owners-nth held i n big in omega arith

AllTrue-remove : (s : Kernel) (held : List Ref) (i : ℕ) → AllTrue s held → AllTrue s (remove held i)
AllTrue-remove s [] i a = tt
AllTrue-remove s (x ∷ held) zero (d, a) = a
AllTrue-remove s (x ∷ held) (suc i) (d, a) = (d, AllTrue-remove s held i a)

-- `bdd_delref` of what is held at a position returns it, and drops that reference.
pub Session-drop :
    {top : ℕ} {s : Kernel} {held : List Ref} (i : ℕ)
    → Session top s held
    → ((delref (nth held i).bdd s).0 ≡ Result.node (nth held i).bdd)
      × Session top (delref (nth held i).bdd s).1 (remove held i)
Session-drop {top} {s} {held} i h =
    let r = (nth held i).bdd in
    let rest = λ (z : s.errorcond ≡ 0). AllTrue-remove s held i (h.truths z) in
    let others : (n : ℕ) → 1 < n → n ≢ r → owners n (remove held i) ≡ owners n held = λ n big ne.
      let e = owners-nth held i n big in
      let other : (n == r) ≡ false = ground arith in ground arith in
    elim (dec_lt r 2) [
      | yes small ↦ rw (delref_const r s small) (refl, Session-constant r 0 h small others rest)
      | no big ↦
          let one : owners r held ≡ 1 + owners r (remove held i) =
            owners-nth held i r (omega arith) ∙ ground arith in
          let (live, enough) = h.counted r (omega arith) (omega (arith, one)) in
          let left : (owners r (remove held i) ≤ fewer (s.nodes r).refcou)
              ⊎ (maxref ≤ fewer (s.nodes r).refcou) =
            fewer_enough (owners r (remove held i)) (s.nodes r).refcou
              (subst (λ o. (o ≤ (s.nodes r).refcou) ⊎ (maxref ≤ (s.nodes r).refcou)) one enough) in
          rw (delref_live s r h.running live)
            (refl, Session-recount r (fewer (s.nodes r).refcou) h live others left rest)
    ]

-- A constant may be counted as held without a call.
pub Session-const :
    {top : ℕ} {s : Kernel} {held : List Ref} (b : Bool)
    → Session top s held
    → Session top s (record { bdd = if b then 1 else 0; truth = λ ρ. b } ∷ held)
Session-const true h =
    Session-constant 1 0 h (omega arith) (λ n big ne. ground arith)
      (λ z. ((leaf true, refl, λ ρ. refl), h.truths z))
Session-const false h =
    Session-constant 0 0 h (omega arith) (λ n big ne. ground arith)
      (λ z. ((leaf false, refl, λ ρ. refl), h.truths z))

-- A reference that is dropped and counted again.
pub Session-regain :
    {top : ℕ} {s : Kernel} {held : List Ref} (x : Ref)
    → Session top s (x ∷ held)
    → ((delref x.bdd s).0 ≡ Result.node x.bdd)
      × ((addref x.bdd (delref x.bdd s).1).0 ≡ Result.node x.bdd)
      × Session top (addref x.bdd (delref x.bdd s).1).1 (x ∷ held)
Session-regain {top} {s} {held} x h =
    let (e, dropped) = Session-drop zero h in
    let (e', again) = Session-own x.bdd x.truth dropped still.0 still.1 in (e, e', again)
  where
    still :
        Ok (delref x.bdd s).1.nodesize (delref x.bdd s).1.nodes x.bdd
        × ((delref x.bdd s).1.errorcond ≡ 0 → Denotes (delref x.bdd s).1 x.bdd x.truth)
    still = elim (dec_lt x.bdd 2) [
      | yes small ↦ rw (delref_const x.bdd s small) (inl small, λ z. (h.truths z).0)
      | no big ↦
          let (live, enough) = h.counted x.bdd (omega arith) (ground arith) in
          let c = fewer (s.nodes x.bdd).refcou in
          rw (delref_live s x.bdd h.running live) (
            inr ((recount-Extends s x.bdd c x.bdd live).0),
            λ z.
                Denotes-Extends s (recount s x.bdd c) x.bdd x.truth (recount-Extends s x.bdd c)
                  (h.truths z).0,
          )
    ]
