-- ===== src/Session/Perform/Refines.antt =====
-- What a client holds is what its actions mean.
use mo_to_buddy.Prelude.{
  ℕ, zero, suc, ◌*◌, ◌≤◌, ◌<◌, ◌≡◌, refl, ◌∙◌, ap, Bool, true, false, not, some, List, [], ◌∷◌, map,
  if◌then◌else◌, arith,
}
use mathlib.Core.Path.{ap₂}
use mo_to_buddy.Tree.{Assignment, eval}
use mo_to_buddy.Kernel.{Kernel, done, Cmd, and_then, ◌>>=◌}
use mo_to_buddy.Kernel.Gbc.Collect.{gbc-Collected}
use mo_to_buddy.Kernel.Makenode.{makenode}
use mo_to_buddy.Kernel.Makenode.Resize.{FindsPrimes}
use mo_to_buddy.Kernel.Refs.{addref, delref}
use mo_to_buddy.Kernel.Settings.{Answer, value}
use mo_to_buddy.Op.{Op, not_rec, apply_rec}
use mo_to_buddy.Op.Ready.{op_bool, Before2, Before3, Ready, restack-Ready}
use mo_to_buddy.Op.Fact.{Before}
use mo_to_buddy.Op.Runs.{Good}
use mo_to_buddy.Op.Negation.{not_rec-Runs}
use mo_to_buddy.Op.Apply.{apply_rec-Runs}
use mo_to_buddy.Op.Choice.{ite_rec-Runs, not_rec-Negates}
use mo_to_buddy.Op.Ite.{ite_rec}
use mo_to_buddy.Op.Call.{initref, checka, guarded, bdd_not, bdd_apply, bdd_ite}
use mo_to_buddy.Op.Call.Returns.{guarded-Good, checka_passes}
use mo_to_buddy.Session.{Ref, Session, nth, remove}
use mo_to_buddy.Session.Held.{Session-Good, Session-own, Session-drop, Session-Collected}
use mo_to_buddy.Session.Perform.{
  Action, negate, combine, choose, drop, collect, item, without, meaning, meaning_all, keep,
  perform, perform_all,
}
use mo_to_buddy.Session.Perform.Operand.{Operand, operand}

abbrev pub bdds : List Ref → List ℕ
bdds held = map (λ (x : Ref). x.bdd) held

abbrev pub truths : List Ref → List (Assignment → Bool)
truths held = map (λ (x : Ref). x.truth) held

pub item-bdds : (held : List Ref) (i : ℕ) → item 0 (bdds held) i ≡ (nth held i).bdd
item-bdds [] i = refl
item-bdds (x ∷ held) zero = refl
item-bdds (x ∷ held) (suc i) = item-bdds held i

pub item-truths : (held : List Ref) (i : ℕ) → item (λ _. false) (truths held) i ≡ (nth held i).truth
item-truths [] i = refl
item-truths (x ∷ held) zero = refl
item-truths (x ∷ held) (suc i) = item-truths held i

without-bdds : (held : List Ref) (i : ℕ) → without (bdds held) i ≡ bdds (remove held i)
without-bdds [] i = refl
without-bdds (x ∷ held) zero = refl
without-bdds (x ∷ held) (suc i) = ap (λ xs. x.bdd ∷ xs) (without-bdds held i)

without-truths : (held : List Ref) (i : ℕ) → without (truths held) i ≡ truths (remove held i)
without-truths [] i = refl
without-truths (x ∷ held) zero = refl
without-truths (x ∷ held) (suc i) = ap (λ xs. x.truth ∷ xs) (without-truths held i)

-- The client goes on, holding what is meant.
abbrev pub Refined : ℕ → Cmd (List ℕ) → Kernel → List (Assignment → Bool) → Type 0
Refined top call s fs =
    (held' : List Ref) × (s' : Kernel) × (call s ≡ done (bdds held') s')
    × Session top s' held'
    × (truths held' ≡ fs)

initref-Ready : {top : ℕ} {s : Kernel} → Ready top s → Ready top (initref s)
initref-Ready ready = restack-Ready [] ready (λ n m. absurd m)

-- A result is held.
kept-Refined :
    {top : ℕ} (held : List Ref) (s : Kernel) (call : Cmd Answer) (B : ℕ → Type 0)
    (f g : Assignment → Bool)
    → Session top s held
    → (s.errorcond ≡ 0 → (ρ : Assignment) → f ρ ≡ g ρ)
    → (r : ℕ) × (s' : Kernel) × (call s ≡ done (value r) s') × Good top (initref s) s' B f r
    → Refined top (call >>= keep (bdds held)) s (g ∷ truths held)
unfolding keep
kept-Refined {top} held s call B f g h same (r, s', e, d) =
    let h' = Session-Good h d in
    let (t, kept) =
      Session-own r g h' d.fact.ok
        (λ z. let (t, rep, k) = d.fact.right z in (t, rep, λ ρ. k ρ ∙ same (d.error z) ρ)) in
    (
      record { bdd = r; truth = g } ∷ held,
      (addref r s').1,
      ap (λ o. and_then o (keep (bdds held))) e,
      kept,
      refl,
    )

module _ (prime_gte : ℕ → ℕ) (ratio : ℕ) (reorder_auto : Kernel → Kernel) (gain : Kernel → ℕ)
    (prime_lte : ℕ → ℕ) (primes : FindsPrimes prime_lte) (fuel : ℕ) where
  abbrev run : Action → List ℕ → Cmd (List ℕ)
  run = perform prime_gte ratio reorder_auto gain prime_lte fuel

  -- The body of a call, behind the checks and in the block of `setjmp`.
  abbrev pub Returned : ℕ → Cmd Answer → Kernel → (ℕ → Type 0) → (Assignment → Bool) → Type 0
  Returned top call s B f =
      (r : ℕ) × (s' : Kernel) × (call s ≡ done (value r) s') × Good top (initref s) s' B f r

  not-Returned :
      {top : ℕ} (s : Kernel) (a : ℕ) (f : Assignment → Bool)
      → Ready top s
      → s.running ≡ true
      → 2 * top ≤ s.refslots
      → top < fuel
      → (x : Operand top s a f)
      → Returned top
          (bdd_not prime_gte ratio reorder_auto gain prime_lte fuel a)
          s
          (Before x.tree)
          (λ ρ. not (eval x.tree ρ))
  unfolding bdd_not
  not-Returned {top} s a f ready run room few x =
      let body = not_rec (makenode prime_lte) fuel a in
      let (r, s', e, d) = guarded-Good prime_gte ratio reorder_auto gain s body (
        not_rec-Runs prime_lte primes fuel 0 (initref s) a x.tree (initref-Ready ready) x.arg
          (let h = x.small in omega arith) (let h = x.small in omega arith)) in
      (
        r,
        s',
        checka_passes a (guarded prime_gte ratio reorder_auto gain body) ready run x.ok ∙ e,
        d,
      )

  pub apply-Returned :
      {top : ℕ} (s : Kernel) (op : Op) (a b : ℕ) (f g : Assignment → Bool)
      → Ready top s
      → s.running ≡ true
      → 2 * top ≤ s.refslots
      → top < fuel
      → (x : Operand top s a f) → (y : Operand top s b g)
      → Returned top
          (bdd_apply prime_gte ratio reorder_auto gain prime_lte fuel a b (some op))
          s
          (Before2 x.tree y.tree)
          (λ ρ. op_bool op (eval x.tree ρ) (eval y.tree ρ))
  unfolding bdd_apply
  apply-Returned {top} s op a b f g ready run room few x y =
      let body = apply_rec (makenode prime_lte) op fuel a b in
      let block = guarded prime_gte ratio reorder_auto gain body in
      let (r, s', e, d) = guarded-Good prime_gte ratio reorder_auto gain s body (
        apply_rec-Runs prime_lte primes op fuel top 0 (initref s) a b x.tree y.tree
          (initref-Ready ready) x.arg y.arg (omega arith) few (omega arith)) in
      (
        r,
        s',
        checka_passes a (checka b block) ready run x.ok ∙ checka_passes b block ready run y.ok ∙ e,
        d,
      )

  ite-Returned :
      {top : ℕ} (s : Kernel) (a b c : ℕ) (f g h : Assignment → Bool)
      → Ready top s
      → s.running ≡ true
      → 2 * top ≤ s.refslots
      → top < fuel
      → (x : Operand top s a f) → (y : Operand top s b g) → (z : Operand top s c h)
      → Returned top
          (bdd_ite prime_gte ratio reorder_auto gain prime_lte fuel a b c)
          s
          (Before3 x.tree y.tree z.tree)
          (λ ρ. if eval x.tree ρ then eval y.tree ρ else eval z.tree ρ)
  unfolding bdd_ite
  ite-Returned {top} s a b c f g h ready run room few x y z =
      let body = ite_rec (makenode prime_lte) (not_rec (makenode prime_lte) fuel) fuel a b c in
      let block = guarded prime_gte ratio reorder_auto gain body in
      let (r, s', e, d) = guarded-Good prime_gte ratio reorder_auto gain s body (
        ite_rec-Runs prime_lte primes (not_rec (makenode prime_lte) fuel)
          (not_rec-Negates prime_lte primes fuel few) fuel top 0 (initref s) a b c x.tree y.tree
          z.tree (initref-Ready ready) x.arg y.arg z.arg (omega arith) few (omega arith)) in
      (
        r,
        s',
        checka_passes a (checka b (checka c block)) ready run x.ok
            ∙ checka_passes b (checka c block) ready run y.ok
            ∙ checka_passes c block ready run z.ok
            ∙ e,
        d,
      )

  -- One action, where what is at a position is rewritten to what is held there.
  perform-Refined :
      {top : ℕ} (s : Kernel) (held : List Ref) (act : Action)
      → Session top s held
      → top < fuel
      → Refined top (run act (bdds held)) s (meaning act (truths held))
  unfolding perform
  perform-Refined {top} s held (negate i) h few =
      let x = operand i h in
      rw (item-bdds held i, item-truths held i)
        (kept-Refined held s
          (bdd_not prime_gte ratio reorder_auto gain prime_lte fuel (nth held i).bdd)
          (Before x.tree) (λ ρ. not (eval x.tree ρ)) (λ ρ. not ((nth held i).truth ρ)) h
          (λ z ρ. ap not (x.right z ρ))
          (not-Returned s (nth held i).bdd (nth held i).truth h.ready h.running h.room few x))
  perform-Refined {top} s held (combine op i j) h few =
      let x = operand i h in
      let y = operand j h in
      rw (item-bdds held i, item-bdds held j, item-truths held i, item-truths held j)
        (kept-Refined held s
          (bdd_apply prime_gte ratio reorder_auto gain prime_lte fuel (nth held i).bdd
            (nth held j).bdd (some op))
          (Before2 x.tree y.tree) (λ ρ. op_bool op (eval x.tree ρ) (eval y.tree ρ))
          (λ ρ. op_bool op ((nth held i).truth ρ) ((nth held j).truth ρ)) h
          (λ z ρ. ap₂ (op_bool op) (x.right z ρ) (y.right z ρ))
          (apply-Returned s op (nth held i).bdd (nth held j).bdd (nth held i).truth
            (nth held j).truth h.ready h.running h.room few x y))
  perform-Refined {top} s held (choose i j k) h few =
      let x = operand i h in
      let y = operand j h in
      let z = operand k h in
      rw
        (
          item-bdds held i,
          item-bdds held j,
          item-bdds held k,
          item-truths held i,
          item-truths held j,
          item-truths held k,
        )
        (kept-Refined held s
          (bdd_ite prime_gte ratio reorder_auto gain prime_lte fuel (nth held i).bdd
            (nth held j).bdd (nth held k).bdd)
          (Before3 x.tree y.tree z.tree)
          (λ ρ. if eval x.tree ρ then eval y.tree ρ else eval z.tree ρ)
          (λ ρ. if (nth held i).truth ρ then (nth held j).truth ρ else (nth held k).truth ρ) h
          (λ e ρ. let a = x.right e ρ in let b = y.right e ρ in let c = z.right e ρ in ground arith)
          (ite-Returned s (nth held i).bdd (nth held j).bdd (nth held k).bdd (nth held i).truth
            (nth held j).truth (nth held k).truth h.ready h.running h.room few x y z))
  perform-Refined {top} s held (drop i) h few =
      rw (item-bdds held i, without-bdds held i, without-truths held i)
        (remove held i, (delref (nth held i).bdd s).1, refl, (Session-drop i h).1, refl)
  perform-Refined {top} s held collect h few =
      let (s', e, g) = gbc-Collected h.ready.well in
      (held, s', ap (λ o. and_then o (λ u. done (bdds held))) e, Session-Collected h g, refl)

  -- Let a client hold BDDs for truth functions in a running package in which operators may be called,
  -- with fuel above the number of levels and two places a level on the reference stack. Then every
  -- sequence of negations, combinations by one of the ten operators, choices, releases and garbage
  -- collections returns, and the client holds afterwards, in the same order, a BDD for each truth
  -- function that the sequence computes; unless an error occurred, each has that function.
  pub perform_all-Refined :
      {top : ℕ} (s : Kernel) (held : List Ref) (acts : List Action)
      → Session top s held
      → top < fuel
      → Refined top
          (perform_all prime_gte ratio reorder_auto gain prime_lte fuel acts
            (map (λ (x : Ref). x.bdd) held))
          s
          (meaning_all acts (map (λ (x : Ref). x.truth) held))
  unfolding perform_all
  perform_all-Refined {top} s held [] h few = (held, s, refl, h, refl)
  perform_all-Refined {top} s held (act ∷ acts) h few =
      let (held1, s1, e1, h1, m1) = perform-Refined s held act h few in
      let (held2, s2, e2, h2, m2) = perform_all-Refined s1 held1 acts h1 few in
      (
        held2,
        s2,
        ap (λ o. and_then o (perform_all prime_gte ratio reorder_auto gain prime_lte fuel acts)) e1
            ∙ e2,
        h2,
        m2 ∙ ap (meaning_all acts) m1,
      )
