-- ===== src/Session/Quantify.antt =====
-- The public quantifications of src/bddop.c, called by a client on BDDs that it holds.
use mo_to_buddy.Prelude.{
  ℕ, ◌+◌, ◌*◌, ◌<◌, ◌≡◌, ◌≢◌, refl, sym, ◌∙◌, ap, ◌⊎◌, ◌↔◌, inl, inr, Bool, true, false, List, [],
  ltb, arith, ℕ_discrete,
}
use mathlib.Core.Logic.{⊎_elim}
use mo_to_buddy.Tree.{Tree, Assignment}
use mo_to_buddy.Kernel.{Kernel, done, Cmd, and_then}
use mo_to_buddy.Kernel.WellFormed.{Ok}
use mo_to_buddy.Kernel.Makenode.Resize.{FindsPrimes}
use mo_to_buddy.Kernel.Settings.{Answer, value}
use mo_to_buddy.Represents.{Rep, Denotes}
use mo_to_buddy.Represents.Frame.{Rep-Extends}
use mo_to_buddy.Represents.Unfold.{Rep-IsOrdered}
use mo_to_buddy.Op.{and, or, apply_rec}
use mo_to_buddy.Op.Quantify.{quant_rec}
use mo_to_buddy.Kernel.Makenode.{makenode}
use mo_to_buddy.Op.Fact.{outcome}
use mo_to_buddy.Op.Ready.{
  Quantifier, exist, forall, tag, merger, in_tree, quantified, Ready, restack-Ready,
}
use mo_to_buddy.Op.Quantified.{Setup, quant_rec-Runs}
use mo_to_buddy.Op.Quantified.Recall.{quantified-same}
use mo_to_buddy.Op.Exists.{Agree, exists_some, some_exists, forall_all, all_forall}
use mo_to_buddy.Op.Varset.{Varset, in_varset, varset2vartable, filled, IsPast}
use mo_to_buddy.Op.Varset.Entering.{varset2vartable-in_tree}
use mo_to_buddy.Op.Call.{initref, checkresize}
use mo_to_buddy.Op.Call.Returns.{checka_passes, checkresize-Good}
use mo_to_buddy.Op.Call.Quantify.{
  onward, checked, quantid, quantification, quantify, quantify_call, bdd_exist, bdd_forall,
}
use mo_to_buddy.Session.{Ref, Session, nth}
use mo_to_buddy.Session.Held.{Session-Good}
use mo_to_buddy.Session.Perform.Operand.{Operand, operand}

checked_passes :
    {top : ℕ} {s : Kernel} (r : ℕ) (t : Varset) (rest : Cmd (Answer × Varset))
    → Ready top s
    → s.running ≡ true
    → Ok s.nodesize s.nodes r
    → checked r t rest s ≡ rest s
unfolding checked
checked_passes {top} {s} r t rest ready run ok =
    ap (λ o. and_then o (onward t rest)) (checka_passes r (done (value r)) ready run ok)

-- What a quantification of a held BDD gives: the client goes on, and unless an error occurred the
-- tree of the BDD is quantified over the levels of the set.
abbrev Quantifies :
    ℕ → List Ref → Cmd (Answer × Varset) → Kernel → Quantifier → Tree → Tree → Type 0
Quantifies top held call s q v u =
    (res : ℕ) × (s' : Kernel) × (t' : Varset) × (call s ≡ done (value res, t') s')
    × Session top s' held
    × ((s'.errorcond ≢ 0)
        ⊎ ((s.errorcond ≡ 0) × Denotes s' res (quantified (merger q) (in_tree v) u)))

-- Below 2^28 the identity of a set is its number with the operator's tag.
quantid-exact : (q : Quantifier) (var : ℕ) → var < 268435456 → quantid q var ≡ var * 8 + tag q
quantid-exact q var small = ap (λ (n : ℕ). n + tag q) (omega arith)

module _ (prime_gte : ℕ → ℕ) (ratio : ℕ) (reorder_auto : Kernel → Kernel) (gain : Kernel → ℕ)
    (prime_lte : ℕ → ℕ) (primes : FindsPrimes prime_lte) (fuel : ℕ) where
  quantification_exact :
      (q : Quantifier) (r var : ℕ) (t : Varset) (s : Kernel)
      → var < 268435456
      → quantification prime_gte ratio reorder_auto gain prime_lte fuel q r var t s
        ≡ quant_rec
            (makenode prime_lte)
            (apply_rec (makenode prime_lte) (merger q) fuel)
            (in_varset t)
            t.last
            (var * 8 + tag q)
            fuel
            r
            s
  quantification_exact q r var t s small =
      ap
        (λ (i : ℕ).
          quant_rec (makenode prime_lte) (apply_rec (makenode prime_lte) (merger q) fuel)
            (in_varset t) t.last i fuel r s)
        (quantid-exact q var small)

  -- The block runs once.
  quantify_run :
      (q : Quantifier) (r var res : ℕ) (t t' : Varset) (s s' : Kernel)
      → varset2vartable fuel s var t ≡ filled t'
      → quantification prime_gte ratio reorder_auto gain prime_lte fuel q r var t' (initref s)
        ≡ done res s'
      → quantify prime_gte ratio reorder_auto gain prime_lte fuel q r var t s
        ≡ done (value res, t') (checkresize prime_gte ratio s')
  unfolding quantify
  quantify_run q r var res t t' s s' e run = rw (quantify, e, run) refl

  call_block :
      {top : ℕ} {s : Kernel} (q : Quantifier) (r var : ℕ) (t : Varset)
      → Ready top s
      → s.running ≡ true
      → Ok s.nodesize s.nodes r
      → Ok s.nodesize s.nodes var
      → 1 < var
      → quantify_call prime_gte ratio reorder_auto gain prime_lte fuel q r var t s
        ≡ quantify prime_gte ratio reorder_auto gain prime_lte fuel q r var t s
  unfolding quantify_call
  call_block {top} {s} q r var t ready run ok ok' big =
      let more : ltb var 2 ≡ false = ground arith in
      checked_passes r t _ ready run ok ∙ checked_passes var t _ ready run ok' ∙ rw more refl

  quantify_call-Quantifies :
      {top : ℕ} (q : Quantifier) (s : Kernel) (held : List Ref) (i j : ℕ) (t : Varset) (v : Tree)
      (x : Operand top s (nth held i).bdd (nth held i).truth)
      → Session top s held
      → Rep s (nth held j).bdd v
      → 1 < (nth held j).bdd
      → (nth held j).bdd < 268435456
      → IsPast t
      → top < fuel
      → Quantifies top held
          (quantify_call prime_gte ratio reorder_auto gain prime_lte fuel q
            (nth held i).bdd
            (nth held j).bdd
            t)
          s
          q
          v
          x.tree
  quantify_call-Quantifies {top} q s held i j t v x h rep big low past few =
      let r = (nth held i).bdd in
      let var = (nth held j).bdd in
      let y = operand j h in
      let o = Rep-IsOrdered v var 0 h.ready.well rep (inr (omega arith)) in
      let (t', e, same, none_past) =
        varset2vartable-in_tree fuel var t v h.ready.well rep o big few past in
      let setup : Setup (initref s) q var (in_varset t') t'.last v = record {
        arg = record {
          rep =
              Rep-Extends s (initref s) v var
                (λ n l. (l, record { level = refl; low = refl; high = refl })) rep;
          held = y.arg.held;
          ordered = o;
        };
        same = same;
        none_past = none_past;
      } in
      let (res, s', run, d) =
        quant_rec-Runs prime_lte primes q var t'.last (in_varset t') v fuel fuel top 0 (initref s) r
          x.tree (restack-Ready [] h.ready (λ n m. absurd m)) setup x.arg (omega arith) few few
          (let room = h.room in omega arith) in
      let g = checkresize-Good prime_gte ratio d in
      (
        res,
        checkresize prime_gte ratio s',
        t',
        call_block q r var t h.ready h.running x.ok y.ok big
            ∙ quantify_run q r var res t t' s s' e
                (quantification_exact q r var t' (initref s) low ∙ run),
        Session-Good h g,
        elim (ℕ_discrete (checkresize prime_gte ratio s').errorcond 0) [
          | no failed ↦ inl failed
          | yes z ↦
              ⊎_elim inl (λ m. inr (g.error z, m))
                (outcome (checkresize prime_gte ratio s')
                  (λ ρ. quantified-same (merger q) (in_varset t') (in_tree v) x.tree ρ same) g.fact)
        ],
      )

  -- Let a client hold counted BDDs in a running package in which operators may be called, with
  -- fuel above the number of levels and two places a level on the reference stack, and no entry of
  -- `quantvarset` have an identity still to come, with a number left. Then `bdd_exist` of a held
  -- BDD and a held variable set that is not a constant, with a number below 2^28, returns, the
  -- client still holds what it held, and unless an error occurred the result is true exactly where
  -- some assignment that differs at most on the levels along the high branches of the set makes
  -- the BDD's truth function true.
  pub bdd_exist-Denotes :
      {top : ℕ} (s : Kernel) (held : List Ref) (i j : ℕ) (t : Varset) (v : Tree)
      → Session top s held
      → Rep s (nth held j).bdd v
      → 1 < (nth held j).bdd
      → (nth held j).bdd < 268435456
      → IsPast t
      → top < fuel
      → (res : ℕ) × (s' : Kernel) × (t' : Varset) × (bdd_exist prime_gte ratio reorder_auto gain
            prime_lte fuel
            (nth held i).bdd
            (nth held j).bdd
            t
            s
          ≡ done (value res, t') s')
        × Session top s' held
        × ((s'.errorcond ≢ 0)
            ⊎ ((g : Assignment → Bool) × Denotes s' res g
                × ((ρ : Assignment)
                    → (g ρ ≡ true) ↔ (
                        (ρ' : Assignment) × Agree (in_tree v) ρ ρ'
                        × ((nth held i).truth ρ' ≡ true)))))
  unfolding bdd_exist
  bdd_exist-Denotes {top} s held i j t v h rep big low past few =
      let x = operand i h in
      let (res, s', t', e, h', m) =
        quantify_call-Quantifies exist s held i j t v x h rep big low past few in
      (
        res,
        s',
        t',
        e,
        h',
        ⊎_elim inl
            (λ (z, dn). inr (
              quantified or (in_tree v) x.tree,
              dn,
              λ ρ. (
                λ yes.
                    let (ρ', agree, e') = exists_some (in_tree v) x.tree 0 ρ x.arg.ordered yes in
                    (ρ', agree, sym (x.right z ρ') ∙ e'),
                λ (ρ', agree, e'). some_exists (in_tree v) x.tree ρ ρ' agree (x.right z ρ' ∙ e'),
              ),
            ))
            m,
      )

  -- Let a client hold counted BDDs in a running package in which operators may be called, with
  -- fuel above the number of levels and two places a level on the reference stack, and no entry of
  -- `quantvarset` have an identity still to come, with a number left. Then `bdd_forall` of a held
  -- BDD and a held variable set that is not a constant, with a number below 2^28, returns, the
  -- client still holds what it held, and unless an error occurred the result is true exactly where
  -- every assignment that differs at most on the levels along the high branches of the set makes
  -- the BDD's truth function true.
  pub bdd_forall-Denotes :
      {top : ℕ} (s : Kernel) (held : List Ref) (i j : ℕ) (t : Varset) (v : Tree)
      → Session top s held
      → Rep s (nth held j).bdd v
      → 1 < (nth held j).bdd
      → (nth held j).bdd < 268435456
      → IsPast t
      → top < fuel
      → (res : ℕ) × (s' : Kernel) × (t' : Varset) × (bdd_forall prime_gte ratio reorder_auto gain
            prime_lte fuel
            (nth held i).bdd
            (nth held j).bdd
            t
            s
          ≡ done (value res, t') s')
        × Session top s' held
        × ((s'.errorcond ≢ 0)
            ⊎ ((g : Assignment → Bool) × Denotes s' res g
                × ((ρ : Assignment)
                    → (g ρ ≡ true) ↔ (
                        (ρ' : Assignment)
                        → Agree (in_tree v) ρ ρ'
                        → (nth held i).truth ρ' ≡ true))))
  unfolding bdd_forall
  bdd_forall-Denotes {top} s held i j t v h rep big low past few =
      let x = operand i h in
      let (res, s', t', e, h', m) =
        quantify_call-Quantifies forall s held i j t v x h rep big low past few in
      (
        res,
        s',
        t',
        e,
        h',
        ⊎_elim inl
            (λ (z, dn). inr (
              quantified and (in_tree v) x.tree,
              dn,
              λ ρ. (
                λ yes ρ' agree. sym (x.right z ρ') ∙ forall_all (in_tree v) x.tree ρ ρ' yes agree,
                λ all.
                    all_forall (in_tree v) x.tree 0 ρ x.arg.ordered
                      (λ ρ' agree. x.right z ρ' ∙ all ρ' agree),
              ),
            ))
            m,
      )
