-- ===== src/Op/Quantified/Recall.antt =====
-- One call of `quant_rec` in src/bddop.c: what its cache recalls, and its branches.
use mo_to_buddy.Prelude.{
  ℕ, suc, ◌+◌, ◌*◌, ◌<◌, ◌≡◌, refl, sym, ◌∙◌, ap, subst, Bool, true, false, ◌&&◌, ◌||◌, none, some,
  ltb, ◌==◌, arith,
}
use mo_to_buddy.Tree.{Tree, leaf, node, Assignment, eval, IsOrdered}
use mo_to_buddy.Hash.{hash1}
use mo_to_buddy.Cache.{Entry, lookup, put}
use mo_to_buddy.Kernel.{Kernel, done, Cmd, level, low, high}
use mo_to_buddy.Represents.{Rep}
use mo_to_buddy.Represents.Canonicity.{Rep-functional}
use mo_to_buddy.Op.{Op, cached_in, join_with}
use mo_to_buddy.Op.Quantify.{quant_rec, merge, quant_remember}
use mo_to_buddy.Op.Stack.{Retains}
use mo_to_buddy.Op.Fact.{Before, Fact, Fact-weaken}
use mo_to_buddy.Op.Ready.{
  Quantifier, exist, forall, unique, tag, merger, in_tree, quantified, QuantFact, Sound-put, Ready,
}
use mo_to_buddy.Op.Runs.{Good, written-Good}
use mo_to_buddy.Op.Cofactor.{Arg, Arg-Retains}
use mo_to_buddy.Op.Negation.{hit_entry}

-- The tags tell the quantifications apart.
tag-injective : (q q' : Quantifier) → tag q ≡ tag q' → q ≡ q'
tag-injective exist exist e = refl
tag-injective exist forall e = absurd (omega (arith, e))
tag-injective exist unique e = absurd (omega (arith, e))
tag-injective forall exist e = absurd (omega (arith, e))
tag-injective forall forall e = refl
tag-injective forall unique e = absurd (omega (arith, e))
tag-injective unique exist e = absurd (omega (arith, e))
tag-injective unique forall e = absurd (omega (arith, e))
tag-injective unique unique e = refl

tag-lt : (q : Quantifier) → tag q < 3
tag-lt exist = omega arith
tag-lt forall = omega arith
tag-lt unique = omega arith

-- Nothing is quantified in a tree whose levels are not in the set.
pub quantified-none :
    (op : Op) (set : ℕ → Bool) (last : ℕ) (t : Tree) (ρ : Assignment)
    → ((l : ℕ) → last < l → set l ≡ false)
    → IsOrdered (suc last) t
    → quantified op set t ρ ≡ eval t ρ
quantified-none op set last (leaf b) ρ none_past o = refl
quantified-none op set last (node l t u) ρ none_past (le, ot, ou) =
    let out : set l ≡ false = none_past l (omega arith) in
    let a = quantified-none op set last t ρ none_past (later t ot) in
    let b = quantified-none op set last u ρ none_past (later u ou) in rw (out, a, b) refl
  where
    later : (v : Tree) → IsOrdered (suc l) v → IsOrdered (suc last) v
    later (leaf c) o = tt
    later (node m x y) (le', ox, oy) = (omega arith, ox, oy)

-- Only the levels that a set holds matter.
pub quantified-same :
    (op : Op) (set set' : ℕ → Bool) (t : Tree) (ρ : Assignment)
    → ((l : ℕ) → set l ≡ set' l)
    → quantified op set t ρ ≡ quantified op set' t ρ
quantified-same op set set' (leaf b) ρ same = refl
quantified-same op set set' (node l t u) ρ same =
    let e = same l in
    let a = quantified-same op set set' t ρ same in
    let b = quantified-same op set set' u ρ same in rw (e, a, b) refl

abbrev pub fits : ℕ → ℕ → Entry → Bool
fits r id e = (e.a == r) && (e.c == id)

-- The state after the result was written.
abbrev pub noted : ℕ → ℕ → ℕ → Kernel → Kernel
noted r id res s =
    let e = record (lookup s.caches.quant (hash1 r)) { a = r; c = id; res = res } in
    record s { caches = record s.caches { quant = put s.caches.quant (hash1 r) e } }

-- What a call of the package sets up: the set in `quantvarset` is that of the BDD `var`, whose levels
-- go no further than `quantlast`.
pub record Setup (s : Kernel) (q : Quantifier) (var : ℕ) (in_set : ℕ → Bool) (last : ℕ) (v : Tree)
    : Type 0 where
  pub arg : Arg s 0 var v
  pub same : (l : ℕ) → in_set l ≡ in_tree v l
  pub none_past : (l : ℕ) → last < l → in_set l ≡ false

pub Setup-Retains :
    {s s' : Kernel} {q : Quantifier} {var : ℕ} {in_set : ℕ → Bool} {last : ℕ} {v : Tree}
    → Retains s s'
    → Setup s q var in_set last v
    → Setup s' q var in_set last v
Setup-Retains k u = record { arg = Arg-Retains k u.arg; same = u.same; none_past = u.none_past }

module _ (q : Quantifier) (var last : ℕ) (in_set : ℕ → Bool) (v : Tree) where
  abbrev pub id : ℕ
  id = var * 8 + tag q

  -- A valid entry for the operand gives the quantified function.
  pub hit-Fact :
      {top : ℕ} {s : Kernel} (r res : ℕ) (t : Tree)
      → Ready top s
      → Rep s r t
      → Setup s q var in_set last v
      → cached_in s.caches.quant (hash1 r) (fits r id) ≡ some res
      → Fact s (Before t) (quantified (merger q) in_set t) res
  hit-Fact {top} {s} r res t ready rep setup h =
      let (i, g, fit, out) = hit_entry s.caches.quant (hash1 r) res (fits r id) h in
      let e = s.caches.quant.table i in
      let ea : e.a ≡ r = ground arith in
      let ec : e.c ≡ id = ground arith in
      let n = ready.caches.quant.entries i g q var ec in
      let same : n.tree ≡ t =
        Rep-functional s n.tree t r (subst (λ x. Rep s x n.tree) ea n.rep) rep in
      let same_set : n.set ≡ v = Rep-functional s n.set v var n.set_rep setup.arg.rep in
      subst (Fact s (Before t) (quantified (merger q) in_set t)) out (
        Fact-weaken s (λ j b. b)
          (λ ρ.
            ap (λ w. quantified (merger q) (in_tree w) t ρ) same_set
            ∙ sym (quantified-same (merger q) in_set (in_tree v) t ρ setup.same))
          (subst (λ w. Fact s (Before w) (quantified (merger q) (in_tree n.set) w) e.res) same
            n.fact))

  pub remembered :
      {top : ℕ} {s s' : Kernel} (j r res : ℕ) (t : Tree)
      → Arg s j r t
      → Setup s q var in_set last v
      → Good top s s' (Before t) (quantified (merger q) in_set t) res
      → Good top s (noted r id res s') (Before t) (quantified (merger q) in_set t) res
  remembered {top} {s} {s'} j r res t a setup g =
      let e = record (lookup s'.caches.quant (hash1 r)) { a = r; c = id; res = res } in
      written-Good (record s'.caches { quant = put s'.caches.quant (hash1 r) e }) g
        (record {
          apply = g.ready.caches.apply;
          ite = g.ready.caches.ite;
          quant =
              Sound-put (hash1 r) e
                (λ n q' var' k.
                  let small = tag-lt q in
                  let small' = tag-lt q' in
                  let same_tag : q ≡ q' = tag-injective q q' (omega (arith, k)) in
                  let same_var : var ≡ var' = omega (arith, k, ap tag same_tag) in
                  subst (λ x. QuantFact s' q' x r res) same_var
                    (subst (λ x. QuantFact s' x var r res) same_tag
                      (record {
                        set = v;
                        set_rep = (Arg-Retains g.retains setup.arg).rep;
                        tree = t;
                        rep = (Arg-Retains g.retains a).rep;
                        fact =
                            Fact-weaken s' (λ i b. b)
                              (λ ρ. quantified-same (merger q) in_set (in_tree v) t ρ setup.same)
                              g.fact;
                      })))
                g.ready.caches.quant;
        })

  module _ (make : ℕ → ℕ → ℕ → Cmd ℕ) (combine : ℕ → ℕ → Cmd ℕ) (fuel r : ℕ) (s : Kernel) where
    pub run_stop :
        (ltb r 2 || ltb last (level s r)) ≡ true
        → quant_rec make combine in_set last id (suc fuel) r s ≡ done r s
    unfolding quant_rec
    run_stop e = rw (quant_rec, e) refl

    pub run_hit :
        (res : ℕ)
        → (ltb r 2 || ltb last (level s r)) ≡ false
        → cached_in s.caches.quant (hash1 r) (fits r id) ≡ some res
        → quant_rec make combine in_set last id (suc fuel) r s ≡ done res s
    unfolding quant_rec
    run_hit res e c = rw (quant_rec, e, c) refl

    pub run_miss :
        (res : ℕ) (s' : Kernel)
        → (ltb r 2 || ltb last (level s r)) ≡ false
        → cached_in s.caches.quant (hash1 r) (fits r id) ≡ none
        → join_with
            (merge make combine in_set last id (λ t. level t r))
            (λ t. quant_rec make combine in_set last id fuel (low t r) t)
            (λ t. quant_rec make combine in_set last id fuel (high t r) t)
            s
          ≡ done res s'
        → quant_rec make combine in_set last id (suc fuel) r s ≡ done res (noted r id res s')
    unfolding quant_rec quant_remember
    run_miss res s' e c j = rw (quant_rec, e, c, j) refl
