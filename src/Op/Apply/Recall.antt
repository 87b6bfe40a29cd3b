-- ===== src/Op/Apply/Recall.antt =====
-- One call of `apply_rec` in src/bddop.c: what its cache recalls, and its branches.
use mo_to_buddy.Prelude.{
  ℕ, suc, ◌<◌, ◌≡◌, refl, sym, ◌∙◌, ap, subst, Bool, true, false, ◌&&◌, none, some, ◌==◌,
  if◌then◌else◌, arith,
}
use mo_to_buddy.Tree.{Tree, Assignment, eval}
use mo_to_buddy.Hash.{hash3}
use mo_to_buddy.Cache.{Entry, put}
use mo_to_buddy.Kernel.{Kernel, done, Cmd}
use mo_to_buddy.Represents.{Rep}
use mo_to_buddy.Represents.Canonicity.{Rep-functional}
use mo_to_buddy.Op.{
  Op, and, xor, or, nand, nor, imp, biimp, diff, less, invimp, code, cached, remember, fill_apply,
  shortcut, is_const, oprres, split, apply_rec, with_apply, entry_at,
}
use mo_to_buddy.Op.Fact.{Fact}
use mo_to_buddy.Op.Ready.{op_bool, Before2, ApplyFact, Sound-put, Ready}
use mo_to_buddy.Op.Runs.{Good, written-Good}
use mo_to_buddy.Op.Cofactor.{Arg, Arg-Retains}
use mo_to_buddy.Op.Negation.{hit_entry, code-other}

-- The operator that a code names.
abbrev named : ℕ → Op
named n =
    if n == 0
    then and
    else if n == 1
    then xor
    else if n == 2
    then or
    else if n == 3
    then nand
    else if n == 4
    then nor
    else if n == 5
    then imp
    else if n == 6
    then biimp
    else if n == 7
    then diff
    else if n == 8
    then less
    else invimp

named-code : (op : Op) → named (code op) ≡ op
named-code and = refl
named-code xor = refl
named-code or = refl
named-code nand = refl
named-code nor = refl
named-code imp = refl
named-code biimp = refl
named-code diff = refl
named-code less = refl
named-code invimp = refl

code-injective : (o p : Op) → code o ≡ code p → o ≡ p
code-injective o p e = sym (named-code o) ∙ ap named e ∙ named-code p

-- The test of an entry in `apply_rec`.
abbrev pub fits : Op → ℕ → ℕ → Entry → Bool
fits op l r e = (e.a == l) && (e.b == r) && (e.c == code op)

abbrev pub combined : Op → Tree → Tree → Assignment → Bool
combined op t u ρ = op_bool op (eval t ρ) (eval u ρ)

-- A valid entry for the operator and its operands gives their combination.
pub hit-Fact :
    {top : ℕ} {s : Kernel} (op : Op) (l r res : ℕ) (t u : Tree)
    → Ready top s
    → Rep s l t
    → Rep s r u
    → cached (hash3 l r (code op)) (fits op l r) s ≡ some res
    → Fact s (Before2 t u) (combined op t u) res
unfolding cached
hit-Fact {top} {s} op l r res t u ready rt ru h =
    let (i, g, fit, out) = hit_entry s.caches.apply (hash3 l r (code op)) res (fits op l r) h in
    let e = s.caches.apply.table i in
    let ea : e.a ≡ l = ground arith in
    let eb : e.b ≡ r = ground arith in
    let ec : e.c ≡ code op = ground arith in
    let n = (ready.caches.apply.entries i g).combination op ec in
    let same : n.left ≡ t =
      Rep-functional s n.left t l (subst (λ x. Rep s x n.left) ea n.left_rep) rt in
    let same' : n.right ≡ u =
      Rep-functional s n.right u r (subst (λ x. Rep s x n.right) eb n.right_rep) ru in
    subst (Fact s (Before2 t u) (combined op t u)) out (
      subst (λ v. Fact s (Before2 t v) (combined op t v) e.res) same'
        (subst (λ v. Fact s (Before2 v n.right) (combined op v n.right) e.res) same n.fact))

-- The state after the result was written.
abbrev pub noted : Op → ℕ → ℕ → ℕ → Kernel → Kernel
noted op l r res s =
    let hash = hash3 l r (code op) in
    with_apply (put s.caches.apply hash (fill_apply op l r res (entry_at s hash))) s

pub remembered :
    {top : ℕ} {s s' : Kernel} (op : Op) (j l r res : ℕ) (t u : Tree)
    → Arg s j l t
    → Arg s j r u
    → Good top s s' (Before2 t u) (combined op t u) res
    → Good top s (noted op l r res s') (Before2 t u) (combined op t u) res
remembered {top} {s} {s'} op j l r res t u a b g =
    let hash = hash3 l r (code op) in
    let e = fill_apply op l r res (entry_at s' hash) in
    written-Good (record s'.caches { apply = put s'.caches.apply hash e }) g
      (record {
        apply =
            Sound-put hash e
              (λ n. record {
                negation = λ c. absurd (code-other op c);
                combination = λ op' c.
                    subst (λ o. ApplyFact s' o l r res) (code-injective op op' c)
                      (record {
                        left = t;
                        right = u;
                        left_rep = (Arg-Retains g.retains a).rep;
                        right_rep = (Arg-Retains g.retains b).rep;
                        fact = g.fact;
                      });
              })
              g.ready.caches.apply;
        ite = g.ready.caches.ite;
        quant = g.ready.caches.quant;
      })

module _ (make : ℕ → ℕ → ℕ → Cmd ℕ) (op : Op) (fuel l r : ℕ) (s : Kernel) where
  pub run_shortcut :
      (res : ℕ) → shortcut op l r ≡ some res → apply_rec make op (suc fuel) l r s ≡ done res s
  unfolding apply_rec
  run_shortcut res e = rw (apply_rec, e) refl

  pub run_const :
      shortcut op l r ≡ none
      → l < 2
      → r < 2
      → apply_rec make op (suc fuel) l r s ≡ done (oprres op l r) s
  unfolding apply_rec
  run_const e a b =
      let c : (is_const l && is_const r) ≡ true = ground arith in rw (apply_rec, e, c) refl

  pub run_hit :
      (res : ℕ)
      → shortcut op l r ≡ none
      → (is_const l && is_const r) ≡ false
      → cached (hash3 l r (code op)) (fits op l r) s ≡ some res
      → apply_rec make op (suc fuel) l r s ≡ done res s
  unfolding apply_rec
  run_hit res e c h = rw (apply_rec, e, c, h) refl

  pub run_miss :
      (res : ℕ) (s' : Kernel)
      → shortcut op l r ≡ none
      → (is_const l && is_const r) ≡ false
      → cached (hash3 l r (code op)) (fits op l r) s ≡ none
      → split make (apply_rec make op fuel) l r s ≡ done res s'
      → apply_rec make op (suc fuel) l r s ≡ done res (noted op l r res s')
  unfolding apply_rec remember
  run_miss res s' e c h j = rw (apply_rec, e, c, h, j) refl
