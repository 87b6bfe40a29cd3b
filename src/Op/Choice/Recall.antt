-- ===== src/Op/Choice/Recall.antt =====
-- One call of `ite_rec` in src/bddop.c: what its cache recalls, and the operands that need no recursion.
use mo_to_buddy.Prelude.{
  ℕ, suc, ◌+◌, ◌*◌, ◌≤◌, ◌<◌, ◌≡◌, refl, sym, ap, subst, inl, inr, Bool, true, false, not, ◌&&◌,
  none, some, length, ◌==◌, if◌then◌else◌, arith, Bool-cases, ℕ_discrete,
}
use mo_to_buddy.Tree.{Tree, eval}
use mo_to_buddy.Hash.{hash3}
use mo_to_buddy.Cache.{Entry, lookup, put}
use mo_to_buddy.Kernel.{Kernel, done, Cmd}
use mo_to_buddy.Represents.{Rep}
use mo_to_buddy.Represents.Canonicity.{Rep-functional}
use mo_to_buddy.Op.{cached_in}
use mo_to_buddy.Op.Ite.{ite_shortcut, ite_remember, ite_split, ite_rec}
use mo_to_buddy.Op.Fact.{Before, Fact, Fact-weaken, self-Fact}
use mo_to_buddy.Op.Ready.{Before3, choose, Sound-put, Ready}
use mo_to_buddy.Op.Runs.{Good, Runs, here-Good, written-Good, reshape}
use mo_to_buddy.Op.Cofactor.{Arg, Arg-Retains}
use mo_to_buddy.Op.Shortcut.{const-eval}
use mo_to_buddy.Op.Negation.{hit_entry}

-- The test of an entry in `ite_rec`.
abbrev pub fits : ℕ → ℕ → ℕ → Entry → Bool
fits f g h e = (e.a == f) && (e.b == g) && (e.c == h)

-- A valid entry for the operands gives their choice.
pub hit-Fact :
    {top : ℕ} {s : Kernel} (f g h res : ℕ) (t u v : Tree)
    → Ready top s
    → Rep s f t
    → Rep s g u
    → Rep s h v
    → cached_in s.caches.ite (hash3 f g h) (fits f g h) ≡ some res
    → Fact s (Before3 t u v) (choose t u v) res
hit-Fact {top} {s} f g h res t u v ready rt ru rv hit =
    let (i, gen, fit, out) = hit_entry s.caches.ite (hash3 f g h) res (fits f g h) hit in
    let e = s.caches.ite.table i in
    let ea : e.a ≡ f = ground arith in
    let eb : e.b ≡ g = ground arith in
    let ec : e.c ≡ h = ground arith in
    let n = ready.caches.ite.entries i gen in
    let et : n.test ≡ t =
      Rep-functional s n.test t f (subst (λ x. Rep s x n.test) ea n.test_rep) rt in
    let eu : n.yes_tree ≡ u =
      Rep-functional s n.yes_tree u g (subst (λ x. Rep s x n.yes_tree) eb n.yes_rep) ru in
    let ev : n.no_tree ≡ v =
      Rep-functional s n.no_tree v h (subst (λ x. Rep s x n.no_tree) ec n.no_rep) rv in
    subst (Fact s (Before3 t u v) (choose t u v)) out (
      subst (λ x. Fact s (Before3 t u x) (choose t u x) e.res) ev
        (subst (λ x. Fact s (Before3 t x n.no_tree) (choose t x n.no_tree) e.res) eu
          (subst
            (λ x. Fact s (Before3 x n.yes_tree n.no_tree) (choose x n.yes_tree n.no_tree) e.res) et
            n.fact)))

-- The state after the result was written.
abbrev pub noted : ℕ → ℕ → ℕ → ℕ → Kernel → Kernel
noted f g h res s =
    let e = record (lookup s.caches.ite (hash3 f g h)) { a = f; b = g; c = h; res = res } in
    record s { caches = record s.caches { ite = put s.caches.ite (hash3 f g h) e } }

pub remembered :
    {top : ℕ} {s s' : Kernel} (j f g h res : ℕ) (t u v : Tree)
    → Arg s j f t
    → Arg s j g u
    → Arg s j h v
    → Good top s s' (Before3 t u v) (choose t u v) res
    → Good top s (noted f g h res s') (Before3 t u v) (choose t u v) res
remembered {top} {s} {s'} j f g h res t u v a b c d =
    let e = record (lookup s'.caches.ite (hash3 f g h)) { a = f; b = g; c = h; res = res } in
    written-Good (record s'.caches { ite = put s'.caches.ite (hash3 f g h) e }) d
      (record {
        apply = d.ready.caches.apply;
        quant = d.ready.caches.quant;
        ite =
            Sound-put (hash3 f g h) e
              (λ n. record {
                test = t;
                yes_tree = u;
                no_tree = v;
                test_rep = (Arg-Retains d.retains a).rep;
                yes_rep = (Arg-Retains d.retains b).rep;
                no_rep = (Arg-Retains d.retains c).rep;
                fact = d.fact;
              })
              d.ready.caches.ite;
      })

module _ (make : ℕ → ℕ → ℕ → Cmd ℕ) (negate : ℕ → Cmd ℕ) (fuel f g h : ℕ) (s : Kernel) where
  pub run_shortcut :
      (call : Cmd ℕ)
      → ite_shortcut negate f g h ≡ some call
      → ite_rec make negate (suc fuel) f g h s ≡ call s
  unfolding ite_rec
  run_shortcut call e = rw (ite_rec, e) refl

  pub run_hit :
      (res : ℕ)
      → ite_shortcut negate f g h ≡ none
      → cached_in s.caches.ite (hash3 f g h) (fits f g h) ≡ some res
      → ite_rec make negate (suc fuel) f g h s ≡ done res s
  unfolding ite_rec
  run_hit res e c = rw (ite_rec, e, c) refl

  pub run_miss :
      (res : ℕ) (s' : Kernel)
      → ite_shortcut negate f g h ≡ none
      → cached_in s.caches.ite (hash3 f g h) (fits f g h) ≡ none
      → ite_split make negate (ite_rec make negate fuel) f g h s ≡ done res s'
      → ite_rec make negate (suc fuel) f g h s ≡ done res (noted f g h res s')
  unfolding ite_rec ite_remember
  run_miss res s' e c j = rw (ite_rec, e, c, j) refl

-- Why three operands may need no recursion.
pub data Reason (negate : ℕ → Cmd ℕ) (f g h : ℕ) (call : Cmd ℕ) : Type 0 where
  is_one : f ≡ 1 → call ≡ done g → Reason negate f g h call
  is_zero : f ≡ 0 → call ≡ done h → Reason negate f g h call
  equal : g ≡ h → call ≡ done g → Reason negate f g h call
  copy : g ≡ 1 → h ≡ 0 → call ≡ done f → Reason negate f g h call
  flip : g ≡ 0 → h ≡ 1 → call ≡ negate f → Reason negate f g h call

pub reason :
    (negate : ℕ → Cmd ℕ) (f g h : ℕ) (call : Cmd ℕ)
    → ite_shortcut negate f g h ≡ some call
    → Reason negate f g h call
unfolding ite_shortcut
reason negate f g h call e = elim (ℕ_discrete f 1) [
  | yes a ↦ is_one a (ground arith)
  | no na ↦ elim (ℕ_discrete f 0) [
    | yes b ↦ is_zero b (ground arith)
    | no nb ↦ elim (ℕ_discrete g h) [
      | yes c ↦ equal c (ground arith)
      | no nc ↦ elim (Bool-cases ((g == 1) && (h == 0))) [
        | inl d ↦ copy (ground arith) (ground arith) (ground arith)
        | inr nd ↦ elim (Bool-cases ((g == 0) && (h == 1))) [
          | inl k ↦ flip (ground arith) (ground arith) (ground arith)
          | inr nk ↦ absurd (ground arith)
        ]
      ]
    ]
  ]
]

-- What `ite_rec` asks of the negation.
abbrev pub Negates : ℕ → (ℕ → Cmd ℕ) → Type 0
Negates top negate =
    (j k : ℕ) (s : Kernel) (r : ℕ) (t : Tree)
    → Ready top s
    → Arg s j r t
    → top ≤ j + k
    → length s.refstack + 2 * k ≤ s.refslots
    → Runs top s (negate r) (Before t) (λ ρ. not (eval t ρ))

pub shortcut-Runs :
    {top : ℕ} (negate : ℕ → Cmd ℕ) (negates : Negates top negate) (j k f g h : ℕ) (s : Kernel)
    (t u v : Tree) (call : Cmd ℕ)
    → Ready top s
    → Arg s j f t
    → Arg s j g u
    → Arg s j h v
    → top ≤ j + k
    → length s.refstack + 2 * k ≤ s.refslots
    → Reason negate f g h call
    → Runs top s call (Before3 t u v) (choose t u v)
shortcut-Runs {top} negate negates j k f g h s t u v call ready a b c depth room (is_one e out) =
    subst (λ x. Runs top s x (Before3 t u v) (choose t u v)) (sym out)
      (
        g,
        s,
        refl,
        here-Good ready (
            Fact-weaken s (λ i x. x.1)
              (λ ρ.
                ap (λ x. if x then eval u ρ else eval v ρ) (sym (const-eval s t f true a.rep e ρ)))
              (self-Fact s u g b.rep)),
      )
shortcut-Runs {top} negate negates j k f g h s t u v call ready a b c depth room (is_zero e out) =
    subst (λ x. Runs top s x (Before3 t u v) (choose t u v)) (sym out)
      (
        h,
        s,
        refl,
        here-Good ready (
            Fact-weaken s (λ i x. x.2)
              (λ ρ.
                ap (λ x. if x then eval u ρ else eval v ρ) (sym (const-eval s t f false a.rep e ρ)))
              (self-Fact s v h c.rep)),
      )
shortcut-Runs {top} negate negates j k f g h s t u v call ready a b c depth room (equal e out) =
    let same : u ≡ v = Rep-functional s u v h (subst (λ x. Rep s x u) e b.rep) c.rep in
    subst (λ x. Runs top s x (Before3 t u v) (choose t u v)) (sym out)
      (
        g,
        s,
        refl,
        here-Good ready (
            Fact-weaken s (λ i x. x.1)
              (λ ρ. elim (Bool-cases (eval t ρ)) [
                | inl y ↦ rw y refl
                | inr y ↦ rw y (ap (λ x. eval x ρ) same)
              ])
              (self-Fact s u g b.rep)),
      )
shortcut-Runs {top} negate negates j k f g h s t u v call ready a b c depth room (copy e e' out) =
    subst (λ x. Runs top s x (Before3 t u v) (choose t u v)) (sym out)
      (
        f,
        s,
        refl,
        here-Good ready (
            Fact-weaken s (λ i x. x.0)
              (λ ρ.
                let y = const-eval s u g true b.rep e ρ in
                let n = const-eval s v h false c.rep e' ρ in ground arith)
              (self-Fact s t f a.rep)),
      )
shortcut-Runs {top} negate negates j k f g h s t u v call ready a b c depth room (flip e e' out) =
    let (res, s', run, d) = negates j k s f t ready a depth room in
    subst (λ x. Runs top s x (Before3 t u v) (choose t u v)) (sym out)
      (
        res,
        s',
        run,
        reshape (λ i x. x.0)
            (λ ρ.
              let y = const-eval s u g false b.rep e ρ in
              let n = const-eval s v h true c.rep e' ρ in ground arith)
            d,
      )

pub recursive : (negate : ℕ → Cmd ℕ) (f g h : ℕ) → ite_shortcut negate f g h ≡ none → 1 < f
unfolding ite_shortcut
recursive negate f g h e = elim (ℕ_discrete f 1) [
  | yes a ↦ absurd (ground arith)
  | no na ↦ elim (ℕ_discrete f 0) [ yes b ↦ absurd (ground arith) | no nb ↦ omega arith ]
]
