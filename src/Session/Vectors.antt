-- ===== src/Session/Vectors.antt =====
-- The kernel and the operators as the package that src/bvec.c calls, and the laws that it relies on.
use mo_to_buddy.Prelude.{ℕ, suc, ◌<◌, ◌≡◌, sym, ◌∙◌, ap, subst, inl, inr, some, List, [], ◌∷◌}
use mathlib.Core.Path.{ap₂}
use mo_to_buddy.Kernel.{Kernel, done, Cmd, and_then}
use mo_to_buddy.Kernel.Makenode.Resize.{FindsPrimes}
use mo_to_buddy.Kernel.Refs.{Result, node, ill_bdd, addref, delref}
use mo_to_buddy.Kernel.Settings.{
  Answer, value, err_var, err_range, err_running, err_nodes, err_ill_bdd, err_size, err_op, err_set,
}
use mo_to_buddy.Op.Ready.{op_bool}
use mo_to_buddy.Op.Call.{bdd_not, bdd_apply, bdd_ite}
use mo_to_buddy.Session.{Ref, Session, nth}
use mo_to_buddy.Session.Held.{
  Session-Good, Session-own, Session-drop, Session-const, Session-regain,
}
use mo_to_buddy.Session.Perform.Operand.{Operand, operand}
use mo_to_buddy.Session.Perform.Refines.{apply-Returned}
use mo_to_buddy.Bvec.{Package}
use mo_to_buddy.Bvec.Laws.{In, Lawful}

-- The operators return `bddfalse` after an error.
abbrev pub answered : Answer → ℕ
answered (value r) = r
answered err_var = 0
answered err_range = 0
answered err_running = 0
answered err_nodes = 0
answered err_ill_bdd = 0
answered err_size = 0
answered err_op = 0
answered err_set = 0

-- `bdd_addref` and `bdd_delref` return BDD_ILLBDD, which is -18 as an `int`.
abbrev pub returned : Result → ℕ
returned (node r) = r
returned ill_bdd = 4294967278

abbrev pub plain : Cmd Answer → Cmd ℕ
plain call s = and_then (call s) (λ a t. done (answered a) t)

abbrev pub refs : (ℕ → Kernel → Result × Kernel) → ℕ → Cmd ℕ
refs change r s = let out = change r s in done (returned out.0) out.1

module _ (prime_gte : ℕ → ℕ) (ratio : ℕ) (reorder_auto : Kernel → Kernel) (gain : Kernel → ℕ)
    (prime_lte : ℕ → ℕ) (fuel : ℕ) where
  abbrev pub bdd_package : Package
  bdd_package = record {
    apply =
        λ op l r. plain (bdd_apply prime_gte ratio reorder_auto gain prime_lte fuel l r (some op));
    ite = λ f g h. plain (bdd_ite prime_gte ratio reorder_auto gain prime_lte fuel f g h);
    negation = λ r. plain (bdd_not prime_gte ratio reorder_auto gain prime_lte fuel r);
    addref = refs addref;
    delref = refs delref;
  }

  In-nth : (x : Ref) (held : List Ref) → In x held → (i : ℕ) × (nth held i ≡ x)
  In-nth x [] m = absurd m
  In-nth x (y ∷ held) (inl e) = (0, sym e)
  In-nth x (y ∷ held) (inr m) = let (i, e) = In-nth x held m in (suc i, e)

  pub held-Operand :
      {top : ℕ} {s : Kernel} {held : List Ref} (x : Ref)
      → Session top s held
      → In x held
      → Operand top s x.bdd x.truth
  held-Operand {top} {s} {held} x h m =
      let (i, e) = In-nth x held m in
      subst (λ (y : Ref). Operand top s y.bdd y.truth) e (operand i h)

  -- In a running package whose recursion has fuel above the number of levels, the operators and the
  -- reference counts do what the vectors rely on.
  abbrev pub package_laws : (top : ℕ) → FindsPrimes prime_lte → top < fuel → Lawful bdd_package
  package_laws top primes few = record {
    Holds = Session top;
    combine = λ op s held x y h ix iy.
        let a = held-Operand x h ix in
        let b = held-Operand y h iy in
        let (r, s', e, g) =
          apply-Returned prime_gte ratio reorder_auto gain prime_lte primes fuel s op x.bdd y.bdd
            x.truth y.truth h.ready h.running h.room few a b in
        let (e', kept) =
          Session-own r (λ ρ. op_bool op (x.truth ρ) (y.truth ρ)) (Session-Good h g) g.fact.ok
            (λ z.
              let (t, rep, same) = g.fact.right z in
              (
                t,
                rep,
                λ ρ. same ρ ∙ ap₂ (op_bool op) (a.right (g.error z) ρ) (b.right (g.error z) ρ),
              )) in
        (
          r,
          (addref r s').1,
          ap (λ o. and_then (and_then o (λ a t. done (answered a) t)) (refs addref)) e
              ∙ ap (λ o. done (returned o) (addref r s').1) e',
          kept,
        );
    release = λ s held i h.
        let (e, kept) = Session-drop i h in
        (
          (delref (nth held i).bdd s).1,
          ap (λ o. done (returned o) (delref (nth held i).bdd s).1) e,
          kept,
        );
    constant = λ b s held h. Session-const b h;
    regain = λ s held x h.
        let (e, e', kept) = Session-regain x h in
        (
          (addref x.bdd (delref x.bdd s).1).1,
          ap (λ o. refs addref (returned o) (delref x.bdd s).1) e
              ∙ ap (λ o. done (returned o) (addref x.bdd (delref x.bdd s).1).1) e',
          kept,
        );
  }
