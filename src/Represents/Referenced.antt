-- ===== src/Represents/Referenced.antt =====
-- What `bdd_addref` is for: a referenced BDD survives garbage collection with its function.
use mo_to_buddy.Prelude.{ℕ, ◌<◌, ◌≡◌, sym, ◌∙◌, ap, subst, true, arith}
use mo_to_buddy.Tree.{Tree, leaf, node}
use mo_to_buddy.Kernel.{Kernel, done}
use mo_to_buddy.Kernel.WellFormed.{Live, WellFormed}
use mo_to_buddy.Kernel.Protected.{Protected, counted}
use mo_to_buddy.Kernel.Refs.{Result, addref}
use mo_to_buddy.Kernel.Refs.Counted.{
  recount, recount-SameButCount, more, addref_live, recount_count, recount-WellFormed,
}
use mo_to_buddy.Kernel.Gbc.{gbc}
use mo_to_buddy.Kernel.Gbc.Collect.{gbc-Collected}
use mo_to_buddy.Represents.{Rep}
use mo_to_buddy.Represents.Frame.{Rep-Keeps}

Rep-recount : (s : Kernel) (root c : ℕ) (t : Tree) (n : ℕ) → Rep s n t → Rep (recount s root c) n t
Rep-recount s root c (leaf b) n r = r
Rep-recount s root c (node l t u) n (live, e, a, b) =
    let f = recount-SameButCount s root c n in
    (
      (live.0, live.1, λ x. live.2 (sym f.low ∙ x)),
      f.level ∙ e,
      subst (λ m. Rep (recount s root c) m t) (sym f.low)
          (Rep-recount s root c t (s.nodes n).low a),
      subst (λ m. Rep (recount s root c) m u) (sym f.high)
          (Rep-recount s root c u (s.nodes n).high b),
    )

more_positive : (c : ℕ) → 0 < more c
more_positive c = ground arith

-- In a well-formed table of a running package, let a live node stand for a tree. After `bdd_addref`
-- of the node, `bdd_gbc` returns, the table is well-formed, the node is still in use, and it stands
-- for the same tree.
pub addref-survives :
    {top : ℕ} {s : Kernel} (root : ℕ) (t : Tree)
    → WellFormed top s
    → s.running ≡ true
    → Live s.nodesize s.nodes root
    → Rep s root t
    → (s' : Kernel) × (gbc (addref root s).1 ≡ done tt s')
      × WellFormed top s'
      × Live s'.nodesize s'.nodes root
      × Rep s' root t
addref-survives {top} {s} root t w run l r =
    let c = more (s.nodes root).refcou in
    let (s', e, g) = gbc-Collected (recount-WellFormed w root c l.2) in
    let held : Protected (recount s root c) root =
      counted l.1 (omega (arith, recount_count s root c, more_positive (s.nodes root).refcou)) in
    (
      s',
      ap (λ (o : Result × Kernel). gbc o.1) (addref_live s root run l) ∙ e,
      g.well,
      (g.exact root l.0).1 held,
      Rep-Keeps t root g.keeps held (Rep-recount s root c t root r),
    )
