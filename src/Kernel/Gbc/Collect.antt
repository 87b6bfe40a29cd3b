-- ===== src/Kernel/Gbc/Collect.antt =====
-- `bdd_gbc` as a whole: it keeps what is protected, frees the rest, and leaves a well-formed table.
pub mod Table
use mo_to_buddy.Prelude.{ℕ, ◌+◌, ◌<◌, ◌≡◌, refl, ◌∙◌, ap, ◌↔◌, inl, inr, true, some, Among, arith}
use mathlib.Core.Logic.{⊎_elim}
use mo_to_buddy.Kernel.{Nodes, Kernel, done}
use mo_to_buddy.Kernel.WellFormed.{Live, Ok, WellFormed}
use mo_to_buddy.Kernel.Protected.{
  Protected, constant, stacked, counted, by_low, by_high, SameNode, Keeps, Protected-Ok,
}
use mo_to_buddy.Kernel.Gbc.{
  mark_stack, mark_counted, mark_all, rehash_all, operator_reset, depth_fuel, gbc,
}
use mo_to_buddy.Kernel.Gbc.Marking.{SameButMark, Visited}
use mo_to_buddy.Kernel.Gbc.Roots.{mark_stack-Rooted, mark_counted-Rooted}
use mo_to_buddy.Kernel.Gbc.Collect.Table.{
  MarkedAll, collected, final-collected, collected-WellFormed, collected-Keeps, kept_live,
  kept_of_live, live_of_protected, collected_old,
}

mark_all-some :
    (s : Kernel) (n1 n2 : Nodes)
    → mark_stack (depth_fuel s) s.refstack s.nodes ≡ some n1
    → mark_counted (depth_fuel s) s.nodesize 0 n1 ≡ some n2
    → mark_all s ≡ some n2
mark_all-some s n1 n2 e1 e2 = rw (e1, mark_all) e2

module _ {top : ℕ} {s : Kernel} (w : WellFormed top s) where
  size : ℕ
  size = s.nodesize

  her :
      (n : ℕ)
      → Live s.nodesize s.nodes n
      → Protected s n
      → Protected s (s.nodes n).low × Protected s (s.nodes n).high
  her n l p = (by_low p l refl, by_high p l refl)

  base_same : (n : ℕ) → SameButMark (s.nodes n) (s.nodes n)
  base_same n = record { high = refl; low = refl; refcou = refl; level = refl }

  counted_root :
      (n : ℕ)
      → (n < s.nodesize) × (0 < (s.nodes n).refcou)
      → Ok s.nodesize s.nodes n × Protected s n
  counted_root n (lt, r) = let p : Protected s n = counted lt r in (Protected-Ok w p, p)

  stacked_root : (n : ℕ) → Among n s.refstack → Ok s.nodesize s.nodes n × Protected s n
  stacked_root n m = (w.stacked n m, stacked m)

  unmarked : (n : ℕ) → Live s.nodesize s.nodes n → (s.nodes n).mark ≡ true → ⊥
  unmarked n (h, lt, ne) m = cc (w.clean n h lt)

  -- What was visited from the roots, and closed under children, holds all that is protected.
  Visited-all :
      (nodes : Nodes)
      → ((n : ℕ) → Among n s.refstack → Visited nodes n)
      → ((n : ℕ) → (n < s.nodesize) × (0 < (s.nodes n).refcou) → Visited nodes n)
      → ((n : ℕ)
          → Live s.nodesize s.nodes n
          → (nodes n).mark ≡ true
          → Visited nodes (s.nodes n).low × Visited nodes (s.nodes n).high)
      → {n : ℕ} → Protected s n
      → Visited nodes n
  Visited-all nodes a b c (constant h) = inl h
  Visited-all nodes a b c (stacked {n} m) = a n m
  Visited-all nodes a b c (counted {n} lt r) = b n (lt, r)
  Visited-all nodes a b c (by_low {n} p l e) = elim (Visited-all nodes a b c p) [
    | inl small ↦ absurd (omega (arith, l.0))
    | inr m ↦ rw e ((c n l m).0)
  ]
  Visited-all nodes a b c (by_high {n} p l e) = elim (Visited-all nodes a b c p) [
    | inl small ↦ absurd (omega (arith, l.0))
    | inr m ↦ rw e ((c n l m).1)
  ]

  -- In a well-formed table the two marking loops of `bdd_gbc` end within the fuel, mark exactly the
  -- protected nodes, empty every bucket head, and change no node's level, children or count.
  pub mark_all-MarkedAll : (nodes : Nodes) × (mark_all s ≡ some nodes) × MarkedAll s nodes
  mark_all-MarkedAll =
      let (n1, e1, a, h1) =
        mark_stack-Rooted top s.nodesize s.nodes w.top_max w.live (Protected s) her (depth_fuel s)
          (omega (arith, w.top_varnum)) s.refstack s.nodes base_same
          (λ n l m le. absurd (unmarked n l m)) stacked_root in
      let (n2, e2, b, h2, h3) =
        mark_counted-Rooted top s.nodesize s.nodes w.top_max w.live (Protected s) her (depth_fuel s)
          (omega (arith, w.top_varnum)) s.nodesize 0 n1 (omega arith) a.same a.closed
          counted_root in
      (
        n2,
        mark_all-some s n1 n2 e1 e2,
        record {
          same = b.same;
          full =
              Visited-all n2 (λ n m. ⊎_elim inl (λ v. inr (b.keeps n v)) (a.visited n m))
                (λ n c. b.visited n (omega arith, c)) (λ n l m. b.closed n l m (omega arith));
          sound = λ n h lt m. elim (b.sound n m) [
            | inr p ↦ p
            | inl m1 ↦ elim (a.sound n m1) [ inr p ↦ p | inl m0 ↦ absurd (cc (w.clean n h lt, m0)) ]
          ];
          heads = λ n lt. h2 n (omega arith) lt;
        },
      )

-- What a garbage collection does: nodes from 2 on are in use afterwards exactly if they are
-- protected, protected nodes are unchanged, and the caches are reset.
pub record Collected (top : ℕ) (s s' : Kernel) : Type 0 where
  pub well : WellFormed top s'
  pub keeps : Keeps s s'
  pub exact : (n : ℕ) → 1 < n → Live s'.nodesize s'.nodes n ↔ Protected s n
  pub old :
      (n : ℕ)
      → Live s'.nodesize s'.nodes n
      → Live s.nodesize s.nodes n × SameNode (s.nodes n) (s'.nodes n)
  pub rest : s' ≡ record s {
    nodes = s'.nodes;
    freepos = s'.freepos;
    freenum = s'.freenum;
    terminals = s'.terminals;
    caches = operator_reset s.caches;
    gbcollectnum = s.gbcollectnum + 1;
  }

gbc-done :
    (s : Kernel) (nodes : Nodes)
    → mark_all s ≡ some nodes
    → gbc s
      ≡ done tt (
          let t = rehash_all true (record s { nodes = nodes }) in
          record t { caches = operator_reset t.caches; gbcollectnum = t.gbcollectnum + 1 })
unfolding gbc
gbc-done s nodes e = rw (e, gbc) refl

-- In a well-formed table `bdd_gbc` returns. Afterwards the table is well-formed, the nodes in use
-- are exactly the protected ones, these are unchanged, and the caches are reset.
pub gbc-Collected :
    {top : ℕ} {s : Kernel}
    → WellFormed top s
    → (s' : Kernel) × (gbc s ≡ done tt s') × Collected top s s'
gbc-Collected {top} {s} w =
    let (nodes, e, marked) = mark_all-MarkedAll w in
    (
      collected w nodes marked,
      gbc-done s nodes e ∙ ap (done tt) (final-collected w nodes marked),
      record {
        well = collected-WellFormed w nodes marked;
        keeps = collected-Keeps w nodes marked;
        exact = λ n h. (
          λ l. (kept_live w nodes marked n h l.1 (kept_of_live w nodes marked n l)).0,
          λ p. live_of_protected w nodes marked n p h,
        );
        old = collected_old w nodes marked;
        rest = refl;
      },
    )
