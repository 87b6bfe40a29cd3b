-- ===== src/Start/Relevel.antt =====
-- A constant gets another level at the end of `bdd_setvarnum` in src/kernel.c; the table stays
-- well-formed.
use mo_to_buddy.Prelude.{ℕ, ◌<◌, ◌≡◌, refl, inr, arith}
use mo_to_buddy.Kernel.{Kernel, Nodes}
use mo_to_buddy.Kernel.Partition.{Partition-frame}
use mo_to_buddy.Kernel.WellFormed.{Live, Ok, WellFormed}
use mo_to_buddy.Kernel.Inherits.{Inherits, Ok-Inherits, AllOk-Inherits, Unique-Inherits}
use mo_to_buddy.Op.Ready.{Limits-same, CachesSound-Extends}
use mo_to_buddy.Start.{relevel}
use mo_to_buddy.Start.Growing.{Literal, Growing}

module _ (c l : ℕ) (small : c < 2) where
  others : (nodes : Nodes) (n : ℕ) → 1 < n → relevel c l nodes n ≡ nodes n
  others nodes n big = ground arith

  links :
      (nodes : Nodes) (n : ℕ)
      → ((relevel c l nodes n).next ≡ (nodes n).next)
        × ((relevel c l nodes n).hash ≡ (nodes n).hash)
  links nodes n = ground arith

  Live-relevel :
      (size : ℕ) (nodes : Nodes) (n : ℕ) → Live size nodes n → Live size (relevel c l nodes) n
  Live-relevel size nodes n (h, lt, ne) = (h, lt, rw (others nodes n h) ne)

  relevel-Live :
      (size : ℕ) (nodes : Nodes) (n : ℕ) → Live size (relevel c l nodes) n → Live size nodes n
  relevel-Live size nodes n (h, lt, ne) = (h, lt, rw (others nodes n h) at ne)

  relevel-WellFormed :
      {top : ℕ} {s : Kernel}
      → WellFormed top s
      → WellFormed top (record s { nodes = relevel c l s.nodes })
  relevel-WellFormed {top} {s} w =
      let nodes' = relevel c l s.nodes in
      let i : Inherits s.nodesize s.nodes s.nodesize nodes' (Ok s.nodesize s.nodes) = record {
        down = λ n a.
            let old = relevel-Live s.nodesize s.nodes n a in
            (
              old,
              rw (others s.nodes n a.0)
                  (record { level = refl; low = refl; high = refl; refcou = refl }),
              inr old,
            );
        up = λ n a p. Live-relevel s.nodesize s.nodes n a;
        children = λ n a p. ((w.live n a).low_ok, (w.live n a).high_ok);
      } in
      record {
        size_min = w.size_min;
        size_max = w.size_max;
        top_max = w.top_max;
        top_varnum = w.top_varnum;
        live = AllOk-Inherits i w.live;
        unique = Unique-Inherits i w.unique;
        clean = λ n h lt. rw (others s.nodes n h) (w.clean n h lt);
        stacked = λ n m. Ok-Inherits i n (w.stacked n m) (w.stacked n m);
        counted = λ n h lt. rw (others s.nodes n h) (w.counted n h lt);
        part =
            Partition-frame s.nodesize s.nodes nodes' _ _ _ _
              (λ n. let (a, b) = links s.nodes n in (a, b, λ x. rw (others s.nodes n x.0) refl))
              (Live-relevel s.nodesize s.nodes) (relevel-Live s.nodesize s.nodes)
              (λ n (h, lt, e). (h, lt, rw (others s.nodes n h) e))
              (λ n (h, lt, e). (h, lt, rw (others s.nodes n h) at e)) w.part;
        same_children = w.same_children;
      }

  relevel-Literal :
      (s : Kernel) (i n a b : ℕ)
      → Literal s i n a b
      → Literal (record s { nodes = relevel c l s.nodes }) i n a b
  relevel-Literal s i n a b ((live, shape), r) =
      let e = others s.nodes n live.0 in
      ((Live-relevel s.nodesize s.nodes n live, rw e shape), rw e r)

  pub Growing-relevel :
      {top slots : ℕ} {s : Kernel}
      → Growing top slots s
      → Growing top slots (record s { nodes = relevel c l s.nodes })
  Growing-relevel {top} {slots} {s} g =
      let s' = record s { nodes = relevel c l s.nodes } in
      record {
        well = relevel-WellFormed g.well;
        limits = Limits-same s s' refl refl refl g.limits;
        quiet = g.quiet;
        caches =
            CachesSound-Extends s s' s.caches
              (λ n a. (
                Live-relevel s.nodesize s.nodes n a,
                rw (others s.nodes n a.0) (record { level = refl; low = refl; high = refl }),
              ))
              (λ z. z) g.caches;
        running = g.running;
        room = g.room;
        named = λ i lt.
            let (pos, neg) = g.named i lt in
            (relevel-Literal s i _ 0 1 pos, relevel-Literal s i _ 1 0 neg);
      }
