-- ===== src/Kernel/Makenode/Made.antt =====
-- `bdd_makenode` of src/kernel.c: it returns the one node with this level and these children,
-- whatever it had to collect and to grow on the way.
pub mod Room
use mo_to_buddy.Prelude.{
  ℕ, suc, ◌<◌, ◌≡◌, ◌≢◌, refl, ◌∙◌, ap, ◌↔◌, inl, inr, true, false, ◌==◌, leb, arith, Bool-cases,
  ==_iff, ℕ_discrete, ◌*◌, ◌/◌,
}
use mo_to_buddy.Hash.{hash_range-lt}
use mo_to_buddy.Terminal.{maxlevel}
use mo_to_buddy.Kernel.{Nodes, Kernel, done, node_hash, reorder_ready}
use mo_to_buddy.Kernel.Chain.{found, missed, find, find-Chain, Chain-length, is_node}
use mo_to_buddy.Kernel.Partition.{home}
use mo_to_buddy.Kernel.WellFormed.{WellFormed, WellFormed-over}
use mo_to_buddy.Kernel.Protected.{Protected}
use mo_to_buddy.Kernel.Gbc.{gbc}
use mo_to_buddy.Kernel.Gbc.Collect.{gbc-Collected}
use mo_to_buddy.Kernel.Makenode.{
  settle, percent_free, grow_if_few, make_room, build, insert, resolve, makenode, nodenum,
}
use mo_to_buddy.Kernel.Makenode.Resize.{FindsPrimes, Limits, noderesize-Resized}
use mo_to_buddy.Kernel.Makenode.Build.{Fitting, Shaped, built, build-built}
pub use mo_to_buddy.Kernel.Makenode.Made.Room.{SameShape, Extends, IsNode, Made, reorder_ready_same}
use mo_to_buddy.Kernel.Makenode.Made.Room.{
  unchanged, NoneShaped, built-Made, Fitting-Keeps, Roomy, Collected-Roomy, Resized-Roomy,
  NoneShaped-Roomy, Roomy-Made,
}

module _ (prime_lte : ℕ → ℕ) (primes : FindsPrimes prime_lte) where
  grow_if_few-Roomy :
      {top : ℕ} {s s' : Kernel} → Roomy top s s' → Roomy top s (grow_if_few prime_lte s')
  unfolding grow_if_few
  grow_if_few-Roomy {top} {s} {s'} r = elim (Bool-cases (leb (percent_free s') s'.minfreenodes)) [
    | inl few ↦ rw few (Resized-Roomy r (noderesize-Resized prime_lte primes r.well r.limits))
    | inr many ↦ rw many r
  ]

  make_room_step :
      (s s' : Kernel)
      → gbc s ≡ done tt s'
      → reorder_ready s' ≡ false
      → make_room prime_lte s ≡ settle (grow_if_few prime_lte s')
  unfolding make_room
  make_room_step s s' e no_jump = rw (e, make_room) (ground (arith, no_jump))

  -- Room is made or the error is raised.
  make_room-Roomy :
      {top : ℕ} {s : Kernel}
      → WellFormed top s
      → Limits s
      → reorder_ready s ≡ false
      → (t : Kernel) × Roomy top s t × (make_room prime_lte s ≡ settle t)
  make_room-Roomy {top} {s} w l no_jump =
      let (s1, e, c) = gbc-Collected w in
      let r = Collected-Roomy l c in
      (
        grow_if_few prime_lte s1,
        grow_if_few-Roomy r,
        make_room_step s s1 e (reorder_ready_same s s1 r.reorder ∙ no_jump),
      )

  insert_free :
      (level low high : ℕ) (s : Kernel)
      → (s.freepos == 0) ≡ false
      → insert prime_lte level low high s ≡ build level low high s
  unfolding insert
  insert_free level low high s e = rw e refl

  insert_stopped :
      (level low high : ℕ) (s : Kernel)
      → (s.freepos == 0) ≡ true
      → (s.errorcond == 0) ≡ false
      → insert prime_lte level low high s ≡ done 0 s
  unfolding insert
  insert_stopped level low high s e1 e2 = rw (e1, e2) refl

  insert_full :
      (level low high : ℕ) (s t : Kernel)
      → (s.freepos == 0) ≡ true
      → (s.errorcond == 0) ≡ true
      → make_room prime_lte s ≡ settle t
      → (t.freepos == 0) ≡ true
      → insert prime_lte level low high s ≡ done 0 (record t { errorcond = nodenum })
  unfolding insert settle
  insert_full level low high s t e1 e2 e3 e4 = rw (e1, e2) (rw (e3, e4) refl)

  insert_room :
      (level low high : ℕ) (s t : Kernel)
      → (s.freepos == 0) ≡ true
      → (s.errorcond == 0) ≡ true
      → make_room prime_lte s ≡ settle t
      → (t.freepos == 0) ≡ false
      → insert prime_lte level low high s ≡ build level low high t
  unfolding insert settle
  insert_room level low high s t e1 e2 e3 e4 = rw (e1, e2) (rw (e3, e4) refl)

  -- The state in which the error was raised.
  failed-Made :
      {top : ℕ} {t : Kernel} (level low high : ℕ)
      → WellFormed top t
      → Limits t
      → t.errorcond ≡ 0
      → Made top t (record t { errorcond = nodenum }) level low high 0
  failed-Made {top} {t} level low high w l e = record {
    well =
        WellFormed-over (record t { errorcond = nodenum }) w (omega arith) w.top_max w.top_varnum
          w.stacked;
    keeps = record {
      node = λ n p h. record { level = refl; low = refl; high = refl; refcou = refl };
      const = λ n h. record { level = refl; low = refl; high = refl; refcou = refl };
      stack = refl;
      slots = refl;
      size = omega arith;
      varnum = refl;
    };
    limits = record {
      fits = l.fits;
      step = l.step;
      within = l.within;
      prime = l.prime;
      odd = l.odd;
    };
    ok = inl (omega arith);
    outcome = inl (omega arith, refl);
    caches = inl (refl, λ n o. (o, record { level = refl; low = refl; high = refl }));
    error = λ x. e;
    reorder = refl;
    running = refl;
    varset = refl;
  }

  insert-Made :
      {top : ℕ} {s : Kernel} (level low high : ℕ)
      → WellFormed top s
      → Limits s
      → reorder_ready s ≡ false
      → Fitting top level low high s
      → Protected s low
      → Protected s high
      → low ≢ high
      → NoneShaped level low high s
      → (res : ℕ) × (s' : Kernel) × (insert prime_lte level low high s ≡ done res s')
        × Made top s s' level low high res
  insert-Made {top} {s} level low high w l no_jump f pl ph d fresh =
      elim (Bool-cases (s.freepos == 0)) [
        | inr free ↦
            let room : s.freepos ≢ 0 = ground arith in
            (
              s.freepos,
              built w level low high f d room fresh,
              insert_free level low high s free ∙ build-built w level low high f d room fresh,
              built-Made level low high w l f d room fresh,
            )
        | inl none_free ↦ elim (Bool-cases (s.errorcond == 0)) [
          | inr stopped ↦ (
            0,
            s,
            insert_stopped level low high s none_free stopped,
            unchanged level low high 0 w l (inl (omega arith)) (inl (ground arith, refl)),
          )
          | inl fine ↦
              let (t, r, e) = make_room-Roomy w l no_jump in
              let f' = Fitting-Keeps level low high r.well r.keeps pl ph f in
              let fresh' = NoneShaped-Roomy level low high r fresh in
              let fine' : t.errorcond ≡ 0 = r.error ∙ (==_iff s.errorcond 0).0 fine in
              elim (Bool-cases (t.freepos == 0)) [
                | inl full ↦ (
                  0,
                  record t { errorcond = nodenum },
                  insert_full level low high s t none_free fine e full,
                  Roomy-Made level low high 0 r (failed-Made level low high r.well r.limits fine')
                      refl,
                )
                | inr free ↦
                    let room : t.freepos ≢ 0 = ground arith in
                    (
                      t.freepos,
                      built r.well level low high f' d room fresh',
                      insert_room level low high s t none_free fine e free
                          ∙ build-built r.well level low high f' d room fresh',
                      Roomy-Made level low high t.freepos r
                          (built-Made level low high r.well r.limits f' d room fresh') refl,
                    )
              ]
        ]
      ]

  makenode_same :
      (level low high : ℕ) (s : Kernel)
      → level < maxlevel
      → s.check_same_children ≡ true
      → low ≡ high
      → makenode prime_lte level low high s ≡ done low s
  unfolding makenode
  makenode_same level low high s lt c e = ground arith

  makenode_look :
      (level low high : ℕ) (s : Kernel)
      → level < maxlevel
      → low ≢ high
      → makenode prime_lte level low high s
        ≡ resolve prime_lte level low high s (
            find
              (suc s.nodesize)
              s.nodes
              level
              low
              high
              (s.nodes (node_hash s level low high)).hash)
  unfolding makenode
  makenode_look level low high s lt ne = ground arith

  resolve_found :
      (level low high res : ℕ) (s : Kernel)
      → resolve prime_lte level low high s (found res) ≡ done res s
  unfolding resolve
  resolve_found level low high res s = refl

  resolve_missed :
      (level low high : ℕ) (s : Kernel)
      → resolve prime_lte level low high s missed ≡ insert prime_lte level low high s
  unfolding resolve
  resolve_missed level low high s = refl

  is_node-Shaped :
      (level low high n : ℕ) (nodes : Nodes)
      → (is_node nodes level low high n ≡ true) ↔ Shaped level low high nodes n
  is_node-Shaped level low high n nodes = ground arith

  -- `bdd_makenode`, called with a level and two protected children that fit below it, in a
  -- well-formed table where no reordering is due, returns normally, and `Made` tells what it leaves.
  pub makenode-Made :
      {top : ℕ} {s : Kernel} (level low high : ℕ)
      → WellFormed top s
      → Limits s
      → reorder_ready s ≡ false
      → Fitting top level low high s
      → Protected s low
      → Protected s high
      → (res : ℕ) × (s' : Kernel) × (makenode prime_lte level low high s ≡ done res s')
        × Made top s s' level low high res
  makenode-Made {top} {s} level low high w l no_jump f pl ph =
      let below : level < maxlevel = omega (arith, f.below, w.top_max) in
      elim (ℕ_discrete low high) [
        | yes e ↦ (
          low,
          s,
          makenode_same level low high s below w.same_children e,
          unchanged level low high low w l f.low_ok (inr (inl (e, refl))),
        )
        | no d ↦
            let b = node_hash s level low high in
            let lt : b < s.nodesize =
              hash_range-lt _ s.nodesize (omega (arith, w.size_min)) (omega (arith, w.size_max)) in
            let q = w.part.buckets b lt in
            let few =
              Chain-length s.nodes s.nodesize q.items (s.nodes b).hash q.chain
                (λ a m. (q.sound a m).0.1) in
            elim (find-Chain (suc s.nodesize) s.nodes level low high (s.nodes b).hash q.items
              q.chain (omega (arith, few))) [
                | inl (n, e, m, hit) ↦
                    let shape = (is_node-Shaped level low high n s.nodes).0 hit in
                    let live = (q.sound n m).0 in
                    (
                      n,
                      s,
                      makenode_look level low high s below d
                          ∙ ap (resolve prime_lte level low high s) e
                          ∙ resolve_found level low high n s,
                      unchanged level low high n w l (inr live) (inr (inr (d, live, shape))),
                    )
                | inr (e, none_fits) ↦
                    let (res, s', made, m) =
                      insert-Made level low high w l no_jump f pl ph d (λ n live shape.
                        let at : home s.nodesize s.nodes n ≡ b =
                          rw (shape.0, shape.1, shape.2) refl in
                        let fits = (is_node-Shaped level low high n s.nodes).1 shape in
                        cc (fits, none_fits n (q.full n live at))) in
                    (
                      res,
                      s',
                      makenode_look level low high s below d
                          ∙ ap (resolve prime_lte level low high s) e
                          ∙ resolve_missed level low high s
                          ∙ made,
                      m,
                    )
              ]
      ]
