-- ===== src/Kernel/Makenode/Build.antt =====
-- The end of `bdd_makenode` in src/kernel.c: a free node becomes the node that was asked for.
use mo_to_buddy.Prelude.{
  ℕ, ◌+◌, ◌-◌, ◌<◌, ◌≡◌, ◌≢◌, refl, sym, ◌∙◌, ap, subst, ◌⊎◌, inl, inr, false, arith, ℕ_discrete,
}
use mathlib.Core.Logic.{⊎_elim}
use mo_to_buddy.Hash.{hash_range-lt}
use mo_to_buddy.Kernel.{Node, Nodes, update, Kernel, done, invalid, node_hash}
use mo_to_buddy.Kernel.Partition.{
  home, Partition, Partition-frame, SameFields, link, link-fields, link-Partition, take-Partition,
}
use mo_to_buddy.Kernel.WellFormed.{Live, Free, Ok, Beyond, NodeOk, AllOk, Unique, WellFormed}
use mo_to_buddy.Kernel.Protected.{SameNode, Keeps, Protected-Ok}
use mo_to_buddy.Kernel.Makenode.{build}

pub Ok-lt :
    {top : ℕ} {s : Kernel} → WellFormed top s → (n : ℕ) → Ok s.nodesize s.nodes n → n < invalid
Ok-lt w n (inl c) = omega arith
Ok-lt w n (inr (h, lt, ne)) = omega (arith, w.size_max)

-- What `bdd_makenode` needs of a new node's level and children.
pub record Fitting (top level low high : ℕ) (s : Kernel) : Type 0 where
  pub below : level < top
  pub low_ok : Ok s.nodesize s.nodes low
  pub high_ok : Ok s.nodesize s.nodes high
  pub low_beyond : Beyond s.nodes level low
  pub high_beyond : Beyond s.nodes level high

abbrev pub Shaped : ℕ → ℕ → ℕ → Nodes → ℕ → Type 0
Shaped level low high nodes n =
    ((nodes n).level ≡ level) × ((nodes n).low ≡ low) × ((nodes n).high ≡ high)

module _ {top : ℕ} {s : Kernel} (w : WellFormed top s) (level low high : ℕ)
    (fitting : Fitting top level low high s) (differ : low ≢ high) (room : s.freepos ≢ 0)
    (fresh : (n : ℕ) → Live s.nodesize s.nodes n → ¬ Shaped level low high s.nodes n) where
  abbrev pub res : ℕ
  res = s.freepos

  abbrev pub new_node : Node
  new_node = record (s.nodes res) {
    level = level;
    low = low;
    high = high;
    refcou = 0;
    mark = false;
  }

  pub filled : Nodes
  filled = update s.nodes res new_node

  pub bucket : ℕ
  bucket = node_hash s level low high

  abbrev pub linked : Nodes
  linked = link filled bucket res

  abbrev pub built : Kernel
  built = record s {
    nodes = linked;
    freepos = (s.nodes res).next;
    freenum = s.freenum - 1;
    produced = s.produced + 1;
  }

  pub build-built : build level low high s ≡ done res built
  unfolding build filled bucket
  build-built = refl

  res-Free : Free s.nodesize s.nodes res
  res-Free =
      (take-Partition s.nodesize s.nodes (Live s.nodesize s.nodes) (Free s.nodesize s.nodes) room
        w.part).0

  filled_self : filled res ≡ new_node
  unfolding filled
  filled_self = ground arith

  filled_ne : (n : ℕ) → n ≢ res → filled n ≡ s.nodes n
  unfolding filled
  filled_ne n ne = ground arith

  res_home : home s.nodesize filled res ≡ bucket
  unfolding bucket
  res_home = rw filled_self refl

  pub at_res : SameFields new_node (linked res)
  at_res = rw filled_self at (link-fields filled bucket res res)

  at_other : (n : ℕ) → n ≢ res → SameFields (s.nodes n) (linked n)
  at_other n ne = rw (filled_ne n ne) at (link-fields filled bucket res n)

  live_ne : (n : ℕ) → Live s.nodesize s.nodes n → n ≢ res
  live_ne n (h, lt, ne) e = ne (ap (λ a. (s.nodes a).low) e ∙ res-Free.2)

  pub live_up : (n : ℕ) → Live s.nodesize s.nodes n → Live s.nodesize linked n
  live_up n l = (l.0, l.1, λ e. l.2 (sym ((at_other n (live_ne n l)).low) ∙ e))

  pub res_live : Live s.nodesize linked res
  res_live = (
    res-Free.0,
    res-Free.1,
    λ e.
        let e' : low ≡ invalid = sym at_res.low ∙ e in
        absurd (omega (arith, Ok-lt w low fitting.low_ok)),
  )

  live_down : (n : ℕ) → Live s.nodesize linked n → (n ≡ res) ⊎ Live s.nodesize s.nodes n
  live_down n (h, lt, ne) = elim (ℕ_discrete n res) [
    | yes e ↦ inl e
    | no d ↦ inr (h, lt, λ e. ne ((at_other n d).low ∙ e))
  ]

  Free-up : (n : ℕ) → Free s.nodesize s.nodes n × (n ≢ res) → Free s.nodesize linked n
  Free-up n (f, ne) = (f.0, f.1, (at_other n ne).low ∙ f.2)

  Free-down : (n : ℕ) → Free s.nodesize linked n → Free s.nodesize s.nodes n × (n ≢ res)
  Free-down n (h, lt, e) =
      let ne : n ≢ res = λ d. res_live.2 (ap (λ a. (linked a).low) (sym d) ∙ e) in
      ((h, lt, sym ((at_other n ne).low) ∙ e), ne)

  filled_links :
      (n : ℕ)
      → ((filled n).next ≡ (s.nodes n).next)
        × ((filled n).hash ≡ (s.nodes n).hash)
        × (Live s.nodesize s.nodes n → home s.nodesize filled n ≡ home s.nodesize s.nodes n)
  filled_links n = elim (ℕ_discrete n res) [
    | yes e ↦ (
      ap (λ a. (filled a).next) e
          ∙ ap (λ (a : Node). a.next) filled_self
          ∙ ap (λ a. (s.nodes a).next) (sym e),
      ap (λ a. (filled a).hash) e
          ∙ ap (λ (a : Node). a.hash) filled_self
          ∙ ap (λ a. (s.nodes a).hash) (sym e),
      λ l. absurd (live_ne n l e),
    )
    | no ne ↦ rw (filled_ne n ne) (refl, refl, λ l. refl)
  ]

  built_part :
      Partition s.nodesize linked
        (Live s.nodesize linked)
        (Free s.nodesize linked)
        (s.nodes res).next
        (s.freenum - 1)
  built_part =
      let taken =
        (take-Partition s.nodesize s.nodes (Live s.nodesize s.nodes) (Free s.nodesize s.nodes) room
          w.part).1 in
      let ready =
        Partition-frame s.nodesize s.nodes filled (Live s.nodesize s.nodes)
          (λ n. Free s.nodesize s.nodes n × (n ≢ res)) (Live s.nodesize s.nodes)
          (Free s.nodesize linked) filled_links (λ n l. l) (λ n l. l) Free-up Free-down taken in
      let done_part =
        link-Partition s.nodesize filled {L' = Live s.nodesize linked} res
          (omega (arith, res-Free.0)) (λ l. live_ne res l refl) (λ f. res_live.2 f.2) live_down
          live_up res_live ready
          (hash_range-lt _ s.nodesize (omega (arith, w.size_min)) (omega (arith, w.size_max))) in
      subst
        (λ b.
          Partition s.nodesize (link filled b res) (Live s.nodesize linked) (Free s.nodesize linked)
            (s.nodes res).next (s.freenum - 1))
        res_home done_part

  pub other_same : (n : ℕ) → Live s.nodesize s.nodes n → SameNode (s.nodes n) (linked n)
  other_same n l =
      let f = at_other n (live_ne n l) in
      record { level = f.level; low = f.low; high = f.high; refcou = f.refcou }

  Ok-up : (n : ℕ) → Ok s.nodesize s.nodes n → Ok s.nodesize linked n
  Ok-up n o = ⊎_elim inl (λ l. inr (live_up n l)) o

  Beyond-up : (l n : ℕ) → Ok s.nodesize s.nodes n → Beyond s.nodes l n → Beyond linked l n
  Beyond-up l n (inl c) b = inl c
  Beyond-up l n (inr o) b =
      ⊎_elim inl (λ (c : l < (s.nodes n).level). inr (omega (arith, (other_same n o).level))) b

  old-NodeOk : (n : ℕ) → Live s.nodesize s.nodes n → NodeOk top s.nodesize linked n
  old-NodeOk n l =
      let same = other_same n l in
      let good = w.live n l in
      record {
        level = omega (arith, same.level, good.level);
        low_ok = rw same.low (Ok-up _ good.low_ok);
        high_ok = rw same.high (Ok-up _ good.high_ok);
        low_beyond = rw (same.low, same.level) (Beyond-up _ _ good.low_ok good.low_beyond);
        high_beyond = rw (same.high, same.level) (Beyond-up _ _ good.high_ok good.high_beyond);
        differ = λ e. good.differ (sym same.low ∙ e ∙ same.high);
      }

  res_ok : NodeOk top s.nodesize linked res
  res_ok = record {
    level = omega (arith, at_res.level, fitting.below);
    low_ok = rw at_res.low (Ok-up low fitting.low_ok);
    high_ok = rw at_res.high (Ok-up high fitting.high_ok);
    low_beyond =
        rw (at_res.low, at_res.level) (Beyond-up level low fitting.low_ok fitting.low_beyond);
    high_beyond =
        rw (at_res.high, at_res.level) (Beyond-up level high fitting.high_ok fitting.high_beyond);
    differ = λ e. differ (sym at_res.low ∙ e ∙ at_res.high);
  }

  built_live : AllOk top s.nodesize linked
  built_live n l = elim (live_down n l) [ inl e ↦ rw e res_ok | inr o ↦ old-NodeOk n o ]

  -- An old node with the fields of the new one would have been found.
  not_fresh :
      (n : ℕ)
      → Live s.nodesize s.nodes n
      → (linked res).level ≡ (linked n).level
      → (linked res).low ≡ (linked n).low
      → (linked res).high ≡ (linked n).high
      → ⊥
  not_fresh n l a b c =
      let same = other_same n l in
      fresh n l (
        sym same.level ∙ sym a ∙ at_res.level,
        sym same.low ∙ sym b ∙ at_res.low,
        sym same.high ∙ sym c ∙ at_res.high,
      )

  built-Unique : Unique s.nodesize linked
  built-Unique m n lm ln a b c = elim (live_down m lm) [
    | inl em ↦ elim (live_down n ln) [
      | inl en ↦ em ∙ sym en
      | inr on ↦ absurd (
          not_fresh n on (subst (λ (i : ℕ). (linked i).level ≡ (linked n).level) em a)
            (subst (λ (i : ℕ). (linked i).low ≡ (linked n).low) em b)
            (subst (λ (i : ℕ). (linked i).high ≡ (linked n).high) em c))
    ]
    | inr om ↦ elim (live_down n ln) [
      | inl en ↦ absurd (
          not_fresh m om (sym (subst (λ (i : ℕ). (linked m).level ≡ (linked i).level) en a))
            (sym (subst (λ (i : ℕ). (linked m).low ≡ (linked i).low) en b))
            (sym (subst (λ (i : ℕ). (linked m).high ≡ (linked i).high) en c)))
      | inr on ↦
          let sm = other_same m om in
          let sn = other_same n on in
          w.unique m n om on (sym sm.level ∙ a ∙ sn.level) (sym sm.low ∙ b ∙ sn.low)
            (sym sm.high ∙ c ∙ sn.high)
    ]
  ]

  built_clean : (n : ℕ) → 1 < n → n < s.nodesize → (linked n).mark ≡ false
  built_clean n h lt = elim (ℕ_discrete n res) [
    | yes e ↦ rw e at_res.mark
    | no ne ↦ (at_other n ne).mark ∙ w.clean n h lt
  ]

  built_counted :
      (n : ℕ) → 1 < n → n < s.nodesize → 0 < (linked n).refcou → (linked n).low ≢ invalid
  built_counted n h lt r = elim (ℕ_discrete n res) [
    | yes e ↦ rw e (res_live.2)
    | no ne ↦
        let f = at_other n ne in λ e. w.counted n h lt (omega (arith, f.refcou)) (sym f.low ∙ e)
  ]

  pub built-WellFormed : WellFormed top built
  built-WellFormed = record {
    size_min = w.size_min;
    size_max = w.size_max;
    top_max = w.top_max;
    top_varnum = w.top_varnum;
    live = built_live;
    unique = built-Unique;
    clean = built_clean;
    stacked = λ n m. Ok-up n (w.stacked n m);
    counted = built_counted;
    part = built_part;
    same_children = w.same_children;
  }

  pub built-Keeps : Keeps s built
  built-Keeps = record {
    node = λ n p h.
        ⊎_elim (λ (c : n < 2). absurd (omega arith))
          (λ (l : Live s.nodesize s.nodes n). other_same n l) (Protected-Ok w p);
    const = λ n h.
        let f = at_other n (λ e. absurd (omega (arith, res-Free.0))) in
        record { level = f.level; low = f.low; high = f.high; refcou = f.refcou };
    stack = refl;
    slots = refl;
    size = omega arith;
    varnum = refl;
  }
