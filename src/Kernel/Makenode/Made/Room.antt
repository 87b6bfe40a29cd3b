-- ===== src/Kernel/Makenode/Made/Room.antt =====
-- What `bdd_makenode` of src/kernel.c leaves, and the state after it made room.
use mo_to_buddy.Prelude.{ℕ, ◌≡◌, ◌≢◌, refl, sym, ◌∙◌, ap, ◌⊎◌, inl, inr, arith, dec_lt}
use mo_to_buddy.Kernel.{Node, Kernel, reorder_ready}
use mo_to_buddy.Kernel.WellFormed.{Live, Ok, Beyond, WellFormed}
use mo_to_buddy.Kernel.Protected.{
  Protected, SameNode, Keeps, Keeps-refl, Keeps-trans, Protected-Ok, Protected-Keeps,
}
use mo_to_buddy.Kernel.Gbc.{operator_reset}
use mo_to_buddy.Kernel.Gbc.Collect.{Collected}
use mo_to_buddy.Kernel.Makenode.Resize.{Limits, Resized}
use mo_to_buddy.Kernel.Makenode.Build.{
  Fitting, Shaped, built, built-WellFormed, built-Keeps, res_live, at_res, live_up, other_same,
}

pub record SameShape (a b : Node) : Type 0 where
  pub level : b.level ≡ a.level
  pub low : b.low ≡ a.low
  pub high : b.high ≡ a.high

-- Every node in use stayed in use, with its level and children.
abbrev pub Extends : Kernel → Kernel → Type 0
Extends s s' =
    (n : ℕ)
    → Live s.nodesize s.nodes n
    → Live s'.nodesize s'.nodes n × SameShape (s.nodes n) (s'.nodes n)

-- `res` is the node that was asked for: the child where both children are one, and otherwise a node
-- in use with this level and these children.
abbrev pub IsNode : ℕ → ℕ → ℕ → Kernel → ℕ → Type 0
IsNode level low high s res =
    ((low ≡ high) × (res ≡ low))
    ⊎ ((low ≢ high) × Live s.nodesize s.nodes res × Shaped level low high s.nodes res)

-- What a call leaves: a well-formed table in which protected nodes are unchanged, and a valid
-- result. After an error the result is 0, and else it is the node asked for. The caches are untouched and every node stayed, or they were reset.
pub record Made (top : ℕ) (s s' : Kernel) (level low high res : ℕ) : Type 0 where
  pub well : WellFormed top s'
  pub keeps : Keeps s s'
  pub limits : Limits s'
  pub ok : Ok s'.nodesize s'.nodes res
  pub outcome : ((s'.errorcond ≢ 0) × (res ≡ 0)) ⊎ IsNode level low high s' res
  pub caches : ((s'.caches ≡ s.caches) × Extends s s') ⊎ (s'.caches ≡ operator_reset s.caches)
  pub error : s'.errorcond ≡ 0 → s.errorcond ≡ 0
  pub reorder : s'.reorder ≡ s.reorder
  pub running : s'.running ≡ s.running
  pub varset : s'.varset ≡ s.varset

Extends-refl : (s : Kernel) → Extends s s
Extends-refl s n l = (l, record { level = refl; low = refl; high = refl })

-- A call that changed nothing.
pub unchanged :
    {top : ℕ} {s : Kernel} (level low high res : ℕ)
    → WellFormed top s
    → Limits s
    → Ok s.nodesize s.nodes res
    → ((s.errorcond ≢ 0) × (res ≡ 0)) ⊎ IsNode level low high s res
    → Made top s s level low high res
unchanged {top} {s} level low high res w l ok out = record {
  well = w;
  keeps = Keeps-refl s;
  limits = l;
  ok = ok;
  outcome = out;
  caches = inl (refl, Extends-refl s);
  error = λ e. e;
  reorder = refl;
  running = refl;
  varset = refl;
}

abbrev pub NoneShaped : ℕ → ℕ → ℕ → Kernel → Type 0
NoneShaped level low high s =
    (n : ℕ) → Live s.nodesize s.nodes n → ¬ Shaped level low high s.nodes n

pub built-Made :
    {top : ℕ} {s : Kernel} (level low high : ℕ) (w : WellFormed top s)
    → Limits s
    → (f : Fitting top level low high s) (d : low ≢ high) (room : s.freepos ≢ 0)
    → (fresh : NoneShaped level low high s)
    → Made top s (built w level low high f d room fresh) level low high s.freepos
built-Made {top} {s} level low high w l f d room fresh =
    let at = at_res w level low high f d room fresh in
    let live = res_live w level low high f d room fresh in
    record {
      well = built-WellFormed w level low high f d room fresh;
      keeps = built-Keeps w level low high f d room fresh;
      limits = record {
        fits = l.fits;
        step = l.step;
        within = l.within;
        prime = l.prime;
        odd = l.odd;
      };
      ok = inr live;
      outcome = inr (inr (d, live, (at.level, at.low, at.high)));
      caches = inl (
        refl,
        λ n o.
            let same = other_same w level low high f d room fresh n o in
            (
              live_up w level low high f d room fresh n o,
              record { level = same.level; low = same.low; high = same.high },
            ),
      );
      error = λ e. e;
      reorder = refl;
      running = refl;
      varset = refl;
    }

-- Children that are kept stay fit.
pub Fitting-Keeps :
    {top : ℕ} {s s' : Kernel} (level low high : ℕ)
    → WellFormed top s'
    → Keeps s s'
    → Protected s low
    → Protected s high
    → Fitting top level low high s
    → Fitting top level low high s'
Fitting-Keeps {top} {s} {s'} level low high w k pl ph f = record {
  below = f.below;
  low_ok = Protected-Ok w (Protected-Keeps k pl);
  high_ok = Protected-Ok w (Protected-Keeps k ph);
  low_beyond = still low pl f.low_beyond;
  high_beyond = still high ph f.high_beyond;
}
  where
    still : (n : ℕ) → Protected s n → Beyond s.nodes level n → Beyond s'.nodes level n
    still n p (inl c) = inl c
    still n p (inr lt) = elim (dec_lt n 2) [
      | yes c ↦ inl c
      | no big ↦ inr (omega (arith, (k.node n p (omega arith)).level))
    ]

-- The state after room was looked for: collected, and perhaps grown.
pub record Roomy (top : ℕ) (s s' : Kernel) : Type 0 where
  pub well : WellFormed top s'
  pub keeps : Keeps s s'
  pub limits : Limits s'
  pub old :
      (n : ℕ)
      → Live s'.nodesize s'.nodes n
      → Live s.nodesize s.nodes n × SameNode (s.nodes n) (s'.nodes n)
  pub caches : s'.caches ≡ operator_reset s.caches
  pub error : s'.errorcond ≡ s.errorcond
  pub reorder : s'.reorder ≡ s.reorder
  pub running : s'.running ≡ s.running
  pub varset : s'.varset ≡ s.varset

pub Collected-Roomy : {top : ℕ} {s s' : Kernel} → Limits s → Collected top s s' → Roomy top s s'
Collected-Roomy {top} {s} {s'} l c = record {
  well = c.well;
  keeps = c.keeps;
  limits =
      let size : s'.nodesize ≡ s.nodesize = ap (λ (t : Kernel). t.nodesize) c.rest in
      let step : s'.maxnodeincrease ≡ s.maxnodeincrease =
        ap (λ (t : Kernel). t.maxnodeincrease) c.rest in
      let max : s'.maxnodesize ≡ s.maxnodesize = ap (λ (t : Kernel). t.maxnodesize) c.rest in
      record {
        fits = omega (arith, l.fits);
        step = omega (arith, l.step);
        within = omega (arith, l.within);
        prime = rw size l.prime;
        odd = omega (arith, l.odd);
      };
  old = c.old;
  caches = ap (λ (t : Kernel). t.caches) c.rest;
  error = ap (λ (t : Kernel). t.errorcond) c.rest;
  reorder = ap (λ (t : Kernel). t.reorder) c.rest;
  running = ap (λ (t : Kernel). t.running) c.rest;
  varset = ap (λ (t : Kernel). t.varset) c.rest;
}

pub Resized-Roomy : {top : ℕ} {s t u : Kernel} → Roomy top s t → Resized top t u → Roomy top s u
Resized-Roomy a b = record {
  well = b.well;
  keeps = Keeps-trans a.keeps b.keeps;
  limits = b.limits;
  old = λ n l.
      let (l1, x) = b.old n l in
      let (l0, y) = a.old n l1 in
      (
        l0,
        record {
          level = x.level ∙ y.level;
          low = x.low ∙ y.low;
          high = x.high ∙ y.high;
          refcou = x.refcou ∙ y.refcou;
        },
      );
  caches = ap (λ (k : Kernel). k.caches) b.rest ∙ a.caches;
  error = ap (λ (k : Kernel). k.errorcond) b.rest ∙ a.error;
  reorder = ap (λ (k : Kernel). k.reorder) b.rest ∙ a.reorder;
  running = ap (λ (k : Kernel). k.running) b.rest ∙ a.running;
  varset = ap (λ (k : Kernel). k.varset) b.rest ∙ a.varset;
}

pub NoneShaped-Roomy :
    {top : ℕ} {s s' : Kernel} (level low high : ℕ)
    → Roomy top s s'
    → NoneShaped level low high s
    → NoneShaped level low high s'
NoneShaped-Roomy level low high r fresh n l (a, b, c) =
    let (old, same) = r.old n l in
    fresh n old (sym same.level ∙ a, sym same.low ∙ b, sym same.high ∙ c)

pub reorder_ready_same :
    (s s' : Kernel) → s'.reorder ≡ s.reorder → reorder_ready s' ≡ reorder_ready s
unfolding reorder_ready
reorder_ready_same s s' e = rw e refl

-- A call that made room first, and then went on to `s''`.
pub Roomy-Made :
    {top : ℕ} {s s' s'' : Kernel} (level low high res : ℕ)
    → Roomy top s s'
    → Made top s' s'' level low high res
    → s''.caches ≡ s'.caches
    → Made top s s'' level low high res
Roomy-Made level low high res r m same = record {
  well = m.well;
  keeps = Keeps-trans r.keeps m.keeps;
  limits = m.limits;
  ok = m.ok;
  outcome = m.outcome;
  caches = inr (same ∙ r.caches);
  error = λ e. sym r.error ∙ m.error e;
  reorder = m.reorder ∙ r.reorder;
  running = m.running ∙ r.running;
  varset = m.varset ∙ r.varset;
}
