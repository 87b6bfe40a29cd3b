-- ===== src/Op/Call/Returns.antt =====
-- What the public calls of src/bddop.c leave behind.
use mo_to_buddy.Prelude.{
  ℕ, ◌≡◌, refl, ◌∙◌, inl, inr, Bool, true, false, ltb, leb, ◌==◌, ◌/◌, arith, Bool-cases,
  if◌then◌else◌,
}
use mo_to_buddy.Tree.{Assignment}
use mo_to_buddy.Cache.{Entry, Cache, resize}
use mo_to_buddy.Kernel.{Kernel, Caches, done, Cmd, invalid, low}
use mo_to_buddy.Kernel.WellFormed.{Ok, WellFormed, WellFormed-over}
use mo_to_buddy.Kernel.Makenode.Made.{Extends, reorder_ready_same}
use mo_to_buddy.Kernel.Settings.{Answer, value}
use mo_to_buddy.Op.Fact.{Fact-Extends}
use mo_to_buddy.Op.Ready.{Sound, CachesSound, Ready, CachesSound-Extends, Limits-same}
use mo_to_buddy.Op.Runs.{Good, Runs, written-Good}
use mo_to_buddy.Op.Call.{checka, initref, operator_noderesize, checkresize, guarded}

Sound-resize : {P Q : Entry → Type 0} {c : Cache} (size : ℕ) → Sound P c → Sound Q (resize c size)
unfolding resize
Sound-resize size s = record { past = λ i. omega arith; entries = λ i g. absurd (omega (arith, g)) }

-- The caches of the next size are empty.
noderesize-CachesSound :
    (prime_gte : ℕ → ℕ) (ratio : ℕ) (s : Kernel)
    → CachesSound s s.caches
    → CachesSound s (operator_noderesize prime_gte ratio s)
unfolding operator_noderesize
noderesize-CachesSound prime_gte ratio s k = elim (Bool-cases (ltb 0 ratio)) [
  | inl e ↦ rw e (record {
    apply = Sound-resize (prime_gte (s.nodesize / ratio)) k.apply;
    ite = Sound-resize (prime_gte (s.nodesize / ratio)) k.ite;
    quant = Sound-resize (prime_gte (s.nodesize / ratio)) k.quant;
  })
  | inr e ↦ rw e k
]

-- The flag of a resized table is lowered.
settled-Good :
    {top : ℕ} {s s' : Kernel} {B : ℕ → Type 0} {f : Assignment → Bool} {r : ℕ}
    → Good top s s' B f r
    → Good top s (record s' { resized = false }) B f r
settled-Good {top} {s} {s'} g = record {
  ready = record {
    well = flag-WellFormed g.ready.well;
    limits = Limits-same s' (record s' { resized = false }) refl refl refl g.ready.limits;
    no_jump = reorder_ready_same s' (record s' { resized = false }) refl ∙ g.ready.no_jump;
    consts = g.ready.consts;
    caches =
        CachesSound-Extends s' (record s' { resized = false }) s'.caches same (λ z. z)
          g.ready.caches;
  };
  retains = record {
    node = g.retains.node;
    const = g.retains.const;
    stack = g.retains.stack;
    size = g.retains.size;
  };
  stack = g.stack;
  slots = g.slots;
  fact = Fact-Extends s' (record s' { resized = false }) same (λ z. z) g.fact;
  error = g.error;
  running = g.running;
}
  where
    same : Extends s' (record s' { resized = false })
    same n l = (l, record { level = refl; low = refl; high = refl })

    flag-WellFormed : WellFormed top s' → WellFormed top (record s' { resized = false })
    flag-WellFormed w =
        WellFormed-over (record s' { resized = false }) w (omega arith) w.top_max w.top_varnum
          w.stacked

pick :
    (b : Bool) (s : Kernel) (c : Caches)
    → CachesSound s c
    → CachesSound s s.caches
    → CachesSound s (if b then c else s.caches)
pick true s c h k = h
pick false s c h k = k

module _ (prime_gte : ℕ → ℕ) (ratio : ℕ) where
  pub checkresize-Good :
      {top : ℕ} {s s' : Kernel} {B : ℕ → Type 0} {f : Assignment → Bool} {r : ℕ}
      → Good top s s' B f r
      → Good top s (checkresize prime_gte ratio s') B f r
  unfolding checkresize
  checkresize-Good {top} {s} {s'} {B} {f} {r} g = settled-Good (
      written-Good (if s'.resized then operator_noderesize prime_gte ratio s' else s'.caches) g (
        pick s'.resized s' (operator_noderesize prime_gte ratio s')
          (noderesize-CachesSound prime_gte ratio s' g.ready.caches) g.ready.caches))

  module _ (reorder_auto : Kernel → Kernel) (gain : Kernel → ℕ) where
    -- No reordering is asked for, so the block runs once.
    pub guarded-Good :
        {top : ℕ} (s : Kernel) {B : ℕ → Type 0} {f : Assignment → Bool} (body : Cmd ℕ)
        → Runs top (initref s) body B f
        → (r : ℕ) × (s' : Kernel) × (guarded prime_gte ratio reorder_auto gain body s
            ≡ done (value r) s')
          × Good top (initref s) s' B f r
    unfolding guarded
    guarded-Good {top} s body (r, s', e, g) =
        (r, checkresize prime_gte ratio s', rw (guarded, e) refl, checkresize-Good g)

-- A call on a BDD in the table gets past the check.
pub checka-Ok :
    {top : ℕ} {s : Kernel} (r : ℕ) (rest : Cmd Answer)
    → WellFormed top s
    → s.running ≡ true
    → Ok s.nodesize s.nodes r
    → checka r rest s ≡ rest s
unfolding checka
checka-Ok {top} {s} r rest w run (inl small) =
    let size = w.size_min in
    let in_table : leb s.nodesize r ≡ false = ground arith in
    let constant : leb 2 r ≡ false = ground arith in rw (run, in_table, constant) refl
checka-Ok {top} {s} r rest w run (inr (big, lt, used)) =
    let in_table : leb s.nodesize r ≡ false = ground arith in
    let live : (low s r == invalid) ≡ false = ground arith in
    let node : leb 2 r ≡ true = ground arith in rw (run, in_table, node, live) refl

pub checka_passes :
    {top : ℕ} {s : Kernel} (r : ℕ) (rest : Cmd Answer)
    → Ready top s
    → s.running ≡ true
    → Ok s.nodesize s.nodes r
    → checka r rest s ≡ rest s
checka_passes r rest ready run ok = checka-Ok r rest ready.well run ok
