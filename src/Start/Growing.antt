-- ===== src/Start/Growing.antt =====
-- The invariant of the loop of `bdd_setvarnum` in src/kernel.c: a well-formed table in which every
-- variable so far has its two nodes, with counts at MAXREF.
use mo_to_buddy.Prelude.{
  ℕ, suc, ◌+◌, ◌*◌, ◌≤◌, ◌<◌, ◌≡◌, refl, sym, ◌∙◌, ap, subst, inl, inr, false, true, List, ◌∷◌,
  Among, arith, ◌==◌, if◌then◌else◌, ℕ_discrete,
}
use mo_to_buddy.Terminal.{maxlevel}
use mo_to_buddy.Kernel.{Kernel, Caches, Reorder, reorder_ready, maxref}
use mo_to_buddy.Kernel.WellFormed.{Live, Ok, WellFormed, WellFormed-over}
use mo_to_buddy.Kernel.Protected.{Protected, counted, Keeps, Live-Keeps}
use mo_to_buddy.Kernel.Refs.Counted.{recount, recount-WellFormed}
use mo_to_buddy.Kernel.Makenode.Resize.{Limits}
use mo_to_buddy.Kernel.Makenode.Build.{Shaped}
use mo_to_buddy.Kernel.Makenode.Made.{Extends, Made}
use mo_to_buddy.Op.Stack.{restack, push}
use mo_to_buddy.Op.Ready.{Limits-same, CachesSound, CachesSound-Extends, Made-CachesSound}
use mo_to_buddy.Session.Held.Kept.{recount-Extends}
use mo_to_buddy.Start.{enter_nodes, saturate, add_variable}

-- A node in use with this level and these children.
abbrev pub Holds : Kernel → ℕ → ℕ → ℕ → ℕ → Type 0
Holds s l n a b = Live s.nodesize s.nodes n × Shaped l a b s.nodes n

-- Its count is at MAXREF as well.
abbrev pub Literal : Kernel → ℕ → ℕ → ℕ → ℕ → Type 0
Literal s l n a b = Holds s l n a b × ((s.nodes n).refcou ≡ maxref)

-- The entries of `bddvarset` for a variable are its node and that of its negation.
abbrev pub IsVar : Kernel → ℕ → Type 0
IsVar s i = Literal s i (s.varset (i * 2)) 0 1 × Literal s i (s.varset (i * 2 + 1)) 1 0

pub record Growing (top slots : ℕ) (s : Kernel) : Type 0 where
  pub well : WellFormed top s
  pub limits : Limits s
  pub quiet : s.reorder.method ≡ 0
  pub caches : CachesSound s s.caches
  pub running : s.running ≡ true
  pub room : s.refslots ≡ slots
  pub named : (i : ℕ) → i < s.varnum → IsVar s i

-- No reordering is due.
pub no_jump : {top slots : ℕ} {s : Kernel} → Growing top slots s → reorder_ready s ≡ false
unfolding reorder_ready
no_jump {top} {slots} {s} g =
    let test : (s.reorder.method == 0) ≡ true = ground (arith, g.quiet) in rw test refl

Literal-Extends :
    (s s' : Kernel) (l n a b : ℕ)
    → Extends s s'
    → ((s'.nodes n).refcou ≡ maxref)
    → Literal s l n a b
    → Literal s' l n a b
Literal-Extends s s' l n a b x c ((live, (e1, e2, e3)), r) =
    let (live', f) = x n live in ((live', (f.level ∙ e1, f.low ∙ e2, f.high ∙ e3)), c)

Literal-Keeps : (s s' : Kernel) (l n a b : ℕ) → Keeps s s' → Literal s l n a b → Literal s' l n a b
Literal-Keeps s s' l n a b k ((live, (e1, e2, e3)), r) =
    let p : Protected s n = counted live.1 (omega arith) in
    let f = k.node n p live.0 in
    ((Live-Keeps k n p live, (f.level ∙ e1, f.low ∙ e2, f.high ∙ e3)), f.refcou ∙ r)

-- `bdd_makenode` keeps the variables.
pub Growing-Made :
    {top slots : ℕ} {s s' : Kernel} {l a b res : ℕ}
    → Growing top slots s
    → Made top s s' l a b res
    → Growing top slots s'
Growing-Made {top} {slots} {s} {s'} g m = record {
  well = m.well;
  limits = m.limits;
  quiet = ap (λ (r : Reorder). r.method) m.reorder ∙ g.quiet;
  caches = Made-CachesSound m g.caches;
  running = m.running ∙ g.running;
  room = m.keeps.slots ∙ g.room;
  named = λ i lt.
      let (pos, neg) = g.named i (omega (arith, m.keeps.varnum)) in
      rw m.varset (Literal-Keeps s s' i _ 0 1 m.keeps pos, Literal-Keeps s s' i _ 1 0 m.keeps neg);
}

-- The state with other variables, stack, reordering and caches, and the table as it is.
abbrev pub dress : ℕ → (ℕ → ℕ) → (ℕ → ℕ) → List ℕ → ℕ → Reorder → Caches → Kernel → Kernel
dress varnum level2var varset refstack refslots reorder caches s = record s {
  varnum = varnum;
  level2var = level2var;
  varset = varset;
  refstack = refstack;
  refslots = refslots;
  reorder = reorder;
  caches = caches;
}

pub Growing-dress :
    {top slots top' slots' : ℕ} {s : Kernel} (varnum : ℕ) (level2var varset : ℕ → ℕ)
    (refstack : List ℕ) (reorder : Reorder) (caches : Caches)
    → Growing top slots s
    → top ≤ top'
    → top' ≤ maxlevel
    → top' ≤ varnum + 1
    → ((n : ℕ) → Among n refstack → Ok s.nodesize s.nodes n)
    → reorder.method ≡ 0
    → CachesSound s caches
    → ((i : ℕ)
        → i < varnum
        → Literal s i (varset (i * 2)) 0 1 × Literal s i (varset (i * 2 + 1)) 1 0)
    → Growing top' slots' (dress varnum level2var varset refstack slots' reorder caches s)
Growing-dress {top} {slots} {top'} {slots'} {s} varnum level2var varset refstack reorder caches g le
      max deep ok quiet sound named =
    let s' = dress varnum level2var varset refstack slots' reorder caches s in
    record {
      well = WellFormed-over s' g.well le max deep ok;
      limits = Limits-same s s' refl refl refl g.limits;
      quiet = quiet;
      caches =
          CachesSound-Extends s s' caches
            (λ n l. (l, record { level = refl; low = refl; high = refl })) (λ z. z) sound;
      running = g.running;
      room = refl;
      named = named;
    }

pub Growing-restack :
    {top slots : ℕ} (s : Kernel) (xs : List ℕ)
    → Growing top slots s
    → ((n : ℕ) → Among n xs → Ok s.nodesize s.nodes n)
    → Growing top slots (restack s xs)
Growing-restack {top} s xs g ok =
    subst (λ k. Growing top k (restack s xs)) g.room
      (Growing-dress s.varnum s.level2var s.varset xs s.reorder s.caches g (omega arith)
        g.well.top_max g.well.top_varnum ok g.quiet g.caches g.named)

pub Growing-push :
    {top slots : ℕ} (s : Kernel) (a : ℕ)
    → Growing top slots s
    → Ok s.nodesize s.nodes a
    → Growing top slots (push a s)
Growing-push s a g ok = Growing-restack s (a ∷ s.refstack) g (λ n m. elim m [
  | inl e ↦ subst (Ok s.nodesize s.nodes) (sym e) ok
  | inr i ↦ g.well.stacked n i
])

-- Other variables.
Growing-rename :
    {top top' slots : ℕ} (s : Kernel) (varnum : ℕ) (level2var varset : ℕ → ℕ)
    → Growing top slots s
    → top ≤ top'
    → top' ≤ maxlevel
    → top' ≤ varnum + 1
    → ((i : ℕ)
        → i < varnum
        → Literal s i (varset (i * 2)) 0 1 × Literal s i (varset (i * 2 + 1)) 1 0)
    → Growing top' slots (record s { varnum = varnum; level2var = level2var; varset = varset })
Growing-rename {top} {top'} s varnum level2var varset g le max deep named =
    let s' = record s { varnum = varnum; level2var = level2var; varset = varset } in
    subst (λ k. Growing top' k s') g.room
      (Growing-dress varnum level2var varset s.refstack s.reorder s.caches g le max deep
        g.well.stacked g.quiet g.caches named)

-- The nodes of the next level may be made.
pub Growing-deeper :
    {slots : ℕ} (s : Kernel)
    → Growing s.varnum slots s
    → s.varnum < maxlevel
    → Growing (suc s.varnum) slots s
Growing-deeper s g lt =
    Growing-rename s s.varnum s.level2var s.varset g (omega arith) (omega arith) (omega arith)
      g.named

recount-maxref :
    (s : Kernel) (root n : ℕ)
    → (s.nodes n).refcou ≡ maxref
    → ((recount s root maxref).nodes n).refcou ≡ maxref
recount-maxref s root n e = ground arith

recount_self : (s : Kernel) (n : ℕ) → ((recount s n maxref).nodes n).refcou ≡ maxref
recount_self s n = ground arith

-- A count is set to MAXREF.
pub Growing-saturate :
    {top slots : ℕ} {s : Kernel} (root : ℕ)
    → Growing top slots s
    → Live s.nodesize s.nodes root
    → Growing top slots (saturate root s)
Growing-saturate {top} {slots} {s} root g live = record {
  well = recount-WellFormed g.well root maxref live.2;
  limits = Limits-same s (saturate root s) refl refl refl g.limits;
  quiet = g.quiet;
  caches =
      CachesSound-Extends s (saturate root s) s.caches (recount-Extends s root maxref) (λ z. z)
        g.caches;
  running = g.running;
  room = g.room;
  named = λ i lt.
      let (pos, neg) = g.named i lt in
      let x = recount-Extends s root maxref in
      (
        Literal-Extends s (saturate root s) i _ 0 1 x (recount-maxref s root _ pos.1) pos,
        Literal-Extends s (saturate root s) i _ 1 0 x (recount-maxref s root _ neg.1) neg,
      );
}

pub Holds-saturate :
    (s : Kernel) (root l n a b : ℕ) → Holds s l n a b → Holds (saturate root s) l n a b
Holds-saturate s root l n a b (live, (e1, e2, e3)) =
    let (live', f) = recount-Extends s root maxref n live in
    (live', (f.level ∙ e1, f.low ∙ e2, f.high ∙ e3))

-- The next variable gets its two nodes.
pub Growing-add :
    {slots : ℕ} (s : Kernel) (a b : ℕ)
    → Growing (suc s.varnum) slots s
    → Holds s s.varnum a 0 1
    → Holds s s.varnum b 1 0
    → Growing (s.varnum + 1) slots (add_variable a b (enter_nodes a b s))
Growing-add {slots} s a b g ha hb =
    let e = enter_nodes a b s in
    let ge : Growing (suc s.varnum) slots e =
      Growing-rename s s.varnum s.level2var e.varset g (omega arith) g.well.top_max
        g.well.top_varnum
        (λ i lt.
          let e1 : e.varset (i * 2) ≡ s.varset (i * 2) = ground arith in
          let e2 : e.varset (i * 2 + 1) ≡ s.varset (i * 2 + 1) = ground arith in
          rw (e1, e2) (g.named i lt)) in
    let ga = Growing-saturate a ge ha.0 in
    let hb' = Holds-saturate e a s.varnum b 1 0 hb in
    let gb = Growing-saturate b ga hb'.0 in
    let t = saturate b (saturate a e) in
    let max : s.varnum + 1 ≤ maxlevel = omega (arith, g.well.top_max) in
    Growing-rename t (s.varnum + 1) (λ l. if l == s.varnum then s.varnum else s.level2var l)
      e.varset gb (omega arith) max (omega arith)
      (λ i lt. elim (ℕ_discrete i s.varnum) [
        | no ne ↦ gb.named i (omega arith)
        | yes same ↦
            let e1 : e.varset (i * 2) ≡ a = ground arith in
            let e2 : e.varset (i * 2 + 1) ≡ b = ground arith in
            let fa = recount_self e a in
            let fb = recount_self (saturate a e) b in
            rw (e1, e2, same)
              (
                (
                  Holds-saturate (saturate a e) b s.varnum a 0 1
                      (Holds-saturate e a s.varnum a 0 1 ha),
                  recount-maxref (saturate a e) b a fa,
                ),
                (Holds-saturate (saturate a e) b s.varnum b 1 0 hb', fb),
              )
      ])
