-- ===== src/Kernel/Refs/Counted.antt =====
-- `bdd_addref` and `bdd_delref` of src/kernel.c: they keep the table well-formed, cancel each other,
-- and a referenced BDD is protected from collection.
use mo_to_buddy.Prelude.{
  ℕ, ◌+◌, ◌-◌, ◌≤◌, ◌<◌, ◌≡◌, ◌≢◌, refl, sym, ◌∙◌, ap, subst, ◌⊎◌, inl, inr, true, false, not, ◌&&◌,
  ◌||◌, ltb, ◌==◌, if◌then◌else◌, arith, Bool-cases, ℕ_discrete,
}
use mathlib.Core.Path.{fun_ext}
use mathlib.Core.Logic.{⊎_elim}
use mo_to_buddy.Kernel.{Node, Nodes, update, Kernel, invalid, maxref, low}
use mo_to_buddy.Kernel.Partition.{Partition-frame}
use mo_to_buddy.Kernel.WellFormed.{Live, Free, Ok, Beyond, NodeOk, WellFormed}
use mo_to_buddy.Kernel.Refs.{Result, node, ill_bdd, incref, decref, addref, delref}

-- The state `s` with another number of references to `root`.
abbrev pub recount : Kernel → ℕ → ℕ → Kernel
recount s root c = record s { nodes = update s.nodes root (record (s.nodes root) { refcou = c }) }

pub record SameButCount (m m' : Node) : Type 0 where
  pub high : m'.high ≡ m.high
  pub low : m'.low ≡ m.low
  pub level : m'.level ≡ m.level
  pub mark : m'.mark ≡ m.mark
  pub hash : m'.hash ≡ m.hash
  pub next : m'.next ≡ m.next

pub recount-SameButCount :
    (s : Kernel) (root c n : ℕ) → SameButCount (s.nodes n) ((recount s root c).nodes n)
recount-SameButCount s root c n = elim (ℕ_discrete n root) [
  | yes e ↦ rw e (self refl)
  | no ne ↦ other ne
]
  where
    self : {m : ℕ} → m ≡ root → SameButCount (s.nodes root) ((recount s root c).nodes root)
    self e = record {
      high = ground arith;
      low = ground arith;
      level = ground arith;
      mark = ground arith;
      hash = ground arith;
      next = ground arith;
    }

    other : n ≢ root → SameButCount (s.nodes n) ((recount s root c).nodes n)
    other ne = record {
      high = ground arith;
      low = ground arith;
      level = ground arith;
      mark = ground arith;
      hash = ground arith;
      next = ground arith;
    }

module _ {top : ℕ} {s : Kernel} (w : WellFormed top s) (root c : ℕ)
    (used : (s.nodes root).low ≢ invalid) where
  abbrev t : Kernel
  t = recount s root c

  same : (n : ℕ) → SameButCount (s.nodes n) (t.nodes n)
  same n = recount-SameButCount s root c n

  live_up : (n : ℕ) → Live s.nodesize s.nodes n → Live s.nodesize t.nodes n
  live_up n (h, lt, ne) = (h, lt, λ e. ne (sym ((same n).low) ∙ e))

  live_down : (n : ℕ) → Live s.nodesize t.nodes n → Live s.nodesize s.nodes n
  live_down n (h, lt, ne) = (h, lt, λ e. ne ((same n).low ∙ e))

  Ok-up : (n : ℕ) → Ok s.nodesize s.nodes n → Ok s.nodesize t.nodes n
  Ok-up n o = ⊎_elim inl (λ l. inr (live_up n l)) o

  Beyond-up : (l n : ℕ) → Beyond s.nodes l n → Beyond t.nodes l n
  Beyond-up l n b =
      ⊎_elim inl (λ (h : l < (s.nodes n).level). inr (omega (arith, (same n).level))) b

  node_ok : (n : ℕ) → Live s.nodesize t.nodes n → NodeOk top s.nodesize t.nodes n
  node_ok n l =
      let f = same n in
      let good = w.live n (live_down n l) in
      record {
        level = omega (arith, f.level, good.level);
        low_ok = rw f.low (Ok-up _ good.low_ok);
        high_ok = rw f.high (Ok-up _ good.high_ok);
        low_beyond = rw (f.low, f.level) (Beyond-up _ _ good.low_beyond);
        high_beyond = rw (f.high, f.level) (Beyond-up _ _ good.high_beyond);
        differ = λ e. good.differ (sym f.low ∙ e ∙ f.high);
      }

  pub recount-WellFormed : WellFormed top t
  recount-WellFormed = record {
    size_min = w.size_min;
    size_max = w.size_max;
    top_max = w.top_max;
    top_varnum = w.top_varnum;
    live = node_ok;
    unique = λ m n lm ln a b d.
        w.unique m n (live_down m lm) (live_down n ln) (sym (same m).level ∙ a ∙ (same n).level)
          (sym (same m).low ∙ b ∙ (same n).low) (sym (same m).high ∙ d ∙ (same n).high);
    clean = λ n h lt. (same n).mark ∙ w.clean n h lt;
    stacked = λ n m. Ok-up n (w.stacked n m);
    counted = still_counted;
    part =
        Partition-frame s.nodesize s.nodes t.nodes (Live s.nodesize s.nodes)
          (Free s.nodesize s.nodes) (Live s.nodesize t.nodes) (Free s.nodesize t.nodes)
          (λ n. let f = same n in (f.next, f.hash, λ l. rw (f.level, f.low, f.high) refl)) live_up
          live_down (λ n (h, lt, e). (h, lt, (same n).low ∙ e))
          (λ n (h, lt, e). (h, lt, sym ((same n).low) ∙ e)) w.part;
    same_children = w.same_children;
  }
    where
      still_counted :
          (n : ℕ) → 1 < n → n < s.nodesize → 0 < (t.nodes n).refcou → (t.nodes n).low ≢ invalid
      still_counted n h lt r = elim (ℕ_discrete n root) [
        | yes e ↦ λ x. used (ap (λ i. (s.nodes i).low) (sym e) ∙ sym ((same n).low) ∙ x)
        | no ne ↦
            let r' : (t.nodes n).refcou ≡ (s.nodes n).refcou = ground arith in
            λ x. w.counted n h lt (omega arith) (sym ((same n).low) ∙ x)
      ]

-- The count after INCREF, and after DECREF.
abbrev pub more : ℕ → ℕ
more c = if ltb c maxref then c + 1 else c

abbrev pub fewer : ℕ → ℕ
fewer c = if not (c == maxref) && ltb 0 c then c - 1 else c

incref-more : (n : Node) → incref n ≡ record n { refcou = more n.refcou }
incref-more n = elim (Bool-cases (ltb n.refcou maxref)) [ inl e ↦ rw e refl | inr e ↦ rw e refl ]

decref-fewer : (n : Node) → decref n ≡ record n { refcou = fewer n.refcou }
decref-fewer n = elim (Bool-cases (not (n.refcou == maxref) && ltb 0 n.refcou)) [
  | inl e ↦ rw e refl
  | inr e ↦ rw e refl
]

-- The tests at the start of `bdd_addref` and `bdd_delref`, in their order: exactly one case applies.
abbrev pub Outcome : Kernel → ℕ → ℕ → Result × Kernel → Type 0
Outcome s root c out =
    (((root < 2) ⊎ (s.running ≡ false)) × (out ≡ (node root, s)))
    ⊎ ((1 < root)
        × (s.running ≡ true)
        × ((s.nodesize ≤ root) ⊎ ((s.nodes root).low ≡ invalid))
        × (out ≡ (ill_bdd, s)))
    ⊎ ((s.running ≡ true) × Live s.nodesize s.nodes root × (out ≡ (node root, recount s root c)))

guards :
    (s : Kernel) (root c : ℕ)
    → Outcome s root c (
        if ltb root 2 || not s.running
        then (node root, s)
        else if not (ltb root s.nodesize)
        then (ill_bdd, s)
        else if low s root == invalid
        then (ill_bdd, s)
        else (node root, recount s root c))
guards s root c = elim (Bool-cases (ltb root 2 || not s.running)) [
  | inl e ↦ rw e (inl (skipped e, refl))
  | inr e ↦ elim (Bool-cases (ltb root s.nodesize)) [
    | inr f ↦ rw (e, f) (inr (inl (ground arith, ground arith, inl (ground arith), refl)))
    | inl f ↦ elim (Bool-cases (low s root == invalid)) [
      | inl g ↦ rw (e, f, g) (inr (inl (ground arith, ground arith, inr (ground arith), refl)))
      | inr g ↦
          rw (e, f, g) (inr (inr (ground arith, (ground arith, ground arith, ground arith), refl)))
    ]
  ]
]
  where
    skipped : (ltb root 2 || not s.running) ≡ true → (root < 2) ⊎ (s.running ≡ false)
    skipped e = ground arith

-- `bdd_addref` returns a constant, and any number while the package is not running, without a
-- change. Of the other numbers it reports those outside the table or of a free node, without a
-- change, and for the others it returns the node and counts one reference more, unless the count
-- is stuck at MAXREF.
pub addref-Outcome :
    (s : Kernel) (root : ℕ) → Outcome s root (more (s.nodes root).refcou) (addref root s)
unfolding addref
addref-Outcome s root = rw (incref-more (s.nodes root)) (guards s root (more (s.nodes root).refcou))

pub delref-Outcome :
    (s : Kernel) (root : ℕ) → Outcome s root (fewer (s.nodes root).refcou) (delref root s)
unfolding delref
delref-Outcome s root =
    rw (decref-fewer (s.nodes root)) (guards s root (fewer (s.nodes root).refcou))

Outcome-WellFormed :
    {top : ℕ} {s : Kernel} {root : ℕ} (c : ℕ) {out : Result × Kernel}
    → WellFormed top s
    → Outcome s root c out
    → WellFormed top out.1
Outcome-WellFormed {top} {s} {root} c w (inl (h, e)) =
    subst (WellFormed top) (sym (ap (λ (o : Result × Kernel). o.1) e)) w
Outcome-WellFormed {top} {s} {root} c w (inr (inl (big, run, h, e))) =
    subst (WellFormed top) (sym (ap (λ (o : Result × Kernel). o.1) e)) w
Outcome-WellFormed {top} {s} {root} c w (inr (inr (run, l, e))) =
    subst (WellFormed top) (sym (ap (λ (o : Result × Kernel). o.1) e))
      (recount-WellFormed w root c l.2)

-- In a well-formed table, `bdd_addref` and `bdd_delref` of any number leave a well-formed table.
pub ref-WellFormed :
    {top : ℕ} {s : Kernel} (root : ℕ)
    → WellFormed top s
    → WellFormed top (addref root s).1 × WellFormed top (delref root s).1
ref-WellFormed {top} {s} root w = (
  Outcome-WellFormed (more (s.nodes root).refcou) w (addref-Outcome s root),
  Outcome-WellFormed (fewer (s.nodes root).refcou) w (delref-Outcome s root),
)

-- While the package runs, `bdd_addref` of a live node counts.
pub addref_live :
    (s : Kernel) (root : ℕ)
    → s.running ≡ true
    → Live s.nodesize s.nodes root
    → addref root s ≡ (node root, recount s root (more (s.nodes root).refcou))
addref_live s root run l = elim (addref-Outcome s root) [
  | inl (inl h, e) ↦ absurd (omega (arith, l.0))
  | inl (inr h, e) ↦ absurd (cc)
  | inr (inl (big, r, inl h, e)) ↦ absurd (omega (arith, l.1))
  | inr (inl (big, r, inr h, e)) ↦ absurd (l.2 h)
  | inr (inr (r, l', e)) ↦ e
]

pub delref_live :
    (s : Kernel) (root : ℕ)
    → s.running ≡ true
    → Live s.nodesize s.nodes root
    → delref root s ≡ (node root, recount s root (fewer (s.nodes root).refcou))
delref_live s root run l = elim (delref-Outcome s root) [
  | inl (inl h, e) ↦ absurd (omega (arith, l.0))
  | inl (inr h, e) ↦ absurd (cc)
  | inr (inl (big, r, inl h, e)) ↦ absurd (omega (arith, l.1))
  | inr (inl (big, r, inr h, e)) ↦ absurd (l.2 h)
  | inr (inr (r, l', e)) ↦ e
]

update_self : (nodes : Nodes) (n : ℕ) (a : Node) → update nodes n a n ≡ a
update_self nodes n a = ground arith

update_ne : (nodes : Nodes) (n m : ℕ) (a : Node) → m ≢ n → update nodes n a m ≡ nodes m
update_ne nodes n m a ne = ground arith

-- The later of two writes to one node is the one that counts.
update_twice :
    (nodes : Nodes) (root n : ℕ) (a b : Node)
    → update (update nodes root a) root b n ≡ update nodes root b n
update_twice nodes root n a b = elim (Bool-cases (n == root)) [
  | inl e ↦ rw e refl
  | inr e ↦ rw e refl
]

recount_again :
    (s : Kernel) (root c d n : ℕ)
    → (recount (recount s root c) root d).nodes n ≡ (recount s root d).nodes n
recount_again s root c d n =
    let a = record (s.nodes root) { refcou = c } in
    ap (λ (x : Node). update (update s.nodes root a) root (record x { refcou = d }) n)
      (update_self s.nodes root a)
    ∙ update_twice s.nodes root n a (record (s.nodes root) { refcou = d })

recount_same :
    (s : Kernel) (root n : ℕ) → (recount s root (s.nodes root).refcou).nodes n ≡ s.nodes n
recount_same s root n = elim (ℕ_discrete n root) [
  | yes e ↦
      subst (λ i. (recount s root (s.nodes root).refcou).nodes i ≡ s.nodes i) (sym e)
        (update_self s.nodes root _)
  | no ne ↦ update_ne s.nodes root n _ ne
]

recount_back : (s : Kernel) (root c : ℕ) → recount (recount s root c) root (s.nodes root).refcou ≡ s
recount_back s root c =
    ap (λ (f : Nodes). record s { nodes = f })
      (fun_ext (λ n. recount_again s root c (s.nodes root).refcou n ∙ recount_same s root n))

pub recount_count : (s : Kernel) (root c : ℕ) → ((recount s root c).nodes root).refcou ≡ c
recount_count s root c = ap (λ (a : Node). a.refcou) (update_self s.nodes root _)

-- While the package runs and the count of a live node is at least two below MAXREF, `bdd_delref`
-- undoes `bdd_addref`: both return the node, and the state is the one before.
pub delref-addref :
    (s : Kernel) (root : ℕ)
    → s.running ≡ true
    → Live s.nodesize s.nodes root
    → (s.nodes root).refcou + 1 < maxref
    → delref root (addref root s).1 ≡ (node root, s)
delref-addref s root run l few =
    let c = (s.nodes root).refcou in
    let up : more c ≡ c + 1 = ground arith in
    let t = recount s root (more c) in
    let live : Live s.nodesize t.nodes root =
      (l.0, l.1, λ e. l.2 (sym ((recount-SameButCount s root (more c) root).low) ∙ e)) in
    let count : (t.nodes root).refcou ≡ more c = recount_count s root (more c) in
    let down : fewer (t.nodes root).refcou ≡ c = ap fewer (count ∙ up) ∙ ground arith in
    ap (λ (o : Result × Kernel). delref root o.1) (addref_live s root run l)
    ∙ delref_live t root run live
    ∙ ap (λ (i : ℕ). (node root, recount t root i)) down
    ∙ ap (λ (k : Kernel). (node root, k)) (recount_back s root (more c))
