-- ===== src/Kernel/Gbc/Tidied.antt =====
-- What the rehashing loops of src/kernel.c write to a node, and which of its links that keeps.
use mo_to_buddy.Prelude.{
  ℕ, ◌<◌, ◌≡◌, ◌≢◌, refl, ◌∙◌, Bool, true, false, if◌then◌else◌, arith, ℕ_discrete,
}
use mo_to_buddy.Terminal.{maxlevel}
use mo_to_buddy.Kernel.{Node, Nodes, update, Kernel, bucket_of}
use mo_to_buddy.Kernel.Partition.{home, release, SameFields}
use mo_to_buddy.Kernel.Gbc.{is_kept, tidy, discard}

-- What a loop makes of a node, apart from the links.
abbrev pub after : Bool → Node → Node
after collect n = if is_kept collect n then tidy collect n else discard collect n

pub SameFields-trans : (a b c : Node) → SameFields a b → SameFields b c → SameFields a c
SameFields-trans a b c p q = record {
  high = q.high ∙ p.high;
  low = q.low ∙ p.low;
  refcou = q.refcou ∙ p.refcou;
  level = q.level ∙ p.level;
  mark = q.mark ∙ p.mark;
}

pub kept_same :
    (collect : Bool) (a b : Node) → SameFields a b → is_kept collect b ≡ is_kept collect a
kept_same collect a b p = ground (arith, p.mark, p.low)

pub tidy_fields :
    (collect : Bool) (a b : Node) → SameFields a b → SameFields (tidy collect a) (tidy collect b)
tidy_fields collect a b p = ground (arith, p)

pub discard_fields :
    (collect : Bool) (a b : Node)
    → SameFields a b
    → SameFields (discard collect a) (discard collect b)
discard_fields collect a b p = ground (arith, p)

tidy_links :
    (collect : Bool) (a : Node)
    → ((tidy collect a).next ≡ a.next)
      × ((tidy collect a).hash ≡ a.hash)
      × ((tidy collect a).level ≡ a.level)
      × ((tidy collect a).low ≡ a.low)
      × ((tidy collect a).high ≡ a.high)
tidy_links true a = (refl, refl, refl, refl, refl)
tidy_links false a = (refl, refl, refl, refl, refl)

pub discard_head : (collect : Bool) (a : Node) → (discard collect a).hash ≡ a.hash
discard_head true a = refl
discard_head false a = refl

pub update_self : (nodes : Nodes) (n : ℕ) (a : Node) → update nodes n a n ≡ a
update_self nodes n a = ground arith

pub update_ne : (nodes : Nodes) (n m : ℕ) (a : Node) → m ≢ n → update nodes n a m ≡ nodes m
update_ne nodes n m a ne = ground arith

pub release_fields :
    (nodes : Nodes) (n : ℕ) (a b : Node) (pos : ℕ)
    → SameFields a b
    → SameFields a (release nodes n b pos n)
release_fields nodes n a b pos p = ground (arith, p.high, p.low, p.refcou, p.level, p.mark)

-- Tidying a node moves no link and no node to another bucket.
pub tidied_links :
    (collect : Bool) (size : ℕ) (nodes : Nodes) (n m : ℕ)
    → ((update nodes n (tidy collect (nodes n)) m).next ≡ (nodes m).next)
      × ((update nodes n (tidy collect (nodes n)) m).hash ≡ (nodes m).hash)
      × (home size (update nodes n (tidy collect (nodes n))) m ≡ home size nodes m)
tidied_links collect size nodes n m = elim (ℕ_discrete m n) [
  | yes e ↦ tidied_links_self m e
  | no ne ↦ rw (update_ne nodes n m (tidy collect (nodes n)) ne) (refl, refl, refl)
]
  where
    tidied_links_self :
        (k : ℕ)
        → k ≡ n
        → ((update nodes n (tidy collect (nodes n)) k).next ≡ (nodes k).next)
          × ((update nodes n (tidy collect (nodes n)) k).hash ≡ (nodes k).hash)
          × (home size (update nodes n (tidy collect (nodes n))) k ≡ home size nodes k)
    tidied_links_self k e =
        let (a, b, c, d, f) = tidy_links collect (nodes n) in
        rw e (rw (update_self nodes n (tidy collect (nodes n))) (a, b, rw (c, d, f) refl))

-- A node below MAXLEVEL goes into the bucket of its own hash.
pub bucket_of-home :
    (s : Kernel) (nodes : Nodes) (n : ℕ)
    → (nodes n).level < maxlevel
    → bucket_of s (nodes n) ≡ home s.nodesize nodes n
unfolding bucket_of
bucket_of-home s nodes n h = ground arith
