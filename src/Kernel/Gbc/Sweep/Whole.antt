-- ===== src/Kernel/Gbc/Sweep/Whole.antt =====
-- The whole rehashing loop of src/kernel.c, from a table whose bucket heads are all empty.
use mo_to_buddy.Prelude.{ℕ, ◌+◌, ◌-◌, ◌≤◌, ◌<◌, ◌≡◌, refl, Bool, true, [], arith}
use mo_to_buddy.Terminal.{maxlevel}
use mo_to_buddy.Kernel.{Nodes, Kernel, invalid}
use mo_to_buddy.Kernel.Gbc.{is_kept, rehash}
use mo_to_buddy.Kernel.Gbc.Sweep.{Swept, rehash-Swept}

-- The state in which the loop starts.
abbrev pub from_empty : Kernel → Nodes → Kernel
from_empty s base = record s { nodes = base; freepos = 0; freenum = 0 }

module _ (collect : Bool) (base : Nodes) (s : Kernel) (size_min : 2 ≤ s.nodesize)
    (size_max : s.nodesize < invalid)
    (levels : (n : ℕ)
      → 1 < n
      → n < s.nodesize
      → is_kept collect (base n) ≡ true
      → (base n).level < maxlevel)
    (heads : (b : ℕ) → b < s.nodesize → (base b).hash ≡ 0) where
  Swept-start :
      Swept collect base s.nodesize
        (from_empty s base)
        refl
        size_min
        size_max
        levels
        s.nodesize
        (from_empty s base)
  Swept-start = record {
    part = record {
      buckets = λ b lt. record {
        items = [];
        chain = heads b lt;
        sound = λ n m. absurd m;
        full = λ n r e. absurd (omega (arith, r.0, r.1));
      };
      free = record {
        items = [];
        chain = refl;
        sound = λ n m. absurd m;
        full = λ n r. absurd (omega (arith, r.0, r.1));
        count = refl;
      };
    };
    past = λ n le lt. absurd (omega arith);
    todo = λ n lt. record { high = refl; low = refl; refcou = refl; level = refl; mark = refl };
    rest = refl;
  }

  pub whole-Swept :
      Swept collect base s.nodesize
        (from_empty s base)
        refl
        size_min
        size_max
        levels
        2
        (rehash collect (s.nodesize - 2) (from_empty s base))
  whole-Swept =
      let e : s.nodesize - 2 + 2 ≡ s.nodesize = omega (arith, size_min) in
      rehash-Swept collect base s.nodesize (from_empty s base) refl size_min size_max levels
        (s.nodesize - 2) (from_empty s base) (omega (arith, size_min)) (rw e Swept-start)
