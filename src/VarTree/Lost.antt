-- ===== src/VarTree/Lost.antt =====
-- What a range that overlaps a later block partially does to the tree of src/tree.c.
use mo_to_buddy.Prelude.{
  ℕ, ◌+◌, ◌≤◌, ◌<◌, ◌≡◌, refl, Bool, true, false, ◌&&◌, ◌||◌, ltb, leb, ◌==◌, arith,
}
use mo_to_buddy.Kernel.Settings.{nat}
use mo_to_buddy.VarTree.{
  BddTree, null, block, addrange_rec, added, block_is_adjacent, bdd_intaddvarblock,
}

partial-addrange_rec :
    (var2level : ℕ → ℕ) (a b : ℕ) (fixed : Bool) (id f l : ℕ) (x : Bool) (i : ℕ) (q : ℕ → ℕ)
    (sub next : BddTree)
    → f < a
    → a ≤ l
    → l < b
    → addrange_rec var2level a b fixed id (block f l x i q sub next) ≡ null
unfolding addrange_rec
partial-addrange_rec var2level a b fixed id f l x i q sub next fa al lb =
    let e0 : ltb b a ≡ false = ground arith in
    let e1 : ((a == f) && (b == l)) ≡ false = ground arith in
    let e2 : ltb b f ≡ false = ground arith in
    let e3 : ltb l a ≡ false = ground arith in
    let e4 : (leb f a && leb b l) ≡ false = ground arith in
    let e5 : leb a f ≡ false = ground arith in rw (addrange_rec, e0, e1, e2, e3, e4, e5) refl

behind-addrange_rec :
    (var2level : ℕ → ℕ) (a b : ℕ) (fixed : Bool) (id f l : ℕ) (x : Bool) (i : ℕ) (q : ℕ → ℕ)
    (sub next : BddTree)
    → f ≤ l
    → l < a
    → a ≤ b
    → addrange_rec var2level a b fixed id (block f l x i q sub next)
      ≡ block f l x i q sub (addrange_rec var2level a b fixed id next)
unfolding addrange_rec
behind-addrange_rec var2level a b fixed id f l x i q sub next fl la ab =
    let e0 : ltb b a ≡ false = ground arith in
    let e1 : ((a == f) && (b == l)) ≡ false = ground arith in
    let e2 : ltb b f ≡ false = ground arith in
    let e3 : ltb l a ≡ true = ground arith in rw (addrange_rec, e0, e1, e2, e3) refl

-- Let a range of declared variables on adjacent levels lie behind the first block of the tree, begin
-- inside the second, past its start, and end behind it. Then `bdd_intaddvarblock` returns the next
-- number, as for a block that was added, and the tree is left with the first block only.
pub bdd_intaddvarblock-lost :
    (var2level : ℕ → ℕ) (varnum a b : ℕ) (fixed : Bool) (id f l : ℕ) (x : Bool) (i : ℕ) (q : ℕ → ℕ)
    (sub : BddTree) (f' l' : ℕ) (x' : Bool) (i' : ℕ) (q' : ℕ → ℕ) (sub' next : BddTree)
    → f ≤ l
    → l < f'
    → f' < a
    → a ≤ l'
    → l' < b
    → b < varnum
    → block_is_adjacent var2level a b ≡ true
    → bdd_intaddvarblock var2level varnum
        (nat a)
        (nat b)
        fixed
        (record { vartree = block f l x i q sub (block f' l' x' i' q' sub' next); blockid = id })
      ≡ (added id, record { vartree = block f l x i q sub null; blockid = id + 1 })
unfolding bdd_intaddvarblock
bdd_intaddvarblock-lost var2level varnum a b fixed id f l x i q sub f' l' x' i' q' sub' next fl lf
      fa al lb bv adjacent =
    let known : (leb varnum a || leb varnum b) ≡ false = ground arith in
    let t = block f' l' x' i' q' sub' next in
    let outer =
      behind-addrange_rec var2level a b fixed id f l x i q sub t fl (omega arith) (omega arith) in
    let inner = partial-addrange_rec var2level a b fixed id f' l' x' i' q' sub' next fa al lb in
    rw (known, adjacent, outer, inner) refl
