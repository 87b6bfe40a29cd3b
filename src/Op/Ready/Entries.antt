-- ===== src/Op/Ready/Entries.antt =====
-- What the entries of the operator caches in src/bddop.c say.
use mo_to_buddy.Prelude.{
  ℕ, ◌+◌, ◌*◌, ◌≤◌, ◌≡◌, inl, inr, Bool, false, not, ◌&&◌, ◌||◌, ◌==◌, if◌then◌else◌, arith,
  Bool-cases,
}
use mo_to_buddy.Tree.{Tree, leaf, node, Assignment, eval}
use mo_to_buddy.Cache.{Entry, Cache, reset, slot, put}
use mo_to_buddy.Kernel.{Kernel, Caches}
use mo_to_buddy.Kernel.Gbc.{operator_reset}
use mo_to_buddy.Kernel.Makenode.Made.{Extends}
use mo_to_buddy.Represents.{Rep}
use mo_to_buddy.Represents.Frame.{Rep-Extends}
use mo_to_buddy.Op.{Op, and, or, xor, nand, nor, imp, biimp, diff, less, invimp, code, not_code}
use mo_to_buddy.Op.Fact.{Before, Fact, Fact-Extends}

-- The connectives that the operators name.
abbrev pub op_bool : Op → Bool → Bool → Bool
op_bool and x y = x && y
op_bool xor x y = if x then not y else y
op_bool or x y = x || y
op_bool nand x y = not (x && y)
op_bool nor x y = not (x || y)
op_bool imp x y = not x || y
op_bool biimp x y = if x then y else not y
op_bool diff x y = x && not y
op_bool less x y = not x && y
op_bool invimp x y = x || not y

-- What a cached negation, combination and choice say.
pub record NotFact (s : Kernel) (a res : ℕ) : Type 0 where
  pub tree : Tree
  pub rep : Rep s a tree
  pub fact : Fact s (Before tree) (λ ρ. not (eval tree ρ)) res

abbrev pub Before2 : Tree → Tree → ℕ → Type 0
Before2 t u j = Before t j × Before u j

pub record ApplyFact (s : Kernel) (op : Op) (a b res : ℕ) : Type 0 where
  pub left : Tree
  pub right : Tree
  pub left_rep : Rep s a left
  pub right_rep : Rep s b right
  pub fact : Fact s (Before2 left right) (λ ρ. op_bool op (eval left ρ) (eval right ρ)) res

abbrev pub Before3 : Tree → Tree → Tree → ℕ → Type 0
Before3 t u v j = Before t j × Before u j × Before v j

abbrev pub choose : Tree → Tree → Tree → Assignment → Bool
choose t u v ρ = if eval t ρ then eval u ρ else eval v ρ

pub record IteFact (s : Kernel) (a b c res : ℕ) : Type 0 where
  pub test : Tree
  pub yes_tree : Tree
  pub no_tree : Tree
  pub test_rep : Rep s a test
  pub yes_rep : Rep s b yes_tree
  pub no_rep : Rep s c no_tree
  pub fact : Fact s (Before3 test yes_tree no_tree) (choose test yes_tree no_tree) res

-- The three quantifications, by CACHEID_EXIST, CACHEID_FORALL and CACHEID_UNIQUE.
pub data Quantifier : Type 0 where
  exist forall unique : Quantifier

abbrev pub tag : Quantifier → ℕ
tag exist = 0
tag forall = 1
tag unique = 2

-- `applyop` during the quantification.
abbrev pub merger : Quantifier → Op
merger exist = or
merger forall = and
merger unique = xor

-- The levels of a variable set: those along the high branches.
abbrev pub in_tree : Tree → ℕ → Bool
in_tree (leaf b) l = false
in_tree (node m t u) l = (l == m) || in_tree u l

-- A tree with the levels of a set quantified away.
abbrev pub quantified : Op → (ℕ → Bool) → Tree → Assignment → Bool
quantified op set (leaf b) ρ = b
quantified op set (node l t u) ρ =
    if set l
    then op_bool op (quantified op set t ρ) (quantified op set u ρ)
    else if ρ l
    then quantified op set u ρ
    else quantified op set t ρ

pub record QuantFact (s : Kernel) (q : Quantifier) (var a res : ℕ) : Type 0 where
  pub set : Tree
  pub set_rep : Rep s var set
  pub tree : Tree
  pub rep : Rep s a tree
  pub fact : Fact s (Before tree) (quantified (merger q) (in_tree set) tree) res

-- The tag of an entry holds the quantification and the node of the variable set.
abbrev pub QuantEntry : Kernel → Entry → Type 0
QuantEntry s e = (q : Quantifier) (var : ℕ) → e.c ≡ var * 8 + tag q → QuantFact s q var e.a e.res

-- An entry of the apply cache is tagged by its operator.
pub record ApplyEntry (s : Kernel) (e : Entry) : Type 0 where
  pub negation : e.c ≡ not_code → NotFact s e.a e.res
  pub combination : (op : Op) → e.c ≡ code op → ApplyFact s op e.a e.b e.res

abbrev pub IteEntry : Kernel → Entry → Type 0
IteEntry s e = IteFact s e.a e.b e.c e.res

-- No entry is of a generation to come, and those of the current one hold what they say.
pub record Sound (P : Entry → Type 0) (c : Cache) : Type 0 where
  pub past : (i : ℕ) → (c.table i).generation ≤ c.current_generation
  pub entries : (i : ℕ) → (c.table i).generation ≡ c.current_generation → P (c.table i)

pub Sound-map :
    {P Q : Entry → Type 0} {c : Cache} → ((e : Entry) → P e → Q e) → Sound P c → Sound Q c
Sound-map f s = record { past = s.past; entries = λ i g. f _ (s.entries i g) }

Sound-reset : {P : Entry → Type 0} {Q : Entry → Type 0} {c : Cache} → Sound P c → Sound Q (reset c)
unfolding reset
Sound-reset s = record {
  past = λ i. let old = s.past i in omega arith;
  entries = λ i g. let old = s.past i in absurd (omega (arith, g));
}

pub Sound-put :
    {P : Entry → Type 0} {c : Cache} (hash : ℕ) (e : Entry)
    → ((g : ℕ) → P (record e { generation = g }))
    → Sound P c
    → Sound P (put c hash e)
unfolding put
Sound-put {P} {c} hash e new s = record {
  past = λ i. elim (Bool-cases (i == slot c hash)) [
    | inl h ↦ rw h (omega arith)
    | inr h ↦ rw h (s.past i)
  ];
  entries = λ i. elim (Bool-cases (i == slot c hash)) [
    | inl h ↦ rw h (λ g. new c.current_generation)
    | inr h ↦ rw h (s.entries i)
  ];
}

-- The caches of the operators that are proved.
pub record CachesSound (s : Kernel) (c : Caches) : Type 0 where
  pub apply : Sound (ApplyEntry s) c.apply
  pub ite : Sound (IteEntry s) c.ite
  pub quant : Sound (QuantEntry s) c.quant

ApplyEntry-Extends :
    (s s' : Kernel)
    → Extends s s'
    → (s'.errorcond ≡ 0 → s.errorcond ≡ 0)
    → (e : Entry) → ApplyEntry s e
    → ApplyEntry s' e
ApplyEntry-Extends s s' x err e a = record {
  negation = λ k.
      let n = a.negation k in
      record {
        tree = n.tree;
        rep = Rep-Extends s s' n.tree e.a x n.rep;
        fact = Fact-Extends s s' x err n.fact;
      };
  combination = λ op k.
      let n = a.combination op k in
      record {
        left = n.left;
        right = n.right;
        left_rep = Rep-Extends s s' n.left e.a x n.left_rep;
        right_rep = Rep-Extends s s' n.right e.b x n.right_rep;
        fact = Fact-Extends s s' x err n.fact;
      };
}

IteEntry-Extends :
    (s s' : Kernel)
    → Extends s s'
    → (s'.errorcond ≡ 0 → s.errorcond ≡ 0)
    → (e : Entry) → IteEntry s e
    → IteEntry s' e
IteEntry-Extends s s' x err e n = record {
  test = n.test;
  yes_tree = n.yes_tree;
  no_tree = n.no_tree;
  test_rep = Rep-Extends s s' n.test e.a x n.test_rep;
  yes_rep = Rep-Extends s s' n.yes_tree e.b x n.yes_rep;
  no_rep = Rep-Extends s s' n.no_tree e.c x n.no_rep;
  fact = Fact-Extends s s' x err n.fact;
}

QuantEntry-Extends :
    (s s' : Kernel)
    → Extends s s'
    → (s'.errorcond ≡ 0 → s.errorcond ≡ 0)
    → (e : Entry) → QuantEntry s e
    → QuantEntry s' e
QuantEntry-Extends s s' x err e a q var k =
    let n = a q var k in
    record {
      set = n.set;
      set_rep = Rep-Extends s s' n.set var x n.set_rep;
      tree = n.tree;
      rep = Rep-Extends s s' n.tree e.a x n.rep;
      fact = Fact-Extends s s' x err n.fact;
    }

pub CachesSound-Extends :
    (s s' : Kernel) (c : Caches)
    → Extends s s'
    → (s'.errorcond ≡ 0 → s.errorcond ≡ 0)
    → CachesSound s c
    → CachesSound s' c
CachesSound-Extends s s' c x err k = record {
  apply = Sound-map (ApplyEntry-Extends s s' x err) k.apply;
  ite = Sound-map (IteEntry-Extends s s' x err) k.ite;
  quant = Sound-map (QuantEntry-Extends s s' x err) k.quant;
}

pub CachesSound-reset :
    (s s' : Kernel) (c : Caches) → CachesSound s c → CachesSound s' (operator_reset c)
unfolding operator_reset
CachesSound-reset s s' c k = record {
  apply = Sound-reset k.apply;
  ite = Sound-reset k.ite;
  quant = Sound-reset k.quant;
}
