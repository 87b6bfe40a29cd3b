-- ===== src/Lib.antt =====
-- The BDD package MoToBuddy (src/kernel.c, src/cache.c, src/bddop.c and what they call), modelled
-- and verified.
--
-- The package keeps one table of nodes. A node carries a level and two children; its slot also holds
-- the head of the hash bucket with its number and a link in a bucket or in the free list. The
-- operators of src/bddop.c make all nodes by `bdd_makenode`, which looks in the unique table first,
-- and when no slot is free collects garbage, grows the table, or gives up. Results survive a
-- collection by a reference count or by standing on the reference stack. The operators keep their
-- results in caches that a collection resets. A client counts each result by `bdd_addref` before its
-- next call; src/bvec.c is such a client.
--
-- Files:
--   Prelude          library names, Boolean tests, lists over native numbers
--   Hash             the hash macros of src/kernel.h (HASH1 to HASH5, HASHNODE, HASHRANGE)
--   Cache            src/cache.c and src/cache.h: entries, generations, store, reset, resize;
--                    Cache/Lookup says what a lookup finds
--   Terminal         what src/kernel.c calls of src/mtbdd.c: the hash and deletion of terminals
--   Kernel           the variables of src/kernel.c as a record, nodes as a function of their number,
--                    and how a call may end
--   Kernel/Chain     linked lists of nodes and the walk of `bdd_makenode` along a bucket
--   Kernel/Partition the table as buckets and free list, and the three ways to change it
--   Kernel/WellFormed, Kernel/Protected   the invariant, and which nodes must survive
--   Kernel/Inherits  what a collection and a growth of the table have in common
--   Kernel/Gbc       `bdd_mark`, `bdd_gbc`, `bdd_gbc_rehash`; its children are the marking recursion,
--                    the marking loops, the rehashing loop, and the whole collection
--   Kernel/Makenode  `bdd_noderesize` and `bdd_makenode`; Resize, Build and Made prove them
--   Kernel/Refs      `bdd_addref`, `bdd_delref`, PUSHREF, READREF, POPREF; Counted proves the first two
--   Tree             decision trees, ordered and reduced, and their canonicity
--   Represents       which tree a node stands for: Unfold, Frame, Canonicity, Referenced
--   Kernel/Settings, Kernel/Visit, Kernel/Scan   settings and queries, the other recursions over
--                    marks, `bdd_scanset`
--   Op               `not_rec` and `apply_rec` of src/bddop.c; its children Ite, Restrict, Substitute,
--                    Quantify and Varset hold the other recursions and the variable tables
--   Op/Stack, Op/Fact, Op/Ready, Op/Runs, Op/Cofactor   what the recursions have in common: the
--                    reference stack, what is known of a result, the invariant of the caches, a
--                    step that combines two results, and the halves of an operand at a level
--   Op/Negation, Op/Shortcut, Op/Apply, Op/Choice   `not_rec`, `apply_rec` and `ite_rec` proved
--   Op/Quantified, Op/Exists   `quant_rec` proved, and what its results mean
--   Op/Count         `bdd_satcount` and `bdd_pathcount`; Models says what is counted, Precision
--                    where no double rounds, Exact proves it
--   Op/Satone        the recursions for satisfying assignments
--   Op/Call          the public calls `bdd_not`, `bdd_apply`, `bdd_ite` and, in Op/Call/Quantify,
--                    the quantifications: the checks, INITREF, the second attempt after a
--                    reordering, `checkresize`
--   Session          what a client holds: counted BDDs with the truth functions they were made with.
--                    Perform runs a client's sequence of calls, Perform/Canonical compares their
--                    numbers; Vectors fills the interface of Bvec;
--                    Quantify proves the public quantifications
--   Prime            src/prime.c: Words proves the 64-bit arithmetic, Fermat the witness check, Search
--                    the search upwards
--   Imatrix          src/imatrix.c, and in Relation the relation that a matrix stands for
--   Pairs            the replacement tables of src/pairs.c, and in Ids their numbers
--   VarTree          src/tree.c and the blocks of src/reorder.c; Nested, Lost and Sequence prove them
--   Start            `bdd_init` and `bdd_setvarnum`; Fresh proves the first table, Growing, Relevel and
--                    Declaring the loop over the variables, Declared both calls
--   Bvec             src/bvec.c over an interface to the package, its laws in Bvec/Laws; Arithmetic,
--                    Order and Constants prove it
--   Tests            a concrete table of five slots, a search for primes, and uses of the theorems
--
-- A node's `low` and `high` are 32-bit patterns, so the mark -1 of a free slot is 2^32 - 1. C's int
-- variables are plain numbers, and the wrap-around is written out where the code comes to it: the
-- sizes in `bdd_noderesize`, the percentage in `bdd_makenode`, `quantid`, and the words of src/prime.c,
-- whose 64-bit type is the signed one of GCC. The arithmetic on `double` is a parameter of the counts.
-- A generation counter is exact until 2^31 resets.
--
-- Fuel: `bdd_mark` recurs at most once a level, so the fuel is the number of variables and three
-- more; the walk along a bucket has one unit more than there are slots, since a chain of distinct
-- nodes is no longer than the table; an operator recurs at most once a level.
--
-- Taken as given: `bdd_prime_lte` of src/prime.c finds the largest prime up to its argument (its
-- search draws on rand); `realloc` succeeds; an error handler returns; the session has plain BDDs,
-- a largest table size and a largest increase below 2^30, no reordering due where that is said, and
-- node numbers of variable sets below 2^28, whose `quantid` is within an int.
--
-- `bdd_reorder_auto` and `bdd_reorder_gain` are parameters of the public calls, and so is
-- `bdd_prime_gte`, which only chooses the size of a cache.
--
-- Left out: callbacks and clocks, which only report; the caches that client programs register;
-- swaps of levels and sifting; the other operators on sets of variables and on terminal values;
-- division and symbolic shifts of vectors; finite domains; edge-valued diagrams; files.
pub mod Prelude
pub mod Tree
pub mod Hash
pub mod Cache
pub mod Terminal
pub mod Kernel
pub mod Represents
pub mod Op
pub mod Session
pub mod Bvec
pub mod Prime
pub mod Imatrix
pub mod Pairs
pub mod VarTree
pub mod Start
pub mod Tests
