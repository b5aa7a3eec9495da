-- ===== src/Lib.antt =====
-- Hirpdag, a library of hash-consed, reference-counted DAG nodes, in three crates.
-- hirpdag_hashconsing has the reference handles and the interning tables; hirpdag has the node
-- storage, creation ids and metadata; hirpdag_derive has the attribute macro that generates, for
-- each struct type, a table, a handle type and the code for its metadata and its order.
--
-- How the parts interact: a program builds a node of a struct type by `hirpdag_hashcons`, which asks
-- the shared table of the type for the data; the shared table hashes the data, locks itself or one
-- of its shards, and asks the inner table there; the inner table upgrades the weak handles that it
-- holds under the hash and compares data. If nothing is found it calls the closure that computes
-- metadata and draws a creation id, makes a new object and keeps a weak handle to it.
--
-- Base      Boolean tests, lists over native indices, a hash map as an association list.
-- Ref       hirpdag_hashconsing/src/reference.rs and reference/arc.rs: a heap of objects with their
--           strong counts. A handle is an address; every operation takes the heap and returns it.
--           The counts are natural numbers. A table's weak handles pin the allocation, so addresses
--           are not given out twice.
--           SepCount is reference/sepcount.rs: counts in slots of a pool, apart from the data, with
--           counters of `w` bits that wrap around. Handles has the operations, where `none` is a use
--           or a second free of freed memory; Client has what a program does with them.
--           Leak is reference/leak.rs, boxes that are never freed. Tlc is reference/tlc.rs: each thread
--           has a buffer of decrements that it puts off, and a list of those that it has drained
--           and not yet applied; Client has the threads' steps, which come in any order.
-- Key       `Hash + Eq` of the data, and std's `BuildHasher`: an equivalence, and a hash that
--           respects it. These are parameters.
-- Table     hirpdag_hashconsing/src/table.rs and table/: WeakEntry (weak_entry.rs), the inner tables
--           VecLinear (vec_linear_threadunsafe.rs), VecSorted (vec_sorted_threadunsafe.rs) and
--           HashmapFallback (hashmap_fallback_threadunsafe.rs), the shared tables SharedMutex (shared_mutex.rs) and
--           SharedSharded (shared_sharded.rs). Interface has the contract of an inner table, Shared
--           that of a shared table; VecLinear, HashmapFallback, SharedMutex and SharedSharded are
--           instances (`table`), so they
--           combine as the presets of hirpdag_derive/src/config.rs combine them. Canonical is what
--           a program sees through a shared table: steps that intern, look up, clone, drop and, where
--           that is allowed, reset.
--           Strong has the tables that keep a strong handle (dashmap_strong.rs, skipmap_strong.rs,
--           flurry_strong.rs, arcswap_strong.rs), over a map that is a parameter; their
--           `get_or_insert` takes the map twice, as it is read first and as it is when the entry is
--           inserted, so that the theorems cover a race. TovWeak is tov_weak_table_threadunsafe.rs,
--           over the set of the weak-table crate as a parameter. Builder (here, in SharedMutex and in
--           SharedSharded) has the factories.
-- Value, Meta   hirpdag/src/base/meta.rs, and `hirpdag_compute_meta` as hirpdag_derive/src/lib.rs
--           generates it: saturating counts (`u32`) and heights (`u16`).
-- Hashcons  hirpdag/src/base/reference.rs, and the generated `Ord` of handles. `hirpdag_cmp_deep` is in
--           Serialize/Deep, over the nodes that Serialize has.
-- Derive    hirpdag_derive/src/config.rs: arguments, presets and the configuration of the macro. syn's
--           tokens of an argument are its name, whether `=` follows, and its literal. Schema, Builder and Module
--           are of hirpdag_derive/src/lib.rs: the fingerprint of a module's definitions, as bytes of UTF-8, and
--           the generated builder, whose fields are numbered; Module has which items of a module are
--           expanded, and the entries that are listed for it.
-- Serialize hirpdag/src/base/serialize.rs, and what hirpdag_derive/src/lib.rs generates for archives.
--           Header has the header of binary archives, Collect the collect phase, Wire values as serde
--           sees them, Archive the node table and the sessions of a thread, Entry the entry points.
--           A module's node types are given by the field types of its structs (`schema`); `Interner`
--           is what reading needs of `hirpdag_hashcons`, and Hashconsed fills it. An archive that is
--           read is what the format gives in turn, so that a node before an error is interned. A format
--           reads back the archives that it carries: postcard all of them, serde_json those without a
--           `Some(None)`, which Flat has for field types without an `Option` of an `Option`. Field types
--           are finite, so no enum contains itself.
-- Rewrite   hirpdag/src/base/rewrite.rs, and the `default_rewrite` that hirpdag_derive/src/lib.rs
--           generates. A rewriter overrides methods of structs, never of enums; `Self::new`, which
--           runs the normalizer of a user, is a parameter. Rewritten has it intern the fields.
-- Tests     concrete runs over the preset `arc_hash_linear`.
--
-- std's binary search is a parameter with its documented contract, as are the hash, and the maps and the
-- set of crates. A panic, of an `assert!` or an index out of bounds, is `none`. `creation_meta` is a
-- function of the data and of the state that it captures, the creation counter. Every call of a
-- shared table runs under a lock, so calls of several threads are a sequence of calls in some
-- order; that a drop and an upgrade of one object are atomic is what std's `Arc` documents. A lock
-- is poisoned only by a panic, which the theorems exclude. Only the collect phase and the default
-- rewriter take fuel, for the depth of the nodes; the creation counter is enough, since a node has
-- a larger creation id than those that it points to. Every other loop goes down a list.
--
-- Not modelled: the macro's token manipulation, `Debug` output, tests
-- and benchmarks.
pub mod Base
pub mod Derive
pub mod Hashcons
pub mod Key
pub mod Meta
pub mod Ref
pub mod Rewrite
pub mod Serialize
pub mod Table
pub mod Value
mod Tests
