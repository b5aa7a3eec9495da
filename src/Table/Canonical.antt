-- ===== src/Table/Canonical.antt =====
-- Hash-consing over any shared table (`Table` of hirpdag_hashconsing/src/table.rs): the invariant
-- that live entries of equal data are one object, and the steps of a program that uses a table.
pub mod Invariant
pub mod Steps
pub mod Sharing
pub mod Interned
use hirpdag.Base.{ℕ, Bool, Option, ◌≡◌, true, some, arith}
use hirpdag.Key.{Key, Hasher}
use hirpdag.Ref.{Heap, strong_deref, strong_clone, strong_drop}
use hirpdag.Ref.Laws.{Live}
use hirpdag.Table.Interface.{Entries, IsBounded, CreationMeta}
use hirpdag.Table.Shared.{Table}
use hirpdag.Table.WeakEntry.{alive}

module _ {D : Type 0} ⦃key : Key D⦄ (hasher : Hasher D key) where
  -- every entry stands under the hash of its data, and equal data that are there are one object
  pub record IsUnique (E : Entries) (h : Heap D) : Type 0 where
    pub bounded : IsBounded E h
    pub hashed : (k p : ℕ) (x : D) → E k p → Live h p x → k ≡ hasher.hash_one x
    pub unique :
        (j p k q : ℕ) (x y : D)
        → E j p
        → E k q
        → Live h p x
        → Live h q y
        → key.equal x y ≡ true
        → p ≡ q

-- `creation_meta` completes data without changing what it is equal to.
abbrev pub Completes : {D G : Type 0} → Key D → CreationMeta D G → Type 0
Completes {D} {G} key m = (d : D) (g : G) → key.equal (m d g).0 d ≡ true

pub record World (TS D G : Type 0) : Type 0 where
  pub table : TS
  pub heap : Heap D
  pub state : G

module _ {D G : Type 0} ⦃key : Key D⦄ {hasher : Hasher D key} {TS : Type 0}
    (ops : Table D G key hasher TS) where
  -- The calls of a program, in any order: a node is interned, looked up, a handle is cloned, a
  -- handle is dropped; and, if `resets` allows it, the table is reset.
  pub data Step (resets : Bool) (w u : World TS D G) : Type 0 where
    interned :
        (creation_meta : CreationMeta D G)
        → Completes key creation_meta
        → (d : D) (p : ℕ)
        → ops.get_or_insert w.table d creation_meta w.heap w.state
          ≡ some (p, u.table, u.heap, u.state)
        → Step resets w u
    looked_up :
        (d : D) (r : Option ℕ) (h : Heap D)
        → ops.get w.table d w.heap ≡ some (r, h)
        → u ≡ record w { heap = h }
        → Step resets w u
    cloned :
        (p : ℕ)
        → alive w.heap p ≡ true
        → u ≡ record w { heap = (strong_clone p w.heap).1 }
        → Step resets w u
    dropped : (p : ℕ) → u ≡ record w { heap = strong_drop p w.heap } → Step resets w u
    was_reset : resets ≡ true → u ≡ record w { table = ops.reset w.table } → Step resets w u

  pub data Reach (resets : Bool) (w : World TS D G) : World TS D G → Type 0 where
    here : Reach resets w w
    next : {u v : World TS D G} → Reach resets w u → Step resets u v → Reach resets w v
