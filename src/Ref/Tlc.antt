-- ===== src/Ref/Tlc.antt =====
-- hirpdag_hashconsing/src/reference/tlc.rs: counts in the object, and decrements that each thread puts
-- off. A handle is the object's address. One type `D` of data stands for all, so that the erased
-- `release` of an entry is `release_strong`. Handles that stand in dropped data are dropped by
-- later steps of the same thread, before or after further entries are applied. `none` is a use of
-- freed memory, or a second drop of data.
pub mod Handles
pub mod Owed
pub mod Deferred
pub mod Cells
pub mod Shared
pub mod Client
pub mod Buffered
pub mod Kept
pub mod Steps
pub mod Drained
use hirpdag.Base.{
  ℕ, zero, suc, ◌+◌, ◌-◌, ◌%◌, ◌^◌, Bool, true, false, ◌||◌, Option, none, some, List, [], ◌∷◌,
  ◌++◌, length, leb, ◌==◌, if◌then◌else◌,
}
use hirpdag.Base.HashMap

abbrev pub flush_ops : ℕ
flush_ops = 4096

abbrev pub flush_entries : ℕ
flush_entries = 1024

-- `value` is `none` once the data is dropped.
pub record TlcInner (D : Type 0) : Type 0 where
  pub strong : ℕ
  pub weak : ℕ
  pub value : Option D

-- the objects, by address
abbrev pub Memory : Type 0 → Type 0
Memory D = ℕ → Option (TlcInner D)

-- Counters of `w` bits that wrap around: what `fetch_add(1)` and `fetch_sub(n)` leave
module _ (w : ℕ) where
  unfoldable pub fetch_add_one : ℕ → ℕ
  fetch_add_one n = (n + 1) % 2 ^ w

  unfoldable pub fetch_sub : ℕ → ℕ → ℕ
  fetch_sub n k = (n + (2 ^ w - k % 2 ^ w)) % 2 ^ w

module _ {D : Type 0} where
  unfoldable pub set_cell : ℕ → Option (TlcInner D) → Memory D → Memory D
  set_cell p o mem q = if p == q then o else mem q

  module _ (w : ℕ) where
    -- `if weak.fetch_sub(1) == 1 { drop(Box::from_raw(..)) }`
    unfoldable pub weak_release : ℕ → TlcInner D → Memory D → Memory D
    unfolding set_cell fetch_sub
    weak_release p c mem =
        if c.weak == 1
        then set_cell p none mem
        else set_cell p (some (record c { weak = fetch_sub w c.weak 1 })) mem

    -- The data is dropped, and then the weak count that the strong handles hold together.
    unfoldable pub drop_value : ℕ → TlcInner D → Memory D → Option (Memory D)
    unfolding weak_release
    drop_value p c mem = elim (c.value) [
      | none ↦ none
      | some d ↦ some (weak_release p (record c { value = none }) mem)
    ]

    unfoldable pub release_strong : ℕ → ℕ → Memory D → Option (Memory D)
    unfolding drop_value set_cell fetch_sub
    release_strong p n mem = elim (mem p) [
      | none ↦ none
      | some c ↦
          let c' = record c { strong = fetch_sub w c.strong n } in
          if c.strong == n then drop_value p c' mem else some (set_cell p (some c') mem)
    ]

-- by address, the number of decrements that are put off
pub record DeferredDecs : Type 0 where
  pub map : List (ℕ × ℕ)
  pub ops_since_flush : ℕ

abbrev pub no_decs : DeferredDecs
no_decs = record { map = []; ops_since_flush = 0 }

unfoldable pub take_pending : DeferredDecs → List (ℕ × ℕ) × DeferredDecs
take_pending d = (d.map, no_decs)

-- `entry(addr).or_insert(DeferredEntry { count: 0, .. })`
unfoldable pub count_of : ℕ → List (ℕ × ℕ) → ℕ
count_of addr map = elim (HashMap.lookup addr map) [ none ↦ 0 | some n ↦ n ]

unfoldable pub defer : ℕ → DeferredDecs → Option (List (ℕ × ℕ)) × DeferredDecs
unfolding count_of take_pending
defer addr d =
    let d' : DeferredDecs = record {
      map = HashMap.insert addr (count_of addr d.map + 1) d.map;
      ops_since_flush = d.ops_since_flush + 1;
    } in
    if leb flush_ops d'.ops_since_flush || leb flush_entries (length d'.map)
    then (let (pending, d'') = take_pending d' in (some pending, d''))
    else (none, d')

-- `entry.remove()`
unfoldable pub remove : ℕ → List (ℕ × ℕ) → List (ℕ × ℕ)
remove addr [] = []
remove addr ((other, n) ∷ rest) = if other == addr then rest else (other, n) ∷ remove addr rest

unfoldable pub consume : ℕ → DeferredDecs → Bool × DeferredDecs
unfolding remove
consume addr d = elim (HashMap.lookup addr d.map) [
  | none ↦ (false, d)
  | some n ↦ (
    true,
    record d { map = if n - 1 == 0 then remove addr d.map else HashMap.insert addr (n - 1) d.map },
  )
]

-- A thread: `TLC_DEFERRED`, which is `none` once it is destroyed, and what `apply_pending` has still
-- to apply. A drop inside `apply_pending` may drain the map again.
pub record Thread : Type 0 where
  pub deferred : Option DeferredDecs
  pub pending : List (ℕ × ℕ)

abbrev pub new_thread : Thread
new_thread = record { deferred = some no_decs; pending = [] }

unfoldable pub tlc_consume : ℕ → Thread → Bool × Thread
unfolding consume
tlc_consume addr t = elim (t.deferred) [
  | none ↦ (false, t)
  | some d ↦ let (found, d') = consume addr d in (found, record t { deferred = some d' })
]

-- `if let Some(pending) = pending { apply_pending(pending); }`
unfoldable pub to_apply : Option (List (ℕ × ℕ)) → List (ℕ × ℕ) → List (ℕ × ℕ)
to_apply none rest = rest
to_apply (some pending) rest = pending ++ rest

unfoldable pub tlc_defer : ℕ → Thread → Bool × Thread
unfolding defer to_apply
tlc_defer addr t = elim (t.deferred) [
  | none ↦ (false, t)
  | some d ↦
      let (o, d') = defer addr d in
      (true, record { deferred = some d'; pending = to_apply o t.pending })
]

-- `Drop for DeferredDecs`, at the exit of the thread
unfoldable pub exit_thread : Thread → Thread
unfolding take_pending
exit_thread t = elim (t.deferred) [
  | none ↦ t
  | some d ↦ record { deferred = none; pending = (take_pending d).0 ++ t.pending }
]
