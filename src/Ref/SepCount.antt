-- ===== src/Ref/SepCount.antt =====
-- hirpdag_hashconsing/src/reference/sepcount.rs: handles whose counts stand in slots of a pool,
-- apart from the data. An address is a number; a slot's address is its place in the arena. `w` is
-- the width of a counter (64, or 32 for `SlotPackedU32`). Where the source would use or free memory
-- that is not there, the operation returns `none`.
pub mod Client
pub mod Counted
pub mod Paired
pub mod Counts
pub mod Drops
pub mod Handles
pub mod Pool
pub mod Steps
pub mod Upgrades
use hirpdag.Base.{
  ℕ, zero, suc, ◌+◌, ◌-◌, ◌*◌, ◌%◌, ◌^◌, Bool, true, false, ◌&&◌, Option, none, some, List, [], ◌∷◌,
  length, ◌==◌, ltb, leb, if◌then◌else◌, replicate,
}

abbrev pub chunk_slots : ℕ
chunk_slots = 4096

pub record CountSlot : Type 0 where
  pub strong : ℕ
  pub weak : ℕ

abbrev pub default_slot : CountSlot
default_slot = record { strong = 0; weak = 0 }

-- `chunks` is their number, `slot` the slots of all of them, one chunk behind the other; the head of
-- `free` is the end of the vector.
pub record SlotPool : Type 0 where
  pub chunks : ℕ
  pub slot : ℕ → CountSlot
  pub free : List ℕ

abbrev pub new_pool : SlotPool
new_pool = record { chunks = 0; slot = λ s. default_slot; free = [] }

unfoldable pub write_slot : SlotPool → ℕ → CountSlot → SlotPool
write_slot pool s c = record pool { slot = λ t. if s == t then c else pool.slot t }

-- `for slot in chunk.iter() { guard.free.push(..) }`
unfoldable pub push_slots : ℕ → ℕ → List ℕ → List ℕ
push_slots base zero free = free
push_slots base (suc n) free = (base + n) ∷ push_slots base n free

-- a new chunk of default slots, all of them free
unfoldable pub refill : SlotPool → SlotPool
unfolding push_slots
refill pool =
    let base = pool.chunks * chunk_slots in
    record {
      chunks = pool.chunks + 1;
      slot = λ s. if leb base s && ltb s (base + chunk_slots) then default_slot else pool.slot s;
      free = push_slots base chunk_slots pool.free;
    }

unfoldable pub init : CountSlot → CountSlot
init c = record { strong = 1; weak = 1 }

-- `guard.free.pop().unwrap()`, and the slot is reset
unfoldable pub pop_slot : SlotPool → Option (ℕ × SlotPool)
unfolding write_slot init
pop_slot pool = elim (pool.free) [
  | [] ↦ none
  | s ∷ free ↦ some (s, write_slot (record pool { free = free }) s (init (pool.slot s)))
]

abbrev pub is_empty : List ℕ → Bool
is_empty [] = true
is_empty (s ∷ free) = false

unfoldable pub alloc : SlotPool → Option (ℕ × SlotPool)
unfolding pop_slot refill
alloc pool = pop_slot (if is_empty pool.free then refill pool else pool)

unfoldable pub free_slot : SlotPool → ℕ → SlotPool
free_slot pool s = record pool { free = s ∷ pool.free }

-- `(guard.chunks.len(), guard.free.len())`
unfoldable pub stats : SlotPool → ℕ × ℕ
stats pool = (pool.chunks, length pool.free)

-- The counters wrap around, as `fetch_add` and `fetch_sub` do.
module _ (w : ℕ) where
  unfoldable pub fetch_add_one : ℕ → ℕ
  fetch_add_one n = (n + 1) % 2 ^ w

  unfoldable pub fetch_sub_one : ℕ → ℕ
  fetch_sub_one n = (n + (2 ^ w - 1)) % 2 ^ w

  unfoldable pub strong_inc : CountSlot → CountSlot
  unfolding fetch_add_one
  strong_inc c = record c { strong = fetch_add_one c.strong }

  -- whether the count reached zero, and the slot
  unfoldable pub strong_dec : CountSlot → Bool × CountSlot
  unfolding fetch_sub_one
  strong_dec c = (c.strong == 1, record c { strong = fetch_sub_one c.strong })

  unfoldable pub weak_inc : CountSlot → CountSlot
  unfolding fetch_add_one
  weak_inc c = record c { weak = fetch_add_one c.weak }

  unfoldable pub weak_dec : CountSlot → Bool × CountSlot
  unfolding fetch_sub_one
  weak_dec c = (c.weak == 1, record c { weak = fetch_sub_one c.weak })

  -- The loop of `strong_upgrade`. `n` is what was loaded last; `failed` has what each further
  -- exchange that fails finds in the counter, which other threads may have written (or the same
  -- value, where `compare_exchange_weak` fails for no reason). The first exchange after those
  -- succeeds on a counter that still holds `n`. Returns the result and the counter.
  unfoldable pub upgrade_loop : ℕ → List ℕ → Bool × ℕ
  upgrade_loop n [] = if n == 0 then (false, n) else (true, (n + 1) % 2 ^ w)
  upgrade_loop n (actual ∷ failed) =
      let rest = upgrade_loop actual failed in if n == 0 then (false, n) else rest

  -- `strong_upgrade` where no other thread writes the counter, after `failures` exchanges that
  -- failed for no reason
  unfoldable pub strong_upgrade : ℕ → CountSlot → Bool × CountSlot
  unfolding upgrade_loop
  strong_upgrade failures c =
      let (ok, n) = upgrade_loop c.strong (replicate failures c.strong) in
      (ok, record c { strong = n })
