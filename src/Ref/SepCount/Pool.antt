-- ===== src/Ref/SepCount/Pool.antt =====
-- The free list of the pool: what `alloc` and `free` do to the slots that stand on it.
use hirpdag.Base.{
  ℕ, zero, suc, ◌+◌, ◌*◌, ◌^◌, ◌<◌, ◌≤◌, ◌≡◌, ◌≢◌, refl, ap, ◌∙◌, ◌&&◌, List, [], ◌∷◌, ◌==◌, ltb,
  leb, if◌then◌else◌, arith, ◌⊎◌, inl, inr, Returns, Bool-cases,
}
use hirpdag.Ref.SepCount.Counts.{fetch_sub_one-suc}
use hirpdag.Ref.SepCount.Handles.{weak_release}
use hirpdag.Ref.SepCount.{
  weak_dec, free_slot, fetch_sub_one, SlotPool, CountSlot, default_slot, chunk_slots, push_slots,
  refill, pop_slot, alloc, init, write_slot, is_empty,
}

-- how often a slot stands on a list
unfoldable pub occurs : ℕ → List ℕ → ℕ
occurs s [] = 0
occurs s (t ∷ ts) = (if t == s then 1 else 0) + occurs s ts

unfoldable pub arena : SlotPool → ℕ
arena pool = pool.chunks * chunk_slots

-- The free slots are those of the arena that no handle holds, each once.
pub record IsPool (pool : SlotPool) : Type 0 where
  pub free_once :
      (s : ℕ) → s < arena pool → occurs s pool.free ≡ (if (pool.slot s).weak == 0 then 1 else 0)
  pub outside : (s : ℕ) → arena pool ≤ s → (occurs s pool.free ≡ 0) × (pool.slot s ≡ default_slot)

occurs-push_slots :
    (s base n : ℕ) (free : List ℕ)
    → occurs s (push_slots base n free)
      ≡ (if leb base s && ltb s (base + n) then 1 else 0) + occurs s free
unfolding occurs push_slots
occurs-push_slots s base zero free = ground arith
occurs-push_slots s base (suc n) free = ground (arith, occurs-push_slots s base n free)

-- `alloc` does not panic; the slot was free, and is now held with both counts 1.
pub record Allocated (pool : SlotPool) (r : ℕ × SlotPool) : Type 0 where
  pub valid : IsPool r.1
  pub unused : (pool.slot r.0).weak ≡ 0
  pub initial : r.1.slot r.0 ≡ record { strong = 1; weak = 1 }
  pub others : (t : ℕ) → r.0 ≢ t → r.1.slot t ≡ pool.slot t
  pub grows : pool.chunks ≤ r.1.chunks
  pub inside : r.0 < arena r.1

refill-IsPool : (pool : SlotPool) → IsPool pool → IsPool (refill pool)
unfolding arena refill
refill-IsPool pool p = record {
  free_once = λ s h.
      let q = occurs-push_slots s (pool.chunks * chunk_slots) chunk_slots pool.free in
      elim (Bool-cases (ltb s (arena pool))) [
        | inl below ↦ ground (arith, q, p.free_once s (ground arith))
        | inr above ↦ ground (arith, q, p.outside s (ground arith))
      ];
  outside = λ s h.
      let q = occurs-push_slots s (pool.chunks * chunk_slots) chunk_slots pool.free in
      (ground (arith, q, p.outside s (omega arith)), ground (arith, p.outside s (omega arith)));
}

pop_slot-Allocated :
    (pool : SlotPool) (s : ℕ) (free : List ℕ)
    → IsPool pool
    → pool.free ≡ s ∷ free
    → Returns (pop_slot pool) (Allocated pool)
unfolding arena pop_slot write_slot init occurs
pop_slot-Allocated pool s free p e =
    let held : (t : ℕ) → occurs t pool.free ≡ (if s == t then 1 else 0) + occurs t free =
      λ t. rw (occurs, e) refl in
    let inside : s < arena pool = ground (arith, p.outside s, held s) in
    (
      (s, write_slot (record pool { free = free }) s (init (pool.slot s))),
      rw (pop_slot, e) refl,
      record {
        valid = record {
          free_once = λ t h. ground (arith, p.free_once t h, held t);
          outside = λ t h. ground (arith, p.outside t h, held t);
        };
        unused = ground (arith, p.free_once s inside, held s);
        initial = ground arith;
        others = λ t d. ground arith;
        grows = omega arith;
        inside = inside;
      },
    )

List-cases : (xs : List ℕ) → (xs ≡ []) ⊎ ((x : ℕ) × (ys : List ℕ) × (xs ≡ x ∷ ys))
List-cases [] = inl refl
List-cases (x ∷ ys) = inr (x, ys, refl)

refill-free : (pool : SlotPool) → (s : ℕ) × (free : List ℕ) × ((refill pool).free ≡ s ∷ free)
unfolding refill push_slots
refill-free pool =
    (pool.chunks * chunk_slots + 4095, push_slots (pool.chunks * chunk_slots) 4095 pool.free, refl)

alloc-empty : (pool : SlotPool) → pool.free ≡ [] → alloc pool ≡ pop_slot (refill pool)
unfolding alloc
alloc-empty pool e = ap (λ b. pop_slot (if b then refill pool else pool)) (ap is_empty e)

alloc-free :
    (pool : SlotPool) (s : ℕ) (free : List ℕ) → pool.free ≡ s ∷ free → alloc pool ≡ pop_slot pool
unfolding alloc
alloc-free pool s free e = ap (λ b. pop_slot (if b then refill pool else pool)) (ap is_empty e)

pub alloc-Allocated : (pool : SlotPool) → IsPool pool → Returns (alloc pool) (Allocated pool)
unfolding arena refill
alloc-Allocated pool p = elim (List-cases pool.free) [
  | inl e ↦
      let (s, free, f) = refill-free pool in
      let (r, run, a) = pop_slot-Allocated (refill pool) s free (refill-IsPool pool p) f in
      (
        r,
        alloc-empty pool e ∙ run,
        record {
          valid = a.valid;
          unused = ground (arith, a.unused, p.free_once r.0, p.outside r.0);
          initial = a.initial;
          others = λ t d. ground (arith, a.others t d, p.outside t);
          grows = omega (arith, a.grows);
          inside = a.inside;
        },
      )
  | inr (s, free, e) ↦
      let (r, run, a) = pop_slot-Allocated pool s free p e in (r, alloc-free pool s free e ∙ run, a)
]

-- One slot of the arena has changed.
pub record Wrote (pool : SlotPool) (s : ℕ) (c : CountSlot) (pool' : SlotPool) : Type 0 where
  pub valid : IsPool pool'
  pub here : pool'.slot s ≡ c
  pub others : (t : ℕ) → s ≢ t → pool'.slot t ≡ pool.slot t
  pub same_arena : arena pool' ≡ arena pool

pub write_slot-Wrote :
    (pool : SlotPool) (s : ℕ) (c : CountSlot)
    → IsPool pool
    → s < arena pool
    → 0 < (pool.slot s).weak
    → 0 < c.weak
    → Wrote pool s c (write_slot pool s c)
unfolding write_slot arena
write_slot-Wrote pool s c p i h k = record {
  valid = record {
    free_once = λ t j. ground (arith, p.free_once t j);
    outside = λ t j. ground (arith, p.outside t j);
  };
  here = ground arith;
  others = λ t d. ground arith;
  same_arena = refl;
}

pub weak_release-Wrote :
    (w : ℕ) (pool : SlotPool) (s n : ℕ)
    → IsPool pool
    → s < arena pool
    → (pool.slot s).weak ≡ n + 1
    → n + 1 < 2 ^ w
    → Wrote pool s (record { strong = (pool.slot s).strong; weak = n }) (weak_release w s pool)
unfolding weak_release weak_dec write_slot free_slot arena occurs
weak_release-Wrote w pool s n p i h b =
    let e : fetch_sub_one w (pool.slot s).weak ≡ n = rw h (fetch_sub_one-suc w n b) in
    let c : (weak_release w s pool).chunks ≡ pool.chunks = ground arith in
    record {
      valid = record {
        free_once = λ t j. ground (arith, p.free_once t (omega (arith, c)), p.free_once s i);
        outside = λ t j. ground (arith, p.outside t (omega (arith, c)));
      };
      here = ground arith;
      others = λ t d. ground arith;
      same_arena = omega (arith, c);
    }
