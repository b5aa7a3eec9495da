-- ===== src/Table/VecSorted/Search.antt =====
-- The linear scans of the sorted vector, in both directions.
use hirpdag.Base.{
  ℕ, zero, suc, ◌+◌, ◌-◌, ◌≤◌, ◌<◌, ◌≡◌, refl, ◌⊎◌, inl, inr, true, false, Option, none, some, List,
  ◌∷◌, length, get_elem?, get_elem?-some, get_elem?-lt, arith, ◌==◌, if◌then◌else◌, Bool-cases,
  Returns,
}
use hirpdag.Key.{Key}
use hirpdag.Ref.{Heap}
use hirpdag.Ref.Laws.{retain}
use hirpdag.Table.Interface.{Finds, hit, miss}
use hirpdag.Table.VecSorted.{
  IsSorted, range_up, range_down, linear_search, linear_search_up, linear_search_down,
  linear_search_around,
}
use hirpdag.Table.WeakEntry.{WeakEntry, deref_equal, get_existing_near_lem}

-- `p` is kept under the hash `k`.
pub record Kept (v : List WeakEntry) (k p : ℕ) : Type 0 where
  pub index : ℕ
  pub entry : WeakEntry
  pub there : get_elem? v index ≡ some entry
  pub same_hash : entry.hash ≡ k
  pub same_weak : entry.weak ≡ p

pub before_or_after : (i j : ℕ) → (i < j) ⊎ (j ≤ i)
before_or_after i j = omega arith

i_or_later : (i j : ℕ) → i ≤ j → (i ≡ j) ⊎ (i + 1 ≤ j)
i_or_later i j le = omega arith

module _ {D : Type 0} ⦃key : Key D⦄ (v : List WeakEntry) (hash : ℕ) (d : D) (h : Heap D) where
  -- what a scan finds: an entry with equal data, or none among those of this hash that `Seen` holds
  data Scans (Seen : ℕ → Type 0) (r : Option ℕ × Heap D) : Type 0 where
    scan_hit :
        (p : ℕ) → Kept v hash p → deref_equal h p d ≡ true → r ≡ (some p, retain p h) → Scans Seen r
    scan_miss :
        ((j : ℕ) (e : WeakEntry)
          → Seen j
          → get_elem? v j ≡ some e
          → e.hash ≡ hash
          → deref_equal h e.weak d ≡ false)
        → r ≡ (none, h)
        → Scans Seen r

  linear_search_step :
      (x : ℕ) (range : List ℕ) (e : WeakEntry)
      → get_elem? v x ≡ some e
      → linear_search v (x ∷ range) hash d h ≡ (
          if e.hash == hash
          then (if deref_equal h e.weak d
              then some (some e.weak, retain e.weak h)
              else linear_search v range hash d h)
          else some (none, h))
  unfolding linear_search
  linear_search_step x range e at = ground (arith, at, get_existing_near_lem e hash d h)

  Differs : (ℕ → Type 0) → Type 0
  Differs Seen =
      (j : ℕ) (e : WeakEntry)
      → Seen j
      → get_elem? v j ≡ some e
      → e.hash ≡ hash
      → deref_equal h e.weak d ≡ false

  differs_everywhere :
      (idx : ℕ)
      → Differs (λ j. idx ≤ j)
      → Differs (λ j. j < idx)
      → (p : ℕ) → Kept v hash p
      → deref_equal h p d ≡ false
  unfolding Differs
  differs_everywhere idx above below p k =
      let off : deref_equal h k.entry.weak d ≡ false = elim (before_or_after k.index idx) [
        | inl b ↦ below k.index k.entry b k.there k.same_hash
        | inr a ↦ above k.index k.entry a k.there k.same_hash
      ] in
      rw (← k.same_weak) off

  module _ (sorted : IsSorted v) (idx : ℕ) (here : WeakEntry) (at : get_elem? v idx ≡ some here)
      (same : here.hash ≡ hash) where
    scan_up :
        (n i : ℕ)
        → idx ≤ i
        → i + n ≡ length v
        → Returns (linear_search v (range_up i n) hash d h) (Scans (λ j. i ≤ j))
    unfolding linear_search range_up
    scan_up zero i le end = (
      _,
      refl,
      scan_miss (λ j e le' at_j _. absurd (omega (arith, get_elem?-lt v j e at_j))) refl,
    )
    scan_up (suc n) i le end =
        let (e, at_i) = get_elem?-some v i (omega arith) in
        let step = linear_search_step i (range_up (i + 1) n) e at_i in
        elim (Bool-cases (e.hash == hash)) [
          | inr away ↦ (
            _,
            rw (step, away) refl,
            scan_miss
                (λ j x le' at_j same_j.
                  absurd
                    (ground (arith, sorted i j e x le' at_i at_j, sorted idx i here e le at at_i)))
                refl,
          )
          | inl match ↦ elim (Bool-cases (deref_equal h e.weak d)) [
            | inl equal ↦ (
              _,
              rw (step, match, equal) refl,
              scan_hit e.weak
                  (record {
                    index = i;
                    entry = e;
                    there = at_i;
                    same_hash = ground arith;
                    same_weak = refl;
                  })
                  equal refl,
            )
            | inr other ↦
                let (r, run, post) = scan_up n (i + 1) (omega arith) (omega arith) in
                (
                  r,
                  rw (step, match, other) run,
                  elim post [
                    | scan_hit p k q eq ↦ scan_hit p k q eq
                    | scan_miss absent eq ↦
                        scan_miss
                          (λ j x le' at_j same_j. elim (i_or_later i j le') [
                            | inl first ↦ ground arith
                            | inr later ↦ absent j x later at_j same_j
                          ])
                          eq
                  ],
                )
          ]
        ]

    scan_down :
        (i : ℕ) → i ≤ idx → Returns (linear_search v (range_down i) hash d h) (Scans (λ j. j < i))
    unfolding linear_search range_down
    scan_down zero le = (_, refl, scan_miss (λ j e lt _ _. absurd (omega arith)) refl)
    scan_down (suc i) le =
        let (e, at_i) = get_elem?-some v i (omega (arith, get_elem?-lt v idx here at)) in
        let step = linear_search_step i (range_down i) e at_i in
        elim (Bool-cases (e.hash == hash)) [
          | inr away ↦ (
            _,
            rw (step, away) refl,
            scan_miss
                (λ j x lt at_j same_j. absurd (
                  ground (
                    arith,
                    sorted j i x e (omega arith) at_j at_i,
                    sorted i idx e here (omega arith) at_i at,
                  )))
                refl,
          )
          | inl match ↦ elim (Bool-cases (deref_equal h e.weak d)) [
            | inl equal ↦ (
              _,
              rw (step, match, equal) refl,
              scan_hit e.weak
                  (record {
                    index = i;
                    entry = e;
                    there = at_i;
                    same_hash = ground arith;
                    same_weak = refl;
                  })
                  equal refl,
            )
            | inr other ↦
                let (r, run, post) = scan_down i (omega arith) in
                (
                  r,
                  rw (step, match, other) run,
                  elim post [
                    | scan_hit p k q eq ↦ scan_hit p k q eq
                    | scan_miss absent eq ↦
                        scan_miss
                          (λ j x lt at_j same_j. elim (i_or_later j i (omega arith)) [
                            | inl last ↦ ground arith
                            | inr earlier ↦ absent j x (omega arith) at_j same_j
                          ])
                          eq
                  ],
                )
          ]
        ]

    -- The scan in both directions from an entry of this hash finds equal data if there are any.
    pub around-Finds : Returns (linear_search_around v idx hash d h) (Finds (Kept v) h hash d)
    unfolding linear_search_around linear_search_up linear_search_down Differs
    around-Finds =
        let lt = get_elem?-lt v idx here at in
        let (up, run_up, found_up) = scan_up (length v - idx) idx (omega arith) (omega arith) in
        elim found_up [
          | scan_hit p k q eq ↦ (_, rw (linear_search_around, run_up, eq) refl, hit p k q refl)
          | scan_miss above eq ↦
              let (down, run_down, found_down) = scan_down idx (omega arith) in
              (
                down,
                rw (linear_search_around, run_up, eq) run_down,
                elim found_down [
                  | scan_hit p k q eq' ↦ hit p k q eq'
                  | scan_miss below eq' ↦ miss (differs_everywhere idx above below) eq'
                ],
              )
        ]
