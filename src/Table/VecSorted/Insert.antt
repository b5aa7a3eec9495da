-- ===== src/Table/VecSorted/Insert.antt =====
-- Insertion into the sorted vector, at the index that the binary search gives.
use hirpdag.Base.{
  ℕ, zero, suc, ◌+◌, ◌-◌, ◌≤◌, ◌<◌, ◌≡◌, refl, ◌⊎◌, inl, inr, some, List, [], ◌∷◌, length,
  get_elem?, arith, ltb, ◌==◌, if◌then◌else◌, Returns,
}
use hirpdag.Ref.{Heap}
use hirpdag.Table.Interface.{Grows}
use hirpdag.Table.VecSorted.{IsSorted, at, gap, BinarySearch, insert_at}
use hirpdag.Table.VecSorted.Search.{Kept, before_or_after}
use hirpdag.Table.WeakEntry.{WeakEntry}

-- `v'` is `v` with `e` inserted at `i`.
abbrev pub IsInserted : List WeakEntry → ℕ → WeakEntry → List WeakEntry → Type 0
IsInserted v i e v' =
    (j : ℕ)
    → get_elem? v' j
      ≡ (if ltb j i then get_elem? v j else if j == i then some e else get_elem? v (j - 1))

cons-IsInserted : (e : WeakEntry) (v : List WeakEntry) → IsInserted v 0 e (e ∷ v)
cons-IsInserted e v zero = refl
cons-IsInserted e v (suc j) = ground arith

later-IsInserted :
    (a e : WeakEntry) (v v' : List WeakEntry) (i : ℕ)
    → IsInserted v i e v'
    → IsInserted (a ∷ v) (suc i) e (a ∷ v')
later-IsInserted a e v v' i law zero = ground arith
later-IsInserted a e v v' i law (suc zero) = ground (arith, law 0)
later-IsInserted a e v v' i law (suc (suc j)) = ground (arith, law (suc j))

pub insert_at-IsInserted :
    (i : ℕ) (e : WeakEntry) (v : List WeakEntry)
    → i ≤ length v
    → Returns (insert_at i e v) (IsInserted v i e)
unfolding insert_at
insert_at-IsInserted zero e v le = (e ∷ v, refl, cons-IsInserted e v)
insert_at-IsInserted (suc i) e [] le = absurd (omega arith)
insert_at-IsInserted (suc i) e (a ∷ v) le =
    let (v', run, law) = insert_at-IsInserted i e v (omega arith) in
    (a ∷ v', rw (insert_at, run) refl, later-IsInserted a e v v' i law)

three_ways : (i j : ℕ) → (j < i) ⊎ (j ≡ i) ⊎ (i < j)
three_ways i j = omega arith

-- An entry may stand at `i`: those before have no greater hash, those after no smaller one.
pub record Fits (v : List WeakEntry) (hash i : ℕ) : Type 0 where
  pub inside : i ≤ length v
  before : (j : ℕ) (e : WeakEntry) → j < i → get_elem? v j ≡ some e → e.hash ≤ hash
  after : (j : ℕ) (e : WeakEntry) → i ≤ j → get_elem? v j ≡ some e → hash ≤ e.hash

module _ (v : List WeakEntry) (hash i weak : ℕ) (fits : Fits v hash i) (v' : List WeakEntry)
    (law : IsInserted v i (record { hash = hash; weak = weak }) v') where
  pub inserted-IsSorted : IsSorted v → IsSorted v'
  inserted-IsSorted sorted j k a b le at_j at_k = ground (
    arith,
    law j,
    law k,
    sorted j k a b,
    sorted j (k - 1) a b,
    sorted (j - 1) (k - 1) a b,
    fits.before j a,
    fits.after (k - 1) b,
  )

  old_or_new : (k p : ℕ) → Kept v' k p → Kept v k p ⊎ ((k ≡ hash) × (p ≡ weak))
  old_or_new k p x = elim (three_ways i x.index) [
    | inl b ↦ inl (record {
      index = x.index;
      entry = x.entry;
      there = ground (arith, law x.index);
      same_hash = x.same_hash;
      same_weak = x.same_weak;
    })
    | inr (inl here) ↦ inr (ground (arith, law x.index))
    | inr (inr a) ↦ inl (record {
      index = x.index - 1;
      entry = x.entry;
      there = ground (arith, law x.index);
      same_hash = x.same_hash;
      same_weak = x.same_weak;
    })
  ]

  stays : (k p : ℕ) → Kept v k p → Kept v' k p
  stays k p x = elim (before_or_after x.index i) [
    | inl b ↦ record {
      index = x.index;
      entry = x.entry;
      there = ground (arith, law x.index);
      same_hash = x.same_hash;
      same_weak = x.same_weak;
    }
    | inr a ↦ record {
      index = x.index + 1;
      entry = x.entry;
      there = ground (arith, law (x.index + 1));
      same_hash = x.same_hash;
      same_weak = x.same_weak;
    }
  ]

  pub inserted-Grows : {D : Type 0} (h : Heap D) → Grows (Kept v) h hash weak (Kept v')
  inserted-Grows h = record {
    added = record {
      index = i;
      entry = record { hash = hash; weak = weak };
      there = ground (arith, law i);
      same_hash = refl;
      same_weak = refl;
    };
    only = old_or_new;
    kept = λ k p x _. stays k p x;
  }

module _ (std : BinarySearch) where
  pub gap_absent :
      (v : List WeakEntry) (hash i : ℕ)
      → IsSorted v
      → std.search v hash ≡ gap i
      → (p : ℕ) → ¬ Kept v hash p
  gap_absent v hash i sorted e p x =
      let (le, before, after) = std.search_gap v hash i sorted e in
      elim (before_or_after x.index i) [
        | inl b ↦ omega (arith, before x.index x.entry b x.there, x.same_hash)
        | inr a ↦ omega (arith, after x.index x.entry a x.there, x.same_hash)
      ]

  pub at-Fits :
      (v : List WeakEntry) (hash i : ℕ) → IsSorted v → std.search v hash ≡ at i → Fits v hash i
  at-Fits v hash i sorted e =
      let (here, there, same, lt) = std.search_at v hash i sorted e in
      record {
        inside = omega arith;
        before = λ j x lt' at_j. omega (arith, sorted j i x here (omega arith) at_j there);
        after = λ j x le at_j. omega (arith, sorted i j here x le there at_j);
      }

  pub gap-Fits :
      (v : List WeakEntry) (hash i : ℕ) → IsSorted v → std.search v hash ≡ gap i → Fits v hash i
  gap-Fits v hash i sorted e =
      let (le, before, after) = std.search_gap v hash i sorted e in
      record {
        inside = le;
        before = λ j x lt at_j. omega (arith, before j x lt at_j);
        after = λ j x le' at_j. omega (arith, after j x le' at_j);
      }
