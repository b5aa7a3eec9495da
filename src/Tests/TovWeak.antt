-- ===== src/Tests/TovWeak.antt =====
-- The theorem on the table of weak handles, over a set that is a list: a table that has 5 interns 6.
use hirpdag.Base.{
  ℕ, ◌+◌, ◌≡◌, ◌⊎◌, refl, inl, inr, Option, none, some, List, [], ◌∷◌, Bool-cases, if◌then◌else◌,
}
use hirpdag.Ref
use hirpdag.Table.TovWeak
use hirpdag.Ref.{Heap, strong_drop}
use hirpdag.Ref.Laws.{retain}
use hirpdag.Table.Interface.{CreationMeta, Finds, hit, miss}
use hirpdag.Table.TovWeak.{WeakHashSet, TableTovWeakTable, default, get_or_insert}
use hirpdag.Table.TovWeak.Unique.{IsUnique, Shares, default-IsUnique, get_or_insert-Shares}
use hirpdag.Table.WeakEntry.{deref_equal}
use hirpdag.Tests.Preset.{nat_key, no_objects}

abbrev HasElement : List ℕ → ℕ → Type 0
HasElement [] p = ⊥
HasElement (q ∷ s) p = (p ≡ q) ⊎ HasElement s p

abbrev first_equal : List ℕ → ℕ → Heap ℕ → Option ℕ × Heap ℕ
first_equal [] d h = (none, h)
first_equal (p ∷ s) d h = if deref_equal h p d then (some p, retain p h) else first_equal s d h

first_equal-Finds :
    (s : List ℕ) (d : ℕ) (h : Heap ℕ) → Finds (λ k. HasElement s) h 0 d (first_equal s d h)
first_equal-Finds [] d h = miss (λ p k. absurd k) refl
first_equal-Finds (p ∷ s) d h = elim (Bool-cases (deref_equal h p d)) [
  | inl e ↦ hit p (inl refl) e (rw e refl)
  | inr e ↦ elim (first_equal-Finds s d h) [
    | hit q k f r ↦ hit q (inr k) f (rw e r)
    | miss differ r ↦
        miss (λ q k. elim k [ inl same ↦ rw same e | inr old ↦ differ q old ]) (rw e r)
  ]
]

weak_hash_set : WeakHashSet ℕ (List ℕ) nat_key
weak_hash_set = record {
  Holds = HasElement;
  new = [];
  get = first_equal;
  insert = λ s p h. (p ∷ s, strong_drop p h);
  new_empty = λ p k. k;
  get_finds = first_equal-Finds;
  insert_drops = λ s p h. refl;
  insert_only = λ s p q h k. elim k [ inl e ↦ inr e | inr old ↦ inl old ];
  insert_kept = λ s p q h k there. inr k;
  insert_added = λ s p d h l differ. inl refl;
}

abbrev counted : CreationMeta ℕ ℕ
counted d g = (d, g + 1)

abbrev empty : TableTovWeakTable (List ℕ)
empty = default weak_hash_set

-- the table after 5 is interned, with the object at address 0
abbrev with_five : ℕ × TableTovWeakTable (List ℕ) × Heap ℕ × ℕ
with_five = get_or_insert weak_hash_set empty 3 5 counted no_objects 0

with_five-IsUnique : IsUnique weak_hash_set with_five.1 with_five.2
with_five-IsUnique =
    (get_or_insert-Shares weak_hash_set empty 3 5 counted no_objects 0
      ((default-IsUnique weak_hash_set empty no_objects).0) refl).unique'

get_or_insert-Shares_example :
    Shares weak_hash_set with_five.1 6
      (6, 2)
      with_five.2
      1
      (get_or_insert weak_hash_set with_five.1 4 6 counted with_five.2 1)
get_or_insert-Shares_example =
    get_or_insert-Shares weak_hash_set with_five.1 4 6 counted with_five.2 1 with_five-IsUnique refl

-- 5 again, under another hash
again_run :
    ((get_or_insert weak_hash_set with_five.1 9 5 counted with_five.2 1).0 ≡ 0)
    × ((get_or_insert weak_hash_set with_five.1 9 5 counted with_five.2 1).3 ≡ 1)
unfolding default get_or_insert TovWeak.insert_new deref_equal Ref.new Ref.strong_clone
    Ref.strong_drop Ref.strong_deref Ref.write weak_hash_set
again_run = (refl, refl)
