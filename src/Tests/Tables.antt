-- ===== src/Tests/Tables.antt =====
-- The theorems on each table, at tables that hold 5 under the hash 1.
use hirpdag.Base.{ℕ, ◌+◌, refl, inl, inr, [], ◌∷◌, arith, Returns}
use hirpdag.Base.HashMap
use hirpdag.Ref.{Heap, new}
use hirpdag.Table.HashmapFallback
use hirpdag.Table.HashmapFallback.{TableHashmapFallbackWeak, purge_len_min}
use hirpdag.Table.HashmapFallback.Laws.{Entry, IsValid, hashmap_fallback-Finds}
use hirpdag.Table.HashmapFallback.Interns.{hashmap_fallback-Interns}
use hirpdag.Table.Interface.{IsBounded, Finds, Interns, CreationMeta, ThreadUnsafeTable}
use hirpdag.Table.SharedSharded
use hirpdag.Table.SharedSharded.Laws
use hirpdag.Table.SharedSharded.Interns.{
  shared_sharded-Interns, build_tableshared-IsValid, not-Entry-build,
}
use hirpdag.Table.VecLinear
use hirpdag.Table.VecLinear.{TableVecLinearWeak, Has, vec_linear-Interns}
use hirpdag.Tests.Preset.{Inner, inner, small_hasher, no_objects, nat_key}

abbrev pub counted : CreationMeta ℕ ℕ
counted d g = (d, g + 1)

abbrev five : Heap ℕ
five = (new 5 no_objects).1

abbrev linear : TableVecLinearWeak
linear = record { v = record { hash = 1; weak = 0 } ∷ [] }

vec_linear-Interns_example :
    Interns
      (λ s. Has s.v)
      (λ _. Unit)
      linear
      five
      3
      1
      9
      counted
      (VecLinear.get_or_insert linear 1 9 counted five 3)
vec_linear-Interns_example = vec_linear-Interns linear 1 9 counted five 3

abbrev below : ThreadUnsafeTable ℕ ℕ nat_key TableVecLinearWeak
below = VecLinear.table

abbrev fallback : TableHashmapFallbackWeak TableVecLinearWeak
fallback = record { m = (1, 0) ∷ []; fallback = record { v = [] }; purge_at_len = 64 }

fallback-IsValid : IsValid below fallback
unfolding VecLinear.table HashMap.lookup
fallback-IsValid = record { map = (refl, tt); room = omega arith; floor = omega arith; below = tt }

fallback-IsBounded : IsBounded (Entry below fallback) five
unfolding VecLinear.table HashMap.lookup new
fallback-IsBounded k p (inl e) = ground arith
fallback-IsBounded k p (inr e) = absurd e

hashmap_fallback-Interns_example :
    Returns
      (HashmapFallback.get_or_insert below fallback 1 9 counted five 3)
      (Interns (Entry below) (IsValid below) fallback five 3 1 9 counted)
hashmap_fallback-Interns_example =
    hashmap_fallback-Interns below fallback 1 9 counted five 3 fallback-IsValid fallback-IsBounded

hashmap_fallback-Finds_example :
    Finds (Entry below fallback) five 1 5 (HashmapFallback.get below fallback 1 5 five)
hashmap_fallback-Finds_example = hashmap_fallback-Finds below fallback 1 5 five fallback-IsValid

abbrev preset : ThreadUnsafeTable ℕ ℕ nat_key Inner
preset = inner

shared_sharded-Interns_example :
    Returns
      (SharedSharded.get_or_insert small_hasher preset
        (SharedSharded.build_tableshared small_hasher preset)
        5
        counted
        no_objects
        3)
      (Interns
        (Laws.Entry preset)
        (Laws.IsValid preset)
        (SharedSharded.build_tableshared small_hasher preset)
        no_objects
        3
        1
        5
        counted)
shared_sharded-Interns_example =
    shared_sharded-Interns small_hasher preset (SharedSharded.build_tableshared small_hasher preset)
      5 counted no_objects 3 (build_tableshared-IsValid small_hasher preset)
      (λ k p e. absurd (not-Entry-build small_hasher preset k p e))
