-- ===== src/Table/SharedSharded/Interns.antt =====
-- The operations of `TableSharedSharded`, and the shared table that they make.
use hirpdag.Base.{
  ℕ, sym, ◌∙◌, refl, arith, set, Returns, get_elem?-map, get_elem?-replicate, length-map,
}
use mathlib.Core.Path.{subst}
use hirpdag.Key.{Key, Hasher}
use hirpdag.Ref.{Heap, new}
use hirpdag.Ref.Laws.{retain}
use hirpdag.Table.Interface.{
  IsBounded, Finds, CreationMeta, Interns, old, fresh, hit, miss, ThreadUnsafeTable,
}
use hirpdag.Table.Shared.{Table}
use hirpdag.Table.SharedSharded.{
  n_shards, TableSharedSharded, shard_index, make_hash, build_tableshared, get_shard, get,
  get_or_insert, reset,
}
use hirpdag.Table.SharedSharded.Laws.{
  Entry, IsValid, get_shard-some, valid_shard, routed_shard, same_shard, set_same, set-IsValid,
  set-Grows,
}

module _ {D G : Type 0} ⦃key : Key D⦄ (hasher : Hasher D key) {T : Type 0}
    (below : ThreadUnsafeTable D G key T) where
  pub shared_sharded-Finds :
      (t : TableSharedSharded T) (d : D) (h : Heap D)
      → IsValid below t
      → Returns (get hasher below t d h) (Finds (Entry below t) h (hasher.hash_one d) d)
  unfolding get make_hash
  shared_sharded-Finds t d h v =
      let hash = hasher.hash_one d in
      let (s, at) = get_shard-some below t hash v in
      let here : Finds (Entry below t) h hash d (below.get s hash d h) =
        elim (below.get_finds s hash d h (valid_shard below t v hash s at)) [
          | hit p e same eq ↦ hit p (s, at, e) same eq
          | miss absent eq ↦
              miss
                (λ p x.
                  absent p
                    (subst (λ z. below.Entry z hash p) (same_shard below t hash _ s x.1 at) x.2))
                eq
        ] in
      (below.get s hash d h, ground (arith, at), here)

  -- Over eight valid shards and a heap that has their entries, `get_or_insert` does not panic, and
  -- its shard index is in bounds. It returns a handle to an entry of this hash with equal data, in
  -- whatever shard, with nothing else changed; or, where no shard has one, a new object made by one
  -- call of `creation_meta`, which is then an entry. All shards stay valid, and every entry stays in
  -- the shard of its hash.
  pub shared_sharded-Interns :
      (t : TableSharedSharded T) (d : D) (m : CreationMeta D G) (h : Heap D) (g : G)
      → IsValid below t
      → IsBounded (Entry below t) h
      → Returns
          (get_or_insert hasher below t d m h g)
          (Interns (Entry below) (IsValid below) t h g (hasher.hash_one d) d m)
  unfolding get_or_insert make_hash
  shared_sharded-Interns t d m h g v b =
      let hash = hasher.hash_one d in
      let (s, at) = get_shard-some below t hash v in
      let bound : IsBounded (below.Entry s) h =
        λ k p e. b k p (s, routed_shard below t v hash s at k p e, e) in
      let (r, run, post) =
        below.get_or_insert_interns s hash d m h g (valid_shard below t v hash s at) bound in
      elim post [
        | old p e q eq ↦ (
          (p, t, retain p h, g),
          ground (arith, at, run, eq, set_same below t hash s at),
          old p (s, at, e) q refl,
        )
        | fresh s' n sv grows eq ↦ (
          (
            h.next,
            record { inner = set t.inner (shard_index hash) s' },
            (new (m d g).0 h).1,
            (m d g).1,
          ),
          ground (arith, at, run, eq),
          fresh (record { inner = set t.inner (shard_index hash) s' })
              (λ p x.
                n p (subst (λ z. below.Entry z hash p) (same_shard below t hash _ s x.1 at) x.2))
              (set-IsValid below t v hash s s' at h grows sv)
              (set-Grows below t v hash s s' at h grows) refl,
        )
      ]

  pub build_tableshared-IsValid : IsValid below (build_tableshared hasher below)
  unfolding build_tableshared
  build_tableshared-IsValid = record {
    eight = refl;
    shards = λ i s e. rw (get_elem?-replicate n_shards i below.default s e) below.default-IsValid;
    routed = λ i s k p e en. absurd (
        below.default_empty k p
          (subst (λ z. below.Entry z k p) (get_elem?-replicate n_shards i below.default s e) en));
  }

  pub not-Entry-build : (k p : ℕ) → ¬ Entry below (build_tableshared hasher below) k p
  unfolding build_tableshared get_shard
  not-Entry-build k p x = below.default_empty k p (
      subst (λ z. below.Entry z k p)
        (get_elem?-replicate n_shards (shard_index k) below.default x.0 x.1) x.2)

  reset-IsValid :
      (t : TableSharedSharded T) → IsValid below t → IsValid below (reset hasher below t)
  unfolding reset
  reset-IsValid t v = record {
    eight = length-map below.reset t.inner ∙ v.eight;
    shards = λ i s e.
        let (r, at, eq) = get_elem?-map below.reset t.inner i s e in
        subst (λ z. below.IsValid z) eq (below.reset-IsValid r);
    routed = λ i s k p e en.
        let (r, at, eq) = get_elem?-map below.reset t.inner i s e in
        absurd (below.reset_empty r k p (subst (λ z. below.Entry z k p) (sym eq) en));
  }

  not-Entry-reset : (t : TableSharedSharded T) (k p : ℕ) → ¬ Entry below (reset hasher below t) k p
  unfolding reset get_shard
  not-Entry-reset t k p x =
      let (r, at, eq) = get_elem?-map below.reset t.inner (shard_index k) x.0 x.1 in
      below.reset_empty r k p (subst (λ z. below.Entry z k p) (sym eq) x.2)

  -- Eight inner tables behind their mutexes are a shared table.
  unfoldable pub table : Table D G key hasher (TableSharedSharded T)
  unfolding reset-IsValid not-Entry-reset
  table = record {
    build_tableshared = build_tableshared hasher below;
    get = get hasher below;
    get_or_insert = get_or_insert hasher below;
    reset = reset hasher below;
    Entry = Entry below;
    IsValid = IsValid below;
    build_tableshared-IsValid = build_tableshared-IsValid;
    build_tableshared_empty = not-Entry-build;
    reset-IsValid = reset-IsValid;
    reset_empty = not-Entry-reset;
    get_finds = shared_sharded-Finds;
    get_or_insert_interns = shared_sharded-Interns;
  }
