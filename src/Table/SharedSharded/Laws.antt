-- ===== src/Table/SharedSharded/Laws.antt =====
-- Eight inner tables are one shared table.
use hirpdag.Base.{
  ==_iff, ◌∙◌, ℕ, ◌<◌, ◌≡◌, ap, inl, inr, true, some, arith, ◌==◌, if◌then◌else◌, Bool-cases,
  length, get_elem?, set, length-set, set_self, get_elem?-some, get_elem?-set,
}
use mathlib.Core.Path.{subst}
use hirpdag.Base.Bits.{bit_and-le}
use hirpdag.Key.{Key}
use hirpdag.Ref.{Heap}
use hirpdag.Table.Interface.{Entries, Grows, ThreadUnsafeTable}
use hirpdag.Table.SharedSharded.{n_shards, TableSharedSharded, shard_index, get_shard}

-- The mask keeps the index in the array.
pub shard_index-lt : (hash : ℕ) → shard_index hash < n_shards
unfolding shard_index
shard_index-lt hash = omega (arith, bit_and-le hash 7)

module _ {D G : Type 0} ⦃key : Key D⦄ {T : Type 0} (below : ThreadUnsafeTable D G key T) where
  -- an entry of the shard that its hash chooses
  abbrev pub Entry : TableSharedSharded T → Entries
  Entry t k p = (s : T) × (get_shard t k ≡ some s) × below.Entry s k p

  pub record IsValid (t : TableSharedSharded T) : Type 0 where
    pub eight : length t.inner ≡ n_shards
    pub shards : (i : ℕ) (s : T) → get_elem? t.inner i ≡ some s → below.IsValid s
    pub routed :
        (i : ℕ) (s : T) (k p : ℕ)
        → get_elem? t.inner i ≡ some s
        → below.Entry s k p
        → i ≡ shard_index k

  pub get_shard-some :
      (t : TableSharedSharded T) (hash : ℕ) → IsValid t → (s : T) × (get_shard t hash ≡ some s)
  unfolding get_shard
  get_shard-some t hash v =
      get_elem?-some t.inner (shard_index hash) (omega (arith, shard_index-lt hash, v.eight))

  pub same_shard :
      (t : TableSharedSharded T) (hash : ℕ) (r s : T)
      → get_shard t hash ≡ some r
      → get_shard t hash ≡ some s
      → r ≡ s
  same_shard t hash r s a b = cc

  module _ (t : TableSharedSharded T) (v : IsValid t) (hash : ℕ) (s : T)
      (at : get_shard t hash ≡ some s) where
    pub valid_shard : below.IsValid s
    unfolding get_shard
    valid_shard = v.shards (shard_index hash) s at

    pub routed_shard : (k p : ℕ) → below.Entry s k p → get_shard t k ≡ some s
    unfolding get_shard
    routed_shard k p e =
        subst (λ i. get_elem? t.inner i ≡ some s) (v.routed (shard_index hash) s k p at e) at

  pub set_same :
      (t : TableSharedSharded T) (hash : ℕ) (s : T)
      → get_shard t hash ≡ some s
      → record { inner = set t.inner (shard_index hash) s } ≡ t
  unfolding get_shard
  set_same t hash s at = ap (λ l. record { inner = l }) (set_self t.inner (shard_index hash) s at)

  module _ (t : TableSharedSharded T) (v : IsValid t) (hash : ℕ) (s s' : T)
      (at : get_shard t hash ≡ some s) (h : Heap D)
      (grows : Grows (below.Entry s) h hash h.next (below.Entry s')) where
    abbrev t' : TableSharedSharded T
    t' = record { inner = set t.inner (shard_index hash) s' }

    get_shard-set :
        (k : ℕ)
        → get_shard t' k ≡ (if shard_index hash == shard_index k then some s' else get_shard t k)
    unfolding get_shard
    get_shard-set k = get_elem?-set t.inner (shard_index hash) (shard_index k) s' s at

    same_index : (k : ℕ) → (shard_index hash == shard_index k) ≡ true → get_shard t k ≡ some s
    unfolding get_shard
    same_index k e = subst (λ i. get_elem? t.inner i ≡ some s) ((==_iff _ _).0 e) at

    one_shard :
        (k : ℕ) (r : T)
        → (shard_index hash == shard_index k) ≡ true
        → get_shard t' k ≡ some r
        → r ≡ s'
    one_shard k r e f = ground (arith, get_shard-set k)

    pub set-Grows : Grows (Entry t) h hash h.next (Entry t')
    set-Grows = record {
      added = (s', ground (arith, get_shard-set hash), grows.added);
      only = λ k p x. elim (Bool-cases (shard_index hash == shard_index k)) [
        | inl here ↦
            let is_new : below.Entry s' k p =
              subst (λ z. below.Entry z k p) (one_shard k x.0 here x.1) x.2 in
            elim (grows.only k p is_new) [
              | inl was ↦ inl (s, same_index k here, was)
              | inr fresh_one ↦ inr fresh_one
            ]
        | inr other ↦ inl (x.0, ground (arith, get_shard-set k, x.1), x.2)
      ];
      kept = λ k p x a. elim (Bool-cases (shard_index hash == shard_index k)) [
        | inl here ↦
            let was : below.Entry s k p =
              subst (λ z. below.Entry z k p) (ground (arith, same_index k here, x.1)) x.2 in
            (s', ground (arith, get_shard-set k), grows.kept k p was a)
        | inr other ↦ (x.0, ground (arith, get_shard-set k, x.1), x.2)
      ];
    }

    pub set-IsValid : below.IsValid s' → IsValid t'
    unfolding get_shard
    set-IsValid sv = record {
      eight = length-set t.inner (shard_index hash) s' ∙ v.eight;
      shards = λ i r e. elim (Bool-cases (shard_index hash == i)) [
        | inl here ↦
            subst (λ z. below.IsValid z)
              (ground (arith, e, get_elem?-set t.inner (shard_index hash) i s' s at)) sv
        | inr other ↦
            v.shards i r (ground (arith, e, get_elem?-set t.inner (shard_index hash) i s' s at))
      ];
      routed = λ i r k p e en. elim (Bool-cases (shard_index hash == i)) [
        | inl here ↦
            let is_new : below.Entry s' k p =
              subst (λ z. below.Entry z k p)
                (ground (arith, e, get_elem?-set t.inner (shard_index hash) i s' s at)) en in
            elim (grows.only k p is_new) [
              | inl was ↦ ground (arith, v.routed (shard_index hash) s k p at was)
              | inr fresh_one ↦ ground arith
            ]
        | inr other ↦
            v.routed i r k p (ground (arith, e, get_elem?-set t.inner (shard_index hash) i s' s at))
              en
      ];
    }
