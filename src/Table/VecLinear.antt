-- ===== src/Table/VecLinear.antt =====
-- table/vec_linear_threadunsafe.rs: a vector of weak entries, searched from the front.
use hirpdag.Base.{
  ℕ, ◌≡◌, refl, sym, Bool-cases, ◌&&◌, ◌⊎◌, inl, inr, Option, none, some, List, [], ◌∷◌, ◌++◌,
  arith, ◌==◌,
}
use hirpdag.Key.{Key}
use hirpdag.Ref.{Heap, new, weak_downgrade}
use hirpdag.Table.Interface.{
  Entries, Finds, hit, miss, Grows, Interns, old, fresh, CreationMeta, ThreadUnsafeTable,
}
use hirpdag.Table.WeakEntry
use hirpdag.Table.WeakEntry.{WeakEntry, deref_equal, get_lem, alive}

pub record TableVecLinearWeak : Type 0 where
  pub v : List WeakEntry

abbrev pub Has : List WeakEntry → Entries
Has [] k p = ⊥
Has (e ∷ es) k p = ((e.hash ≡ k) × (e.weak ≡ p)) ⊎ Has es k p

unfoldable pub default : TableVecLinearWeak
default = record { v = [] }

unfoldable pub reset : TableVecLinearWeak → TableVecLinearWeak
reset t = record { v = [] }

Has-last :
    (es : List WeakEntry) (hash w : ℕ) → Has (es ++ record { hash = hash; weak = w } ∷ []) hash w
Has-last [] hash w = inl (refl, refl)
Has-last (e ∷ es) hash w = inr (Has-last es hash w)

Has-append_only :
    (es : List WeakEntry) (hash w k p : ℕ)
    → Has (es ++ record { hash = hash; weak = w } ∷ []) k p
    → Has es k p ⊎ ((k ≡ hash) × (p ≡ w))
Has-append_only [] hash w k p (inl m) = inr (sym m.0, sym m.1)
Has-append_only [] hash w k p (inr m) = elim m [ ]
Has-append_only (e ∷ es) hash w k p (inl m) = inl (inl m)
Has-append_only (e ∷ es) hash w k p (inr m) = elim (Has-append_only es hash w k p m) [
  | inl there ↦ inl (inr there)
  | inr last ↦ inr last
]

Has-append_kept :
    (es : List WeakEntry) (hash w k p : ℕ)
    → Has es k p
    → Has (es ++ record { hash = hash; weak = w } ∷ []) k p
Has-append_kept [] hash w k p m = elim m [ ]
Has-append_kept (e ∷ es) hash w k p (inl m) = inl m
Has-append_kept (e ∷ es) hash w k p (inr m) = inr (Has-append_kept es hash w k p m)

pub not-Has-default : (k p : ℕ) → ¬ Has default.v k p
unfolding default
not-Has-default k p m = m

pub not-Has-reset : (t : TableVecLinearWeak) (k p : ℕ) → ¬ Has (reset t).v k p
unfolding reset
not-Has-reset t k p m = m

module _ {D : Type 0} ⦃key : Key D⦄ where
  -- `self.v.iter().filter_map(|x| x.get(hash, data)).next()`
  unfoldable pub linear_search : List WeakEntry → ℕ → D → Heap D → Option ℕ × Heap D
  linear_search [] hash d h = (none, h)
  linear_search (e ∷ es) hash d h =
      let (r, h') = WeakEntry.get e hash d h in
      elim r [ some p ↦ (some p, h') | none ↦ linear_search es hash d h' ]

  unfoldable pub get : TableVecLinearWeak → ℕ → D → Heap D → Option ℕ × Heap D
  unfolding linear_search
  get t hash d h = linear_search t.v hash d h

  module _ {G : Type 0} where
    unfoldable pub get_or_insert :
        TableVecLinearWeak
        → ℕ
        → D
        → CreationMeta D G
        → Heap D
        → G
        → ℕ × TableVecLinearWeak × Heap D × G
    get_or_insert t hash d creation_meta h g =
        let (found, h') = get t hash d h in
        elim found [
          | some existing_obj ↦ (existing_obj, t, h', g)
          | none ↦
              let (d', g') = creation_meta d g in
              let (obj, h'') = new d' h' in
              let weak = weak_downgrade obj in
              (obj, record { v = t.v ++ record { hash = hash; weak = weak } ∷ [] }, h'', g')
        ]

  Has-snoc :
      (es : List WeakEntry) (h : Heap D) (hash w : ℕ)
      → Grows (Has es) h hash w (Has (es ++ record { hash = hash; weak = w } ∷ []))
  Has-snoc es h hash w = record {
    added = Has-last es hash w;
    only = Has-append_only es hash w;
    kept = λ k p m _. Has-append_kept es hash w k p m;
  }

  linear_search_finds :
      (es : List WeakEntry) (hash : ℕ) (d : D) (h : Heap D)
      → Finds (Has es) h hash d (linear_search es hash d h)
  unfolding linear_search
  linear_search_finds [] hash d h = miss (λ p x. absurd x) refl
  linear_search_finds (e ∷ es) hash d h =
      let step = get_lem e hash d h in
      elim (Bool-cases ((e.hash == hash) && deref_equal h e.weak d)) [
        | inl here ↦ hit e.weak (inl (ground arith, refl)) (ground arith) (ground (arith, step))
        | inr away ↦ elim (linear_search_finds es hash d h) [
          | hit p m q r ↦ hit p (inr m) q (ground (arith, step))
          | miss n r ↦
              miss (λ p x. elim x [ inl same ↦ ground arith | inr rest ↦ n p rest ])
                (ground (arith, step))
        ]
      ]

  pub vec_linear-Finds :
      (t : TableVecLinearWeak) (hash : ℕ) (d : D) (h : Heap D)
      → Finds (Has t.v) h hash d (get t hash d h)
  unfolding get
  vec_linear-Finds t hash d h = linear_search_finds t.v hash d h

  module _ {G : Type 0} where
    -- `get_or_insert` returns a handle to an entry of this hash with equal data, with nothing else
    -- changed and `creation_meta` not called; or, where there is none, a new object made by one call of
    -- `creation_meta`, which is then an entry; every older entry whose object is there stays.
    pub vec_linear-Interns :
        (t : TableVecLinearWeak) (hash : ℕ) (d : D) (m : CreationMeta D G) (h : Heap D) (g : G)
        → Interns (λ s. Has s.v) (λ _. Unit) t h g hash d m (get_or_insert t hash d m h g)
    unfolding get_or_insert new weak_downgrade
    vec_linear-Interns t hash d m h g = elim (vec_linear-Finds t hash d h) [
      | hit p e q r ↦ old p e q (ground arith)
      | miss n r ↦ fresh _ n tt (Has-snoc t.v h hash h.next) (ground arith)
    ]

    -- A vector of weak entries is an inner table.
    unfoldable pub table : ThreadUnsafeTable D G key TableVecLinearWeak
    table = record {
      default = default;
      get = get;
      get_or_insert = λ t hash d m h g. some (get_or_insert t hash d m h g);
      reset = reset;
      Entry = λ t. Has t.v;
      IsValid = λ _. Unit;
      default-IsValid = tt;
      default_empty = not-Has-default;
      reset-IsValid = λ _. tt;
      reset_empty = not-Has-reset;
      get_finds = λ t hash d h _. vec_linear-Finds t hash d h;
      get_or_insert_interns = λ t hash d m h g _ _.
          (get_or_insert t hash d m h g, refl, vec_linear-Interns t hash d m h g);
    }
