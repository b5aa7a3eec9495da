-- ===== src/Ref/SepCount/Paired.antt =====
-- The boxes and the handles of reference/sepcount.rs: which handles go with which box.
use hirpdag.Base.{
  ℕ, suc, ◌≤◌, ◌≡◌, ◌≢◌, refl, Option, none, some, List, ◌∷◌, get_elem?, ◌==◌, if◌then◌else◌, arith,
  ◌⊎◌, inl, inr, Bool-cases, sym, ◌∙◌,
}
use mathlib.Core.Path.{subst}
use hirpdag.Ref.SepCount.Client.{
  Mem, holders, remove, holders-remove, holders-Mem, holders-some, Mem-remove, Mem-cons,
}
use hirpdag.Ref.SepCount.Handles.{RefSep}

abbrev pub Held : List RefSep → List RefSep → RefSep → Type 0
Held strongs weaks r = Mem r strongs ⊎ Mem r weaks

module _ {D : Type 0} where
  pub record IsPaired (boxes : ℕ → Option D) (strongs weaks : List RefSep) : Type 0 where
    pub same_box :
        (r q : RefSep)
        → Held strongs weaks r
        → Held strongs weaks q
        → r.slot ≡ q.slot
        → r.data_at ≡ q.data_at
    pub own_slot :
        (r q : RefSep) → Mem r strongs → Mem q strongs → r.data_at ≡ q.data_at → r.slot ≡ q.slot
    pub boxed : (r : RefSep) → Mem r strongs → (d : D) × (boxes r.data_at ≡ some d)
    pub owned : (p : ℕ) (d : D) → boxes p ≡ some d → (r : RefSep) × Mem r strongs × (r.data_at ≡ p)

  module _ (boxes : ℕ → Option D) (strongs weaks : List RefSep)
      (k : IsPaired boxes strongs weaks) where
    -- No handle is new, and every box still has one.
    IsPaired-sub :
        (strongs' weaks' : List RefSep)
        → ((r : RefSep) → Mem r strongs' → Mem r strongs)
        → ((r : RefSep) → Mem r weaks' → Held strongs weaks r)
        → ((r : RefSep) → Mem r strongs → (q : RefSep) × Mem q strongs' × (q.data_at ≡ r.data_at))
        → IsPaired boxes strongs' weaks'
    IsPaired-sub strongs' weaks' f g back =
        let held : (r : RefSep) → Held strongs' weaks' r → Held strongs weaks r =
          λ r h. elim h [ inl m ↦ inl (f r m) | inr m ↦ g r m ] in
        record {
          same_box = λ r q h j. k.same_box r q (held r h) (held q j);
          own_slot = λ r q m n. k.own_slot r q (f r m) (f q n);
          boxed = λ r m. k.boxed r (f r m);
          owned = λ p d e.
              let (r, m, same) = k.owned p d e in let (q, n, s) = back r m in (q, n, s ∙ same);
        }

    pub strong-IsPaired : (r : RefSep) → Mem r strongs → IsPaired boxes (r ∷ strongs) weaks
    strong-IsPaired r h =
        IsPaired-sub (r ∷ strongs) weaks
          (λ q m. elim (Mem-cons strongs q r m) [
            | inl e ↦ subst (λ x. Mem x strongs) (sym e) h
            | inr n ↦ n
          ])
          (λ q m. inr m) (λ q m. (q, (suc m.0, m.1), refl))

    pub weak-IsPaired : (r : RefSep) → Mem r strongs → IsPaired boxes strongs (r ∷ weaks)
    weak-IsPaired r h =
        IsPaired-sub strongs (r ∷ weaks) (λ q m. m)
          (λ q m. elim (Mem-cons weaks q r m) [
            | inl e ↦ inl (subst (λ x. Mem x strongs) (sym e) h)
            | inr n ↦ inr n
          ])
          (λ q m. (q, m, refl))

    pub weak_removed-IsPaired : (i : ℕ) → IsPaired boxes strongs (remove i weaks)
    weak_removed-IsPaired i =
        IsPaired-sub strongs (remove i weaks) (λ q m. m) (λ q m. inr (Mem-remove weaks i q m))
          (λ q m. (q, m, refl))

    -- A weak handle whose slot has a strong handle points to that handle's box.
    pub upgrade-Mem : (r : RefSep) → Mem r weaks → 1 ≤ holders r.slot strongs → Mem r strongs
    upgrade-Mem r m h =
        let (q, n, same) = holders-some strongs r.slot h in
        let d : q.data_at ≡ r.data_at = k.same_box q r (inl n) (inr m) same in
        let e : q ≡ r = cc in subst (λ x. Mem x strongs) e n

    -- A handle that stays with its slot, after one is removed
    stays :
        (i : ℕ) (q : RefSep)
        → Mem q strongs
        → 1 ≤ holders q.slot (remove i strongs)
        → (r : RefSep) × Mem r (remove i strongs) × (r.data_at ≡ q.data_at)
    stays i q m h =
        let (r, n, same) = holders-some (remove i strongs) q.slot h in
        (r, n, k.same_box r q (inl (Mem-remove strongs i r n)) (inl m) same)

    pub removed-IsPaired :
        (i : ℕ) (r : RefSep)
        → get_elem? strongs i ≡ some r
        → 1 ≤ holders r.slot (remove i strongs)
        → IsPaired boxes (remove i strongs) weaks
    removed-IsPaired i r e h =
        IsPaired-sub (remove i strongs) weaks (Mem-remove strongs i) (λ q m. inr m)
          (λ q m.
            stays i q m
              (ground (arith, holders-remove strongs i r q.slot e, holders-Mem strongs q m)))

    -- The last strong handle of a slot goes, and its box with it.
    pub last-IsPaired :
        (i : ℕ) (r : RefSep) (boxes' : ℕ → Option D)
        → get_elem? strongs i ≡ some r
        → holders r.slot (remove i strongs) ≡ 0
        → ((p : ℕ) → boxes' p ≡ (if r.data_at == p then none else boxes p))
        → IsPaired boxes' (remove i strongs) weaks
    last-IsPaired i r boxes' e h b =
        let held : (q : RefSep) → Held (remove i strongs) weaks q → Held strongs weaks q =
          λ q m. elim m [ inl n ↦ inl (Mem-remove strongs i q n) | inr n ↦ inr n ] in
        record {
          same_box = λ q x m n. k.same_box q x (held q m) (held x n);
          own_slot =
              λ q x m n. k.own_slot q x (Mem-remove strongs i q m) (Mem-remove strongs i x n);
          boxed = λ q m.
              let n = Mem-remove strongs i q m in
              let (d, f) = k.boxed q n in
              let apart : r.data_at ≢ q.data_at = λ same.
                let s : r.slot ≡ q.slot = k.own_slot r q (i, e) n same in
                ground (arith, holders-Mem (remove i strongs) q m) in
              (d, ground (arith, b q.data_at));
          owned = λ p d f.
              let g : boxes p ≡ some d = ground (arith, b p) in
              let (q, n, same) = k.owned p d g in
              let apart : r.slot ≢ q.slot = λ s.
                let t : r.data_at ≡ q.data_at = k.same_box r q (inl (i, e)) (inl n) s in
                ground (arith, b p) in
              let (x, m, eq) =
                stays i q n
                  (ground (arith, holders-remove strongs i r q.slot e, holders-Mem strongs q n)) in
              (x, m, eq ∙ same);
        }

    -- A new handle, whose slot no handle has and whose box was not there.
    pub new-IsPaired :
        (r : RefSep) (d : D)
        → boxes r.data_at ≡ none
        → holders r.slot strongs ≡ 0
        → holders r.slot weaks ≡ 0
        → IsPaired (λ p. if r.data_at == p then some d else boxes p) (r ∷ strongs) weaks
    new-IsPaired r d free s0 w0 =
        let split : (q : RefSep) → Held (r ∷ strongs) weaks q → (q ≡ r) ⊎ Held strongs weaks q =
          λ q h. elim h [
            | inl m ↦ elim (Mem-cons strongs q r m) [ inl e ↦ inl e | inr n ↦ inr (inl n) ]
            | inr m ↦ inr (inr m)
          ] in
        let apart : (q : RefSep) → Held strongs weaks q → r.slot ≢ q.slot = λ q h e. elim h [
          | inl m ↦ ground (arith, holders-Mem strongs q m)
          | inr m ↦ ground (arith, holders-Mem weaks q m)
        ] in
        let other : (q : RefSep) → Mem q strongs → r.data_at ≢ q.data_at =
          λ q m e. let (x, f) = k.boxed q m in ground arith in
        record {
          same_box = λ q x m n e. elim (split q m) [
            | inl a ↦ elim (split x n) [ inl b ↦ cc | inr b ↦ elim (apart x b cc) [ ] ]
            | inr a ↦ elim (split x n) [
              | inl b ↦ elim (apart q a cc) [ ]
              | inr b ↦ k.same_box q x a b e
            ]
          ];
          own_slot = λ q x m n e. elim (Mem-cons strongs q r m) [
            | inl a ↦ elim (Mem-cons strongs x r n) [ inl b ↦ cc | inr b ↦ elim (other x b cc) [ ] ]
            | inr a ↦ elim (Mem-cons strongs x r n) [
              | inl b ↦ elim (other q a cc) [ ]
              | inr b ↦ k.own_slot q x a b e
            ]
          ];
          boxed = λ q m. elim (Mem-cons strongs q r m) [
            | inl a ↦ (d, ground arith)
            | inr a ↦ let (x, f) = k.boxed q a in (x, ground (arith, other q a))
          ];
          owned = λ p x e. elim (Bool-cases (r.data_at == p)) [
            | inl h ↦ (r, (0, refl), ground arith)
            | inr h ↦
                let g : boxes p ≡ some x = ground arith in
                let (q, (j, n), same) = k.owned p x g in (q, (suc j, n), same)
          ];
        }
