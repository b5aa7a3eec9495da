-- ===== src/Ref/SepCount/Client.antt =====
-- What a program does with the handles of reference/sepcount.rs: the handles that it holds, and
-- one step for each operation. Another handle is made while fewer than
-- `2 ^ w - 1` handles are held, which for 64-bit counters the memory ensures and for 32-bit ones the
-- source asks for.
use hirpdag.Base.{
  ℕ, zero, suc, ◌+◌, ◌^◌, ◌<◌, ◌≤◌, ◌≡◌, refl, none, some, List, [], ◌∷◌, length, get_elem?, ◌==◌,
  if◌then◌else◌, arith, ◌⊎◌, inl, inr, Bool-cases,
}
use hirpdag.Ref.SepCount.{new_pool}
use hirpdag.Ref.SepCount.Handles.{
  RefSep, Store, new, strong_clone, strong_drop, weak_drop, weak_upgrade, weak_downgrade,
}

unfoldable pub remove : ℕ → List RefSep → List RefSep
remove i [] = []
remove zero (r ∷ rs) = rs
remove (suc i) (r ∷ rs) = r ∷ remove i rs

-- how many of the handles have this slot
unfoldable pub holders : ℕ → List RefSep → ℕ
holders s [] = 0
holders s (r ∷ rs) = (if r.slot == s then 1 else 0) + holders s rs

abbrev pub Mem : RefSep → List RefSep → Type 0
Mem r rs = (i : ℕ) × (get_elem? rs i ≡ some r)

pub holders-remove :
    (rs : List RefSep) (i : ℕ) (r : RefSep) (s : ℕ)
    → get_elem? rs i ≡ some r
    → holders s rs ≡ (if r.slot == s then 1 else 0) + holders s (remove i rs)
unfolding holders remove
holders-remove [] i r s e = cc
holders-remove (q ∷ rs) zero r s e = ground arith
holders-remove (q ∷ rs) (suc i) r s e = omega (arith, holders-remove rs i r s e)

pub holders-Mem : (rs : List RefSep) (r : RefSep) → Mem r rs → 1 ≤ holders r.slot rs
unfolding holders
holders-Mem [] r (i, e) = cc
holders-Mem (q ∷ rs) r (zero, e) = ground arith
holders-Mem (q ∷ rs) r (suc i, e) = omega (arith, holders-Mem rs r (i, e))

pub holders-some :
    (rs : List RefSep) (s : ℕ) → 1 ≤ holders s rs → (r : RefSep) × Mem r rs × (r.slot ≡ s)
unfolding holders
holders-some [] s h = elim h [ ]
holders-some (q ∷ rs) s h = elim (Bool-cases (q.slot == s)) [
  | inl e ↦ (q, (0, refl), ground arith)
  | inr e ↦ let (r, (i, m), same) = holders-some rs s (ground arith) in (r, (suc i, m), same)
]

pub holders-le : (s : ℕ) (rs : List RefSep) → holders s rs ≤ length rs
unfolding holders
holders-le s [] = omega arith
holders-le s (q ∷ rs) = ground (arith, holders-le s rs)

pub Mem-remove : (rs : List RefSep) (i : ℕ) (r : RefSep) → Mem r (remove i rs) → Mem r rs
unfolding remove
Mem-remove [] i r (j, e) = cc
Mem-remove (q ∷ rs) zero r (j, e) = (suc j, e)
Mem-remove (q ∷ rs) (suc i) r (zero, e) = (zero, e)
Mem-remove (q ∷ rs) (suc i) r (suc j, e) = let (k, f) = Mem-remove rs i r (j, e) in (suc k, f)

pub Mem-cons : (rs : List RefSep) (q r : RefSep) → Mem q (r ∷ rs) → (q ≡ r) ⊎ Mem q rs
Mem-cons rs q r (zero, e) = inl cc
Mem-cons rs q r (suc i, e) = inr (i, e)

-- the handles that a program holds, strong and weak
pub record Client (D : Type 0) : Type 0 where
  pub store : Store D
  pub strongs : List RefSep
  pub weaks : List RefSep

abbrev pub start : {D : Type 0} → Client D
start = record { store = record { pool = new_pool; boxes = λ p. none }; strongs = []; weaks = [] }

module _ {D : Type 0} where
  abbrev pub HasRoom : ℕ → Client D → Type 0
  HasRoom w c = length c.strongs + length c.weaks + 1 < 2 ^ w

  pub data Step (w : ℕ) : Client D → Client D → Type 0 where
    made :
        {c : Client D} (p : ℕ) (d : D) (r : RefSep) (st : Store D)
        → HasRoom w c
        → c.store.boxes p ≡ none
        → new p d c.store ≡ some (r, st)
        → Step w c (record c { store = st; strongs = r ∷ c.strongs })
    cloned :
        {c : Client D} (r : RefSep)
        → Mem r c.strongs
        → HasRoom w c
        → Step w c (record c { store = (strong_clone w r c.store).1; strongs = r ∷ c.strongs })
    dropped :
        {c : Client D} (i : ℕ) (r : RefSep) (st : Store D)
        → get_elem? c.strongs i ≡ some r
        → strong_drop w r c.store ≡ some st
        → Step w c (record c { store = st; strongs = remove i c.strongs })
    downgraded :
        {c : Client D} (r : RefSep)
        → Mem r c.strongs
        → HasRoom w c
        → Step w c (record c { store = (weak_downgrade w r c.store).1; weaks = r ∷ c.weaks })
    upgraded :
        {c : Client D} (failures : ℕ) (r q : RefSep)
        → Mem r c.weaks
        → HasRoom w c
        → (weak_upgrade w failures r c.store).0 ≡ some q
        → Step w c
            (record c { store = (weak_upgrade w failures r c.store).1; strongs = q ∷ c.strongs })
    refused :
        {c : Client D} (failures : ℕ) (r : RefSep)
        → Mem r c.weaks
        → HasRoom w c
        → (weak_upgrade w failures r c.store).0 ≡ none
        → Step w c (record c { store = (weak_upgrade w failures r c.store).1 })
    weak_dropped :
        {c : Client D} (i : ℕ) (r : RefSep)
        → get_elem? c.weaks i ≡ some r
        → Step w c (record c { store = weak_drop w r c.store; weaks = remove i c.weaks })

  pub data Steps (w : ℕ) : Client D → Client D → Type 0 where
    done : {c : Client D} → Steps w c c
    step : {c c' c'' : Client D} → Steps w c c' → Step w c' c'' → Steps w c c''
