-- ===== src/Ref/Tlc/Client.antt =====
-- What a program does with the handles of reference/tlc.rs: `n` threads, the handles that are held
-- anywhere (a handle may move to another thread, and stands in data too), and one step for each
-- operation, each round of the loop of `apply_pending` a step of its own. A further handle to an
-- object is made while its counters have room.
use hirpdag.Base.{
  ℕ, zero, suc, ◌+◌, ◌<◌, ◌≤◌, ◌≡◌, refl, Bool, none, some, List, [], ◌∷◌, get_elem?, ◌==◌,
  if◌then◌else◌, arith,
}
use hirpdag.Ref.Tlc.{Memory, Thread, new_thread, release_strong, exit_thread}
use hirpdag.Ref.Tlc.Cells.{HasRoom}
use hirpdag.Ref.Tlc.Handles.{
  new, strong_clone, strong_drop, weak_drop, weak_upgrade, weak_downgrade,
}
use hirpdag.Ref.Tlc.Owed.{AllPositive, sum_by, owed}

unfoldable pub erase : {A : Type 0} → ℕ → List A → List A
erase i [] = []
erase zero (r ∷ rs) = rs
erase (suc i) (r ∷ rs) = r ∷ erase i rs

-- how many of the handles are to the object `p`
unfoldable pub copies : ℕ → List ℕ → ℕ
copies p [] = 0
copies p (r ∷ rs) = (if r == p then 1 else 0) + copies p rs

abbrev pub Mem : ℕ → List ℕ → Type 0
Mem p rs = (i : ℕ) × (get_elem? rs i ≡ some p)

pub copies-erase :
    (rs : List ℕ) (i p q : ℕ)
    → get_elem? rs i ≡ some p
    → copies q rs ≡ (if p == q then 1 else 0) + copies q (erase i rs)
unfolding copies erase
copies-erase [] i p q e = cc
copies-erase (r ∷ rs) zero p q e = ground arith
copies-erase (r ∷ rs) (suc i) p q e = omega (arith, copies-erase rs i p q e)

pub copies-Mem : (rs : List ℕ) (p : ℕ) → Mem p rs → 0 < copies p rs
unfolding copies
copies-Mem [] p (i, e) = cc
copies-Mem (r ∷ rs) p (zero, e) = ground arith
copies-Mem (r ∷ rs) p (suc i, e) = omega (arith, copies-Mem rs p (i, e))

pub sum_by-erase :
    (f : ℕ → Bool) (m : List (ℕ × ℕ)) (i p k : ℕ)
    → get_elem? m i ≡ some (p, k)
    → sum_by f m ≡ (if f p then k else 0) + sum_by f (erase i m)
unfolding sum_by erase
sum_by-erase f [] i p k e = cc
sum_by-erase f ((o, n) ∷ m) zero p k e = ground arith
sum_by-erase f ((o, n) ∷ m) (suc i) p k e = omega (arith, sum_by-erase f m i p k e)

pub erase-AllPositive :
    (m : List (ℕ × ℕ)) (i p k : ℕ)
    → get_elem? m i ≡ some (p, k)
    → AllPositive m
    → (0 < k) × AllPositive (erase i m)
unfolding erase
erase-AllPositive [] i p k e a = cc
erase-AllPositive ((o, n) ∷ m) zero p k e a = (ground arith, a.1)
erase-AllPositive ((o, n) ∷ m) (suc i) p k e a =
    let (h, b) = erase-AllPositive m i p k e a.1 in (h, (a.0, b))

abbrev pub set_thread : ℕ → Thread → (ℕ → Thread) → ℕ → Thread
set_thread t x ts u = if t == u then x else ts u

-- what all the threads together owe
unfoldable pub owed_all : (ℕ → Bool) → ℕ → (ℕ → Thread) → ℕ
owed_all f zero ts = 0
owed_all f (suc n) ts = owed_all f n ts + owed f (ts n)

owed_all-others :
    (f : ℕ → Bool) (n t : ℕ) (x : Thread) (ts : ℕ → Thread)
    → n ≤ t
    → owed_all f n (set_thread t x ts) ≡ owed_all f n ts
unfolding owed_all
owed_all-others f zero t x ts h = refl
owed_all-others f (suc n) t x ts h = ground (arith, owed_all-others f n t x ts)

pub owed_all-set :
    (f : ℕ → Bool) (n t : ℕ) (x : Thread) (ts : ℕ → Thread)
    → t < n
    → owed_all f n (set_thread t x ts) + owed f (ts t) ≡ owed_all f n ts + owed f x
unfolding owed_all
owed_all-set f zero t x ts h = absurd (omega arith)
owed_all-set f (suc n) t x ts h =
    ground (arith, owed_all-set f n t x ts, owed_all-others f n t x ts)

pub owed_all-zero :
    (f : ℕ → Bool) (n : ℕ) (ts : ℕ → Thread)
    → ((t : ℕ) → t < n → owed f (ts t) ≡ 0)
    → owed_all f n ts ≡ 0
unfolding owed_all
owed_all-zero f zero ts h = refl
owed_all-zero f (suc n) ts h =
    omega (arith, owed_all-zero f n ts (λ t b. h t (omega arith)), h n (omega arith))

pub record Client (D : Type 0) : Type 0 where
  pub memory : Memory D
  pub threads : ℕ → Thread
  pub strongs : List ℕ
  pub weaks : List ℕ

abbrev pub start : {D : Type 0} → Client D
start = record { memory = λ p. none; threads = λ t. new_thread; strongs = []; weaks = [] }

-- `apply_pending`: the entry at `i` is taken out and applied; the order of a `HashMap` is not known.
abbrev pub applied_entry : ℕ → Thread → Thread
applied_entry i t = record t { pending = erase i t.pending }

module _ {D : Type 0} where
  abbrev pub set : Client D → ℕ → Thread → Memory D → Client D
  set c t x mem = record c { threads = set_thread t x c.threads; memory = mem }

  pub data Step (w n : ℕ) : Client D → Client D → Type 0 where
    made :
        {c : Client D} (p : ℕ) (d : D)
        → c.memory p ≡ none
        → Step w n c (record c { memory = new p d c.memory; strongs = p ∷ c.strongs })
    cloned :
        {c : Client D} (t p : ℕ) (x : Thread) (mem : Memory D)
        → t < n
        → Mem p c.strongs
        → HasRoom w (c.memory p)
        → strong_clone w p (c.threads t) c.memory ≡ some (x, mem)
        → Step w n c (record (set c t x mem) { strongs = p ∷ c.strongs })
    dropped :
        {c : Client D} (t i p : ℕ) (x : Thread) (mem : Memory D)
        → t < n
        → get_elem? c.strongs i ≡ some p
        → strong_drop w p (c.threads t) c.memory ≡ some (x, mem)
        → Step w n c (record (set c t x mem) { strongs = erase i c.strongs })
    applied :
        {c : Client D} (t i p k : ℕ) (mem : Memory D)
        → t < n
        → get_elem? (c.threads t).pending i ≡ some (p, k)
        → release_strong w p k c.memory ≡ some mem
        → Step w n c (set c t (applied_entry i (c.threads t)) mem)
    exited :
        {c : Client D} (t : ℕ) → t < n → Step w n c (set c t (exit_thread (c.threads t)) c.memory)
    downgraded :
        {c : Client D} (p : ℕ) (mem : Memory D)
        → Mem p c.strongs
        → HasRoom w (c.memory p)
        → weak_downgrade w p c.memory ≡ some mem
        → Step w n c (record c { memory = mem; weaks = p ∷ c.weaks })
    upgraded :
        {c : Client D} (t p : ℕ) (stale : List ℕ) (found : Bool) (x : Thread) (mem : Memory D)
        → t < n
        → Mem p c.weaks
        → HasRoom w (c.memory p)
        → weak_upgrade w stale p (c.threads t) c.memory ≡ some (found, x, mem)
        → Step w n c
            (record (set c t x mem) { strongs = if found then p ∷ c.strongs else c.strongs })
    weak_dropped :
        {c : Client D} (i p : ℕ) (mem : Memory D)
        → get_elem? c.weaks i ≡ some p
        → weak_drop w p c.memory ≡ some mem
        → Step w n c (record c { memory = mem; weaks = erase i c.weaks })

  pub data Steps (w n : ℕ) : Client D → Client D → Type 0 where
    done : {c : Client D} → Steps w n c c
    step : {c c' c'' : Client D} → Steps w n c c' → Step w n c' c'' → Steps w n c c''
