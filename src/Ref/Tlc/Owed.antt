-- ===== src/Ref/Tlc/Owed.antt =====
-- The decrements that a thread of reference/tlc.rs has put off, and how consuming and deferring
-- change them.
use hirpdag.Base.{
  ℕ, ◌+◌, ◌-◌, ◌<◌, ◌≤◌, ◌≡◌, inl, inr, refl, ap, Bool, true, Option, none, some, List, [], ◌∷◌,
  ◌++◌, arith, length, ◌==◌, if◌then◌else◌, Bool-cases,
}
use hirpdag.Base.HashMap
use hirpdag.Ref.Tlc.{
  DeferredDecs, no_decs, Thread, new_thread, flush_ops, flush_entries, count_of, remove, consume,
}

-- the decrements of the addresses that `f` picks
unfoldable pub sum_by : (ℕ → Bool) → List (ℕ × ℕ) → ℕ
sum_by f [] = 0
sum_by f ((p, n) ∷ m) = (if f p then n else 0) + sum_by f m

abbrev pub all : ℕ → Bool
all p = true

abbrev pub at : ℕ → ℕ → Bool
at q p = p == q

-- No entry is at 0.
abbrev pub AllPositive : List (ℕ × ℕ) → Type 0
AllPositive [] = Unit
AllPositive ((p, n) ∷ m) = (0 < n) × AllPositive m

pub sum_by-append :
    (f : ℕ → Bool) (m k : List (ℕ × ℕ)) → sum_by f (m ++ k) ≡ sum_by f m + sum_by f k
unfolding sum_by
sum_by-append f [] k = omega arith
sum_by-append f ((p, n) ∷ m) k = omega (arith, sum_by-append f m k)

pub sum_by-insert :
    (f : ℕ → Bool) (p v : ℕ) (m : List (ℕ × ℕ))
    → sum_by f (HashMap.insert p v m) + (if f p then count_of p m else 0)
      ≡ sum_by f m + (if f p then v else 0)
unfolding sum_by HashMap.insert HashMap.lookup count_of
sum_by-insert f p v [] = ground arith
sum_by-insert f p v ((o, n) ∷ m) = elim (Bool-cases (o == p)) [
  | inl same ↦ let e : o ≡ p = ground arith in ground (arith, ap f e)
  | inr other ↦ ground (arith, sum_by-insert f p v m)
]

sum_by-remove :
    (f : ℕ → Bool) (p n : ℕ) (m : List (ℕ × ℕ))
    → HashMap.lookup p m ≡ some n
    → sum_by f (remove p m) + (if f p then n else 0) ≡ sum_by f m
unfolding sum_by HashMap.lookup remove
sum_by-remove f p n [] e = cc
sum_by-remove f p n ((o, k) ∷ m) e = elim (Bool-cases (o == p)) [
  | inl same ↦ ground arith
  | inr other ↦ ground (arith, sum_by-remove f p n m)
]

pub AllPositive-append : (m k : List (ℕ × ℕ)) → AllPositive m → AllPositive k → AllPositive (m ++ k)
AllPositive-append [] k a b = b
AllPositive-append ((p, n) ∷ m) k a b = (a.0, AllPositive-append m k a.1 b)

pub insert-AllPositive :
    (p v : ℕ) (m : List (ℕ × ℕ)) → 0 < v → AllPositive m → AllPositive (HashMap.insert p v m)
unfolding HashMap.insert
insert-AllPositive p v [] h a = (h, tt)
insert-AllPositive p v ((o, n) ∷ m) h a = elim (Bool-cases (o == p)) [
  | inl same ↦ rw same (h, a.1)
  | inr other ↦ rw other (a.0, insert-AllPositive p v m h a.1)
]

remove-AllPositive : (p : ℕ) (m : List (ℕ × ℕ)) → AllPositive m → AllPositive (remove p m)
unfolding remove
remove-AllPositive p [] a = tt
remove-AllPositive p ((o, n) ∷ m) a = elim (Bool-cases (o == p)) [
  | inl same ↦ rw same (a.1)
  | inr other ↦ rw other (a.0, remove-AllPositive p m a.1)
]

lookup-positive : (p n : ℕ) (m : List (ℕ × ℕ)) → HashMap.lookup p m ≡ some n → AllPositive m → 0 < n
unfolding HashMap.lookup
lookup-positive p n [] e a = cc
lookup-positive p n ((o, k) ∷ m) e a = elim (Bool-cases (o == p)) [
  | inl same ↦ ground arith
  | inr other ↦ lookup-positive p n m (ground arith) a.1
]

length-remove : (p : ℕ) (m : List (ℕ × ℕ)) → length (remove p m) ≤ length m
unfolding remove
length-remove p [] = omega arith
length-remove p ((o, n) ∷ m) = ground (arith, length-remove p m)

length-insert_some :
    (p v n : ℕ) (m : List (ℕ × ℕ))
    → HashMap.lookup p m ≡ some n
    → length (HashMap.insert p v m) ≡ length m
unfolding HashMap.insert HashMap.lookup
length-insert_some p v n [] e = cc
length-insert_some p v n ((o, k) ∷ m) e = ground (arith, length-insert_some p v n m)

-- A buffer between two operations: it has not reached a flush threshold, and holds no more decrements
-- than it has buffered since the last flush.
pub record IsDecs (d : DeferredDecs) : Type 0 where
  pub positive : AllPositive d.map
  pub few_ops : d.ops_since_flush < flush_ops
  pub few_entries : length d.map < flush_entries
  pub counted : sum_by all d.map ≤ d.ops_since_flush

pub no_decs-IsDecs : IsDecs no_decs
unfolding sum_by
no_decs-IsDecs = record {
  positive = tt;
  few_ops = omega arith;
  few_entries = omega arith;
  counted = omega arith;
}

abbrev pub HasDecs : Option DeferredDecs → Type 0
HasDecs none = Unit
HasDecs (some d) = IsDecs d

pub record IsThread (t : Thread) : Type 0 where
  pub buffer : HasDecs t.deferred
  pub to_apply : AllPositive t.pending

unfoldable pub buffered : (ℕ → Bool) → Option DeferredDecs → ℕ
unfolding sum_by
buffered f none = 0
buffered f (some d) = sum_by f d.map

-- what the thread has put off, and what it has drained and not applied
unfoldable pub owed : (ℕ → Bool) → Thread → ℕ
unfolding buffered sum_by
owed f t = buffered f t.deferred + sum_by f t.pending

pub new_thread-owed : (f : ℕ → Bool) → owed f new_thread ≡ 0
unfolding owed
new_thread-owed f = refl

pub new_thread-IsThread : IsThread new_thread
new_thread-IsThread = record { buffer = no_decs-IsDecs; to_apply = tt }

-- A decrement for `p` is taken out of the buffer.
abbrev pub Consumed : ℕ → Thread → Thread → Type 0
Consumed p t t' = IsThread t' × ((f : ℕ → Bool) → owed f t' + (if f p then 1 else 0) ≡ owed f t)

count_of-some : (p n : ℕ) (m : List (ℕ × ℕ)) → HashMap.lookup p m ≡ some n → count_of p m ≡ n
unfolding count_of
count_of-some p n m e = rw (count_of, e) refl

pub consume-some :
    (p n : ℕ) (d : DeferredDecs)
    → HashMap.lookup p d.map ≡ some n
    → consume p d ≡ (
      true,
      record d { map = if n - 1 == 0 then remove p d.map else HashMap.insert p (n - 1) d.map },
    )
unfolding consume
consume-some p n d e = rw (consume, e) refl

pub consume-IsDecs :
    (p n : ℕ) (d : DeferredDecs)
    → IsDecs d
    → HashMap.lookup p d.map ≡ some n
    → IsDecs (consume p d).1
      × ((f : ℕ → Bool) → sum_by f (consume p d).1.map + (if f p then 1 else 0) ≡ sum_by f d.map)
consume-IsDecs p n d k e =
    let pos = lookup-positive p n d.map e k.positive in
    let c = count_of-some p n d.map e in
    let run = consume-some p n d e in
    elim (Bool-cases (n - 1 == 0)) [
      | inl last ↦
          let sums = λ (f : ℕ → Bool). sum_by-remove f p n d.map e in
          rw (run, last)
            (
              record {
                positive = remove-AllPositive p d.map k.positive;
                few_ops = k.few_ops;
                few_entries = omega (arith, length-remove p d.map, k.few_entries);
                counted = omega (arith, sums all, k.counted);
              },
              λ f. ground (arith, sums f),
            )
      | inr more ↦
          let sums = λ (f : ℕ → Bool). sum_by-insert f p (n - 1) d.map in
          rw (run, more)
            (
              record {
                positive = insert-AllPositive p (n - 1) d.map (ground arith) k.positive;
                few_ops = k.few_ops;
                few_entries = omega (arith, length-insert_some p (n - 1) n d.map e, k.few_entries);
                counted = omega (arith, sums all, k.counted, c);
              },
              λ f. ground (arith, sums f),
            )
    ]
