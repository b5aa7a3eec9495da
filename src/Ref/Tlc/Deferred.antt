-- ===== src/Ref/Tlc/Deferred.antt =====
-- What consuming, deferring and the exit of a thread of reference/tlc.rs do to what it owes.
use hirpdag.Base.{
  ℕ, Option, ◌+◌, ◌≡◌, ◌⊎◌, inl, inr, refl, Bool, true, false, none, some, List, ◌++◌, arith,
  length, leb, if◌then◌else◌, Bool-cases, Option-cases, ◌||◌, ap,
}
use hirpdag.Base.HashMap
use hirpdag.Ref.Tlc.{
  DeferredDecs, no_decs, Thread, flush_ops, flush_entries, take_pending, count_of, defer, consume,
  tlc_consume, to_apply, tlc_defer, exit_thread,
}
use hirpdag.Ref.Tlc.Owed.{
  sum_by, all, AllPositive, sum_by-append, AllPositive-append, sum_by-insert, insert-AllPositive,
  IsDecs, no_decs-IsDecs, HasDecs, IsThread, buffered, owed, Consumed, consume-IsDecs, consume-some,
}

consume-none : (p : ℕ) (d : DeferredDecs) → HashMap.lookup p d.map ≡ none → consume p d ≡ (false, d)
unfolding consume
consume-none p d e = rw (consume, e) refl

abbrev thread : Option DeferredDecs → List (ℕ × ℕ) → Thread
thread o pending = record { deferred = o; pending = pending }

tlc_consume_in :
    (p : ℕ) (o : Option DeferredDecs) (pending : List (ℕ × ℕ))
    → HasDecs o
    → AllPositive pending
    → ((t' : Thread) × (tlc_consume p (thread o pending) ≡ (true, t'))
        × Consumed p (thread o pending) t')
      ⊎ (tlc_consume p (thread o pending) ≡ (false, thread o pending))
unfolding tlc_consume owed buffered
tlc_consume_in p none pending h a = inr refl
tlc_consume_in p (some d) pending h a = elim (Option-cases (HashMap.lookup p d.map)) [
  | inl e ↦ inr (ap (λ r. (r.0, thread (some r.1) pending)) (consume-none p d e))
  | inr (n, e) ↦
      let run = consume-some p n d e in
      let (k, sums) = consume-IsDecs p n d h e in
      inl (
        thread (some (consume p d).1) pending,
        ap (λ b. (b, thread (some (consume p d).1) pending)) (ap (λ r. r.0) run),
        (record { buffer = k; to_apply = a }, λ f. omega (arith, sums f)),
      )
]

-- A decrement for `p` that is put off is taken, or there is none.
pub tlc_consume-cases :
    (p : ℕ) (t : Thread)
    → IsThread t
    → ((t' : Thread) × (tlc_consume p t ≡ (true, t')) × Consumed p t t')
      ⊎ (tlc_consume p t ≡ (false, t))
tlc_consume-cases p t k = tlc_consume_in p t.deferred t.pending k.buffer k.to_apply

-- One more decrement for `p`.
abbrev pub Deferred : ℕ → Thread → Thread → Type 0
Deferred p t t' = IsThread t' × ((f : ℕ → Bool) → owed f t' ≡ owed f t + (if f p then 1 else 0))

-- The buffer with one more decrement for `p`
unfoldable with_one : ℕ → DeferredDecs → DeferredDecs
unfolding count_of
with_one p d = record {
  map = HashMap.insert p (count_of p d.map + 1) d.map;
  ops_since_flush = d.ops_since_flush + 1;
}

with_one-sum :
    (f : ℕ → Bool) (p : ℕ) (d : DeferredDecs)
    → sum_by f (with_one p d).map ≡ sum_by f d.map + (if f p then 1 else 0)
unfolding with_one
with_one-sum f p d = ground (arith, sum_by-insert f p (count_of p d.map + 1) d.map)

-- whether a flush threshold is reached
abbrev full : DeferredDecs → Bool
full d = leb flush_ops d.ops_since_flush || leb flush_entries (length d.map)

defer_kept :
    (p : ℕ) (d : DeferredDecs) → full (with_one p d) ≡ false → defer p d ≡ (none, with_one p d)
unfolding defer with_one
defer_kept p d e = rw e refl

defer-full :
    (p : ℕ) (d : DeferredDecs)
    → full (with_one p d) ≡ true
    → defer p d ≡ (some (with_one p d).map, no_decs)
unfolding defer with_one take_pending
defer-full p d e = rw e refl

with_one-AllPositive : (p : ℕ) (d : DeferredDecs) → IsDecs d → AllPositive (with_one p d).map
unfolding with_one
with_one-AllPositive p d k =
    insert-AllPositive p (count_of p d.map + 1) d.map (omega arith) k.positive

with_one-IsDecs :
    (p : ℕ) (d : DeferredDecs) → IsDecs d → full (with_one p d) ≡ false → IsDecs (with_one p d)
unfolding with_one
with_one-IsDecs p d k e = record {
  positive = with_one-AllPositive p d k;
  few_ops = ground arith;
  few_entries = ground arith;
  counted = omega (arith, with_one-sum all p d, k.counted);
}

tlc_defer_in :
    (p : ℕ) (o : Option DeferredDecs) (pending : List (ℕ × ℕ))
    → HasDecs o
    → AllPositive pending
    → ((t' : Thread) × (tlc_defer p (thread o pending) ≡ (true, t'))
        × Deferred p (thread o pending) t')
      ⊎ (tlc_defer p (thread o pending) ≡ (false, thread o pending))
unfolding tlc_defer to_apply owed buffered
tlc_defer_in p none pending h a = inr refl
tlc_defer_in p (some d) pending h a =
    let positive = with_one-AllPositive p d h in
    let sums = λ (f : ℕ → Bool). with_one-sum f p d in
    inl (elim (Bool-cases (full (with_one p d))) [
      | inl e ↦ (
        thread (some no_decs) ((with_one p d).map ++ pending),
        ap (λ r. (true, thread (some r.1) (to_apply r.0 pending))) (defer-full p d e),
        (
          record {
            buffer = no_decs-IsDecs;
            to_apply = AllPositive-append (with_one p d).map pending positive a;
          },
          λ f. omega (arith, sums f, sum_by-append f (with_one p d).map pending),
        ),
      )
      | inr e ↦ (
        thread (some (with_one p d)) pending,
        ap (λ r. (true, thread (some r.1) (to_apply r.0 pending))) (defer_kept p d e),
        (record { buffer = with_one-IsDecs p d h e; to_apply = a }, λ f. omega (arith, sums f)),
      )
    ])

pub tlc_defer-cases :
    (p : ℕ) (t : Thread)
    → IsThread t
    → ((t' : Thread) × (tlc_defer p t ≡ (true, t')) × Deferred p t t')
      ⊎ (tlc_defer p t ≡ (false, t))
tlc_defer-cases p t k = tlc_defer_in p t.deferred t.pending k.buffer k.to_apply

-- The exit of a thread drains its buffer for good.
abbrev Exited : Thread → Thread → Type 0
Exited t t' = IsThread t' × ((f : ℕ → Bool) → owed f t' ≡ owed f t) × (t'.deferred ≡ none)

exit_in :
    (o : Option DeferredDecs) (pending : List (ℕ × ℕ))
    → HasDecs o
    → AllPositive pending
    → Exited (thread o pending) (exit_thread (thread o pending))
unfolding exit_thread take_pending owed buffered
exit_in none pending h a = (record { buffer = tt; to_apply = a }, λ f. refl, refl)
exit_in (some d) pending h a = (
  record { buffer = tt; to_apply = AllPositive-append d.map pending h.positive a },
  λ f. omega (arith, sum_by-append f d.map pending),
  refl,
)

pub exit_thread-Exited : (t : Thread) → IsThread t → Exited t (exit_thread t)
exit_thread-Exited t k = exit_in t.deferred t.pending k.buffer k.to_apply
