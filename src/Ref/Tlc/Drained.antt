-- ===== src/Ref/Tlc/Drained.antt =====
-- Once the threads of reference/tlc.rs have exited, what has no handle is gone.
use mathlib.Core.Path.{subst}
use hirpdag.Base.{
  ℕ, zero, suc, ◌+◌, ◌^◌, ◌<◌, ◌≤◌, ◌≡◌, ◌↔◌, refl, sym, ap, ◌∙◌, inl, inr, Bool, false, none, some,
  List, [], ◌∷◌, get_elem?, ◌==◌, arith, Bool-cases, ==_self,
}
use hirpdag.Ref.Tlc.{Thread, Memory, exit_thread, release_strong}
use hirpdag.Ref.Tlc.Client.{
  Client, Steps, applied, exited, done, step, start, erase, set, applied_entry, copies,
  owed_all-zero,
}
use hirpdag.Ref.Tlc.Buffered.{to_come, IsBuffered}
use hirpdag.Ref.Tlc.Deferred.{exit_thread-Exited}
use hirpdag.Ref.Tlc.Handles.{strong_deref}
use hirpdag.Ref.Tlc.Kept.{exit_thread-IsBuffered, release_strong-IsBuffered}
use hirpdag.Ref.Tlc.Owed.{at, owed, buffered, sum_by}
use hirpdag.Ref.Tlc.Steps.{Steps-IsBuffered, cell_iff}

-- It has exited, and has applied everything.
abbrev pub Idle : Thread → Type 0
Idle t = (t.deferred ≡ none) × (t.pending ≡ [])

Idle-owed : (f : ℕ → Bool) (t : Thread) → Idle t → owed f t ≡ 0
unfolding owed buffered sum_by
Idle-owed f t (a, b) = rw a (rw b refl)

-- the first `n` threads
abbrev pub AllIdle : ℕ → (ℕ → Thread) → Type 0
AllIdle zero ts = Unit
AllIdle (suc n) ts = AllIdle n ts × Idle (ts n)

AllIdle-of : (j : ℕ) (ts : ℕ → Thread) → ((t : ℕ) → t < j → Idle (ts t)) → AllIdle j ts
AllIdle-of zero ts h = tt
AllIdle-of (suc j) ts h = (AllIdle-of j ts (λ t b. h t (omega arith)), h j (omega arith))

-- Steps of two kinds only: a thread exits, or applies an entry that it has drained.
pub data ExitSteps {D : Type 0} (w n : ℕ) (c : Client D) : Client D → Type 0 where
  none_left : ExitSteps w n c c
  exits :
      {c' : Client D} (t : ℕ)
      → ExitSteps w n c c'
      → t < n
      → ExitSteps w n c (set c' t (exit_thread (c'.threads t)) c'.memory)
  applies :
      {c' : Client D} (t i p k : ℕ) (mem : Memory D)
      → ExitSteps w n c c'
      → t < n
      → get_elem? (c'.threads t).pending i ≡ some (p, k)
      → release_strong w p k c'.memory ≡ some mem
      → ExitSteps w n c (set c' t (applied_entry i (c'.threads t)) mem)

module _ {D : Type 0} (w n : ℕ) where
  ExitSteps-append : {a b c : Client D} → ExitSteps w n a b → ExitSteps w n b c → ExitSteps w n a c
  ExitSteps-append s none_left = s
  ExitSteps-append s (exits t x b) = exits t (ExitSteps-append s x) b
  ExitSteps-append s (applies t i p k mem x b m e) =
      applies t i p k mem (ExitSteps-append s x) b m e

  ExitSteps-Steps : {a b : Client D} → ExitSteps w n a b → Steps w n a b
  ExitSteps-Steps none_left = done
  ExitSteps-Steps (exits t x b) = step (ExitSteps-Steps x) (exited t b)
  ExitSteps-Steps (applies t i p k mem x b m e) =
      step (ExitSteps-Steps x) (applied t i p k mem b m e)

  -- steps that leave the handles as they are
  record Reaches (c c' : Client D) : Type 0 where
    steps : ExitSteps w n c c'
    counted : IsBuffered w n c'
    same_strongs : c'.strongs ≡ c.strongs
    same_weaks : c'.weaks ≡ c.weaks

  Reaches-append : {a b c : Client D} → Reaches a b → Reaches b c → Reaches a c
  Reaches-append r s = record {
    steps = ExitSteps-append r.steps s.steps;
    counted = s.counted;
    same_strongs = s.same_strongs ∙ r.same_strongs;
    same_weaks = s.same_weaks ∙ r.same_weaks;
  }

  abbrev Others : ℕ → Client D → Client D → Type 0
  Others t c c' = (u : ℕ) → (t == u) ≡ false → c'.threads u ≡ c.threads u

  -- A thread that has exited applies what it has drained.
  drain :
      (rest : List (ℕ × ℕ)) (c : Client D) (t : ℕ)
      → t < n
      → IsBuffered w n c
      → (c.threads t).deferred ≡ none
      → (c.threads t).pending ≡ rest
      → (c' : Client D) × Reaches c c' × Idle (c'.threads t) × Others t c c'
  unfolding erase
  drain [] c t b k gone e = (
    c,
    record { steps = none_left; counted = k; same_strongs = refl; same_weaks = refl },
    (gone, e),
    λ u f. refl,
  )
  drain ((p, a) ∷ rest) c t b k gone e =
      let m : get_elem? (c.threads t).pending 0 ≡ some (p, a) = rw e refl in
      let (mem, run, k') = release_strong-IsBuffered w n c k t 0 p a b m in
      let c1 = set c t (applied_entry 0 (c.threads t)) mem in
      let here : c1.threads t ≡ applied_entry 0 (c.threads t) = rw (==_self t) refl in
      let left : (c1.threads t).pending ≡ rest = ap (λ x. x.pending) here ∙ ap (λ l. erase 0 l) e in
      let (c', r, idle, others) = drain rest c1 t b k' (ap (λ x. x.deferred) here ∙ gone) left in
      (
        c',
        Reaches-append
            (record {
              steps = applies t 0 p a mem none_left b m run;
              counted = k';
              same_strongs = refl;
              same_weaks = refl;
            })
            r,
        idle,
        λ u f. others u f ∙ rw f refl,
      )

  exit_one :
      (c : Client D) (t : ℕ)
      → t < n
      → IsBuffered w n c
      → (c' : Client D) × Reaches c c' × Idle (c'.threads t) × Others t c c'
  exit_one c t b k =
      let x = exit_thread (c.threads t) in
      let k' = exit_thread-IsBuffered w n c k t b in
      let c1 = set c t x c.memory in
      let here : c1.threads t ≡ x = rw (==_self t) refl in
      let (v, sums, gone) = exit_thread-Exited (c.threads t) (k.threads_valid t) in
      let (c', r, idle, others) =
        drain (c1.threads t).pending c1 t b k' (ap (λ x. x.deferred) here ∙ gone) refl in
      (
        c',
        Reaches-append
            (record {
              steps = exits t none_left b;
              counted = k';
              same_strongs = refl;
              same_weaks = refl;
            })
            r,
        idle,
        λ u f. others u f ∙ rw f refl,
      )

  -- The first `j` threads exit.
  exit_all :
      (j : ℕ) (c : Client D)
      → j ≤ n
      → IsBuffered w n c
      → (c' : Client D) × Reaches c c' × ((t : ℕ) → t < j → Idle (c'.threads t))
  exit_all zero c b k = (
    c,
    record { steps = none_left; counted = k; same_strongs = refl; same_weaks = refl },
    λ t h. absurd (omega arith),
  )
  exit_all (suc j) c b k =
      let (c1, r, idle) = exit_all j c (omega arith) k in
      let (c2, s, last, others) = exit_one c1 j (omega arith) r.counted in
      (
        c2,
        Reaches-append r s,
        λ t h. elim (Bool-cases (j == t)) [
          | inl e ↦ let same : j ≡ t = ground arith in subst (λ u. Idle (c2.threads u)) same last
          | inr e ↦ subst Idle (sym (others t e)) (idle t (ground arith))
        ],
      )

  Idle-to_come :
      (c : Client D) (p : ℕ)
      → ((t : ℕ) → t < n → Idle (c.threads t))
      → to_come w n c p ≡ copies p c.strongs
  unfolding to_come
  Idle-to_come c p h =
      omega
        (arith, owed_all-zero (at p) n c.threads (λ t b. Idle-owed (at p) (c.threads t) (h t b)))

  -- Wherever a program is, its threads can exit and apply what they have put off, by steps of these two
  -- kinds alone. Then every thread has exited and has nothing left to apply, the handles are the same, and exactly the objects with a strong handle have their data, and those with neither a
  -- strong nor a weak handle are freed.
  pub exits-free :
      {c : Client D}
      → 1 < 2 ^ w
      → Steps w n start c
      → (c' : Client D) × Steps w n c c'
        × ExitSteps w n c c'
        × AllIdle n c'.threads
        × (c'.strongs ≡ c.strongs)
        × (c'.weaks ≡ c.weaks)
        × ((p : ℕ)
            → (((d : D) × (strong_deref p c'.memory ≡ some d)) ↔ (0 < copies p c.strongs))
              × ((c'.memory p ≡ none) ↔ (copies p c.strongs + copies p c.weaks ≡ 0)))
  exits-free {c} wide before =
      let (c', r, idle) = exit_all n c (omega arith) (Steps-IsBuffered w n wide before) in
      (
        c',
        ExitSteps-Steps r.steps,
        r.steps,
        AllIdle-of n c'.threads idle,
        r.same_strongs,
        r.same_weaks,
        λ p.
            let e : to_come w n c' p ≡ copies p c.strongs =
              Idle-to_come c' p idle ∙ ap (copies p) r.same_strongs in
            let f : copies p c'.weaks ≡ copies p c.weaks = ap (copies p) r.same_weaks in
            subst
              (λ k.
                (((d : D) × (strong_deref p c'.memory ≡ some d)) ↔ (0 < k))
                × ((c'.memory p ≡ none) ↔ (k + copies p c.weaks ≡ 0)))
              e
              (subst
                (λ k.
                  (((d : D) × (strong_deref p c'.memory ≡ some d)) ↔ (0 < to_come w n c' p))
                  × ((c'.memory p ≡ none) ↔ (to_come w n c' p + k ≡ 0)))
                f (cell_iff w n wide c' p _ _ (r.counted.cells p))),
      )
