-- ===== src/Ref/Tlc/Buffered.antt =====
-- The invariant of reference/tlc.rs: an object's strong count is the number of its strong handles and
-- of the decrements that threads have put off, and every operation keeps that.
use mathlib.Core.Path.{subst}
use hirpdag.Base.{
  ℕ, ◌+◌, ◌^◌, ◌<◌, ◌≡◌, inl, inr, refl, false, none, List, ◌∷◌, ◌==◌, arith, Bool-cases,
}
use hirpdag.Ref.Tlc.{Memory, Thread, new_thread}
use hirpdag.Ref.Tlc.Cells.{CellOk, Updates}
use hirpdag.Ref.Tlc.Shared.{new-Updates}
use hirpdag.Ref.Tlc.Client.{
  Client, copies, set, set_thread, owed_all, owed_all-set, owed_all-zero, start,
}
use hirpdag.Ref.Tlc.Handles.{new}
use hirpdag.Ref.Tlc.Owed.{at, owed, IsThread, new_thread-owed, new_thread-IsThread}

module _ {D : Type 0} (w n : ℕ) where
  -- the decrements that are still to come: of the handles, and those put off
  unfoldable pub to_come : Client D → ℕ → ℕ
  unfolding copies owed_all
  to_come c q = copies q c.strongs + owed_all (at q) n c.threads

  pub record IsBuffered (c : Client D) : Type 0 where
    pub cells : (q : ℕ) → CellOk w (c.memory q) (to_come c q) (copies q c.weaks)
    pub threads_valid : (t : ℕ) → IsThread (c.threads t)

  pub start-IsBuffered : IsBuffered start
  unfolding to_come copies
  start-IsBuffered = record {
    cells = λ q. (
      omega (arith, owed_all-zero (at q) n (λ t. new_thread) (λ t b. new_thread-owed (at q))),
      refl,
    );
    threads_valid = λ t. new_thread-IsThread;
  }

  -- Only the object at `p` changes.
  pub update_cells :
      (p : ℕ) (c c' : Client D)
      → IsBuffered c
      → Updates w p c.memory (to_come c' p) (copies p c'.weaks) c'.memory
      → ((q : ℕ)
          → (p == q) ≡ false
          → (to_come c' q ≡ to_come c q) × (copies q c'.weaks ≡ copies q c.weaks))
      → (q : ℕ) → CellOk w (c'.memory q) (to_come c' q) (copies q c'.weaks)
  update_cells p c c' k u others q = elim (Bool-cases (p == q)) [
    | inl e ↦
        let same : p ≡ q = ground arith in
        subst (λ r. CellOk w (c'.memory r) (to_come c' r) (copies r c'.weaks)) same u.0
    | inr e ↦ let (a, b) = others q e in rw (u.1 q e) (rw a (rw b (k.cells q)))
  ]

  set_thread-IsThread :
      (c : Client D) (t : ℕ) (x : Thread)
      → IsBuffered c
      → IsThread x
      → (u : ℕ) → IsThread (set_thread t x c.threads u)
  set_thread-IsThread c t x k v u = elim (Bool-cases (t == u)) [
    | inl e ↦ rw e v
    | inr e ↦ rw e (k.threads_valid u)
  ]

  -- a step of the thread `t` that changes the object at `p`
  pub changed :
      (c : Client D) (t p : ℕ) (x : Thread) (mem : Memory D) (strongs weaks : List ℕ)
      → t < n
      → IsBuffered c
      → IsThread x
      → (let c' = record (set c t x mem) { strongs = strongs; weaks = weaks } in
          Updates w p c.memory (to_come c' p) (copies p weaks) mem)
      → ((q : ℕ)
          → (p == q) ≡ false
          → (copies q strongs + owed (at q) x ≡ copies q c.strongs + owed (at q) (c.threads t))
            × (copies q weaks ≡ copies q c.weaks))
      → IsBuffered (record (set c t x mem) { strongs = strongs; weaks = weaks })
  unfolding to_come
  changed c t p x mem strongs weaks b k v u others =
      let c' = record (set c t x mem) { strongs = strongs; weaks = weaks } in
      record {
        cells = update_cells p c c' k u λ q e.
            (omega (arith, owed_all-set (at q) n t x c.threads b, (others q e).0), (others q e).1);
        threads_valid = set_thread-IsThread c t x k v;
      }

  -- a step of the thread `t` that changes no object
  pub moved :
      (c : Client D) (t : ℕ) (x : Thread) (strongs : List ℕ)
      → t < n
      → IsBuffered c
      → IsThread x
      → ((q : ℕ)
          → copies q strongs + owed (at q) x ≡ copies q c.strongs + owed (at q) (c.threads t))
      → IsBuffered (record (set c t x c.memory) { strongs = strongs })
  unfolding to_come
  moved c t x strongs b k v same = record {
    cells = λ q.
        let e : copies q strongs + owed_all (at q) n (set_thread t x c.threads) ≡ to_come c q =
          omega (arith, owed_all-set (at q) n t x c.threads b, same q) in
        rw e (k.cells q);
    threads_valid = set_thread-IsThread c t x k v;
  }

  pub new-IsBuffered :
      (c : Client D) (p : ℕ) (d : D)
      → 1 < 2 ^ w
      → IsBuffered c
      → c.memory p ≡ none
      → IsBuffered (record c { memory = new p d c.memory; strongs = p ∷ c.strongs })
  unfolding to_come copies
  new-IsBuffered c p d h k free =
      let (a, b) = subst (λ o. CellOk w o (to_come c p) (copies p c.weaks)) free (k.cells p) in
      let c' : Client D = record c { memory = new p d c.memory; strongs = p ∷ c.strongs } in
      let one : to_come c' p ≡ 1 = ground arith in
      record {
        cells =
            update_cells p c c' k (rw one (rw b (new-Updates w p c.memory d h)))
              λ q e. (ground arith, refl);
        threads_valid = k.threads_valid;
      }
