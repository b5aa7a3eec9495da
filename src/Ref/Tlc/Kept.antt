-- ===== src/Ref/Tlc/Kept.antt =====
-- Every operation of reference/tlc.rs returns, and keeps the invariant.
use mathlib.Core.Path.{subst}
use hirpdag.Base.{
  ℕ, ◌+◌, ◌<◌, ◌≡◌, inl, inr, refl, Bool, true, some, List, ◌∷◌, get_elem?, if◌then◌else◌, arith,
  Returns,
}
use hirpdag.Ref.Tlc.{Memory, Thread, release_strong, exit_thread}
use hirpdag.Ref.Tlc.Cells.{CellOk, HasRoom, release_strong-Updates}
use hirpdag.Ref.Tlc.Shared.{
  add_strong-Updates, weak_drop-Updates, weak_downgrade-Updates, upgrade_shared-Updates,
}
use hirpdag.Ref.Tlc.Client.{
  Client, Mem, copies, copies-erase, copies-Mem, erase, erase-AllPositive, sum_by-erase, set,
  owed_all-set, applied_entry,
}
use hirpdag.Ref.Tlc.Buffered.{to_come, IsBuffered, changed, moved, update_cells}
use hirpdag.Ref.Tlc.Deferred.{tlc_consume-cases, tlc_defer-cases, exit_thread-Exited}
use hirpdag.Ref.Tlc.Handles.{strong_clone, strong_drop, weak_drop, weak_upgrade, weak_downgrade}
use hirpdag.Ref.Tlc.Owed.{at, owed}

module _ {D : Type 0} (w n : ℕ) (c : Client D) (k : IsBuffered w n c) where
  abbrev pub Kept : Client D → Type 0
  Kept c' = IsBuffered w n c'

  -- `to_come` once the thread `t` is `x` and the handles are `strongs`
  to_come-set :
      (t q : ℕ) (x : Thread) (mem : Memory D) (strongs weaks : List ℕ)
      → t < n
      → to_come w n (record (set c t x mem) { strongs = strongs; weaks = weaks }) q
          + (copies q c.strongs + owed (at q) (c.threads t))
        ≡ to_come w n c q + (copies q strongs + owed (at q) x)
  unfolding to_come
  to_come-set t q x mem strongs weaks b = omega (arith, owed_all-set (at q) n t x c.threads b)

  pub held_to_come : (p : ℕ) → Mem p c.strongs → 0 < to_come w n c p
  unfolding to_come
  held_to_come p m = omega (arith, copies-Mem c.strongs p m)

  pub strong_clone-IsBuffered :
      (t p : ℕ)
      → t < n
      → HasRoom w (c.memory p)
      → Mem p c.strongs
      → Returns
          (strong_clone w p (c.threads t) c.memory)
          (λ r. IsBuffered w n (record (set c t r.0 r.1) { strongs = p ∷ c.strongs }))
  unfolding strong_clone copies
  strong_clone-IsBuffered t p b room m =
      elim (tlc_consume-cases p (c.threads t) (k.threads_valid t)) [
        | inl (x, run, (v, sums)) ↦ (
          (x, c.memory),
          rw run refl,
          moved w n c t x (p ∷ c.strongs) b k v λ q. ground (arith, sums (at q)),
        )
        | inr run ↦
            let x = c.threads t in
            let (mem, add, u) =
              add_strong-Updates w p c.memory (to_come w n c p) (copies p c.weaks)
                (held_to_come p m) room (k.cells p) in
            let e : to_come w n (record (set c t x mem) { strongs = p ∷ c.strongs }) p
                ≡ to_come w n c p + 1 =
              ground (arith, to_come-set t p x mem (p ∷ c.strongs) c.weaks b) in
            (
              (x, mem),
              rw add (rw run refl),
              changed w n c t p x mem (p ∷ c.strongs) c.weaks b k (k.threads_valid t) (rw e u)
                  λ q f. (ground arith, refl),
            )
      ]

  pub exit_thread-IsBuffered :
      (t : ℕ) → t < n → IsBuffered w n (set c t (exit_thread (c.threads t)) c.memory)
  exit_thread-IsBuffered t b =
      let (v, sums, gone) = exit_thread-Exited (c.threads t) (k.threads_valid t) in
      moved w n c t (exit_thread (c.threads t)) c.strongs b k v λ q. omega (arith, sums (at q))

  pub strong_drop-IsBuffered :
      (t i p : ℕ)
      → t < n
      → get_elem? c.strongs i ≡ some p
      → Returns
          (strong_drop w p (c.threads t) c.memory)
          (λ r. IsBuffered w n (record (set c t r.0 r.1) { strongs = erase i c.strongs }))
  unfolding strong_drop
  strong_drop-IsBuffered t i p b m = elim (tlc_defer-cases p (c.threads t) (k.threads_valid t)) [
    | inl (x, run, (v, sums)) ↦ (
      (x, c.memory),
      rw run refl,
      moved w n c t x (erase i c.strongs) b k v
          λ q. omega (arith, sums (at q), copies-erase c.strongs i p q m),
    )
    | inr run ↦
        let x = c.threads t in
        let rest = erase i c.strongs in
        let counts = λ (q : ℕ). copies-erase c.strongs i p q m in
        let s = to_come w n (record (set c t x c.memory) { strongs = rest }) p in
        let e : to_come w n c p ≡ s + 1 =
          ground (arith, counts p, to_come-set t p x c.memory rest c.weaks b) in
        let (mem, release, u) =
          release_strong-Updates w p c.memory s 1 (copies p c.weaks) (omega arith)
            (subst (λ a. CellOk w (c.memory p) a (copies p c.weaks)) e (k.cells p)) in
        let f : to_come w n (record (set c t x mem) { strongs = rest }) p ≡ s = omega (
          arith,
          to_come-set t p x mem rest c.weaks b,
          to_come-set t p x c.memory rest c.weaks b,
        ) in
        (
          (x, mem),
          rw release (rw run refl),
          changed w n c t p x mem rest c.weaks b k (k.threads_valid t) (rw f u)
              λ q d. (ground (arith, counts q), refl),
        )
  ]

  pub release_strong-IsBuffered :
      (t i p a : ℕ)
      → t < n
      → get_elem? (c.threads t).pending i ≡ some (p, a)
      → Returns
          (release_strong w p a c.memory)
          (λ mem. IsBuffered w n (set c t (applied_entry i (c.threads t)) mem))
  unfolding owed
  release_strong-IsBuffered t i p a b m =
      let x = applied_entry i (c.threads t) in
      let valid = k.threads_valid t in
      let (pos, left) = erase-AllPositive (c.threads t).pending i p a m valid.to_apply in
      let sums = λ (q : ℕ). sum_by-erase (at q) (c.threads t).pending i p a m in
      let s = to_come w n (set c t x c.memory) p in
      let e : to_come w n c p ≡ s + a =
        ground (arith, sums p, to_come-set t p x c.memory c.strongs c.weaks b) in
      let (mem, release, u) =
        release_strong-Updates w p c.memory s a (copies p c.weaks) pos
          (subst (λ r. CellOk w (c.memory p) r (copies p c.weaks)) e (k.cells p)) in
      let f : to_come w n (set c t x mem) p ≡ s = omega (
        arith,
        to_come-set t p x mem c.strongs c.weaks b,
        to_come-set t p x c.memory c.strongs c.weaks b,
      ) in
      (
        mem,
        release,
        changed w n c t p x mem c.strongs c.weaks b k
            (record { buffer = valid.buffer; to_apply = left }) (rw f u)
            λ q d. (ground (arith, sums q), refl),
      )

  pub weak_downgrade-IsBuffered :
      (p : ℕ)
      → HasRoom w (c.memory p)
      → Mem p c.strongs
      → Returns
          (weak_downgrade w p c.memory)
          (λ mem. IsBuffered w n (record c { memory = mem; weaks = p ∷ c.weaks }))
  unfolding copies to_come
  weak_downgrade-IsBuffered p room m =
      let (mem, run, u) =
        weak_downgrade-Updates w p c.memory (to_come w n c p) (copies p c.weaks) (held_to_come p m)
          room (k.cells p) in
      let c' : Client D = record c { memory = mem; weaks = p ∷ c.weaks } in
      let e : copies p c'.weaks ≡ copies p c.weaks + 1 = ground arith in
      (
        mem,
        run,
        record {
          cells = update_cells w n p c c' k (rw e u) λ q d. (refl, ground arith);
          threads_valid = k.threads_valid;
        },
      )

  pub weak_drop-IsBuffered :
      (i p : ℕ)
      → get_elem? c.weaks i ≡ some p
      → Returns
          (weak_drop w p c.memory)
          (λ mem. IsBuffered w n (record c { memory = mem; weaks = erase i c.weaks }))
  unfolding to_come
  weak_drop-IsBuffered i p m =
      let rest = erase i c.weaks in
      let counts = λ (q : ℕ). copies-erase c.weaks i p q m in
      let e : copies p c.weaks ≡ copies p rest + 1 = ground (arith, counts p) in
      let (mem, run, u) =
        weak_drop-Updates w p c.memory (to_come w n c p) (copies p rest)
          (subst (λ r. CellOk w (c.memory p) (to_come w n c p) r) e (k.cells p)) in
      let c' : Client D = record c { memory = mem; weaks = rest } in
      (
        mem,
        run,
        record {
          cells = update_cells w n p c c' k u λ q d. (refl, ground (arith, counts q));
          threads_valid = k.threads_valid;
        },
      )

  -- the handles after an upgrade
  abbrev pub with_found : Bool → ℕ → List ℕ → List ℕ
  with_found found p strongs = if found then p ∷ strongs else strongs

  pub weak_upgrade-IsBuffered :
      (t p : ℕ) (stale : List ℕ)
      → t < n
      → HasRoom w (c.memory p)
      → Mem p c.weaks
      → Returns
          (weak_upgrade w stale p (c.threads t) c.memory)
          (λ r. IsBuffered w n (record (set c t r.1 r.2) { strongs = with_found r.0 p c.strongs }))
  unfolding weak_upgrade copies
  weak_upgrade-IsBuffered t p stale b room m =
      elim (tlc_consume-cases p (c.threads t) (k.threads_valid t)) [
        | inl (x, run, (v, sums)) ↦ (
          (true, x, c.memory),
          rw run refl,
          moved w n c t x (p ∷ c.strongs) b k v λ q. ground (arith, sums (at q)),
        )
        | inr run ↦
            let x = c.threads t in
            let ((found, mem), up, (u, live)) =
              upgrade_shared-Updates w p c.memory stale (to_come w n c p) (copies p c.weaks)
                (copies-Mem c.weaks p m) room (k.cells p) in
            let strongs = with_found found p c.strongs in
            let e : to_come w n (record (set c t x mem) { strongs = strongs }) p
                ≡ (if found then to_come w n c p + 1 else to_come w n c p) =
              ground (arith, to_come-set t p x mem strongs c.weaks b) in
            (
              (found, x, mem),
              rw up (rw run refl),
              changed w n c t p x mem strongs c.weaks b k (k.threads_valid t) (rw e u)
                  λ q f. (ground arith, refl),
            )
      ]
