-- ===== src/Tests/Tlc.antt =====
-- The theorems on deferred counts with 64-bit counters and two threads: an object is made at address 5
-- and gets a weak handle; thread 0 drops the strong handle and puts the decrement off; thread 1 upgrades the
-- weak handle; thread 0 exits, and has one decrement to apply.
use hirpdag.Base.{
  ℕ, ◌+◌, ◌<◌, ◌≡◌, ◌↔◌, refl, Bool, true, false, Option, none, some, [], ◌∷◌, arith, Returns,
}
use hirpdag.Base.HashMap
use hirpdag.Ref.Tlc
use hirpdag.Ref.Tlc.Handles
use hirpdag.Ref.Tlc.{Memory, Thread, new_thread, release_strong, exit_thread}
use hirpdag.Ref.Tlc.Client.{
  Client, Steps, made, downgraded, dropped, upgraded, exited, done, step, start, erase, copies, set,
  applied_entry,
}
use hirpdag.Ref.Tlc.Buffered.{IsBuffered}
use hirpdag.Ref.Tlc.Drained.{ExitSteps, AllIdle, exits-free}
use hirpdag.Ref.Tlc.Handles.{new, strong_deref, strong_drop, weak_downgrade, weak_upgrade}
use hirpdag.Ref.Tlc.Steps.{Steps-IsBuffered, Steps-succeed, release_strong_succeeds}

abbrev memory_of : Option (Memory ℕ) → Memory ℕ
memory_of none = λ p. none
memory_of (some mem) = mem

abbrev dropped_of : Option (Thread × Memory ℕ) → Thread × Memory ℕ
dropped_of none = (new_thread, λ p. none)
dropped_of (some r) = r

abbrev upgraded_of : Option (Bool × Thread × Memory ℕ) → Bool × Thread × Memory ℕ
upgraded_of none = (false, new_thread, λ p. none)
upgraded_of (some r) = r

abbrev one : Client ℕ
one = record (start {D = ℕ}) { memory = new 5 7 (start {D = ℕ}).memory; strongs = 5 ∷ [] }

abbrev two : Client ℕ
two = record one { memory = memory_of (weak_downgrade 64 5 one.memory); weaks = 5 ∷ [] }

abbrev after_drop : Thread × Memory ℕ
after_drop = dropped_of (strong_drop 64 5 (two.threads 0) two.memory)

abbrev three : Client ℕ
three = record (set two 0 after_drop.0 after_drop.1) { strongs = [] }

abbrev after_upgrade : Bool × Thread × Memory ℕ
after_upgrade = upgraded_of (weak_upgrade 64 (1 ∷ []) 5 (three.threads 1) three.memory)

abbrev four : Client ℕ
four = record (set three 1 after_upgrade.1 after_upgrade.2) { strongs = 5 ∷ [] }

abbrev five : Client ℕ
five = set four 0 (exit_thread (four.threads 0)) four.memory

five-Steps : Steps 64 2 start five
unfolding new weak_downgrade strong_drop weak_upgrade Tlc.set_cell Tlc.fetch_add_one Tlc.tlc_defer
    Tlc.defer Tlc.count_of Tlc.tlc_consume Tlc.consume Tlc.to_apply HashMap.lookup HashMap.insert
    erase Handles.upgrade_shared Handles.upgrade_loop
five-Steps =
    let s1 : Steps 64 2 start one = step done (made 5 7 refl) in
    let s2 : Steps 64 2 start two =
      step s1 (downgraded 5 two.memory (0, refl) (omega arith) refl) in
    let s3 : Steps 64 2 start three =
      step s2 (dropped 0 0 5 after_drop.0 after_drop.1 (omega arith) refl refl) in
    let s4 : Steps 64 2 start four = step s3 (
      upgraded 1 5 (1 ∷ []) true after_upgrade.1 after_upgrade.2 (omega arith) (0, refl)
        (omega arith) refl) in
    step s4 (exited 0 (omega arith))

Steps-IsBuffered_example : IsBuffered 64 2 five
Steps-IsBuffered_example = Steps-IsBuffered 64 2 (omega arith) five-Steps

Steps-succeed_example :
    ((d : ℕ) × (strong_deref 5 five.memory ≡ some d))
    × Returns
        (strong_drop 64 5 (five.threads 0) five.memory)
        (λ r. IsBuffered 64 2 (record (set five 0 r.0 r.1) { strongs = erase 0 five.strongs }))
unfolding new weak_downgrade strong_drop weak_upgrade Tlc.set_cell Tlc.fetch_add_one Tlc.tlc_defer
    Tlc.defer Tlc.count_of Tlc.tlc_consume Tlc.consume Tlc.to_apply Tlc.exit_thread Tlc.take_pending
    HashMap.lookup HashMap.insert erase Handles.upgrade_shared Handles.upgrade_loop
Steps-succeed_example = Steps-succeed 64 2 (omega arith) 0 0 5 five-Steps (omega arith) refl

release_strong_succeeds_example :
    Returns
      (release_strong 64 5 1 five.memory)
      (λ mem. IsBuffered 64 2 (set five 0 (applied_entry 0 (five.threads 0)) mem))
unfolding new weak_downgrade strong_drop weak_upgrade Tlc.set_cell Tlc.fetch_add_one Tlc.tlc_defer
    Tlc.defer Tlc.count_of Tlc.tlc_consume Tlc.consume Tlc.to_apply Tlc.exit_thread Tlc.take_pending
    HashMap.lookup HashMap.insert erase Handles.upgrade_shared Handles.upgrade_loop
release_strong_succeeds_example =
    release_strong_succeeds 64 2 (omega arith) 0 0 5 1 five-Steps (omega arith) refl

exits-free_example :
    (c' : Client ℕ) × Steps 64 2 five c'
    × ExitSteps 64 2 five c'
    × AllIdle 2 c'.threads
    × (c'.strongs ≡ five.strongs)
    × (c'.weaks ≡ five.weaks)
    × ((p : ℕ)
        → (((d : ℕ) × (strong_deref p c'.memory ≡ some d)) ↔ (0 < copies p five.strongs))
          × ((c'.memory p ≡ none) ↔ (copies p five.strongs + copies p five.weaks ≡ 0)))
exits-free_example = exits-free 64 2 (omega arith) five-Steps
