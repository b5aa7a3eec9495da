-- ===== src/Tests/Leak.antt =====
-- Leaked and counted handles, run on one program.
use hirpdag.Base.{ℕ, ◌≡◌, refl, none, some, List, [], ◌∷◌, arith}
use hirpdag.Ref
use hirpdag.Ref.{Heap}
use hirpdag.Ref.Leak
use hirpdag.Ref.Leak.{Memory}
use hirpdag.Ref.Leak.Shares.{
  Op, make, clone, downgrade, upgrade, run_counted, run_leaked, RefersMade, Agrees,
  run_leaked-run_counted,
}
use hirpdag.Tests.Preset.{no_objects}

abbrev no_boxes : Memory ℕ
no_boxes = record { next = 0; boxes = λ _. none }

-- two objects; the second is downgraded, upgraded and cloned
abbrev program : List (Op ℕ)
program = make 4 ∷ make 7 ∷ downgrade 1 ∷ upgrade 1 ∷ clone 0 ∷ []

program-RefersMade : RefersMade program no_boxes
unfolding RefersMade Leak.new
program-RefersMade = (tt, (tt, (omega arith, (omega arith, (omega arith, tt)))))

empty-Agrees : Agrees no_objects no_boxes
unfolding Ref.strong_deref Leak.strong_deref
empty-Agrees = record {
  same_next = refl;
  same_data = λ p. refl;
  all_live = λ p b. absurd (omega arith);
}

program_run : (run_leaked program no_boxes).0 ≡ some 0 ∷ some 1 ∷ some 1 ∷ some 1 ∷ some 0 ∷ []
unfolding run_leaked Leak.new Leak.strong_clone Leak.weak_downgrade Leak.weak_upgrade Leak.duplicate
program_run = refl

run_leaked-run_counted_example :
    ((run_counted program no_objects).0 ≡ (run_leaked program no_boxes).0)
    × Agrees (run_counted program no_objects).1 (run_leaked program no_boxes).1
run_leaked-run_counted_example =
    run_leaked-run_counted program no_objects no_boxes program-RefersMade empty-Agrees
