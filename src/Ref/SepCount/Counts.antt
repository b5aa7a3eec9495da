-- ===== src/Ref/SepCount/Counts.antt =====
-- The counters below their largest value, and the retry loop of `strong_upgrade`.
use native.Mathlib.Nat.{mod-eq_of_lt, add-mod_right}
use hirpdag.Base.{◌∙◌, ℕ, zero, suc, ◌+◌, ◌-◌, ◌^◌, ◌<◌, ◌≡◌, refl, [], arith, replicate}
use hirpdag.Ref.SepCount.{fetch_add_one, fetch_sub_one, upgrade_loop}

pub fetch_add_one-lt : (w n : ℕ) → n + 1 < 2 ^ w → fetch_add_one w n ≡ n + 1
unfolding fetch_add_one
fetch_add_one-lt w n h = mod-eq_of_lt h

pub fetch_sub_one-suc : (w n : ℕ) → n + 1 < 2 ^ w → fetch_sub_one w (n + 1) ≡ n
unfolding fetch_sub_one
fetch_sub_one-suc w n h =
    let e : n + 1 + (2 ^ w - 1) ≡ n + 2 ^ w = omega arith in
    rw e (add-mod_right n (2 ^ w) ∙ mod-eq_of_lt (omega arith))

pub upgrade_loop_retry : (w n k : ℕ) → upgrade_loop w n (replicate k n) ≡ upgrade_loop w n []
unfolding upgrade_loop
upgrade_loop_retry w n zero = refl
upgrade_loop_retry w n (suc k) = ground (arith, upgrade_loop_retry w n k)
