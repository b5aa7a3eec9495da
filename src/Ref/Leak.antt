-- ===== src/Ref/Leak.antt =====
-- The handles of hirpdag_hashconsing/src/reference/leak.rs: boxes that are never freed. Strong and weak
-- handles are both the raw pointer, so that every duplicate is the same address.
pub mod Shares
use hirpdag.Base.{ℕ, ◌+◌, Bool, Option, some, ◌==◌, if◌then◌else◌}

-- the boxes, by address
pub record Memory (D : Type 0) : Type 0 where
  pub next : ℕ
  pub boxes : ℕ → Option D

module _ {D : Type 0} where
  unfoldable pub new : D → Memory D → ℕ × Memory D
  new d m =
      (m.next, record { next = m.next + 1; boxes = λ q. if m.next == q then some d else m.boxes q })

  -- `none` is a pointer to nothing
  unfoldable pub strong_deref : Memory D → ℕ → Option D
  strong_deref m p = m.boxes p

unfoldable pub duplicate : ℕ → ℕ
duplicate p = p

unfoldable pub strong_clone : ℕ → ℕ
unfolding duplicate
strong_clone p = duplicate p

unfoldable pub strong_ptr_eq : ℕ → ℕ → Bool
strong_ptr_eq a b = a == b

unfoldable pub weak_upgrade : ℕ → Option ℕ
unfolding duplicate
weak_upgrade p = some (duplicate p)

unfoldable pub weak_downgrade : ℕ → ℕ
unfolding duplicate
weak_downgrade p = duplicate p
