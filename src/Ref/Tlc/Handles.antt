-- ===== src/Ref/Tlc/Handles.antt =====
-- The handles of reference/tlc.rs, strong and weak: each is the object's address.
use hirpdag.Base.{ℕ, Bool, true, false, Option, none, some, List, [], ◌∷◌, ◌==◌, if◌then◌else◌}
use hirpdag.Ref.Tlc.{
  Memory, Thread, fetch_add_one, set_cell, weak_release, release_strong, tlc_consume, tlc_defer,
}

-- The loop of `weak_upgrade` on a counter that holds `n`. `stale` has what the load and the
-- exchanges that failed found before. Whether it succeeds, and the counter.
unfoldable pub upgrade_loop : ℕ → ℕ → List ℕ → Bool × ℕ
unfolding fetch_add_one
upgrade_loop w n [] = if n == 0 then (false, n) else (true, fetch_add_one w n)
upgrade_loop w n (old ∷ stale) = elim (old == 0) [
  | true ↦ (false, n)
  | false ↦ upgrade_loop w n stale
]

module _ {D : Type 0} where
  unfoldable pub new : ℕ → D → Memory D → Memory D
  unfolding set_cell
  new p d mem = set_cell p (some (record { strong = 1; weak = 1; value = some d })) mem

  unfoldable pub strong_deref : ℕ → Memory D → Option D
  strong_deref p mem = elim (mem p) [ none ↦ none | some c ↦ c.value ]

  module _ (w : ℕ) where
    -- `inner().strong.fetch_add(1)`, `inner().weak.fetch_add(1)`
    unfoldable pub add_strong : ℕ → Memory D → Option (Memory D)
    unfolding set_cell fetch_add_one
    add_strong p mem = elim (mem p) [
      | none ↦ none
      | some c ↦ some (set_cell p (some (record c { strong = fetch_add_one w c.strong })) mem)
    ]

    unfoldable pub weak_downgrade : ℕ → Memory D → Option (Memory D)
    unfolding set_cell fetch_add_one
    weak_downgrade p mem = elim (mem p) [
      | none ↦ none
      | some c ↦ some (set_cell p (some (record c { weak = fetch_add_one w c.weak })) mem)
    ]

    unfoldable pub strong_clone : ℕ → Thread → Memory D → Option (Thread × Memory D)
    unfolding tlc_consume add_strong
    strong_clone p t mem =
        let (found, t') = tlc_consume p t in
        if found
        then some (t', mem)
        else (elim (add_strong p mem) [ none ↦ none | some mem' ↦ some (t', mem') ])

    unfoldable pub strong_drop : ℕ → Thread → Memory D → Option (Thread × Memory D)
    unfolding tlc_defer release_strong
    strong_drop p t mem =
        let (buffered, t') = tlc_defer p t in
        if buffered
        then some (t', mem)
        else (elim (release_strong w p 1 mem) [ none ↦ none | some mem' ↦ some (t', mem') ])

    unfoldable pub weak_drop : ℕ → Memory D → Option (Memory D)
    unfolding weak_release
    weak_drop p mem = elim (mem p) [ none ↦ none | some c ↦ some (weak_release w p c mem) ]

    -- Whether there is a strong handle, and what is left
    unfoldable pub upgrade_shared : List ℕ → ℕ → Memory D → Option (Bool × Memory D)
    unfolding set_cell upgrade_loop
    upgrade_shared stale p mem = elim (mem p) [
      | none ↦ none
      | some c ↦
          let (ok, n) = upgrade_loop w c.strong stale in
          some (ok, set_cell p (some (record c { strong = n })) mem)
    ]

    unfoldable pub weak_upgrade : List ℕ → ℕ → Thread → Memory D → Option (Bool × Thread × Memory D)
    unfolding tlc_consume upgrade_shared
    weak_upgrade stale p t mem =
        let (found, t') = tlc_consume p t in
        if found then some (true, t', mem) else (elim (upgrade_shared stale p mem) [
          | none ↦ none
          | some (ok, mem') ↦ some (ok, t', mem')
        ])

unfoldable pub strong_ptr_eq : ℕ → ℕ → Bool
strong_ptr_eq a b = a == b
