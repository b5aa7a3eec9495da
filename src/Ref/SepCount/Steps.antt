-- ===== src/Ref/SepCount/Steps.antt =====
-- What holds of the handles of reference/sepcount.rs whatever a program does with them.
use hirpdag.Base.{
  ℕ, ◌+◌, ◌<◌, ◌≡◌, ◌↔◌, Option, none, some, ◌∷◌, ◌==◌, if◌then◌else◌, arith, Returns, get_elem?,
}
use mathlib.Core.Path.{subst}
use native.Mathlib.Nat.{one-le-pow}
use hirpdag.Ref.SepCount.Client.{
  Client, HasRoom, Mem, Step, Steps, made, cloned, dropped, downgraded, upgraded, refused,
  weak_dropped, done, step, start, holders, remove,
}
use hirpdag.Ref.SepCount.Counted.{
  IsCounted, start-IsCounted, new-IsCounted, strong_clone-IsCounted, weak_downgrade-IsCounted,
}
use hirpdag.Ref.SepCount.Drops.{strong_drop-IsCounted, weak_drop-IsCounted}
use hirpdag.Ref.SepCount.Handles.{RefSep, new, strong_deref, strong_drop, weak_upgrade}
use hirpdag.Ref.SepCount.Pool.{arena, occurs}
use hirpdag.Ref.SepCount.Upgrades.{weak_upgrade-Upgraded, live, gone}

-- An operation that returns `x` has the result that the lemmas speak of.
returned : {A : Type 0} {P : A → Type 0} (o : Option A) (x : A) → o ≡ some x → Returns o P → P x
returned {P} o x e (y, f, p) = let same : y ≡ x = cc in subst P same p

module _ {D : Type 0} (w : ℕ) where
  Step-IsCounted : {c c' : Client D} → Step w c c' → IsCounted w c → IsCounted w c'
  Step-IsCounted {c} (made p d r st room free e) k =
      returned (new p d c.store) (r, st) e (new-IsCounted w p d c k room free)
  Step-IsCounted {c} (cloned r m room) k = strong_clone-IsCounted w c r k room m
  Step-IsCounted {c} (dropped i r st m e) k =
      returned (strong_drop w r c.store) st e (strong_drop-IsCounted w c i r k m)
  Step-IsCounted {c} (downgraded r m room) k = weak_downgrade-IsCounted w c r k room m
  Step-IsCounted {c} (upgraded failures r q m room e) k =
      elim (weak_upgrade-Upgraded w failures c r k room m) [
        | live f n k' ↦
            let same : r ≡ q = cc in
            subst
              (λ x. IsCounted w (record c {
                store = (weak_upgrade w failures r c.store).1;
                strongs = x ∷ c.strongs;
              }))
              same k'
        | gone f n k' ↦ cc
      ]
  Step-IsCounted {c} (refused failures r m room e) k =
      elim (weak_upgrade-Upgraded w failures c r k room m) [ live f n k' ↦ cc | gone f n k' ↦ k' ]
  Step-IsCounted {c} (weak_dropped i r m) k = weak_drop-IsCounted w c i r k m

  -- Whatever a program does with handles, fewer than `2 ^ w` at a time: each slot's counts are those
  -- of the handles that are held, the free list has the unused slots once, and the boxes that are
  -- there are those of the strong handles, each with its own slot.
  pub Steps-IsCounted : {c : Client D} → Steps w start c → IsCounted w c
  Steps-IsCounted done = start-IsCounted w (one-le-pow w 2 (omega arith))
  Steps-IsCounted (step before s) = Step-IsCounted s (Steps-IsCounted before)

  -- After any steps, a slot of the arena stands on the free list once if no handle has it, and
  -- else does not stand there; and a box is there exactly if a strong handle points to it.
  pub freed_iff :
      {c : Client D} (s p : ℕ)
      → Steps w start c
      → s < arena c.store.pool
      → (occurs s c.store.pool.free
          ≡ (if holders s c.strongs + holders s c.weaks == 0 then 1 else 0))
        × (((d : D) × (c.store.boxes p ≡ some d))
            ↔ ((r : RefSep) × Mem r c.strongs × (r.data_at ≡ p)))
  freed_iff {c} s p before inside =
      let k = Steps-IsCounted before in
      (
        ground (arith, k.pool_valid.free_once s inside, k.weak_count s),
        (
          (λ (d, e). k.paired.owned p d e),
          (λ (r, m, e).
              let (d, f) = k.paired.boxed r m in (d, subst (λ q. c.store.boxes q ≡ some d) e f)),
        ),
      )

  -- After any steps, a strong handle still finds its data, its drop does not free what is freed
  -- already, and a new object always gets a slot.
  pub Steps-returns :
      {c : Client D} (i p : ℕ) (d : D) (r : RefSep)
      → Steps w start c
      → HasRoom w c
      → get_elem? c.strongs i ≡ some r
      → c.store.boxes p ≡ none
      → ((e : D) × (strong_deref r c.store ≡ some e))
        × Returns
            (strong_drop w r c.store)
            (λ st. IsCounted w (record c { store = st; strongs = remove i c.strongs }))
        × Returns
            (new p d c.store)
            (λ x. IsCounted w (record c { store = x.1; strongs = x.0 ∷ c.strongs }))
  unfolding strong_deref
  Steps-returns {c} i p d r before room m free =
      let k = Steps-IsCounted before in
      (
        k.paired.boxed r (i, m),
        strong_drop-IsCounted w c i r k m,
        new-IsCounted w p d c k room free,
      )
