-- ===== src/Ref/Leak/Shares.antt =====
-- Leaked handles against the counted ones of Ref, in a program that drops nothing.
use hirpdag.Base.{
  ℕ, ◌+◌, ◌<◌, ◌≡◌, ◌≢◌, refl, sym, ap, ◌∙◌, Option, none, some, List, [], ◌∷◌, arith,
}
use hirpdag.Ref
use hirpdag.Ref.{Heap}
use hirpdag.Ref.Laws.{
  retain, strong_clone_lem, weak_upgrade_lem, strong_deref-new, strong_deref-retain, next-retain,
  next-new,
}
use hirpdag.Ref.Leak
use hirpdag.Ref.Leak.{Memory}

pub data Op (D : Type 0) : Type 0 where
  make : D → Op D
  clone : ℕ → Op D
  downgrade : ℕ → Op D
  upgrade : ℕ → Op D

module _ {D : Type 0} where
  abbrev pub counted : Op D → Heap D → Option ℕ × Heap D
  counted (make d) h = let (p, h') = Ref.new d h in (some p, h')
  counted (clone p) h = let (q, h') = Ref.strong_clone p h in (some q, h')
  counted (downgrade p) h = (some (Ref.weak_downgrade p), h)
  counted (upgrade p) h = Ref.weak_upgrade p h

  abbrev pub leaked : Op D → Memory D → Option ℕ × Memory D
  leaked (make d) m = let (p, m') = Leak.new d m in (some p, m')
  leaked (clone p) m = (some (Leak.strong_clone p), m)
  leaked (downgrade p) m = (some (Leak.weak_downgrade p), m)
  leaked (upgrade p) m = (Leak.weak_upgrade p, m)

  -- the handle of a step is one that was made before
  abbrev pub RefersBelow : ℕ → Op D → Type 0
  RefersBelow n (make d) = Unit
  RefersBelow n (clone p) = p < n
  RefersBelow n (downgrade p) = p < n
  RefersBelow n (upgrade p) = p < n

  pub record Agrees (h : Heap D) (m : Memory D) : Type 0 where
    pub same_next : h.next ≡ m.next
    pub same_data : (p : ℕ) → Ref.strong_deref h p ≡ Leak.strong_deref m p
    pub all_live : (p : ℕ) → p < m.next → Ref.strong_deref h p ≢ none

  retain-Agrees :
      (h : Heap D) (m : Memory D) (p : ℕ) → p < m.next → Agrees h m → Agrees (retain p h) m
  retain-Agrees h m p b a = record {
    same_next = next-retain h p ∙ a.same_next;
    same_data = λ q. strong_deref-retain h p q (a.all_live p b) ∙ a.same_data q;
    all_live = λ q c e. a.all_live q c (sym (strong_deref-retain h p q (a.all_live p b)) ∙ e);
  }

  new-Agrees :
      (d : D) (h : Heap D) (m : Memory D) → Agrees h m → Agrees (Ref.new d h).1 (Leak.new d m).1
  unfolding Leak.new Leak.strong_deref
  new-Agrees d h m a = record {
    same_next = next-new d h ∙ ap (λ n. n + 1) a.same_next;
    same_data = λ q.
        let e = strong_deref-new d h q in
        let f = a.same_data q in let n = a.same_next in ground arith;
    all_live = λ q c.
        let e = strong_deref-new d h q in
        let n = a.same_next in let l = a.all_live q in ground arith;
  }

  upgrade_live :
      (h : Heap D) (p : ℕ)
      → Ref.strong_deref h p ≢ none
      → Ref.weak_upgrade p h ≡ (some p, retain p h)
  upgrade_live h p l = let e = weak_upgrade_lem h p in ground arith

  step-Agrees :
      (op : Op D) (h : Heap D) (m : Memory D)
      → RefersBelow m.next op
      → Agrees h m
      → ((counted op h).0 ≡ (leaked op m).0) × Agrees (counted op h).1 (leaked op m).1
  unfolding Leak.new Leak.strong_clone Leak.weak_downgrade Leak.weak_upgrade Leak.duplicate Ref.new
      Ref.weak_downgrade
  step-Agrees (make d) h m b a = (ap some a.same_next, new-Agrees d h m a)
  step-Agrees (clone p) h m b a = rw (strong_clone_lem h p) (refl, retain-Agrees h m p b a)
  step-Agrees (downgrade p) h m b a = (refl, a)
  step-Agrees (upgrade p) h m b a =
      rw (upgrade_live h p (a.all_live p b)) (refl, retain-Agrees h m p b a)

  unfoldable pub run_counted : List (Op D) → Heap D → List (Option ℕ) × Heap D
  run_counted [] h = ([], h)
  run_counted (op ∷ ops) h =
      let (r, h') = counted op h in let (rs, h'') = run_counted ops h' in (r ∷ rs, h'')

  unfoldable pub run_leaked : List (Op D) → Memory D → List (Option ℕ) × Memory D
  run_leaked [] m = ([], m)
  run_leaked (op ∷ ops) m =
      let (r, m') = leaked op m in let (rs, m'') = run_leaked ops m' in (r ∷ rs, m'')

  -- every step uses handles to objects made before it
  unfoldable pub RefersMade : List (Op D) → Memory D → Type 0
  RefersMade [] m = Unit
  RefersMade (op ∷ ops) m = RefersBelow m.next op × RefersMade ops (leaked op m).1

  -- A program that makes, clones, downgrades and upgrades handles and drops none gets the same handles
  -- and the same data from leaked references as from counted ones, from memories that agree; and every
  -- object that was made is there at the end.
  pub run_leaked-run_counted :
      (ops : List (Op D)) (h : Heap D) (m : Memory D)
      → RefersMade ops m
      → Agrees h m
      → ((run_counted ops h).0 ≡ (run_leaked ops m).0)
        × Agrees (run_counted ops h).1 (run_leaked ops m).1
  unfolding run_counted run_leaked RefersMade
  run_leaked-run_counted [] h m b a = (refl, a)
  run_leaked-run_counted (op ∷ ops) h m b a =
      let (e, a') = step-Agrees op h m b.0 a in
      let (es, a'') = run_leaked-run_counted ops (counted op h).1 (leaked op m).1 b.1 a' in
      (λ i. e i ∷ es i, a'')
