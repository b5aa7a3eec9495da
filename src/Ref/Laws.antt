-- ===== src/Ref/Laws.antt =====
-- Laws of the handles of Ref.
use hirpdag.Base.{ℕ, ◌+◌, ◌≡◌, ◌≢◌, refl, fun_ext, none, some, arith, ◌==◌, if◌then◌else◌}
use hirpdag.Ref.{Heap, write, new, strong_deref, strong_clone, strong_drop, weak_upgrade}

module _ {D : Type 0} where
  -- the object of `p` is there, with this data
  abbrev pub Live : Heap D → ℕ → D → Type 0
  Live h p d = strong_deref h p ≡ some d

  -- one more strong handle on `p`
  unfoldable pub retain : ℕ → Heap D → Heap D
  unfolding strong_clone write
  retain p h = (strong_clone p h).1

  pub strong_clone_lem : (h : Heap D) (p : ℕ) → strong_clone p h ≡ (p, retain p h)
  unfolding strong_clone retain
  strong_clone_lem h p = ground arith

  pub new_address : (d : D) (h : Heap D) → (new d h).0 ≡ h.next
  unfolding new
  new_address d h = refl

  Heap-ext : (h k : Heap D) → h.next ≡ k.next → ((q : ℕ) → h.cell q ≡ k.cell q) → h ≡ k
  Heap-ext h k n c = λ i. record { next = n i; cell = fun_ext c i }

  pub weak_upgrade_lem :
      (h : Heap D) (p : ℕ)
      → weak_upgrade p h
        ≡ (elim (strong_deref h p) [ none ↦ (none, h) | some _ ↦ (some p, retain p h) ])
  unfolding weak_upgrade strong_deref retain
  weak_upgrade_lem h p = ground arith

  -- An upgrade that is dropped again leaves no trace.
  pub strong_drop-retain : (h : Heap D) (p : ℕ) → strong_drop p (retain p h) ≡ h
  unfolding strong_drop retain write
  strong_drop-retain h p =
      Heap-ext (strong_drop p (retain p h)) h (ground arith) (λ q. ground arith)

  pub strong_deref-retain :
      (h : Heap D) (p q : ℕ)
      → strong_deref h p ≢ none
      → strong_deref (retain p h) q ≡ strong_deref h q
  unfolding strong_deref retain
  strong_deref-retain h p q l = ground arith

  pub next-retain : (h : Heap D) (p : ℕ) → (retain p h).next ≡ h.next
  unfolding retain
  next-retain h p = ground arith

  pub strong_deref-new :
      (d : D) (h : Heap D) (q : ℕ)
      → strong_deref (new d h).1 q ≡ (if h.next == q then some d else strong_deref h q)
  unfolding strong_deref new
  strong_deref-new d h q = ground arith

  -- A drop takes away at most the data of its own object.
  pub strong_deref_of_drop :
      (h : Heap D) (p q : ℕ) (d : D) → Live (strong_drop p h) q d → Live h q d
  unfolding strong_deref strong_drop write
  strong_deref_of_drop h p q d l = ground arith

  pub next-drop : (h : Heap D) (p : ℕ) → (strong_drop p h).next ≡ h.next
  unfolding strong_drop
  next-drop h p = ground arith

  pub next-new : (d : D) (h : Heap D) → (new d h).1.next ≡ h.next + 1
  unfolding new
  next-new d h = refl
