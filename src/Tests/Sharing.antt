-- ===== src/Tests/Sharing.antt =====
-- The theorems on sharing, at two nodes of the default preset.
use Prim.Native.Nat.{Ordering}
use hirpdag.Base.{Bool, ◌⊎◌, ◌≡◌, ◌↔◌, refl, true, false, some, arith, Returns}
use hirpdag.Hashcons.{
  storage_key, hirpdag_hashcons, compute_hirpdag_meta, storage_of, ref_eq, ref_cmp,
}
use hirpdag.Hashcons.Created.{Consed, hirpdag_hashcons-Consed, compute_hirpdag_meta-Completes}
use hirpdag.Hashcons.Numbered.{
  Calls, IsHashconsed, built-IsHashconsed, Calls-IsHashconsed, hashconsed, here, next,
}
use hirpdag.Hashcons.Order.{ref_cmp_order, ref_cmp-hashcons}
use hirpdag.Ref.{strong_ptr_eq, strong_deref}
use hirpdag.Ref.Laws.{retain}
use hirpdag.Table.Canonical
use hirpdag.Table.Canonical.{World, Reach, interned, dropped, was_reset}
use hirpdag.Table.Canonical.Sharing.{Reach-Survives, interned_again, strong_ptr_eq-iff-equal}
use hirpdag.Table.Canonical.Steps.{Keeps, Survives}
use hirpdag.Tests.Preset.{small_hasher, no_objects, nat_key}
use hirpdag.Tests.Runs.{State, my, leaf_meta, start, one, two, runs, made, node_of}

start-IsHashconsed : IsHashconsed small_hasher my start
unfolding strong_deref
start-IsHashconsed = built-IsHashconsed small_hasher my no_objects 7 (λ p s l. cc)

one-two : {resets : Bool} → Reach my resets one two
unfolding hirpdag_hashcons
one-two = Canonical.next Canonical.here (
    interned (compute_hirpdag_meta leaf_meta) (compute_hirpdag_meta-Completes leaf_meta)
      (storage_of 9) 1 runs.1)

strong_ptr_eq-iff-equal_example : Returns (made two 9) λ r. strong_ptr_eq 0 r.0 ≡ false
unfolding hirpdag_hashcons storage_of
strong_ptr_eq-iff-equal_example =
    strong_ptr_eq-iff-equal my (compute_hirpdag_meta leaf_meta) (compute_hirpdag_meta leaf_meta)
      (compute_hirpdag_meta-Completes leaf_meta) start one two (storage_of 5) (storage_of 9) 0
      start-IsHashconsed.canonical runs.0 one-two runs.4

interned_again_example : made two 5 ≡ some (0, two.table, retain 0 two.heap, two.state)
unfolding hirpdag_hashcons storage_of
interned_again_example =
    interned_again my (compute_hirpdag_meta leaf_meta) (compute_hirpdag_meta leaf_meta)
      (compute_hirpdag_meta-Completes leaf_meta) start one two (storage_of 5) (storage_of 5) 0
      start-IsHashconsed.canonical runs.0 one-two runs.4 refl

start-one : Calls small_hasher my start one
start-one = next here (hashconsed leaf_meta 5 0 (omega arith) runs.0)

start-two : Calls small_hasher my start two
start-two = next start-one (hashconsed leaf_meta 9 1 (omega (arith, runs.2)) runs.1)

one-IsHashconsed : IsHashconsed small_hasher my one
one-IsHashconsed = Calls-IsHashconsed small_hasher my start one start-IsHashconsed start-one

two-IsHashconsed : IsHashconsed small_hasher my two
two-IsHashconsed = Calls-IsHashconsed small_hasher my start two start-IsHashconsed start-two

Calls-IsHashconsed_example : IsHashconsed small_hasher my two
Calls-IsHashconsed_example =
    Calls-IsHashconsed small_hasher my start two start-IsHashconsed start-two

hirpdag_hashcons-Consed_example : Returns (made two 5) (Consed small_hasher my two leaf_meta 5)
hirpdag_hashcons-Consed_example =
    hirpdag_hashcons-Consed small_hasher my two leaf_meta 5 two-IsHashconsed.canonical

-- the table after a reset, with both nodes still there
abbrev emptied : State
emptied = record two { table = my.reset two.table }

one-emptied : Reach my true one emptied
one-emptied = Canonical.next one-two (was_reset refl refl)

Reach-Survives_example : Survives my one emptied × ((true ≡ true) ⊎ Keeps my one emptied)
Reach-Survives_example = Reach-Survives my true one emptied one-IsHashconsed.canonical one-emptied

ref_cmp_order_example :
    ((ref_cmp two.heap 0 1 ≡ some Ordering.eq) ↔ (ref_eq 0 1 ≡ true))
    × ((ref_cmp two.heap 0 1 ≡ some Ordering.lt) ↔ (ref_cmp two.heap 1 0 ≡ some Ordering.gt))
    × (ref_cmp two.heap 0 1 ≡ some Ordering.lt
        → ref_cmp two.heap 1 1 ≡ some Ordering.lt
        → ref_cmp two.heap 0 1 ≡ some Ordering.lt)
ref_cmp_order_example =
    ref_cmp_order two.heap two.state two-IsHashconsed.numbered 0 1 1 (node_of 5 7) (node_of 9 8)
      (node_of 9 8) runs.6 runs.7 runs.7

ref_cmp-hashcons_example : ref_cmp two.heap 0 1 ≡ some Ordering.lt
ref_cmp-hashcons_example =
    ref_cmp-hashcons small_hasher my one two leaf_meta 9 1 0 (node_of 5 7) one-IsHashconsed runs.1
      runs.8 runs.5
