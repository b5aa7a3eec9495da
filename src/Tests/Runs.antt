-- ===== src/Tests/Runs.antt =====
-- Runs of the default preset: two nodes are made, whose data have one hash.
use hirpdag.Base.{ℕ, ◌≡◌, refl, true, Option, none, some}
use hirpdag.Base.HashMap
use hirpdag.Hashcons.{
  HirpdagStorage, storage_key, storage_hasher, hirpdag_hashcons, compute_hirpdag_meta, storage_of,
  fetch_add_one,
}
use hirpdag.Meta.{HirpdagMeta}
use hirpdag.Ref
use hirpdag.Ref.{Heap, strong_deref}
use hirpdag.Ref.Laws.{Live}
use hirpdag.Table.Canonical.{World}
use hirpdag.Table.HashmapFallback
use hirpdag.Table.HashmapFallback.Interns as fallback
use hirpdag.Table.VecLinear
use hirpdag.Table.WeakEntry
use hirpdag.Table.WeakEntry.{alive}
use hirpdag.Table.SharedSharded
use hirpdag.Table.SharedSharded.Interns as sharded
use hirpdag.Table.Shared.{Table}
use hirpdag.Table.SharedSharded.{TableSharedSharded}
use hirpdag.Tests.Preset.{Inner, inner, ops, small_hasher, no_objects, nat_key}

abbrev pub Node : Type 0
Node = HirpdagStorage ℕ

abbrev pub State : Type 0
State = World (TableSharedSharded Inner) Node ℕ

unfoldable pub my :
    Table Node ℕ storage_key (storage_hasher small_hasher) (TableSharedSharded Inner)
my = ops (storage_hasher small_hasher)

abbrev pub leaf_meta : ℕ → HirpdagMeta
leaf_meta d = record { count = 1; height = 1; flags = d }

abbrev pub start : State
start = record { table = my.build_tableshared; heap = no_objects; state = 7 }

abbrev pub after : State → Option (ℕ × TableSharedSharded Inner × Heap Node × ℕ) → State
after w none = w
after w (some (p, t, h, g)) = record { table = t; heap = h; state = g }

abbrev pub made : State → ℕ → Option (ℕ × TableSharedSharded Inner × Heap Node × ℕ)
made w d = hirpdag_hashcons small_hasher my w.table leaf_meta d w.heap w.state

-- 5, and then 9, which has the hash of 5
abbrev pub one : State
one = after start (made start 5)

abbrev pub two : State
two = after one (made one 9)

-- What the nodes hold, and what is returned for them.
abbrev pub node_of : ℕ → ℕ → Node
node_of d id = record { hirpdag_meta = leaf_meta d; hirpdag_creation_id = id; hirpdag_data = d }

pub runs :
    (made start 5 ≡ some (0, one.table, one.heap, one.state))
    × (made one 9 ≡ some (1, two.table, two.heap, two.state))
    × (one.state ≡ 8)
    × (two.state ≡ 9)
    × (alive two.heap 0 ≡ true)
    × Live one.heap 0 (node_of 5 7)
    × Live two.heap 0 (node_of 5 7)
    × Live two.heap 1 (node_of 9 8)
    × (strong_deref one.heap 1 ≡ none)
unfolding my ops inner sharded.table fallback.table VecLinear.table SharedSharded.get_or_insert
    SharedSharded.build_tableshared SharedSharded.make_hash SharedSharded.get_shard
    SharedSharded.shard_index HashmapFallback.get_or_insert HashmapFallback.default
    HashmapFallback.probe_slot HashmapFallback.fill_slot HashmapFallback.fill_vacancy
    HashmapFallback.insert_new HashmapFallback.use_fallback HashmapFallback.purge
    HashmapFallback.retain_alive HashmapFallback.get HashMap.lookup HashMap.insert HashMap.retain
    VecLinear.get_or_insert VecLinear.get VecLinear.linear_search VecLinear.default
    WeakEntry.upgrade_equal WeakEntry.get_data WeakEntry.get WeakEntry.is_alive WeakEntry.upgrades
    WeakEntry.alive WeakEntry.deref_equal Ref.write Ref.new Ref.strong_deref Ref.weak_upgrade
    Ref.weak_downgrade Ref.strong_clone Ref.strong_drop hirpdag_hashcons compute_hirpdag_meta
    storage_of fetch_add_one
runs = (refl, refl, refl, refl, refl, refl, refl, refl, refl)
