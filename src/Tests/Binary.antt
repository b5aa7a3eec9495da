-- ===== src/Tests/Binary.antt =====
-- The theorem on binary archives, on the nodes of Tests.Archive, with the formats of Tests.Header and
-- Tests.Codec.
use hirpdag.Base.{◌≡◌, refl, none, some, List, [], ◌∷◌, ◌++◌, ℕ, ok, Returns, sym}
use mathlib.Core.Path.{subst}
use hirpdag.Serialize.Archive.{ArchiveWire, serialize_archive}
use hirpdag.Serialize.Binary.{binary_run, hirpdag_deserialize-hirpdag_serialize}
use hirpdag.Serialize.Collect.{HirpdagArchiveNode}
use hirpdag.Serialize.Denoted.{live_denoted}
use hirpdag.Serialize.Entry.{hirpdag_serialize, hirpdag_deserialize}
use hirpdag.Serialize.Header.{HirpdagSchemaFingerprint, hirpdag_magic, hirpdag_write_binary_header}
use hirpdag.Serialize.Json.{thread_of, Restored}
use hirpdag.Serialize.Ordered.{collect_archive-IsCollected}
use hirpdag.Serialize.RoundTrip.{archive_of, serialize_archive_lem}
use hirpdag.Tests.Archive.{
  nodes_of, pair, pair-Ready, roots, roots_below, roots_ok, root_types, start, start-Ready, runs,
  entries, seen,
}
use hirpdag.Tests.Codec.{binary, write_archive}
use hirpdag.Tests.Header.{postcard}

abbrev fingerprint : HirpdagSchemaFingerprint
fingerprint = record { hash = 7; name = 97 ∷ [] }

abbrev archive : ArchiveWire
archive = archive_of (nodes_of.view pair.1) entries seen roots

abbrev bytes : List ℕ
bytes = (hirpdag_magic ++ (7 ∷ 1 ∷ 97 ∷ [])) ++ write_archive archive

archive_run :
    serialize_archive (nodes_of.view pair.1).creation_id (some seen) entries roots ≡ ok archive
archive_run =
    let nodes = nodes_of.view pair.1 in
    let ((es, sn), run, (k, reached)) =
      collect_archive-IsCollected nodes (nodes_of.valid-IsDag 8 pair.1 pair-Ready) pair.1.state
        roots roots_below in
    let same : (entries ≡ es) × (seen ≡ sn) = let (a, b, c) = runs in (cc, cc) in
    subst
      (λ (x : List HirpdagArchiveNode × List (ℕ × ℕ)).
        serialize_archive nodes.creation_id (some x.1) x.0 roots
        ≡ ok (archive_of nodes x.0 x.1 roots))
      (sym (λ i. (same.0 i, same.1 i))) (serialize_archive_lem nodes sn es roots k reached)

serialize_run :
    hirpdag_serialize nodes_of postcard fingerprint binary pair.1.state roots
      (thread_of none none pair.1)
    ≡ some (ok bytes, thread_of none none pair.1)
unfolding hirpdag_write_binary_header
serialize_run =
    binary_run nodes_of nodes_of root_types postcard binary fingerprint pair.1.state roots pair.1 8
      pair-Ready roots_below none entries seen runs.2 archive_run

hirpdag_deserialize-hirpdag_serialize_example :
    Returns
      (hirpdag_deserialize nodes_of root_types postcard fingerprint binary bytes
        (thread_of none none start))
      (Restored nodes_of nodes_of root_types binary pair.1.state roots pair.1 8 pair-Ready
        roots_below roots_ok 8 none start
        (live_denoted
          (nodes_of.view pair.1)
          (nodes_of.valid-IsDag 8 pair.1 pair-Ready)
          pair.1.state
          roots
          roots_below).0)
hirpdag_deserialize-hirpdag_serialize_example =
    hirpdag_deserialize-hirpdag_serialize nodes_of nodes_of root_types postcard binary fingerprint
      pair.1.state roots pair.1 8 pair-Ready roots_below roots_ok fingerprint 8 bytes entries seen
      none none (thread_of none none pair.1) start
      (live_denoted (nodes_of.view pair.1) (nodes_of.valid-IsDag 8 pair.1 pair-Ready) pair.1.state
        roots roots_below).0
      serialize_run refl runs.2 start-Ready
      (live_denoted (nodes_of.view pair.1) (nodes_of.valid-IsDag 8 pair.1 pair-Ready) pair.1.state
        roots roots_below).1
