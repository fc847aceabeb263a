-- ===== src/Od/Configured.antt =====
-- `get_configured_cns` of crates/powerlink-rs/src/od/mod.rs.
use powerlink_rs.Common.{
  ℕ, suc, Bool, false, ◌+◌, ◌%◌, bit_and, ◌==◌, not, ◌&&◌, if◌then◌else◌, none, some, List, [], ◌∷◌,
}
use powerlink_rs.Common.BTree
use powerlink_rs.Od.Value.{ObjectValue, unsigned32}
use powerlink_rs.Od.Entry.{Object, array}
use powerlink_rs.Od.Dictionary.{ObjectDictionary}

-- Bit 0 of an assignment says that the node exists, bit 8 that it is not isochronous.
abbrev pub is_configured : ObjectValue → Bool
is_configured (unsigned32 assignment) =
    not (bit_and assignment 1 == 0) && bit_and assignment 256 == 0
is_configured _ = false

-- The loop over the assignments from position `i` on; `(i + 1) as u8` wraps.
unfoldable pub configured_cns : ℕ → List ObjectValue → List ℕ
configured_cns i [] = []
configured_cns i (v ∷ vs) =
    let rest = configured_cns (suc i) vs in if is_configured v then (i + 1) % 256 ∷ rest else rest

abbrev pub object_cns : Object → List ℕ
object_cns (array values) = configured_cns 0 values
object_cns _ = []

unfoldable pub get_configured_cns : {S : Type 0} → ObjectDictionary S → List ℕ
unfolding configured_cns
get_configured_cns od = elim (BTree.get 0x1F81 od.entries) [
  | none ↦ []
  | some entry ↦ object_cns entry.object
]
