-- ===== src/Od/Names.antt =====
-- `ObjectDictionary::find_by_name` of crates/powerlink-rs/src/od/mod.rs. The UTF-8 bytes of a text
-- are the parameter `text_bytes`.
use Prim.Native.String.{String}
use powerlink_rs.Common.{ℕ, if◌then◌else◌, Option, none, some, List, [], ◌∷◌}
use powerlink_rs.Od.Entry.{ObjectEntry}
use powerlink_rs.Od.Write.{bytes_eq}

module _ (text_bytes : String → List ℕ) where
  unfoldable pub find_by_name : List ℕ → List (ℕ × ObjectEntry) → Option (ℕ × ℕ)
  find_by_name name [] = none
  find_by_name name ((index, entry) ∷ entries) =
      let rest = find_by_name name entries in
      if bytes_eq (text_bytes entry.name) name then some (index, 0) else rest
