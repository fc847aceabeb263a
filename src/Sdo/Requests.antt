-- ===== src/Sdo/Requests.antt =====
-- crates/powerlink-rs/src/sdo/command/base.rs: the payloads of the requests. `none` is a panic.
use powerlink_rs.Common.{
  ℕ, suc, ◌+◌, ◌*◌, ◌%◌, Bool, not, ltb, ◌==◌, if◌then◌else◌, Option, none, some, List, [], ◌∷◌,
  length, get_or, drop, Result, ok, err,
}
use powerlink_rs.Common.Bytes.{slice, inside, read_u16_le}
use powerlink_rs.Hal.{PowerlinkError, sdo_invalid_command_payload}

pub record ReadByIndexRequest : Type 0 where
  pub index : ℕ
  pub sub_index : ℕ

pub record WriteByIndexRequest : Type 0 where
  pub index : ℕ
  pub sub_index : ℕ
  pub content : List ℕ

pub record WriteByNameRequest : Type 0 where
  pub name : List ℕ
  pub content : List ℕ

unfoldable pub read_by_index_from_payload :
    List ℕ → Option (Result ReadByIndexRequest PowerlinkError)
unfolding read_u16_le inside
read_by_index_from_payload payload =
    if ltb (length payload) 4
    then some (err sdo_invalid_command_payload)
    else inside 3 payload
        (ok (record { index = read_u16_le payload 0; sub_index = get_or payload 2 0 }))

unfoldable pub write_by_index_from_payload :
    List ℕ → Option (Result WriteByIndexRequest PowerlinkError)
unfolding read_u16_le inside
write_by_index_from_payload payload =
    if ltb (length payload) 4
    then some (err sdo_invalid_command_payload)
    else inside 4 payload (
        ok (record {
          index = read_u16_le payload 0;
          sub_index = get_or payload 2 0;
          content = drop 4 payload;
        }))

-- `iter().position(|&b| b == 0)`
unfoldable pub zero_position : List ℕ → Option ℕ
zero_position [] = none
zero_position (b ∷ bs) =
    if b == 0 then some 0 else (elim (zero_position bs) [ none ↦ none | some i ↦ some (suc i) ])

abbrev pub position_or : Option ℕ → ℕ → ℕ
position_or none d = d
position_or (some i) d = i

-- The entries of `ReadMultipleParamRequest`: chunks of four bytes.
unfoldable pub param_entries : List ℕ → List ReadByIndexRequest
param_entries (a ∷ b ∷ c ∷ d ∷ rest) =
    record { index = a + b * 256; sub_index = c } ∷ param_entries rest
param_entries (a ∷ b ∷ c ∷ []) = []
param_entries (a ∷ b ∷ []) = []
param_entries (a ∷ []) = []
param_entries [] = []

unfoldable pub read_multiple_from_payload : List ℕ → Result (List ReadByIndexRequest) PowerlinkError
unfolding param_entries
read_multiple_from_payload payload =
    if not (length payload % 4 == 0)
    then err sdo_invalid_command_payload
    else ok (param_entries payload)

-- `String::from_utf8` is the parameter `is_utf8`, its test.
module _ (is_utf8 : List ℕ → Bool) where
  -- `ReadByNameRequest::from_payload`: the name.
  unfoldable pub read_by_name_from_payload : List ℕ → Option (Result (List ℕ) PowerlinkError)
  unfolding zero_position slice
  read_by_name_from_payload payload =
      elim (slice 0 (position_or (zero_position payload) (length payload)) payload) [
        | none ↦ none
        | some name ↦ some (if is_utf8 name then ok name else err sdo_invalid_command_payload)
      ]

  -- The end of the parser by name: the name's text and the bytes after it.
  unfoldable pub with_content :
      (name : List ℕ) (from : ℕ) (payload : List ℕ)
      → Option (Result WriteByNameRequest PowerlinkError)
  unfolding slice
  with_content name from payload =
      if is_utf8 name
      then (elim (slice from (length payload) payload) [
        | none ↦ none
        | some content ↦ some (ok (record { name = name; content = content }))
      ])
      else some (err sdo_invalid_command_payload)

  unfoldable pub write_by_name_from_payload :
      List ℕ → Option (Result WriteByNameRequest PowerlinkError)
  unfolding zero_position slice with_content
  write_by_name_from_payload payload =
      let name_end = position_or (zero_position payload) 0 in
      if name_end == 0
      then some (err sdo_invalid_command_payload)
      else (elim (slice 0 name_end payload) [
        | none ↦ none
        | some name ↦ with_content name (name_end + 1) payload
      ])
