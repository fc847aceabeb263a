-- ===== src/Od/Entry.antt =====
-- crates/powerlink-rs/src/od/entry.rs: an entry with its metadata.
use Prim.Native.String.{String}
use powerlink_rs.Common.{List, Option}
use powerlink_rs.Od.Value.{ObjectValue}

pub data Object : Type 0 where
  variable : ObjectValue → Object
  array : List ObjectValue → Object
  rec : List ObjectValue → Object

pub data AccessType : Type 0 where
  read_only write_only write_only_store read_write read_write_store constant : AccessType
  conditional : AccessType

pub data Category : Type 0 where
  mandatory optional conditional : Category

pub data PdoMapping : Type 0 where
  not_mapped optional default : PdoMapping

pub record ValueRange : Type 0 where
  pub min : ObjectValue
  pub max : ObjectValue

pub record ObjectEntry : Type 0 where
  pub object : Object
  pub name : String
  pub category : Category
  pub access : Option AccessType
  pub default_value : Option ObjectValue
  pub value_range : Option ValueRange
  pub pdo_mapping : Option PdoMapping
