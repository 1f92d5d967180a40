-- ===== src/Schema.antt =====
-- internal/schemacache/cache.go: the tables and columns that the schema cache holds.
pub mod Facts
pub mod Grants
pub mod Walk
pub mod Snapshot
pub mod Expand
pub mod Privileges
pub mod Tables
pub mod Routines
pub mod Relationship
pub mod Embed
pub mod Resolve
pub mod Copy
pub mod Reload
use myrest.Prelude.{Bool, Option, List, [], ◌∷◌, none, some, if◌then◌else◌}
use myrest.Text.{Text, equal}

pub record TableId : Type 0 where
  pub database : Text
  pub name : Text

pub record Column : Type 0 where
  pub name : Text
  pub data_type : Text
  pub collation : Text
  pub nullable : Bool
  pub default : Option Text
  pub comment : Text
  pub generated : Bool
  pub auto_increment : Bool

pub record Table : Type 0 where
  pub id : TableId
  pub columns : List Column

unfoldable pub find_column : List Column → Text → Option Column
unfolding equal
find_column [] name = none
find_column (column ∷ columns) name =
    let rest = find_column columns name in if equal column.name name then some column else rest
