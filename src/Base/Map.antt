-- ===== src/Base/Map.antt =====
-- Go's `map[string]V` as a function: the program reads it by key and ranges over it only to delete,
-- which is pointwise, so that no iteration order has to be modelled.
use mathlib.Core.Option.{Option, none, some}
use jira_connector.Base.Tests.{if◌then◌else◌}
use jira_connector.Base.Text.{String, str_eq}

abbrev pub Map {ℓ} : Type ℓ → Type ℓ
Map V = String → Option V

module _ {ℓ} {V : Type ℓ} where
  -- m[k] = v
  abbrev pub insert : String → V → Map V → Map V
  insert k v m j = if str_eq k j then some v else m j

  -- delete(m, k)
  abbrev pub erase : String → Map V → Map V
  erase k m j = if str_eq k j then none else m j

  -- make(map[string]V)
  abbrev pub empty : Map V
  empty j = none
