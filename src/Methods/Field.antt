-- ===== src/Methods/Field.antt =====
-- methods/*.c: `json_string_value(json_object_get(json, key))`, NULL for a missing key and for a value
-- that is no string.
use geekchatserver.Prelude.{Bytes, Option, none, some}
use geekchatserver.Platform.{Platform}

module _ ⦃p : Platform⦄ where
  unfoldable pub field : p.Json → Bytes → Option Bytes
  field json key = elim (p.json_object_get json key) [
    | none ↦ none
    | some value ↦ p.json_string_value value
  ]
