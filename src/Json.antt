-- ===== src/Json.antt =====
-- The JSON of the events, as far as services/api/src/main.py writes it and
-- services/worker/src/consumer.py reads it: an object is its fields in order.
use Prim.Native.String.{String}
use text.Mathlib.Text.{◌==◌ as str_eq}
use workfront_system.Base.{ℕ, Option, some, none, List, [], ◌∷◌, if◌then◌else◌}
use workfront_system.Telemetry.{Carrier}

-- A text as `uuid.UUID` reads it: empty, the text of an id, or anything else.
pub data UuidText : Type 0 where
  blank : UuidText
  uuid : ℕ → UuidText
  junk : UuidText

-- A value of a field: a text, a time in ISO format, a number, or the object of a trace context.
pub data Json : Type 0 where
  id_text : UuidText → Json
  time : ℕ → Json
  number : ℕ → Json
  carrier : Carrier → Json

-- payload.get(key)
abbrev pub json_get : List (String × Json) → String → Option Json
json_get [] key = none
json_get ((k, v) ∷ rest) key = if str_eq k key then some v else json_get rest key
