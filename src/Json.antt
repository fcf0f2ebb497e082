-- ===== src/Json.antt =====
-- The values of `map[string]any` payloads: what `encoding/json` writes and reads. `num` are the
-- integers, of whatever type, `float` the times as float64 seconds, in units of 2^-1074.
use buat_postingan.Base.{ℕ, String, Bool, Option, none, some, str_eq, if◌then◌else◌}
use buat_postingan.Base.Int.{ℤ, pos}

mutual
  pub data Json : Type 0 where
    null : Json
    bool : Bool → Json
    num : ℤ → Json
    float : ℕ → Json
    text : String → Json
    arr : Elements → Json
    obj : Fields → Json

  pub data Elements : Type 0 where
    nil : Elements
    cons : Json → Elements → Elements

  pub data Fields : Type 0 where
    end : Fields
    field : String → Json → Fields → Fields

-- A `map[string]any`, as the function from its keys.
abbrev pub Payload : Type 0
Payload = String → Option Json

abbrev pub no_payload : Payload
no_payload k = none

-- `s, _ := v.(string)`
abbrev pub as_text : Option Json → String
as_text (some (text s)) = s
as_text _ = ""

-- the integer that a value of a payload in memory stands for; 0 if it is none
unfoldable pub as_nat : Option Json → ℕ
as_nat (some (num (pos n))) = n
as_nat _ = 0

-- `m[k]` of an object
unfoldable pub field_of : String → Fields → Option Json
field_of k end = none
field_of k (field j v fs) = if str_eq j k then some v else field_of k fs
