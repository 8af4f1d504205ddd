-- ===== src/Collector/Json.antt =====
-- encoding/json as the collectors use it: a decoded value, and the readers of es.go, which take the
-- zero value for what is missing or of another type.
use we_term.Model.Float.{FloatOps}
use we_term.Prelude.{Bool, List, Option, String, false, if◌then◌else◌, true, ◌==◌}
use we_term.Prelude.Int.{pos, ℤ}

-- interface{}; `null` is also the value of a missing key
mutual
  pub data Json (F : Type 0) : Type 0 where
    null : Json F
    flag : Bool → Json F
    num : F → Json F
    str : String → Json F
    arr : Items F → Json F
    obj : Fields F → Json F

  pub data Items (F : Type 0) : Type 0 where
    no_items : Items F
    item : Json F → Items F → Items F

  -- map[string]interface{}
  pub data Fields (F : Type 0) : Type 0 where
    no_fields : Fields F
    entry : String → Json F → Fields F → Fields F

-- json.Unmarshal into a slice of objects and into a slice of values, with none for an error
pub record JsonDecoder (F : Type 0) : Type 0 where
  pub objects : String → Option (List (Fields F))
  pub values : String → Option (List (Json F))

module _ {F : Type 0} where
  -- m[key]
  unfoldable pub member : String → Fields F → Json F
  member key no_fields = null
  member key (entry name value rest) =
      let behind = member key rest in if name == key then value else behind

  -- jsonStr
  unfoldable pub json_str : Json F → String
  json_str v = elim v [ str s ↦ s | _ ↦ "" ]

  -- v, ok := x.(bool), and false where it is none
  unfoldable pub json_flag : Json F → Bool
  json_flag v = elim v [ flag b ↦ b | _ ↦ false ]

  -- parts, ok := x.([]interface{}); ok && len(parts) > 0
  unfoldable pub json_nonempty : Json F → Bool
  json_nonempty v = elim v [ arr (item j rest) ↦ true | _ ↦ false ]

module _ {F : Type 0} ⦃fl : FloatOps F⦄ where
  -- jsonInt
  unfoldable pub json_int : Json F → ℤ
  json_int v = elim v [ num x ↦ fl.truncate x | _ ↦ pos 0 ]

  -- jsonFloat
  unfoldable pub json_float : Json F → F
  json_float v = elim v [ num x ↦ x | _ ↦ fl.zero_float ]
