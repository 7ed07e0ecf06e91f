-- ===== src/Json.antt =====
-- What the program uses of cJSON, a library of another project: a parameter of the definitions that
-- parse and print JSON.
use qdplay.Prelude.{ℕ, ◌^◌, Bool, Option, none, some, List, ltb, if◌then◌else◌}

-- What the program builds: texts, numbers, and objects of named fields.
mutual
  pub data Value : Type 0 where
    text : List ℕ → Value
    number : ℕ → Value
    object : Fields → Value

  pub data Fields : Type 0 where
    end : Fields
    field : List ℕ → Value → Fields → Fields

-- A `double`, as a conversion to an unsigned integer sees it: its integer part, if it is above -1 and
-- finite.
pub data Number : Type 0 where
  whole : ℕ → Number
  other_number : Number

-- C's conversion to an unsigned integer of so many bits; `none` where it is undefined.
abbrev pub to_uint : ℕ → Number → Option ℕ
to_uint bits (whole n) = if ltb n (2 ^ bits) then some n else none
to_uint bits other_number = none

-- cJSON_ParseWithLength, cJSON_GetObjectItem, cJSON_IsObject, the string or the number of an item that
-- is one, and cJSON_PrintUnformatted of an object that is built, or `none` without memory for it.
pub record JsonLibrary : Type 1 where
  pub Json : Type 0
  pub parse : List ℕ → Option Json
  pub item : Json → List ℕ → Option Json
  pub is_object : Json → Bool
  pub text_of : Json → Option (List ℕ)
  pub number_of : Json → Option Number
  pub print : Value → Option (List ℕ)
