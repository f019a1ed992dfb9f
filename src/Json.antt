-- ===== src/Json.antt =====
-- json_parser.hpp: the values of a JSON text. The type of `double` is a parameter: no value of it is
-- read. An object is the pairs of its `map<string, json_object_value>`.
pub mod Grammar
pub mod Utf8
use black_circle.Prelude.{Bool, Option, none, some, Bytes, bytes_eq, if◌then◌else◌}
use black_circle.Prelude.Int.{ℤ}

mutual
  pub data Value (D : Type 0) : Type 0 where
    array : Items D → Value D
    string : Bytes → Value D
    int : ℤ → Value D
    double : D → Value D
    object : Fields D → Value D
    bool : Bool → Value D
    null : Value D

  pub data Items (D : Type 0) : Type 0 where
    nil : Items D
    cons : Value D → Items D → Items D

  pub data Fields (D : Type 0) : Type 0 where
    end : Fields D
    field : Bytes → Value D → Fields D → Fields D

module _ {D : Type 0} where
  -- `o.find(name)`.
  unfoldable pub find : Bytes → Fields D → Option (Value D)
  find name end = none
  find name (field k v o) = if bytes_eq name k then some v else find name o

  -- `boost::get<T>(&v)` for the types of the variant that the program asks for.
  abbrev pub get_string : Value D → Option Bytes
  get_string (string s) = some s
  get_string _ = none

  abbrev pub get_int : Value D → Option ℤ
  get_int (int z) = some z
  get_int _ = none

  abbrev pub get_object : Value D → Option (Fields D)
  get_object (object o) = some o
  get_object _ = none

  abbrev pub get_array : Value D → Option (Items D)
  get_array (array xs) = some xs
  get_array _ = none

  abbrev pub get_bool : Value D → Option Bool
  get_bool (bool b) = some b
  get_bool _ = none
