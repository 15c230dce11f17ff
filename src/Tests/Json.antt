-- ===== src/Tests/Json.antt =====
-- A small `serde_json::Value`: an array is a chain of `cons`, an object a chain of `member`.
use electrum_sdk.Base.{
  ℕ, String, List, [], ◌∷◌, ◌++◌, map, Bool, true, false, Option, none, some, Result, ok, err,
  ◌>>=◌, str_eq, if◌then◌else◌, ltb,
}
use electrum_sdk.External.{Bytes, ℤ, pos}
use electrum_sdk.Net.Address.{codes}

pub data Json : Type 0 where
  null : Json
  boolean : Bool → Json
  number : ℕ → Json
  text : String → Json
  nil no_members : Json
  cons : Json → Json → Json
  member : String → Json → Json → Json

-- The error of a reader that meets another kind of value, or of a missing field.
pub data JsonError : Type 0 where
  mismatch : JsonError
  about : String → JsonError

abbrev pub array_of : List Json → Json
array_of [] = nil
array_of (v ∷ vs) = cons v (array_of vs)

abbrev pub object_of : List (String × Json) → Json
object_of [] = no_members
object_of ((name, v) ∷ ms) = member name v (object_of ms)

abbrev pub is_null : Json → Bool
is_null null = true
is_null _ = false

abbrev pub read_bool : Json → Result Bool JsonError
read_bool (boolean b) = ok b
read_bool _ = err mismatch

abbrev pub read_string : Json → Result String JsonError
read_string (text s) = ok s
read_string _ = err mismatch

abbrev pub read_number : Json → Result ℕ JsonError
read_number (number n) = ok n
read_number _ = err mismatch

abbrev pub read_below : ℕ → Json → Result ℕ JsonError
read_below bound v = read_number v >>= λ n. if ltb n bound then ok n else err mismatch

abbrev pub read_integer : Json → Result ℤ JsonError
read_integer v = read_number v >>= λ n. ok (pos n)

abbrev pub read_array : Json → Result (List Json) JsonError
read_array nil = ok []
read_array (cons v vs) = read_array vs >>= λ rest. ok (v ∷ rest)
read_array _ = err mismatch

abbrev pub lookup : String → Json → Option Json
lookup name (member other v rest) = if str_eq name other then some v else lookup name rest
lookup name _ = none

abbrev pub visit : List String → Json → Result (List (Option Json)) JsonError
visit names no_members = ok (map (λ n. none) names)
visit names (member name v rest) = ok (map (λ n. lookup n (member name v rest)) names)
visit names _ = err mismatch

-- Any text of the value, so that different requests are different bytes.
abbrev pub bytes_of : Json → Bytes
bytes_of (number n) = n ∷ []
bytes_of (text s) = codes s
bytes_of (cons v vs) = bytes_of v ++ bytes_of vs
bytes_of (member name v rest) = codes name ++ bytes_of v ++ bytes_of rest
bytes_of _ = []
