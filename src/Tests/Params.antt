-- ===== src/Tests/Params.antt =====
-- A request with parameters of every kind, written and read.
use electrum_sdk.Base.{ℕ, ◌<◌, ◌≤◌, ◌≡◌, ◌^◌, refl, List, [], ◌∷◌, map, true, ok, arith}
use electrum_sdk.Types.Method.{Method}
use electrum_sdk.Types.Request.{Param, u8, usize, string, bool, bytes}
use electrum_sdk.Types.Message.{request, members, read_msg}
use electrum_sdk.Types.Message.Requests.{Refuses, IsSerdeParam, smallest, read_msg-request}
use electrum_sdk.Tests.Json.{Json, mismatch, array_of, read_below, read_array, number}
use electrum_sdk.Tests.Concrete.{crates}
use electrum_sdk.Tests.Wire.{crates-IsSerde}

below : (n bound : ℕ) → n < bound → read_below bound (number n) ≡ ok n
below n bound h = ground arith

not_below : (n bound : ℕ) → bound ≤ n → Refuses (read_below bound (number n))
not_below n bound h = (mismatch, ground arith)

read_array-array_of : (vs : List Json) → read_array (array_of vs) ≡ ok vs
read_array-array_of [] = refl
read_array-array_of (v ∷ vs) = rw (read_array-array_of vs) refl

Refuses-arrays :
    (vs : List Json)
    → Refuses (crates.read_u8 (array_of vs))
      × Refuses (crates.read_u32 (array_of vs))
      × Refuses (crates.read_usize (array_of vs))
      × Refuses (crates.read_string (array_of vs))
      × Refuses (crates.read_bool (array_of vs))
Refuses-arrays [] =
    ((mismatch, refl), (mismatch, refl), (mismatch, refl), (mismatch, refl), (mismatch, refl))
Refuses-arrays (v ∷ vs) =
    ((mismatch, refl), (mismatch, refl), (mismatch, refl), (mismatch, refl), (mismatch, refl))

crates-IsSerdeParam : IsSerdeParam crates
crates-IsSerdeParam = record {
  u8 = λ n h. below n 256 h;
  u8_range = λ n h. not_below n 256 h;
  u32 = λ n h. below n (2 ^ 32) h;
  u32_range = λ n h. not_below n (2 ^ 32) h;
  bool = λ b. refl;
  array = read_array-array_of;
  string_kind = λ s. ((mismatch, refl), (mismatch, refl), (mismatch, refl));
  bool_kind = λ b. ((mismatch, refl), (mismatch, refl), (mismatch, refl), (mismatch, refl));
  array_kind = Refuses-arrays;
}

abbrev sent_params : List Param
sent_params =
    usize 5
    ∷ usize 70000
    ∷ usize (2 ^ 40)
    ∷ u8 6
    ∷ string "00"
    ∷ bool true
    ∷ bytes (1 ∷ 2 ∷ [])
    ∷ []

read_msg-request_example :
    (read_msg crates (
        crates.object_value (members crates (request 5 "2.0" Method.get_block_headers sent_params)))
      ≡ ok (request 5 "2.0" Method.get_block_headers (map smallest sent_params)))
    × (members crates (request 5 "2.0" Method.get_block_headers (map smallest sent_params))
        ≡ members crates (request 5 "2.0" Method.get_block_headers sent_params))
read_msg-request_example =
    read_msg-request crates crates-IsSerde crates-IsSerdeParam 5 "2.0" Method.get_block_headers
      sent_params (ground arith)
      (
        ground arith,
        (
          ground arith,
          (ground arith, (ground arith, (tt, (tt, ((ground arith, (ground arith, tt)), tt))))),
        ),
      )
