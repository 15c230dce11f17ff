-- ===== src/Types/Message/Readback.antt =====
-- src/types/mod.rs: the messages of the server as objects, and the derived `Deserialize` on them.
use electrum_sdk.Base.{
  ℕ, ◌<◌, ◌≡◌, refl, String, List, [], ◌∷◌, map, true, false, Option, none, some, ok, err, str_eq,
  if◌then◌else◌,
}
use electrum_sdk.External.{External}
use electrum_sdk.Types.Method.{Method, serialize, deserialize, to_string}
use electrum_sdk.Types.Method.Names.{from_str-to_string}
use electrum_sdk.Types.Structs.{optional}
use electrum_sdk.Types.Message.{
  response, notification, members, option_value, read_request, read_response, read_notification,
  read_msg,
}
use electrum_sdk.Types.Response.{usize_mod}

-- The value of the first member of this name.
abbrev pub member {ℓ} : {A : Type ℓ} → String → List (String × A) → Option A
member name [] = none
member name ((other, v) ∷ ms) = if str_eq name other then some v else member name ms

-- What serde documents of values that it made itself.
pub record IsSerde (x : External) : Type 0 where
  pub visit :
      (names : List String) (ms : List (String × x.Value))
      → x.visit_map names (x.object_value ms) ≡ ok (map (λ n. member n ms) names)
  pub usize : (n : ℕ) → n < usize_mod → x.read_usize (x.number_value n) ≡ ok n
  pub string : (s : String) → x.read_string (x.string_value s) ≡ ok s
  pub null : x.is_null x.null_value ≡ true

module _ (x : External) (law : IsSerde x) where
  pub deserialize-serialize : (m : Method) → deserialize x (serialize x m) ≡ ok m
  unfolding deserialize serialize
  deserialize-serialize m = rw (law.string (to_string m), from_str-to_string m) refl

  -- The value is there, and is not `null`; or there is none.
  abbrev pub IsPlain : Option x.Value → Type 0
  IsPlain none = Unit
  IsPlain (some v) = x.is_null v ≡ false

  optional-option_value :
      (o : Option x.Value)
      → IsPlain o
      → optional x (λ r. ok r) (some (some (option_value x o))) ≡ ok o
  optional-option_value none p = rw law.null refl
  optional-option_value (some v) p = rw p refl

  module _ (n : ℕ) (small : n < usize_mod) (j : String) (result error : Option x.Value) where
    not_request :
        read_request x (x.object_value (members x (response n j result error)))
        ≡ err (x.missing_field "method")
    unfolding read_request members
    not_request = rw (read_request, law.visit, law.usize n small, law.string j) refl

    response_read :
        IsPlain result
        → IsPlain error
        → read_response x (x.object_value (members x (response n j result error)))
          ≡ ok (response n j result error)
    unfolding read_response members
    response_read p q =
        rw (read_response, law.visit, law.usize n small, law.string j)
          (rw (optional-option_value result p, optional-option_value error q) refl)

    -- A response with an id below 2 ^ 64, whose result and error are not `null` where they are there,
    -- is read back from the object that it is written as; what is absent is written as `null`, and read
    -- as absent.
    pub read_msg-response :
        IsPlain result
        → IsPlain error
        → read_msg x (x.object_value (members x (response n j result error)))
          ≡ ok (response n j result error)
    unfolding read_msg
    read_msg-response p q = rw (read_msg, not_request, response_read p q) refl

  module _ (j : String) (m : Method) (ps : x.Value) where
    request_missing_id :
        read_request x (x.object_value (members x (notification j m ps)))
        ≡ err (x.missing_field "id")
    unfolding read_request members
    request_missing_id = rw (read_request, law.visit) refl

    response_missing_id :
        read_response x (x.object_value (members x (notification j m ps)))
        ≡ err (x.missing_field "id")
    unfolding read_response members
    response_missing_id = rw (read_response, law.visit) refl

    notification_read :
        read_notification x (x.object_value (members x (notification j m ps)))
        ≡ ok (notification j m ps)
    unfolding read_notification members
    notification_read =
        rw (read_notification, law.visit, law.string j) (rw (deserialize-serialize m) refl)

    -- A notification of a known method is read back from the object that it is written as.
    pub read_msg-notification :
        read_msg x (x.object_value (members x (notification j m ps))) ≡ ok (notification j m ps)
    unfolding read_msg
    read_msg-notification =
        rw (read_msg, request_missing_id, response_missing_id, notification_read) refl
