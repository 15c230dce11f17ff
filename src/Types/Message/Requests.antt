-- ===== src/Types/Message/Requests.antt =====
-- src/types/mod.rs: a request as an object, and the derived `Deserialize` on it. `Param` is an untagged
-- enum: a number is read as the first of `u8`, `u32` and `usize` that holds it.
use electrum_sdk.Base.{
  ℕ, ◌<◌, ◌≤◌, ◌≡◌, ◌^◌, refl, String, List, [], ◌∷◌, map, Bool, Result, ok, err, All, ltb,
  traverse, if◌then◌else◌, arith, Bool-cases, inl, inr,
}
use electrum_sdk.External.{External, Bytes}
use electrum_sdk.Types.Method.{Method}
use electrum_sdk.Types.Request.{Param, u8, u32, usize, string, bool, bytes}
use electrum_sdk.Types.Message.{request, members, param_value, read_param, read_request, read_msg}
use electrum_sdk.Types.Message.Readback.{IsSerde, deserialize-serialize}
use electrum_sdk.Types.Response.{usize_mod}

-- The reader refuses the value.
abbrev pub Refuses {ℓ κ} : {A : Type ℓ} {E : Type κ} → Result A E → Type (ℓ ⊔ κ)
Refuses {E = E} r = (e : E) × (r ≡ err e)

-- What serde documents of its readers on the values that it made: a number is refused where it is out
-- of range, and a value of another kind is refused.
pub record IsSerdeParam (x : External) : Type 0 where
  pub u8 : (n : ℕ) → n < 2 ^ 8 → x.read_u8 (x.number_value n) ≡ ok n
  pub u8_range : (n : ℕ) → 2 ^ 8 ≤ n → Refuses (x.read_u8 (x.number_value n))
  pub u32 : (n : ℕ) → n < 2 ^ 32 → x.read_u32 (x.number_value n) ≡ ok n
  pub u32_range : (n : ℕ) → 2 ^ 32 ≤ n → Refuses (x.read_u32 (x.number_value n))
  pub bool : (b : Bool) → x.read_bool (x.bool_value b) ≡ ok b
  pub array : (vs : List x.Value) → x.read_array (x.array_value vs) ≡ ok vs
  pub string_kind :
      (s : String)
      → Refuses (x.read_u8 (x.string_value s))
        × Refuses (x.read_u32 (x.string_value s))
        × Refuses (x.read_usize (x.string_value s))
  pub bool_kind :
      (b : Bool)
      → Refuses (x.read_u8 (x.bool_value b))
        × Refuses (x.read_u32 (x.bool_value b))
        × Refuses (x.read_usize (x.bool_value b))
        × Refuses (x.read_string (x.bool_value b))
  pub array_kind :
      (vs : List x.Value)
      → Refuses (x.read_u8 (x.array_value vs))
        × Refuses (x.read_u32 (x.array_value vs))
        × Refuses (x.read_usize (x.array_value vs))
        × Refuses (x.read_string (x.array_value vs))
        × Refuses (x.read_bool (x.array_value vs))

-- A number as a parameter of the first type that holds it.
abbrev pub smallest_number : ℕ → Param
smallest_number n = if ltb n (2 ^ 8) then u8 n else if ltb n (2 ^ 32) then u32 n else usize n

abbrev pub smallest : Param → Param
smallest (u8 n) = smallest_number n
smallest (u32 n) = smallest_number n
smallest (usize n) = smallest_number n
smallest (string s) = string s
smallest (bool b) = bool b
smallest (bytes b) = bytes b

-- The numbers are of their types.
abbrev pub IsInRange : Param → Type 0
IsInRange (u8 n) = n < 2 ^ 8
IsInRange (u32 n) = n < 2 ^ 32
IsInRange (usize n) = n < usize_mod
IsInRange (string s) = Unit
IsInRange (bool b) = Unit
IsInRange (bytes b) = All (λ n. n < 2 ^ 8) b

module _ (x : External) (law : IsSerde x) (kinds : IsSerdeParam x) where
  read_number : (n : ℕ) → n < usize_mod → read_param x (x.number_value n) ≡ ok (smallest_number n)
  unfolding read_param
  read_number n small = elim (Bool-cases (ltb n (2 ^ 8))) [
    | inl b ↦ rw (b, read_param, kinds.u8 n (ground (arith, b))) refl
    | inr b ↦
        let (e0, r0) = kinds.u8_range n (ground (arith, b)) in
        elim (Bool-cases (ltb n (2 ^ 32))) [
          | inl k ↦ rw (b, k, read_param, r0, kinds.u32 n (ground (arith, k))) refl
          | inr k ↦
              let (e1, r1) = kinds.u32_range n (ground (arith, k)) in
              rw (b, k, read_param, r0, r1, law.usize n small) refl
        ]
  ]

  read_bytes :
      (b : Bytes) → All (λ n. n < 2 ^ 8) b → traverse x.read_u8 (map x.number_value b) ≡ ok b
  unfolding traverse
  read_bytes [] h = refl
  read_bytes (n ∷ b) (h, hs) = rw (kinds.u8 n h, read_bytes b hs) refl

  read_param-param_value :
      (p : Param) → IsInRange p → read_param x (param_value x p) ≡ ok (smallest p)
  unfolding read_param param_value
  read_param-param_value (u8 n) h = read_number n (omega arith)
  read_param-param_value (u32 n) h = read_number n (omega arith)
  read_param-param_value (usize n) h = read_number n h
  read_param-param_value (string s) h =
      let ((e0, r0), (e1, r1), (e2, r2)) = kinds.string_kind s in
      rw (read_param, r0, r1, r2, law.string s) refl
  read_param-param_value (bool b) h =
      let ((e0, r0), (e1, r1), (e2, r2), (e3, r3)) = kinds.bool_kind b in
      rw (read_param, r0, r1, r2, r3, kinds.bool b) refl
  read_param-param_value (bytes b) h =
      let ((e0, r0), (e1, r1), (e2, r2), (e3, r3), (e4, r4)) =
        kinds.array_kind (map x.number_value b) in
      rw (read_param, r0, r1, r2, r3, r4, kinds.array (map x.number_value b))
        (rw (read_bytes b h) refl)

  read_params :
      (ps : List Param)
      → All IsInRange ps
      → traverse (read_param x) (map (param_value x) ps) ≡ ok (map smallest ps)
  unfolding traverse
  read_params [] h = refl
  read_params (p ∷ ps) (h, hs) = rw (read_param-param_value p h, read_params ps hs) refl

  smallest_number-value : (n : ℕ) → param_value x (smallest_number n) ≡ x.number_value n
  unfolding param_value
  smallest_number-value n = ground arith

  smallest-value : (p : Param) → param_value x (smallest p) ≡ param_value x p
  unfolding param_value
  smallest-value (u8 n) = smallest_number-value n
  smallest-value (u32 n) = smallest_number-value n
  smallest-value (usize n) = smallest_number-value n
  smallest-value (string s) = refl
  smallest-value (bool b) = refl
  smallest-value (bytes b) = refl

  smallest-values :
      (ps : List Param) → map (param_value x) (map smallest ps) ≡ map (param_value x) ps
  smallest-values [] = refl
  smallest-values (p ∷ ps) = rw (smallest-value p, smallest-values ps) refl

  request_read :
      (n : ℕ) (j : String) (m : Method) (ps : List Param)
      → n < usize_mod
      → All IsInRange ps
      → read_request x (x.object_value (members x (request n j m ps)))
        ≡ ok (request n j m (map smallest ps))
  unfolding read_request members
  request_read n j m ps small h =
      rw (read_request, law.visit, law.usize n small, law.string j)
        (rw (deserialize-serialize x law m, kinds.array) (rw (read_params ps h) refl))

  -- A request with an id below 2 ^ 64 and numbers of their types is read back from the object that it
  -- is written as, with each number as the first of the types `u8`, `u32` and `usize` that holds it;
  -- what is read is written as the same object again.
  pub read_msg-request :
      (n : ℕ) (j : String) (m : Method) (ps : List Param)
      → n < usize_mod
      → All IsInRange ps
      → (read_msg x (x.object_value (members x (request n j m ps)))
          ≡ ok (request n j m (map smallest ps)))
        × (members x (request n j m (map smallest ps)) ≡ members x (request n j m ps))
  unfolding read_msg members
  read_msg-request n j m ps small h =
      (rw (read_msg, request_read n j m ps small h) refl, rw (smallest-values ps) refl)
