-- ===== src/Client/Await.antt =====
-- src/client.rs: `get_response` and `get_batch_response`, over what the subscription of the caller
-- receives after it was made.
pub mod First
pub mod Batch
use electrum_sdk.Base.{
  ℕ, List, [], ◌∷◌, ◌++◌, Bool, true, false, Option, none, some, Result, ok, err, if◌then◌else◌,
  nat_eq, Eq, ℕ_eq,
}
use electrum_sdk.Base.Set
use electrum_sdk.External.{External}
use electrum_sdk.Types.Response.{Response}
use electrum_sdk.Client.{ClientNotification, Error, timeout}
use electrum_sdk.Client

-- A notification; an error of `recv` (the channel is closed, or the receiver fell behind); or the
-- end of the time. A list without one of the last two ends where the caller still waits.
pub data Received (x : External) : Type 0 where
  received : ClientNotification x → Received x
  lost : Received x
  elapsed : Received x

-- The result of a method that may still wait.
pub data Task {ℓ} (A : Type ℓ) : Type ℓ where
  returns : A → Task A
  fails : Error → Task A
  waits : Task A

infixl 5 ◌>>=◌
abbrev pub ◌>>=◌ {ℓ κ} : {A : Type ℓ} {B : Type κ} → Task A → (A → Task B) → Task B
returns a >>= f = f a
fails e >>= f = fails e
waits >>= f = waits

abbrev pub of_result {ℓ} : {A : Type ℓ} → Result A Error → Task A
of_result (ok a) = returns a
of_result (err e) = fails e

abbrev pub is_empty : List ℕ → Bool
is_empty [] = true
is_empty (i ∷ ids) = false

module _ {x : External} where
  unfoldable pub get_response : ℕ → List (Received x) → Task (Option (Response x))
  get_response msg_id [] = waits
  get_response msg_id (received (ClientNotification.response id r) ∷ rs) =
      let rest = get_response msg_id rs in if nat_eq msg_id id then returns (some r) else rest
  get_response msg_id (received (ClientNotification.notification n) ∷ rs) = get_response msg_id rs
  get_response msg_id (received ClientNotification.stop ∷ rs) = get_response msg_id rs
  get_response msg_id (lost ∷ rs) = returns none
  get_response msg_id (elapsed ∷ rs) = fails timeout

  -- One response in the loop of `get_batch_response`: the missing ids and the responses.
  unfoldable pub collect : ℕ → Response x → List ℕ → List (Response x) → List ℕ × List (Response x)
  unfolding Set.contains Set.remove
  collect id r missing responses =
      if Set.contains missing id
      then (Set.remove missing id, responses ++ r ∷ [])
      else (missing, responses)

  unfoldable pub get_batch_loop :
      List ℕ → List (Response x) → List (Received x) → Task (List (Response x))
  unfolding collect
  get_batch_loop missing responses [] = waits
  get_batch_loop missing responses (received (ClientNotification.response id r) ∷ rs) =
      let c = collect id r missing responses in
      let rest = get_batch_loop c.0 c.1 rs in if is_empty c.0 then returns c.1 else rest
  get_batch_loop missing responses (received (ClientNotification.notification n) ∷ rs) =
      get_batch_loop missing responses rs
  get_batch_loop missing responses (received ClientNotification.stop ∷ rs) =
      get_batch_loop missing responses rs
  get_batch_loop missing responses (lost ∷ rs) = returns responses
  get_batch_loop missing responses (elapsed ∷ rs) = fails timeout

-- `ids.into_iter().collect()`
unfoldable pub id_set : List ℕ → List ℕ
unfolding Set.insert
id_set [] = []
id_set (i ∷ is) = Set.insert (id_set is) i

module _ {x : External} where
  unfoldable pub get_batch_response : List ℕ → List (Received x) → Task (List (Response x))
  unfolding get_batch_loop id_set
  get_batch_response ids rs = get_batch_loop (id_set ids) [] rs
