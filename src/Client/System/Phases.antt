-- ===== src/Client/System/Phases.antt =====
-- src/client.rs: the request that an id belongs to, its entry in the inventory, and the responses
-- that were published under it.
use electrum_sdk.Base.{
  ℕ, ◌≤◌, ◌≡◌, refl, List, [], ◌∷◌, ◌++◌, Option, none, some, nat_eq, if◌then◌else◌, arith,
}
use electrum_sdk.Base.Map
use electrum_sdk.External.{External}
use electrum_sdk.Channel.{Channel}
use electrum_sdk.Types.Request.{Request, method}
use electrum_sdk.Types.Response.{Response}
use electrum_sdk.Types.Response.Kinds.{kind}
use electrum_sdk.Client.{Message, ClientNotification}
use electrum_sdk.Client.System.{Phase, free, taken, filed, settled, settle, System}

module _ {x : External} where
  -- The responses under an id, in order.
  abbrev pub responses_under : ℕ → List (ClientNotification x) → List (Response x)
  responses_under id [] = []
  responses_under id (ClientNotification.response i r ∷ ns) =
      if nat_eq id i then r ∷ responses_under id ns else responses_under id ns
  responses_under id (ClientNotification.notification n ∷ ns) = responses_under id ns
  responses_under id (ClientNotification.stop ∷ ns) = responses_under id ns

  pub responses_under-append :
      (id : ℕ) (ns ms : List (ClientNotification x))
      → responses_under id (ns ++ ms) ≡ responses_under id ns ++ responses_under id ms
  responses_under-append id [] ms = refl
  responses_under-append id (ClientNotification.response i r ∷ ns) ms =
      ground (arith, responses_under-append id ns ms)
  responses_under-append id (ClientNotification.notification n ∷ ns) ms =
      responses_under-append id ns ms
  responses_under-append id (ClientNotification.stop ∷ ns) ms = responses_under-append id ns ms

  -- Nothing, or one response of the form that belongs to the request's method.
  abbrev pub AnswersOnce : Request x → List (Response x) → Type 0
  AnswersOnce req [] = Unit
  AnswersOnce req (r ∷ []) = kind r ≡ some (method req)
  AnswersOnce req (r ∷ q ∷ rs) = ⊥

  -- The entry in the inventory, and the responses, for each phase.
  abbrev pub Fits : Phase x → Option (Request x) → List (Response x) → Type 0
  Fits free entry rs = (entry ≡ none) × (rs ≡ [])
  Fits (taken req) entry rs = (entry ≡ none) × (rs ≡ [])
  Fits (filed req) entry rs = (entry ≡ some req) × (rs ≡ [])
  Fits (settled req) entry rs = (entry ≡ none) × AnswersOnce req rs

  pub Fits-none :
      (p : Phase x) (entry : Option (Request x)) (rs : List (Response x))
      → entry ≡ none
      → Fits p entry rs
      → settle p ≡ p
  Fits-none free entry rs e f = refl
  Fits-none (taken req) entry rs e f = refl
  Fits-none (filed req) entry rs e f = cc (e, f.0)
  Fits-none (settled req) entry rs e f = refl

  pub Fits-filed :
      (p : Phase x) (entry : Option (Request x)) (rs : List (Response x)) (req : Request x)
      → entry ≡ some req
      → Fits p entry rs
      → (p ≡ filed req) × (rs ≡ [])
  Fits-filed free entry rs req e f = cc (e, f.0)
  Fits-filed (taken r) entry rs req e f = cc (e, f.0)
  Fits-filed (filed r) entry rs req e f = (cc (e, f.0), f.1)
  Fits-filed (settled r) entry rs req e f = cc (e, f.0)

  -- The request that an id belongs to.
  abbrev pub owner : Phase x → Option (Request x)
  owner free = none
  owner (taken req) = some req
  owner (filed req) = some req
  owner (settled req) = some req

  pub owner-settle : (p : Phase x) → owner (settle p) ≡ owner p
  owner-settle free = refl
  owner-settle (taken req) = refl
  owner-settle (filed req) = refl
  owner-settle (settled req) = refl

module _ {x : External} {ch : Channel (Message x)} where
  -- Each id fits its phase, and nothing became yet of the next id or of one above it.
  pub record IsConsistent (s : System x ch) : Type 0 where
    pub fits :
        (id : ℕ)
        → Fits (s.phase id) (Map.get s.client.inventory id) (responses_under id s.client.published)
    pub fresh : (id : ℕ) → s.client.last_id ≤ id → s.phase id ≡ free
