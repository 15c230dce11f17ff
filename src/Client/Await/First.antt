-- ===== src/Client/Await/First.antt =====
-- `get_response`: the first response under the id, if it comes before an end of the wait.
use electrum_sdk.Base.{
  ℕ, ◌≡◌, ◌≢◌, ◌↔◌, refl, sym, ap, ◌∙◌, append-nil, List, [], ◌∷◌, ◌++◌, none, some, arith, All,
  Bool-cases, inl, inr, nat_eq,
}
use electrum_sdk.External.{External}
use electrum_sdk.Types.Response.{Response}
use electrum_sdk.Client.{ClientNotification, timeout}
use electrum_sdk.Client.Await.{
  Received, received, lost, elapsed, returns, fails, waits, get_response,
}

module _ {x : External} where
  -- A notification that is no response under the id.
  abbrev pub PassesBy : ℕ → Received x → Type 0
  PassesBy id (received (ClientNotification.response i r)) = id ≢ i
  PassesBy id (received _) = Unit
  PassesBy id lost = ⊥
  PassesBy id elapsed = ⊥

  module _ (id : ℕ) where
    -- Notifications that are no response under the id leave the wait as it is.
    pub get_response-append :
        (before rs : List (Received x))
        → All (PassesBy id) before
        → get_response id (before ++ rs) ≡ get_response id rs
    unfolding get_response
    get_response-append [] rs h = refl
    get_response-append (received (ClientNotification.response i r) ∷ before) rs h =
        ground (arith, h.0, get_response-append before rs h.1)
    get_response-append (received (ClientNotification.notification n) ∷ before) rs h =
        get_response-append before rs h.1
    get_response-append (received ClientNotification.stop ∷ before) rs h =
        get_response-append before rs h.1
    get_response-append (lost ∷ before) rs h = absurd h.0
    get_response-append (elapsed ∷ before) rs h = absurd h.0

    -- Where the wait ends: what comes before passes by.
    abbrev pub First : Response x → List (Received x) → Type 0
    First r rs =
        (before : List (Received x)) × (after : List (Received x)) × (rs
          ≡ before ++ received (ClientNotification.response id r) ∷ after)
        × All (PassesBy id) before

    found_at :
        (r : Response x) (before after : List (Received x))
        → All (PassesBy id) before
        → get_response id (before ++ received (ClientNotification.response id r) ∷ after)
          ≡ returns (some r)
    unfolding get_response
    found_at r before after h =
        get_response-append before (received (ClientNotification.response id r) ∷ after) h
        ∙ ground arith

    later :
        (r : Response x) (n : Received x) (rs : List (Received x))
        → PassesBy id n
        → First r rs
        → First r (n ∷ rs)
    later r n rs h (before, after, e, all) = (n ∷ before, after, ap (◌∷◌ n) e, (h, all))

    found-First :
        (r : Response x) (rs : List (Received x))
        → get_response id rs ≡ returns (some r)
        → First r rs
    unfolding get_response
    found-First r [] e = cc
    found-First r (received (ClientNotification.response i q) ∷ rs) e =
        elim (Bool-cases (nat_eq id i)) [
          | inl hit ↦ ([], rs, ground (arith, hit), tt)
          | inr miss ↦ later r _ rs (ground (arith, miss)) (found-First r rs (ground (arith, miss)))
        ]
    found-First r (received (ClientNotification.notification n) ∷ rs) e =
        later r _ rs tt (found-First r rs e)
    found-First r (received ClientNotification.stop ∷ rs) e = later r _ rs tt (found-First r rs e)
    found-First r (lost ∷ rs) e = cc
    found-First r (elapsed ∷ rs) e = cc

    -- `get_response` returns a response exactly if it is the first under the id, and neither the time
    -- nor the subscription ends before it.
    pub get_response_iff :
        (r : Response x) (rs : List (Received x))
        → (get_response id rs ≡ returns (some r)) ↔ First r rs
    get_response_iff r rs =
        (found-First r rs, λ (before, after, e, all). rw e (found_at r before after all))

    -- If only other notifications come before the end of the time, the call fails with `Timeout`; before
    -- an error of the subscription it returns no response; with neither it waits on.
    pub get_response-ends :
        (before after : List (Received x))
        → All (PassesBy id) before
        → (get_response id (before ++ elapsed ∷ after) ≡ fails timeout)
          × (get_response id (before ++ lost ∷ after) ≡ returns none)
          × (get_response id before ≡ waits)
    unfolding get_response
    get_response-ends before after h = (
      get_response-append before (elapsed ∷ after) h,
      get_response-append before (lost ∷ after) h,
      ap (get_response id) (sym (append-nil before)) ∙ get_response-append before [] h,
    )
