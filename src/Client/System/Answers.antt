-- ===== src/Client/System/Answers.antt =====
-- src/client.rs: the answers that callers get, in any order of all actions.
use electrum_sdk.Base.{
  ℕ, ◌+◌, ◌<◌, ◌≡◌, refl, sym, ap, ◌∙◌, subst, ◌⊎◌, inl, inr, String, List, [], ◌∷◌, ◌++◌, map,
  drop, zero, suc, true, Option, some, nat_eq, arith, Bool-cases,
}
use electrum_sdk.External.{External}
use electrum_sdk.Channel.{Channel}
use electrum_sdk.Types.Request.{Request, method}
use electrum_sdk.Types.Response.{Response, usize_mod}
use electrum_sdk.Types.Response.Kinds.{kind}
use electrum_sdk.Client.{Client, Message, ClientNotification}
use electrum_sdk.Client
use electrum_sdk.Client.Await.{received, returns, get_response}
use electrum_sdk.Client.Api.Readers.{is_accepted, is_accepted-kind}
use electrum_sdk.Client.System.{Phase, free, taken, filed, settled, System, start, Actions}
use electrum_sdk.Client.System.Phases.{
  responses_under, responses_under-append, AnswersOnce, Fits, owner,
}
use electrum_sdk.Client.System.Consistent.{Actions-Advances, Actions-owner, start-IsConsistent}

module _ {x : External} where
  -- What a subscription finds under the id is the first of what was published since.
  get_response-responses_under :
      (id : ℕ) (ns : List (ClientNotification x)) (r : Response x)
      → get_response id (map received ns) ≡ returns (some r)
      → (rest : List (Response x)) × (responses_under id ns ≡ r ∷ rest)
  unfolding get_response
  get_response-responses_under id [] r e = cc
  get_response-responses_under id (ClientNotification.response i q ∷ ns) r e =
      elim (Bool-cases (nat_eq id i)) [
        | inl hit ↦ (responses_under id ns, ground (arith, hit))
        | inr miss ↦ rw miss (get_response-responses_under id ns r (ground (arith, miss)))
      ]
  get_response-responses_under id (ClientNotification.notification n ∷ ns) r e =
      get_response-responses_under id ns r e
  get_response-responses_under id (ClientNotification.stop ∷ ns) r e =
      get_response-responses_under id ns r e

  before_drop :
      (k : ℕ) (ns : List (ClientNotification x))
      → (ms : List (ClientNotification x)) × (ns ≡ ms ++ drop k ns)
  before_drop zero ns = ([], refl)
  before_drop (suc k) [] = ([], refl)
  before_drop (suc k) (n ∷ ns) = let (ms, e) = before_drop k ns in (n ∷ ms, ap (◌∷◌ n) e)

  AnswersOnce-kind :
      (req : Request x) (qs rest : List (Response x)) (r : Response x)
      → AnswersOnce req (qs ++ r ∷ rest)
      → kind r ≡ some (method req)
  AnswersOnce-kind req [] [] r a = a
  AnswersOnce-kind req [] (p ∷ rest) r a = absurd a
  AnswersOnce-kind req (q ∷ []) rest r a = absurd a
  AnswersOnce-kind req (q ∷ p ∷ qs) rest r a = absurd a

  owner-AnswersOnce :
      (p : Phase x) (entry : Option (Request x)) (rs : List (Response x)) (req : Request x)
      → owner p ≡ some req
      → Fits p entry rs
      → AnswersOnce req rs
  owner-AnswersOnce free entry rs req o f = cc
  owner-AnswersOnce (taken q) entry rs req o f = subst (AnswersOnce req) (sym f.1) tt
  owner-AnswersOnce (filed q) entry rs req o f = subst (AnswersOnce req) (sym f.1) tt
  owner-AnswersOnce (settled q) entry rs req o f =
      let same : q ≡ req = cc in subst (λ u. AnswersOnce u rs) same f.1

  -- No response, or one of the right form under an id that is settled.
  abbrev pub OneAnswer : Phase x → List (Response x) → Type 0
  OneAnswer p rs =
      (rs ≡ [])
      ⊎ ((req : Request x) × (r : Response x) × (p ≡ settled req)
          × (rs ≡ r ∷ [])
          × (kind r ≡ some (method req)))

  Fits-OneAnswer :
      (p : Phase x) (entry : Option (Request x)) (rs : List (Response x))
      → Fits p entry rs
      → OneAnswer p rs
  Fits-OneAnswer free entry rs f = inl f.1
  Fits-OneAnswer (taken req) entry rs f = inl f.1
  Fits-OneAnswer (filed req) entry rs f = inl f.1
  Fits-OneAnswer (settled req) entry [] f = inl refl
  Fits-OneAnswer (settled req) entry (r ∷ []) f = inr (req, r, refl, refl, f.1)
  Fits-OneAnswer (settled req) entry (r ∷ q ∷ rs) f = absurd f.1

module _ {x : External} {ch : Channel (Message x)} where
  -- After any actions of all tasks from a new client on, in any order, which take fewer than 2 ^ 64
  -- ids: under each id no response was published, or one, and then the id is settled and the response
  -- has the form that belongs to the method of the request for which the id was taken.
  pub published_once :
      (addr : String) (proxy : Option x.SocketAddr) (n id : ℕ) (s : System x ch)
      → Actions n (start addr proxy) s
      → n < usize_mod
      → OneAnswer (s.phase id) (responses_under id s.client.published)
  published_once addr proxy n id s run small =
      let first : (start {ch = ch} addr proxy).client.last_id ≡ 0 = unfold Client.new in refl in
      let (last, v) = Actions-Advances run (omega (arith, first)) (start-IsConsistent addr proxy) in
      Fits-OneAnswer (s.phase id) _ _ (v.fits id)

  -- A caller that took an id for its request, in any order of all actions with fewer than 2 ^ 64 ids:
  -- whatever `get_response` finds under this id, from any notification on, has the form that belongs
  -- to the method of the caller's request, and the call accepts it.
  pub own_answer :
      (addr : String) (proxy : Option x.SocketAddr) (n m id k : ℕ) (req : Request x)
      (s t : System x ch) (r : Response x)
      → Actions n (start addr proxy) s
      → owner (s.phase id) ≡ some req
      → Actions m s t
      → n + m < usize_mod
      → get_response id (map received (drop k t.client.published)) ≡ returns (some r)
      → (kind r ≡ some (method req)) × (is_accepted req r ≡ true)
  own_answer addr proxy n m id k req s t r run mine more small got =
      let first : (start {ch = ch} addr proxy).client.last_id ≡ 0 = unfold Client.new in refl in
      let (last, v) = Actions-Advances run (omega (arith, first)) (start-IsConsistent addr proxy) in
      let bound : s.client.last_id + m < usize_mod = omega (arith, last, first) in
      let (last', v') = Actions-Advances more bound v in
      let once =
        owner-AnswersOnce (t.phase id) _ _ req (Actions-owner id req more bound v mine)
          (v'.fits id) in
      let (rest, found) = get_response-responses_under id (drop k t.client.published) r got in
      let (ms, split) = before_drop k t.client.published in
      let under =
        ap (responses_under id) split
        ∙ responses_under-append id ms (drop k t.client.published)
        ∙ ap (λ l. responses_under id ms ++ l) found in
      let right =
        AnswersOnce-kind req (responses_under id ms) rest r (subst (AnswersOnce req) under once) in
      (right, is_accepted-kind req r right)
