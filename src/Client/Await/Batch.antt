-- ===== src/Client/Await/Batch.antt =====
-- src/client.rs: `get_batch_response`, the ids that are missing and the order of arrival.
use mathlib.Core.List.{Perm}
use mathlib.Core.List.Perm
use electrum_sdk.Base.{
  ℕ, ◌≡◌, ◌≢◌, refl, sym, ap, subst, ◌∙◌, ◌⊎◌, ◌||◌, inl, inr, List, [], ◌∷◌, ◌++◌, map, append-nil,
  append_assoc, Bool, true, false, if◌then◌else◌, arith, All, Bool-cases, nat_eq, ℕ_eq,
}
use electrum_sdk.Base.Set
use electrum_sdk.Base.Set.{Distinct, remove-perm, Distinct-remove, Distinct-insert}
use electrum_sdk.External.{External}
use electrum_sdk.Types.Response.{Response}
use electrum_sdk.Client.{ClientNotification}
use electrum_sdk.Client.Await.{
  Received, received, lost, elapsed, Task, returns, is_empty, get_batch_loop, id_set,
  get_batch_response,
}

pub id_set-contains : (ids : List ℕ) (i : ℕ) → Set.contains (id_set ids) i ≡ Set.contains ids i
unfolding id_set Set.contains
id_set-contains [] i = refl
id_set-contains (j ∷ ids) i = Set.contains-insert (id_set ids) j i ∙ rw (id_set-contains ids i)

id_set_id : (ids : List ℕ) → Distinct ids → id_set ids ≡ ids
unfolding id_set Set.insert
id_set_id [] d = refl
id_set_id (i ∷ ids) d = rw (id_set_id ids d.1, d.0)

module _ {x : External} where
  -- The subscription does not end with an error.
  abbrev pub IsKept : Received x → Type 0
  IsKept (received n) = Unit
  IsKept elapsed = Unit
  IsKept lost = ⊥

  -- Ids with responses, as they arrive among other notifications.
  pub data Arrives : List (ℕ × Response x) → List (Received x) → Type 0 where
    none_left : {rs : List (Received x)} → Arrives [] rs
    other :
        {ps : List (ℕ × Response x)} {n : Received x} {rs : List (Received x)}
        → Arrives ps rs
        → Arrives ps (n ∷ rs)
    next :
        {id : ℕ} {r : Response x} {ps : List (ℕ × Response x)} {rs : List (Received x)}
        → Arrives ps rs
        → Arrives ((id, r) ∷ ps) (received (ClientNotification.response id r) ∷ rs)

  abbrev pub ids_of : List (ℕ × Response x) → List ℕ
  ids_of = map λ p. p.0

  abbrev pub responses_of : List (ℕ × Response x) → List (Response x)
  responses_of = map λ p. p.1

  -- `res` adds to `out` one response for each missing id, in the order of arrival.
  abbrev pub Collected : List ℕ → List (Response x) → List (Received x) → List (Response x) → Type 0
  Collected missing out rs res =
      (ps : List (ℕ × Response x)) × (res ≡ out ++ responses_of ps)
      × Perm (ids_of ps) missing
      × Arrives ps rs

  loop_end :
      (missing : List ℕ) (out res : List (Response x)) (rest : Task (List (Response x)))
      → (if is_empty missing then returns out else rest) ≡ returns res
      → ((missing ≡ []) × (res ≡ out)) ⊎ (rest ≡ returns res)
  loop_end [] out res rest e = inl (refl, ground arith)
  loop_end (i ∷ is) out res rest e = inr e

  skip :
      (n : Received x) (missing : List ℕ) (out res : List (Response x)) (rs : List (Received x))
      → Collected missing out rs res
      → Collected missing out (n ∷ rs) res
  skip n missing out res rs (ps, e, perm, arrives) = (ps, e, perm, other arrives)

  -- A response under a missing id.
  take_one :
      (id : ℕ) (r : Response x) (missing : List ℕ) (out res : List (Response x))
      (rs : List (Received x))
      → Distinct missing
      → Set.contains missing id ≡ true
      → Collected (Set.remove missing id) (out ++ r ∷ []) rs res
      → Collected missing out (received (ClientNotification.response id r) ∷ rs) res
  take_one id r missing out res rs d h (ps, e, perm, arrives) = (
    (id, r) ∷ ps,
    e ∙ append_assoc out (r ∷ []) (responses_of ps),
    Perm.trans (Perm.cons id perm) (remove-perm missing id d h),
    next arrives,
  )

  nothing_missing :
      (missing : List ℕ) (out res : List (Response x)) (rs : List (Received x))
      → missing ≡ []
      → res ≡ out
      → Collected missing out rs res
  nothing_missing missing out res rs m e =
      ([], e ∙ sym (append-nil out), rw m (Perm.refl []), none_left)

  get_batch_loop-Collected :
      (missing : List ℕ) (out res : List (Response x)) (rs : List (Received x))
      → Distinct missing
      → All IsKept rs
      → get_batch_loop missing out rs ≡ returns res
      → Collected missing out rs res
  unfolding get_batch_loop
  get_batch_loop-Collected missing out res [] d k e = cc
  get_batch_loop-Collected missing out res (received (ClientNotification.response id r) ∷ rs) d k
        e =
      elim (Bool-cases (Set.contains missing id)) [
        | inl hit ↦
            take_one id r missing out res rs d hit
              (elim (loop_end (Set.remove missing id) (out ++ r ∷ []) res _ (rw hit at e)) [
                | inl (m, f) ↦ nothing_missing (Set.remove missing id) (out ++ r ∷ []) res rs m f
                | inr more ↦
                    get_batch_loop-Collected (Set.remove missing id) (out ++ r ∷ []) res rs
                      (Distinct-remove missing id d) k.1 more
              ])
        | inr miss ↦ skip _ missing out res rs (elim (loop_end missing out res _ (rw miss at e)) [
          | inl (m, f) ↦ nothing_missing missing out res rs m f
          | inr more ↦ get_batch_loop-Collected missing out res rs d k.1 more
        ])
      ]
  get_batch_loop-Collected missing out res (received (ClientNotification.notification n) ∷ rs) d k
        e =
      skip _ missing out res rs (get_batch_loop-Collected missing out res rs d k.1 e)
  get_batch_loop-Collected missing out res (received ClientNotification.stop ∷ rs) d k e =
      skip _ missing out res rs (get_batch_loop-Collected missing out res rs d k.1 e)
  get_batch_loop-Collected missing out res (lost ∷ rs) d k e = absurd k.0
  get_batch_loop-Collected missing out res (elapsed ∷ rs) d k e = cc

  -- For different ids, and a subscription that does not end with an error: a list of responses that is
  -- returned holds one response under each id, in the order in which these arrived.
  pub get_batch_response-Collected :
      (ids : List ℕ) (rs : List (Received x)) (res : List (Response x))
      → Distinct ids
      → All IsKept rs
      → get_batch_response ids rs ≡ returns res
      → Collected ids [] rs res
  unfolding get_batch_response
  get_batch_response-Collected ids rs res d k e =
      get_batch_loop-Collected ids [] res rs d k
        (subst (λ m. get_batch_loop m [] rs ≡ returns res) (id_set_id ids d) e)

  -- A response under the id arrives.
  abbrev pub answered : List (Received x) → ℕ → Bool
  answered [] i = false
  answered (received (ClientNotification.response id r) ∷ rs) i = nat_eq i id || answered rs i
  answered (received (ClientNotification.notification n) ∷ rs) i = answered rs i
  answered (received ClientNotification.stop ∷ rs) i = answered rs i
  answered (lost ∷ rs) i = false
  answered (elapsed ∷ rs) i = false

  loop_goes_on :
      (missing : List ℕ) (out : List (Response x)) (rest : Task (List (Response x)))
      → (missing ≢ [] → (res : List (Response x)) × (rest ≡ returns res))
      → (res : List (Response x)) × ((if is_empty missing then returns out else rest) ≡ returns res)
  loop_goes_on [] out rest more = (out, refl)
  loop_goes_on (i ∷ ids) out rest more = more (λ e. cc)

  get_batch_loop-returns :
      (missing : List ℕ) (out : List (Response x)) (rs : List (Received x))
      → missing ≢ []
      → ((i : ℕ) → Set.contains missing i ≡ true → answered rs i ≡ true)
      → (res : List (Response x)) × (get_batch_loop missing out rs ≡ returns res)
  unfolding get_batch_loop
  get_batch_loop-returns [] out rs h a = absurd (h refl)
  get_batch_loop-returns (m ∷ ms) out [] h a = cc (a m (Set.contains_self ms m))
  get_batch_loop-returns (m ∷ ms) out (received (ClientNotification.response id r) ∷ rs) h a =
      elim (Bool-cases (Set.contains (m ∷ ms) id)) [
        | inl hit ↦ rw hit (
            loop_goes_on (Set.remove (m ∷ ms) id) (out ++ r ∷ []) _ λ left.
              get_batch_loop-returns (Set.remove (m ∷ ms) id) (out ++ r ∷ []) rs left
                λ i c. ground (arith, Set.contains-remove (m ∷ ms) id i, a i))
        | inr miss ↦ rw miss (
            loop_goes_on (m ∷ ms) out _
              λ left. get_batch_loop-returns (m ∷ ms) out rs left λ i c. ground (arith, miss, a i))
      ]
  get_batch_loop-returns (m ∷ ms) out (received (ClientNotification.notification n) ∷ rs) h a =
      get_batch_loop-returns (m ∷ ms) out rs h a
  get_batch_loop-returns (m ∷ ms) out (received ClientNotification.stop ∷ rs) h a =
      get_batch_loop-returns (m ∷ ms) out rs h a
  get_batch_loop-returns (m ∷ ms) out (lost ∷ rs) h a = (out, refl)
  get_batch_loop-returns (m ∷ ms) out (elapsed ∷ rs) h a = cc (a m (Set.contains_self ms m))

  -- If a response arrives under each of at least one id before the time is over, the call returns.
  pub get_batch_response-returns :
      (i : ℕ) (ids : List ℕ) (rs : List (Received x))
      → ((j : ℕ) → Set.contains (i ∷ ids) j ≡ true → answered rs j ≡ true)
      → (res : List (Response x)) × (get_batch_response (i ∷ ids) rs ≡ returns res)
  unfolding get_batch_response
  get_batch_response-returns i ids rs a =
      get_batch_loop-returns (id_set (i ∷ ids)) [] rs
        (λ e. cc (
          sym (id_set-contains (i ∷ ids) i) ∙ ap (λ s. Set.contains s i) e,
          Set.contains_self ids i,
          Set.contains-nil i,
        ))
        λ j c. a j (sym (id_set-contains (i ∷ ids) j) ∙ c)
