-- ===== src/Client/Send/Results.antt =====
-- src/client.rs: what several calls of `send_msg`, one after the other, return, and what a method makes
-- of such a result.
use electrum_sdk.Base.{
  true, false, none, ℕ, zero, suc, ◌+◌, ◌%◌, ◌≤◌, ◌≡◌, refl, ap, ◌∙◌, List, [], ◌∷◌, some, Result,
  length, length-append, get_elem?, arith,
}
use electrum_sdk.External.{External}
use electrum_sdk.Channel.{Channel, IsChannel}
use electrum_sdk.Types.Request.{Request}
use electrum_sdk.Types.Response.{usize_mod}
use electrum_sdk.Client.{Client, Message, Error}
use electrum_sdk.Client.Send.{Wait, register, send_msg, value, dropped, elapsed}
use electrum_sdk.Client.Await.{Task, returns, of_result, ◌>>=◌}
use electrum_sdk.Client.Send.Laws.{outcome, send_msg-room}
use electrum_sdk.Client.Send.Batch.{get_elem?-lt}
use electrum_sdk.Client.Send.Sequence.{requests, call_message, send_msg-Queued}

-- A wait that goes well gives what the rest of the method returns; one that does not gives its error.
pub of_result-outcome {ℓ κ} :
    {A : Type ℓ} {B : Type κ} (a : A) (b : B) (f : A → Task B) (wait : Wait)
    → f a ≡ returns b
    → (of_result (outcome a wait) >>= f) ≡ of_result (outcome b wait)
of_result-outcome a b f none e = e
of_result-outcome a b f (some (sender, value true)) e = e
of_result-outcome a b f (some (sender, value false)) e = refl
of_result-outcome a b f (some (sender, dropped)) e = refl
of_result-outcome a b f (some (sender, elapsed)) e = refl

module _ {x : External} where
  -- The next ids, with what the waits give.
  abbrev pub outcomes : ℕ → List (Request x × Wait) → List (Result ℕ Error)
  outcomes n [] = []
  outcomes n (call ∷ calls) = outcome n call.1 ∷ outcomes ((n + 1) % usize_mod) calls

  pub outcomes-get_elem? :
      (n k : ℕ) (calls : List (Request x × Wait)) (req : Request x) (wait : Wait)
      → n + length calls ≤ usize_mod
      → get_elem? calls k ≡ some (req, wait)
      → get_elem? (outcomes n calls) k ≡ some (outcome (n + k) wait)
  outcomes-get_elem? n k [] req wait h e = cc
  outcomes-get_elem? n zero (call ∷ calls) req wait h e =
      let same : call ≡ (req, wait) = cc in
      let start : n ≡ n + 0 = omega arith in
      ap some (ap (λ (c : Request x × Wait). outcome n c.1) same ∙ ap (λ m. outcome m wait) start)
  outcomes-get_elem? n (suc k) (call ∷ calls) req wait h e =
      let next : (n + 1) % usize_mod ≡ n + 1 = omega (arith, get_elem?-lt calls k e) in
      let same : n + 1 + k ≡ n + suc k = omega arith in
      rw next (
        outcomes-get_elem? (n + 1) k calls req wait (omega arith) e
        ∙ ap (λ m. some (outcome m wait)) same)

  pub requests-get_elem? :
      (calls : List (Request x × Wait)) (k : ℕ) (req : Request x)
      → get_elem? (requests calls) k ≡ some req
      → (wait : Wait) × (get_elem? calls k ≡ some (req, wait))
  requests-get_elem? [] k req e = cc
  requests-get_elem? ((r, wait) ∷ calls) zero req e =
      let same : r ≡ req = cc in (wait, ap (λ q. some (q, wait)) same)
  requests-get_elem? (call ∷ calls) (suc k) req e = requests-get_elem? calls k req e

module _ {x : External} {ch : Channel (Message x)} where
  -- The results of the calls.
  unfoldable pub results_each : List (Request x × Wait) → Client x ch → List (Result ℕ Error)
  results_each [] c = []
  results_each (call ∷ calls) c = let r = send_msg call.0 call.1 c in r.1 ∷ results_each calls r.0

module _ {x : External} {ch : Channel (Message x)} (law : IsChannel ch) where
  -- With room for them all, each call returns the next id, or what its wait gives.
  pub results_each_lem :
      (calls : List (Request x × Wait)) (c : Client x ch)
      → length (ch.pending c.queue) + length calls ≤ ch.capacity c.queue
      → results_each calls c ≡ outcomes c.last_id calls
  unfolding results_each register
  results_each_lem [] c room = refl
  results_each_lem (call ∷ calls) c room =
      let r = send_msg call.0 call.1 c in
      let (c1, sent, _) = send_msg-room law call.0 call.1 c (omega arith) in
      let q = send_msg-Queued law call c (omega arith) in
      let next : r.0.last_id ≡ (c.last_id + 1) % usize_mod =
        ap (λ (k : Client x ch). k.last_id) q.rest in
      ap (λ (o : Client x ch × Result ℕ Error). o.1 ∷ results_each calls r.0) sent
      ∙ ap (λ os. outcome c.last_id call.1 ∷ os)
          (results_each_lem calls r.0 (
              omega (
                arith,
                q.capacity,
                ap length q.pending
                    ∙ length-append (ch.pending c.queue) (call_message c.last_id call ∷ []),
              ))
            ∙ ap (λ n. outcomes n calls) next)
