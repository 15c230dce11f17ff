-- ===== src/Client/Api/Histories.antt =====
-- src/client.rs: `batch_get_history`, and the order of arrival.
use mathlib.Core.List.{Perm}
use electrum_sdk.Base.{
  ℕ, suc, ◌+◌, ◌%◌, ◌≤◌, ◌<◌, ◌≡◌, refl, sym, ap, ◌∙◌, List, [], ◌∷◌, map, true, false, none, some,
  Result, length, length-map, arith, All, ℕ_eq,
}
use electrum_sdk.Base.Set
use electrum_sdk.Base.Set.{Distinct}
use electrum_sdk.External.{External}
use electrum_sdk.Channel.{Channel, IsChannel}
use electrum_sdk.Types.Hash.{ToElectrumScriptHash}
use electrum_sdk.Types.Request.{Request}
use electrum_sdk.Types.Structs.{GetHistoryRes}
use electrum_sdk.Types.Response.{Response, history, usize_mod}
use electrum_sdk.Client.{Client, Message, Error}
use electrum_sdk.Client.Send.{Wait, value, dropped, elapsed}
use electrum_sdk.Client.Send.Laws.{outcome}
use electrum_sdk.Client.Send.Batch.{ids_from, send_batch_msg-room}
use electrum_sdk.Client.Await.{Received, Task, returns, of_result, get_batch_response, ◌>>=◌}
use electrum_sdk.Client.Await.Batch.{
  IsKept, Arrives, ids_of, responses_of, get_batch_response-Collected,
}
use electrum_sdk.Client.Api.{Given, read_history, read_histories, batch_get_history}
use electrum_sdk.Client.Api.Outcomes.{task_returns}

module _ {x : External} where
  ids_from_above :
      (i n : ℕ) (reqs : List (Request x))
      → n + length reqs ≤ usize_mod
      → i < n
      → Set.contains (ids_from n reqs) i ≡ false
  unfolding Set.contains
  ids_from_above i n [] h l = refl
  ids_from_above i n (req ∷ []) h l = ground arith
  ids_from_above i n (req ∷ req' ∷ reqs) h l =
      let next : (n + 1) % usize_mod ≡ n + 1 = omega arith in
      rw next (ground (arith, ids_from_above i (n + 1) (req' ∷ reqs) (omega arith) (omega arith)))

  ids_from-Distinct :
      (n : ℕ) (reqs : List (Request x)) → n + length reqs ≤ usize_mod → Distinct (ids_from n reqs)
  ids_from-Distinct n [] h = tt
  ids_from-Distinct n (req ∷ []) h = (Set.contains-nil n, tt)
  ids_from-Distinct n (req ∷ req' ∷ reqs) h =
      let next : (n + 1) % usize_mod ≡ n + 1 = omega arith in
      rw next (
        ids_from_above n (n + 1) (req' ∷ reqs) (omega arith) (omega arith),
        ids_from-Distinct (n + 1) (req' ∷ reqs) (omega arith),
      )

  read_histories-returns :
      (rs : List (Response x)) (hs : List (List (GetHistoryRes x)))
      → read_histories rs ≡ returns hs
      → rs ≡ map history hs
  unfolding read_histories read_history
  read_histories-returns [] hs e = ground arith
  read_histories-returns (history h ∷ rs) hs e =
      let (rest, read, out) = task_returns (read_histories rs) (λ l. returns (h ∷ l)) e in
      let same = read_histories-returns rs rest read in ground (arith, same, out)
  read_histories-returns (_ ∷ rs) hs e = cc

outcome-ok : {A : Type 0} (a b : A) (wait : Wait) → of_result (outcome a wait) ≡ returns b → a ≡ b
outcome-ok a b none e = ground arith
outcome-ok a b (some (sender, value true)) e = ground arith
outcome-ok a b (some (sender, value false)) e = cc
outcome-ok a b (some (sender, dropped)) e = cc
outcome-ok a b (some (sender, elapsed)) e = cc

module _ {x : External} {S : Type 0} (hash : ToElectrumScriptHash S) where
  -- The requests of the batch.
  abbrev pub history_request : S → Request x
  history_request s = Request.get_history (hash.to_electrum_scripthash s)

  abbrev pub history_requests : List S → List (Request x)
  history_requests = map history_request

module _ {x : External} where
  -- What `batch_get_history` does with the result of `send_batch_msg`.
  abbrev after_batch :
      List (Received x) → Result (List ℕ) Error → Task (List (List (GetHistoryRes x)))
  after_batch rs o = of_result o >>= λ ids. get_batch_response ids rs >>= λ l. read_histories l

  after_batch-Arrives :
      (ids : List ℕ) (wait : Wait) (rs : List (Received x)) (hs : List (List (GetHistoryRes x)))
      → Distinct ids
      → All IsKept rs
      → after_batch rs (outcome ids wait) ≡ returns hs
      → (ps : List (ℕ × Response x)) × Perm (ids_of ps) ids
        × Arrives ps rs
        × (responses_of ps ≡ map history hs)
  after_batch-Arrives ids wait rs hs d kept e =
      let (got, waited, e') = task_returns (of_result (outcome ids wait)) _ e in
      let (res, answered, e2) = task_returns (get_batch_response got rs) _ e' in
      let same = outcome-ok ids got wait waited in
      let (ps, collected, perm, arrives) =
        get_batch_response-Collected ids rs res d kept
          (ap (λ l. get_batch_response l rs) same ∙ answered) in
      (ps, perm, arrives, sym collected ∙ read_histories-returns res hs e2)

module _ {x : External} {ch : Channel (Message x)} (law : IsChannel ch) where
  -- With room in the channel, and ids that do not overflow: if `batch_get_history` of at least one
  -- script returns, and the subscription did not end with an error, then an answer with a history
  -- arrived under each of the batch's ids, and the histories are in the order in which these arrived.
  pub batch_get_history-Arrives :
      {S : Type 0} (hash : ToElectrumScriptHash S) (s : S) (ss : List S) (g : Given x)
      (c : Client x ch) (hs : List (List (GetHistoryRes x)))
      → length (ch.pending c.queue) < ch.capacity c.queue
      → c.last_id + suc (length ss) ≤ usize_mod
      → All IsKept g.received
      → (batch_get_history hash (s ∷ ss) g c).1 ≡ returns hs
      → (ps : List (ℕ × Response x)) × Perm
          (ids_of ps)
          (ids_from c.last_id (history_requests {x = x} hash (s ∷ ss)))
        × Arrives ps g.received
        × (responses_of ps ≡ map history hs)
  unfolding batch_get_history
  batch_get_history-Arrives hash s ss g c hs room small kept e =
      let first : Request x = history_request hash s in
      let (c', sent, q) = send_batch_msg-room law first (history_requests hash ss) g.wait c room in
      after_batch-Arrives (ids_from c.last_id (history_requests {x = x} hash (s ∷ ss))) g.wait
        g.received hs
        (ids_from-Distinct c.last_id (history_requests hash (s ∷ ss))
          (omega (arith, small, length-map (history_request {x = x} hash) ss)))
        kept
        (ap (λ (r : Client x ch × Result (List ℕ) Error). after_batch g.received r.1) (sym sent)
          ∙ e)
