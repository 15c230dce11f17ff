-- ===== src/Client/Sender/Batches.antt =====
-- src/client.rs: a batch on its way to the server, and the answers to it.
use electrum_sdk.Base.{
  ℕ, ℕ_eq, ◌+◌, ◌<◌, ◌≤◌, ◌≡◌, refl, ap, ◌∙◌, List, [], ◌∷◌, ◌++◌, true, false, Result, length, All,
  All-map_imp, arith, map,
}
use electrum_sdk.Base.Set
use electrum_sdk.Base.Set.{Distinct, contains}
use electrum_sdk.External.{External}
use electrum_sdk.Channel.{Channel, IsChannel}
use electrum_sdk.Types.Request.{Request}
use electrum_sdk.Types.Response.{usize_mod}
use electrum_sdk.Client.{Client, Message, ClientEvent, Error}
use electrum_sdk.Client.Send.{Wait, send_batch_msg}
use electrum_sdk.Client.Send.Laws.{slot, outcome}
use electrum_sdk.Client.Send.Batch.{
  ids_from, messages_from, file_all, queue-file_all, send_batch_msg-room,
}
use electrum_sdk.Client.Send.Results.{of_result-outcome}
use electrum_sdk.Client.Receive.{receive_all}
use electrum_sdk.Client.Receive.Pipeline.{
  Incoming, answers_of, IsReadable, ids, lines, responses, receive_all-answers,
}
use electrum_sdk.Client.Receive.Batches.{results, batch_loop-delivered}
use electrum_sdk.Client.Sender.{Effect, run_sender}
use electrum_sdk.Client.Sender.Wire.{Writes}
use electrum_sdk.Client.Sender.Order.{sends_in_order}
use electrum_sdk.Client.Sender.Pipeline.{IsAnswerTo, IsFiled-answer, published-file_all}
use electrum_sdk.Client.Await.{
  received, returns, of_result, is_empty, id_set, get_batch_response, ◌>>=◌,
}
use electrum_sdk.Client.Await.Batch.{id_set-contains}

is_empty-contains : (s : List ℕ) (j : ℕ) → contains s j ≡ true → is_empty s ≡ false
is_empty-contains [] j h = cc (h, Set.contains-nil j)
is_empty-contains (i ∷ is) j h = refl

module _ {x : External} where
  abbrev pub batch_message : ℕ → List (Request x) → Wait → Message x
  batch_message n reqs wait = record {
    event = ClientEvent.send_batch (messages_from n reqs);
    sender = slot wait;
  }

  batch-delivered :
      (n : ℕ) (is : List ℕ) (ls : List (Incoming x))
      → Distinct (ids (answers_of ls))
      → ((j : ℕ) → contains (n ∷ is) j ≡ contains (ids (answers_of ls)) j)
      → get_batch_response (n ∷ is) (map received (responses ls))
        ≡ returns (results (answers_of ls))
  unfolding get_batch_response
  batch-delivered n is ls apart all_answered =
      batch_loop-delivered ls (id_set (n ∷ is)) [] apart
        (λ j. id_set-contains (n ∷ is) j ∙ all_answered j)
        (is_empty-contains (id_set (n ∷ is)) n
          (id_set-contains (n ∷ is) n ∙ Set.contains_self is n))

module _ {x : External} {ch : Channel (Message x)} (law : IsChannel ch) where
  -- A batch of at least one request on a client with an empty channel that has room, with ids that do
  -- not overflow, and lines of the server that answer each of its requests once, in any order, with
  -- responses other than `Null`, among readable notifications and lines without use: the sender task,
  -- whose call of `write_all` succeeds, writes the requests in their order, and tells the caller if it
  -- waits; the receiver task publishes the responses and the notifications in the order of the lines;
  -- and the caller, waiting for the ids that `send_batch_msg` returns, gets the responses, in that order
  -- too, or the error of its wait for the message when that ends in one.
  pub batch_answered :
      (req : Request x) (reqs : List (Request x)) (wait : Wait) (ls : List (Incoming x))
      (c : Client x ch)
      → ch.pending c.queue ≡ []
      → 0 < ch.capacity c.queue
      → c.last_id + length (req ∷ reqs) ≤ usize_mod
      → Distinct (ids (answers_of ls))
      → All IsReadable ls
      → All (IsAnswerTo c.last_id (req ∷ reqs)) (answers_of ls)
      → ((j : ℕ) → contains (ids_from c.last_id (req ∷ reqs)) j ≡ contains (ids (answers_of ls)) j)
      → (c' : Client x ch) × (fs : List Effect) × (run_sender
            (true ∷ [])
            (send_batch_msg (req ∷ reqs) wait c).0
          ≡ (c', fs))
        × Writes fs (batch_message c.last_id (req ∷ reqs) wait ∷ [])
        × ((receive_all (lines ls) c').published ≡ c.published ++ responses ls)
        × (get_batch_response (ids_from c.last_id (req ∷ reqs)) (map received (responses ls))
            ≡ returns (results (answers_of ls)))
        × ((of_result (send_batch_msg (req ∷ reqs) wait c).1 >>= λ is.
              get_batch_response is (map received (responses ls)))
            ≡ of_result (outcome (results (answers_of ls)) wait))
  batch_answered req reqs wait ls c empty room small apart readable answered all_answered =
      let message = batch_message c.last_id (req ∷ reqs) wait in
      let filed = file_all (req ∷ reqs) c in
      let (c1, sent, q) =
        send_batch_msg-room law req reqs wait c (omega (arith, ap length empty)) in
      let waiting : ch.pending c1.queue ≡ message ∷ [] =
        q.pending
        ∙ ap (λ k. ch.pending k ++ message ∷ []) (queue-file_all (req ∷ reqs) c)
        ∙ ap (λ l. l ++ message ∷ []) empty in
      let (c', fs, ran, wrote, d) = sends_in_order law (message ∷ []) [] c1 (tt, tt) waiting in
      let rest : Path (Client x ch) (record c' { queue = filed.queue }) filed =
        ap (λ (k : Client x ch). record k { queue = filed.queue }) d.rest ∙ q.rest in
      (
        c',
        fs,
        ap (λ (r : Client x ch × Result (List ℕ) Error). run_sender (true ∷ []) r.0) sent ∙ ran,
        wrote,
        receive_all-answers ls c' apart readable (
              All-map_imp _ _
                (λ a.
                  IsFiled-answer (req ∷ reqs) c c' a small
                    (ap (λ (k : Client x ch). k.inventory) rest))
                (answers_of ls) answered)
            ∙ ap (λ ns. ns ++ responses ls)
                (ap (λ (k : Client x ch). k.published) rest ∙ published-file_all (req ∷ reqs) c),
        batch-delivered c.last_id _ ls apart all_answered,
        ap
              (λ (r : Client x ch × Result (List ℕ) Error).
                of_result r.1 >>= λ is. get_batch_response is (map received (responses ls)))
              sent
            ∙ of_result-outcome (ids_from c.last_id (req ∷ reqs)) (results (answers_of ls))
                (λ is. get_batch_response is (map received (responses ls))) wait
                (batch-delivered c.last_id _ ls apart all_answered),
      )
