-- ===== src/Client/Sender/Pipeline.antt =====
-- src/client.rs: several requests on their way at the same time, and their answers in any order.
use electrum_sdk.Base.{
  ℕ, ◌+◌, ◌%◌, ◌≤◌, ◌≡◌, sym, ap, ◌∙◌, List, [], ◌∷◌, ◌++◌, append-nil, length, get_elem?, some,
  All, All-map_imp, ℕ_eq, refl, arith, Result, map, suc,
}
use electrum_sdk.Base.Map
use electrum_sdk.Base.Set.{Distinct}
use electrum_sdk.External.{External}
use electrum_sdk.Channel.{Channel, IsChannel}
use electrum_sdk.Types.Request.{Request}
use electrum_sdk.Types.Response.{usize_mod}
use electrum_sdk.Client.{Client, Message, ClientNotification, Error}
use electrum_sdk.Client.Receive.{receive_all}
use electrum_sdk.Client.Receive.Pipeline.{
  Answer, Incoming, answers_of, IsReadable, IsFiled, IsDelivered, ids, lines, responses, delivered,
  receive_all-answers,
}
use electrum_sdk.Client.Send.{Wait, register}
use electrum_sdk.Client.Send.Laws.{outcome}
use electrum_sdk.Client.Send.Results.{
  of_result-outcome, results_each, results_each_lem, outcomes-get_elem?, requests-get_elem?,
}
use electrum_sdk.Client.Await.{received, of_result, get_response, ◌>>=◌}
use electrum_sdk.Client.Send.Batch.{file_all, file_all_filed}
use electrum_sdk.Client.Send.Sequence.{call_messages, requests, send_each, send_each-queues}
use electrum_sdk.Client.Sender.{Effect, run_sender}
use electrum_sdk.Client.Sender.Wire.{Writes, IsSending, successes}
use electrum_sdk.Client.Sender.Order.{sends_in_order}

module _ {x : External} where
  call_messages-IsSending :
      (calls : List (Request x × Wait)) (n : ℕ) → All IsSending (call_messages n calls)
  call_messages-IsSending [] n = tt
  call_messages-IsSending (call ∷ calls) n =
      (tt, call_messages-IsSending calls ((n + 1) % usize_mod))

  -- The answer is to one of the requests, under its id when the first has the id `n`.
  abbrev pub IsAnswerTo : ℕ → List (Request x) → Answer x → Type 0
  IsAnswerTo n reqs a = (k : ℕ) × (get_elem? reqs k ≡ some a.request) × (a.id ≡ n + k)

length-requests :
    {x : External} (calls : List (Request x × Wait)) → length (requests calls) ≡ length calls
length-requests [] = refl
length-requests (call ∷ calls) = ap suc (length-requests calls)

module _ {x : External} {ch : Channel (Message x)} where
  -- The answer is to one of the calls: with the result `r` of its `send_msg`, which is the id of the
  -- answer or what its wait gives, the caller gets from these notifications the response of the answer,
  -- or that error of its wait.
  abbrev pub IsReturned :
      List (Request x × Wait) → Client x ch → List (ClientNotification x) → Answer x → Type 0
  IsReturned calls c ns a =
      (k : ℕ) × (wait : Wait) × (r : Result ℕ Error) × (get_elem? calls k ≡ some (a.request, wait))
      × (get_elem? (results_each calls c) k ≡ some r)
      × (r ≡ outcome a.id wait)
      × ((of_result r >>= λ id. get_response id (map received ns))
          ≡ of_result (outcome (some a.response) wait))

module _ {x : External} {ch : Channel (Message x)} where
  pub published-file_all :
      (reqs : List (Request x)) (c : Client x ch) → (file_all reqs c).published ≡ c.published
  unfolding file_all register
  published-file_all [] c = refl
  published-file_all (req ∷ reqs) c = published-file_all reqs (register req c)

  pub IsFiled-answer :
      (reqs : List (Request x)) (c c' : Client x ch) (a : Answer x)
      → c.last_id + length reqs ≤ usize_mod
      → c'.inventory ≡ (file_all reqs c).inventory
      → IsAnswerTo c.last_id reqs a
      → IsFiled c' a
  IsFiled-answer reqs c c' a small same (k, at, under) =
      ap (λ m. Map.get m a.id) same
      ∙ ap (Map.get (file_all reqs c).inventory) under
      ∙ file_all_filed reqs c k a.request small at

module _ {x : External} {ch : Channel (Message x)} (law : IsChannel ch) where
  -- What several calls have sent is written in order; the channel is empty again, and nothing else is
  -- changed but that the requests are filed.
  pub calls_written :
      (calls : List (Request x × Wait)) (c : Client x ch)
      → ch.pending c.queue ≡ []
      → length calls ≤ ch.capacity c.queue
      → let ms : List (Message x) = call_messages c.last_id calls in
        (c' : Client x ch) × (fs : List Effect) × (run_sender (successes ms []) (send_each calls c)
          ≡ (c', fs))
        × Writes fs ms
        × (ch.pending c'.queue ≡ [])
        × (record c' { queue = c.queue } ≡ file_all (requests calls) c)
  calls_written calls c empty room =
      let ms : List (Message x) = call_messages c.last_id calls in
      let (held, filed) = send_each-queues law calls c (omega (arith, ap length empty)) in
      let waiting = held ∙ ap (λ l. l ++ ms) empty ∙ sym (append-nil ms) in
      let (c', fs, ran, wrote, d) =
        sends_in_order law ms [] (send_each calls c) (call_messages-IsSending calls c.last_id)
          waiting in
      (
        c',
        fs,
        ran,
        wrote,
        d.pending,
        ap (λ (k : Client x ch). record k { queue = c.queue }) d.rest ∙ filed,
      )

  All-IsReturned :
      (calls : List (Request x × Wait)) (c : Client x ch) (ns : List (ClientNotification x))
      (as' : List (Answer x))
      → length (ch.pending c.queue) + length calls ≤ ch.capacity c.queue
      → c.last_id + length calls ≤ usize_mod
      → All (IsAnswerTo c.last_id (requests calls)) as'
      → All (IsDelivered ns) as'
      → All (IsReturned calls c ns) as'
  All-IsReturned calls c ns [] room small answered ds = tt
  All-IsReturned calls c ns (a ∷ as') room small ((k, at, under), answered) (d, ds) =
      let (wait, called) = requests-get_elem? calls k a.request at in
      (
        (
          k,
          wait,
          outcome a.id wait,
          called,
          ap (λ os. get_elem? os k) (results_each_lem law calls c room)
              ∙ outcomes-get_elem? c.last_id k calls a.request wait small called
              ∙ ap (λ id. some (outcome id wait)) (sym under),
          refl,
          of_result-outcome a.id (some a.response) (λ id. get_response id (map received ns)) wait d,
        ),
        All-IsReturned calls c ns as' room small answered ds,
      )

  -- Several calls on a client with an empty channel and room for their messages, with ids that do not
  -- overflow, and lines of the server that answer some of them, each at most once and in any order,
  -- with responses other than `Null`, among readable notifications and lines without use: the sender
  -- task, whose calls of `write_all` succeed, writes the requests in the order of the calls, and tells the callers that wait; the
  -- receiver task publishes the responses and the notifications in the order of the lines; and the
  -- caller of each request that is answered, waiting for the id that its `send_msg` returns, gets its own
  -- response, or the error of its wait for the message when that ends in one.
  pub calls_answered :
      (calls : List (Request x × Wait)) (ls : List (Incoming x)) (c : Client x ch)
      → ch.pending c.queue ≡ []
      → length calls ≤ ch.capacity c.queue
      → c.last_id + length (requests calls) ≤ usize_mod
      → Distinct (ids (answers_of ls))
      → All IsReadable ls
      → All (IsAnswerTo c.last_id (requests calls)) (answers_of ls)
      → let ms : List (Message x) = call_messages c.last_id calls in
        (c' : Client x ch) × (fs : List Effect) × (run_sender (successes ms []) (send_each calls c)
          ≡ (c', fs))
        × Writes fs ms
        × ((receive_all (lines ls) c').published ≡ c.published ++ responses ls)
        × All (IsDelivered (responses ls)) (answers_of ls)
        × All (IsReturned calls c (responses ls)) (answers_of ls)
  calls_answered calls ls c empty room small apart readable answered =
      let (c', fs, ran, wrote, drained, filed) = calls_written calls c empty room in
      let same = ap (λ (k : Client x ch). k.inventory) filed in
      let before =
        ap (λ (k : Client x ch). k.published) filed ∙ published-file_all (requests calls) c in
      (
        c',
        fs,
        ran,
        wrote,
        receive_all-answers ls c' apart readable (
              All-map_imp _ _ (λ a. IsFiled-answer (requests calls) c c' a small same)
                (answers_of ls) answered)
            ∙ ap (λ ns. ns ++ responses ls) before,
        delivered ls apart,
        All-IsReturned calls c (responses ls) (answers_of ls) (omega (arith, ap length empty))
            (omega (arith, length-requests calls)) answered (delivered ls apart),
      )
