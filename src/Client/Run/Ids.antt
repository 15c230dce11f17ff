-- ===== src/Client/Run/Ids.antt =====
-- src/client.rs: the ids of requests, in any order of the steps.
use electrum_sdk.Base.{
  ℕ, ◌+◌, ◌≤◌, ◌<◌, ◌≡◌, refl, ◌∙◌, List, [], ◌∷◌, Option, none, length, arith, subst, String,
}
use electrum_sdk.Base.Map
use electrum_sdk.Base.Map.{get-remove}
use electrum_sdk.External.{External}
use electrum_sdk.Channel.{Channel}
use electrum_sdk.Types.Hash.{hash_eq}
use electrum_sdk.Types.Request.{Request}
use electrum_sdk.Types.Message.{compose_request}
use electrum_sdk.Types.Response.{usize_mod}
use electrum_sdk.Client.{
  Client, Message, ClientEvent, set_headers, set_status, schedule_for_stop, new,
}
use electrum_sdk.Client.Send.{Wait, register, register_all, send_msg, send_batch_msg}
use electrum_sdk.Client.Send.Laws.{get-register}
use electrum_sdk.Client.Send.Batch.{
  file_all, register_all_lem, last_id-register, ids_from, messages_from,
}
use electrum_sdk.Client.Run.Keeps.{
  Keeps, send_and_wait-Keeps, disconnect-Keeps, stop-Keeps, receive-Keeps, KeepsRound,
  sender_step-Keeps, add_script-Keeps, drop_script-Keeps, add_scripts-Keeps,
}
use electrum_sdk.Client.Run.{
  Step, sends, sends_batch, marks_headers, adds, drops, adds_all, disconnects, stops, receives,
  takes, readdresses, marks_status, schedules, Run, here, onward,
}

module _ {x : External} {ch : Channel (Message x)} where
  -- Nothing is filed under the next id, or under one above it.
  abbrev pub IsFresh : Client x ch → Type 0
  IsFresh c = (j : ℕ) → c.last_id ≤ j → Map.get c.inventory j ≡ none

  -- The ids go on by `n`, and what is above them stays free.
  abbrev pub Advances : ℕ → Client x ch → Client x ch → Type 0
  Advances n c c' = (c'.last_id ≡ c.last_id + n) × IsFresh c'

  Keeps-Advances : {c c' : Client x ch} → Keeps c c' → IsFresh c → Advances 0 c c'
  Keeps-Advances {c} k fresh =
      (omega (arith, k.last_id), λ j above. k.absent j (fresh j (omega (arith, k.last_id))))

  after_Keeps :
      (n : ℕ) (c : Client x ch) {d e : Client x ch} → Advances n c d → Keeps d e → Advances n c e
  after_Keeps n c (l, fresh) k =
      (k.last_id ∙ l, λ j above. k.absent j (fresh j (omega (arith, k.last_id))))

  file_all-Advances :
      (reqs : List (Request x)) (c : Client x ch)
      → c.last_id + length reqs < usize_mod
      → IsFresh c
      → Advances (length reqs) c (file_all reqs c)
  unfolding file_all
  file_all-Advances [] c small fresh = (omega arith, fresh)
  file_all-Advances (req ∷ reqs) c small fresh =
      let next : (register req c).last_id ≡ c.last_id + 1 = last_id-register req c ∙ omega arith in
      let (last, above) =
        file_all-Advances reqs (register req c) (omega (arith, next))
          λ j h. get-register req c j ∙ ground (arith, next, fresh j, h) in
      (omega (arith, last, next), above)

  send_msg-Advances :
      (req : Request x) (wait : Wait) (c : Client x ch)
      → c.last_id + 1 < usize_mod
      → IsFresh c
      → Advances 1 c (send_msg req wait c).0
  unfolding send_msg file_all
  send_msg-Advances req wait c small fresh =
      after_Keeps 1 c (file_all-Advances (req ∷ []) c small fresh) (
        send_and_wait-Keeps (ClientEvent.send_msg (compose_request c.last_id req)) c.last_id wait
          (register req c))

  send_batch_msg-Advances :
      (reqs : List (Request x)) (wait : Wait) (c : Client x ch)
      → c.last_id + length reqs < usize_mod
      → IsFresh c
      → Advances (length reqs) c (send_batch_msg reqs wait c).0
  unfolding send_batch_msg register_all
  send_batch_msg-Advances [] wait c small fresh = (omega arith, fresh)
  send_batch_msg-Advances (req ∷ reqs) wait c small fresh =
      rw (send_batch_msg, register_all_lem (req ∷ reqs) [] [] c)
        (after_Keeps (length (req ∷ reqs)) c (file_all-Advances (req ∷ reqs) c small fresh) (
          send_and_wait-Keeps (ClientEvent.send_batch (messages_from c.last_id (req ∷ reqs)))
            (ids_from c.last_id (req ∷ reqs)) wait (file_all (req ∷ reqs) c)))

  Step-Advances :
      {n : ℕ} {c c' : Client x ch}
      → Step n c c'
      → c.last_id + n < usize_mod
      → IsFresh c
      → Advances n c c'
  unfolding set_headers set_status schedule_for_stop
  Step-Advances (sends req wait {c}) small fresh = send_msg-Advances req wait c small fresh
  Step-Advances (sends_batch reqs wait {c}) small fresh =
      send_batch_msg-Advances reqs wait c small fresh
  Step-Advances (marks_headers enabled {c}) small fresh = (omega arith, fresh)
  Step-Advances (adds s {c}) small fresh = Keeps-Advances (add_script-Keeps s c) fresh
  Step-Advances (drops s {c}) small fresh = Keeps-Advances (drop_script-Keeps s c) fresh
  Step-Advances (adds_all ss {c}) small fresh = Keeps-Advances (add_scripts-Keeps ss c) fresh
  Step-Advances (disconnects {c}) small fresh = Keeps-Advances (disconnect-Keeps c) fresh
  Step-Advances (stops {c}) small fresh = Keeps-Advances (stop-Keeps c) fresh
  Step-Advances (receives r {c}) small fresh = Keeps-Advances (receive-Keeps r c) fresh
  Step-Advances (takes success f {c} {c'} e) small fresh =
      Keeps-Advances (subst (KeepsRound c) e (sender_step-Keeps success c)) fresh
  Step-Advances (readdresses addr proxy {c}) small fresh = (omega arith, fresh)
  Step-Advances (marks_status status {c}) small fresh = (omega arith, fresh)
  Step-Advances (schedules value {c}) small fresh = (omega arith, fresh)

  Run-Advances :
      {n : ℕ} {c c' : Client x ch}
      → Run n c c'
      → c.last_id + n < usize_mod
      → IsFresh c
      → Advances n c c'
  Run-Advances (here {c}) small fresh = (omega arith, fresh)
  Run-Advances (onward {n} {k} {c} {d} {e} step rest) small fresh =
      let (last, above) = Step-Advances step (omega arith) fresh in
      let (last', above') = Run-Advances rest (omega (arith, last)) above in
      (omega (arith, last, last'), above')

  -- After any steps of the callers, the tasks and the loop from a new client on, in any order, which
  -- take fewer than 2 ^ 64 ids: the next id is the number of ids taken, and nothing is filed under it
  -- or above it, so that a new request does not replace one that is still filed.
  pub Run-new :
      (addr : String) (proxy : Option x.SocketAddr) (n : ℕ) (c : Client x ch) (j : ℕ)
      → Run n (new x ch addr proxy) c
      → n < usize_mod
      → n ≤ j
      → (c.last_id ≡ n) × (Map.get c.inventory j ≡ none)
  unfolding new Map.get
  Run-new addr proxy n c j run small above =
      let (last, fresh) = Run-Advances run (omega arith) (λ i h. refl) in
      let taken : c.last_id ≡ n = last ∙ omega arith in
      (taken, fresh j (omega (arith, taken, above)))
