-- ===== src/Client/Send/Batch.antt =====
-- `send_batch_msg`: the ids of a batch, and how its requests are filed.
use electrum_sdk.Base.{
  ℕ, zero, suc, ◌+◌, ◌%◌, ◌≤◌, ◌<◌, ◌≡◌, refl, ap, subst, ◌∙◌, List, [], ◌∷◌, ◌++◌, append-nil,
  append_assoc, some, ok, length, get_elem?, arith,
}
use electrum_sdk.Base.Map
use electrum_sdk.External.{External}
use electrum_sdk.Channel.{Channel, IsChannel}
use electrum_sdk.Types.Request.{Request}
use electrum_sdk.Types.Message.{JsonRpcMsg, compose_request}
use electrum_sdk.Types.Response.{usize_mod}
use electrum_sdk.Client.{Client, Message, ClientEvent}
use electrum_sdk.Client.Send.{Wait, register, register_all, send_batch_msg}
use electrum_sdk.Client.Send.Laws.{slot, outcome, Queued, send_and_wait-room, get-register}

pub get_elem?-lt {ℓ} :
    {A : Type ℓ} (xs : List A) (k : ℕ) {a : A} → get_elem? xs k ≡ some a → k < length xs
get_elem?-lt [] k e = cc
get_elem?-lt (x ∷ xs) zero e = omega arith
get_elem?-lt (x ∷ xs) (suc k) e = omega (arith, get_elem?-lt xs k e)

module _ {x : External} where
  -- The ids and the messages of requests, from the next id on.
  abbrev pub ids_from : ℕ → List (Request x) → List ℕ
  ids_from n [] = []
  ids_from n (req ∷ reqs) = n ∷ ids_from ((n + 1) % usize_mod) reqs

  abbrev pub messages_from : ℕ → List (Request x) → List (JsonRpcMsg x)
  messages_from n [] = []
  messages_from n (req ∷ reqs) = compose_request n req ∷ messages_from ((n + 1) % usize_mod) reqs

  -- Without overflow the ids count up from the first.
  ids_from-get_elem? :
      (n k : ℕ) (reqs : List (Request x))
      → n + length reqs ≤ usize_mod
      → k < length reqs
      → get_elem? (ids_from n reqs) k ≡ some (n + k)
  ids_from-get_elem? n k [] h l = absurd (omega arith)
  ids_from-get_elem? n zero (req ∷ reqs) h l = ap some (omega arith)
  ids_from-get_elem? n (suc k) (req ∷ reqs) h l =
      let e : (n + 1) % usize_mod ≡ n + 1 = omega arith in
      rw e (ids_from-get_elem? (n + 1) k reqs (omega arith) (omega arith) ∙ ap some (omega arith))

  length-ids_from : (n : ℕ) (reqs : List (Request x)) → length (ids_from n reqs) ≡ length reqs
  length-ids_from n [] = refl
  length-ids_from n (req ∷ reqs) = ap suc (length-ids_from ((n + 1) % usize_mod) reqs)

  length-messages_from :
      (n : ℕ) (reqs : List (Request x)) → length (messages_from n reqs) ≡ length reqs
  length-messages_from n [] = refl
  length-messages_from n (req ∷ reqs) = ap suc (length-messages_from ((n + 1) % usize_mod) reqs)

  messages_from-get_elem? :
      (n k : ℕ) (reqs : List (Request x)) (req : Request x)
      → n + length reqs ≤ usize_mod
      → get_elem? reqs k ≡ some req
      → get_elem? (messages_from n reqs) k ≡ some (compose_request (n + k) req)
  messages_from-get_elem? n k [] req h e = cc
  messages_from-get_elem? n zero (r ∷ reqs) req h e =
      let same : r ≡ req = cc in
      let start : n ≡ n + 0 = omega arith in
      ap (λ q. some (compose_request n q)) same ∙ ap (λ m. some (compose_request m req)) start
  messages_from-get_elem? n (suc k) (r ∷ reqs) req h e =
      let next : (n + 1) % usize_mod ≡ n + 1 = omega (arith, get_elem?-lt reqs k e) in
      let same : n + 1 + k ≡ n + suc k = omega arith in
      rw next (
        messages_from-get_elem? (n + 1) k reqs req (omega arith) e
        ∙ ap (λ m. some (compose_request m req)) same)

module _ {x : External} {ch : Channel (Message x)} where
  -- The requests are filed one after the other.
  unfoldable pub file_all : List (Request x) → Client x ch → Client x ch
  file_all [] c = c
  file_all (req ∷ reqs) c = file_all reqs (register req c)

  pub register_all_lem :
      (reqs : List (Request x)) (ids : List ℕ) (msgs : List (JsonRpcMsg x)) (c : Client x ch)
      → register_all reqs ids msgs c
        ≡ (file_all reqs c, ids ++ ids_from c.last_id reqs, msgs ++ messages_from c.last_id reqs)
  unfolding register_all file_all
  register_all_lem [] ids msgs c = rw (append-nil ids, append-nil msgs)
  register_all_lem (req ∷ reqs) ids msgs c =
      register_all_lem reqs (ids ++ c.last_id ∷ []) (msgs ++ compose_request c.last_id req ∷ [])
        (register req c)
      ∙ rw (append_assoc ids, append_assoc msgs)

  pub last_id-register :
      (req : Request x) (c : Client x ch) → (register req c).last_id ≡ (c.last_id + 1) % usize_mod
  unfolding register
  last_id-register req c = refl

  -- An id below the next one keeps its entry.
  file_all_below :
      (reqs : List (Request x)) (c : Client x ch) (j : ℕ)
      → c.last_id + length reqs ≤ usize_mod
      → j < c.last_id
      → Map.get (file_all reqs c).inventory j ≡ Map.get c.inventory j
  unfolding file_all
  file_all_below [] c j h l = refl
  file_all_below (req ∷ []) c j h l = ground (arith, get-register req c j)
  file_all_below (req ∷ req' ∷ reqs) c j h l =
      let next : (register req c).last_id ≡ c.last_id + 1 = last_id-register req c ∙ omega arith in
      file_all_below (req' ∷ reqs) (register req c) j (omega (arith, next)) (omega (arith, next))
      ∙ ground (arith, get-register req c j)

  pub queue-file_all :
      (reqs : List (Request x)) (c : Client x ch) → (file_all reqs c).queue ≡ c.queue
  unfolding file_all register
  queue-file_all [] c = refl
  queue-file_all (req ∷ reqs) c = queue-file_all reqs (register req c)

  -- After the whole batch the k-th request is filed under the k-th id.
  pub file_all_filed :
      (reqs : List (Request x)) (c : Client x ch) (k : ℕ) (req : Request x)
      → c.last_id + length reqs ≤ usize_mod
      → get_elem? reqs k ≡ some req
      → Map.get (file_all reqs c).inventory (c.last_id + k) ≡ some req
  unfolding file_all
  file_all_filed [] c k req h e = cc
  file_all_filed (r ∷ []) c zero req h e = ground (arith, get-register r c (c.last_id + 0))
  file_all_filed (r ∷ r' ∷ reqs) c zero req h e =
      let next : (register r c).last_id ≡ c.last_id + 1 = last_id-register r c ∙ omega arith in
      file_all_below (r' ∷ reqs) (register r c) (c.last_id + 0) (omega (arith, next))
        (omega (arith, next))
      ∙ ground (arith, get-register r c (c.last_id + 0))
  file_all_filed (r ∷ reqs) c (suc k) req h e =
      let some_left : k < length reqs = get_elem?-lt reqs k e in
      let next : (register r c).last_id ≡ c.last_id + 1 = last_id-register r c ∙ omega arith in
      let same : (register r c).last_id + k ≡ c.last_id + suc k = omega (arith, next) in
      subst (λ j. Map.get (file_all reqs (register r c)).inventory j ≡ some req) same
        (file_all_filed reqs (register r c) k req (omega (arith, next)) e)

  -- With room in the channel, a batch of at least one request is queued as one event whose messages
  -- have the next ids in order, and the result is those ids, or what the wait gives.
  pub send_batch_msg-room :
      (law : IsChannel ch) (req : Request x) (reqs : List (Request x)) (wait : Wait)
      (c : Client x ch)
      → length (ch.pending c.queue) < ch.capacity c.queue
      → (c' : Client x ch) × (send_batch_msg (req ∷ reqs) wait c
          ≡ (c', outcome (ids_from c.last_id (req ∷ reqs)) wait))
        × Queued law
            (ClientEvent.send_batch (messages_from c.last_id (req ∷ reqs)))
            (slot wait)
            (file_all (req ∷ reqs) c)
            c'
  unfolding send_batch_msg
  send_batch_msg-room law req reqs wait c room =
      rw (send_batch_msg, register_all_lem (req ∷ reqs) [] [] c)
        (send_and_wait-room law (ClientEvent.send_batch (messages_from c.last_id (req ∷ reqs)))
          (ids_from c.last_id (req ∷ reqs)) wait (file_all (req ∷ reqs) c)
          (rw (queue-file_all (req ∷ reqs) c) room))

  -- A batch of no requests sends nothing.
  pub send_batch_msg-nil : (wait : Wait) (c : Client x ch) → send_batch_msg [] wait c ≡ (c, ok [])
  unfolding send_batch_msg
  send_batch_msg-nil wait c = refl

  -- In a batch that does not make the ids overflow, the k-th request gets the k-th id from the next
  -- one on, its message is composed with this id, and after the whole batch it is filed under it; there
  -- are as many ids and messages as requests, and the entries of the ids before the batch stay.
  pub register_all-get_elem? :
      (reqs : List (Request x)) (c : Client x ch) (k : ℕ) (req : Request x)
      → c.last_id + length reqs ≤ usize_mod
      → get_elem? reqs k ≡ some req
      → let r = register_all reqs [] [] c in
        (get_elem? r.1 k ≡ some (c.last_id + k))
        × (get_elem? r.2 k ≡ some (compose_request (c.last_id + k) req))
        × (Map.get r.0.inventory (c.last_id + k) ≡ some req)
        × (length r.1 ≡ length reqs)
        × (length r.2 ≡ length reqs)
        × ((j : ℕ) → j < c.last_id → Map.get r.0.inventory j ≡ Map.get c.inventory j)
  register_all-get_elem? reqs c k req h e = rw (register_all_lem reqs [] [] c) (
    ids_from-get_elem? c.last_id k reqs h (get_elem?-lt reqs k e),
    messages_from-get_elem? c.last_id k reqs req h e,
    file_all_filed reqs c k req h e,
    length-ids_from c.last_id reqs,
    length-messages_from c.last_id reqs,
    λ j. file_all_below reqs c j h,
  )
