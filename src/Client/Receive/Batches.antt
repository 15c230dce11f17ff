-- ===== src/Client/Receive/Batches.antt =====
-- src/client.rs: `get_batch_response` on the lines of a server that answers a batch.
use electrum_sdk.Base.{
  ℕ, ℕ_eq, ◌≡◌, refl, sym, ap, ◌∙◌, List, [], ◌∷◌, ◌++◌, append_assoc, append-nil, map, true, false,
  if◌then◌else◌, arith,
}
use electrum_sdk.Base.Set
use electrum_sdk.Base.Set.{Distinct, contains}
use electrum_sdk.External.{External}
use electrum_sdk.Types.Response.{Response}
use electrum_sdk.Client.Await.{Task, received, returns, is_empty, collect, get_batch_loop}
use electrum_sdk.Client.Receive.Pipeline.{
  Answer, Incoming, answers, notifies, useless, answers_of, ids, responses,
}

left_missing :
    (missing is : List ℕ) (id j : ℕ)
    → contains is id ≡ false
    → contains missing j ≡ contains (id ∷ is) j
    → contains (Set.remove missing id) j ≡ contains is j
unfolding contains
left_missing missing is id j apart h = ground (arith, h, apart, Set.contains-remove missing id j)

module _ {x : External} where
  -- The responses of the answers, in their order.
  abbrev pub results : List (Answer x) → List (Response x)
  results [] = []
  results (a ∷ as') = a.response ∷ results as'

  no_ids : (as' : List (Answer x)) → ((j : ℕ) → contains [] j ≡ contains (ids as') j) → as' ≡ []
  no_ids [] h = refl
  no_ids (a ∷ as') h = cc (h a.id, Set.contains_self (ids as') a.id, Set.contains-nil a.id)

  ends_or_goes_on :
      (missing : List ℕ) (as' : List (Answer x)) (out : List (Response x))
      (rest : Task (List (Response x)))
      → ((j : ℕ) → contains missing j ≡ contains (ids as') j)
      → (is_empty missing ≡ false → rest ≡ returns (out ++ results as'))
      → (if is_empty missing then returns out else rest) ≡ returns (out ++ results as')
  ends_or_goes_on [] as' out rest h more =
      ap returns (sym (append-nil out)) ∙ ap (λ l. returns (out ++ results l)) (sym (no_ids as' h))
  ends_or_goes_on (i ∷ is) as' out rest h more = more refl

  pub batch_loop-delivered :
      (ls : List (Incoming x)) (missing : List ℕ) (out : List (Response x))
      → Distinct (ids (answers_of ls))
      → ((j : ℕ) → contains missing j ≡ contains (ids (answers_of ls)) j)
      → is_empty missing ≡ false
      → get_batch_loop missing out (map received (responses ls))
        ≡ returns (out ++ results (answers_of ls))
  unfolding get_batch_loop collect
  batch_loop-delivered [] [] out d h some_left = cc some_left
  batch_loop-delivered [] (i ∷ is) out d h some_left = cc (h i, Set.contains_self is i)
  batch_loop-delivered (answers text a ∷ ls) missing out d h some_left =
      let missing_id : contains missing a.id ≡ true =
        h a.id ∙ Set.contains_self (ids (answers_of ls)) a.id in
      let left = λ (j : ℕ). left_missing missing (ids (answers_of ls)) a.id j d.0 (h j) in
      rw missing_id (
        ends_or_goes_on (Set.remove missing a.id) (answers_of ls) (out ++ a.response ∷ []) _ left
          (batch_loop-delivered ls (Set.remove missing a.id) (out ++ a.response ∷ []) d.1 left)
        ∙ ap returns (append_assoc out (a.response ∷ []) (results (answers_of ls))))
  batch_loop-delivered (notifies text jsonrpc m ps n ∷ ls) missing out d h some_left =
      batch_loop-delivered ls missing out d h some_left
  batch_loop-delivered (useless text ∷ ls) missing out d h some_left =
      batch_loop-delivered ls missing out d h some_left
