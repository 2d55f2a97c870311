-- ===== src/Client/Loop.antt =====
-- client.c: `recv_message` and the loop of `main`.
use geekchatserver.Prelude.{
  ℕ, zero, suc, List, [], ◌∷◌, Bytes, codes, if◌then◌else◌, not, Bool, true, false, Option, none,
  some, ℤ, pos, negsuc, is_neg,
}
use geekchatserver.Platform.{Platform}
use geekchatserver.Client.{C, pure, fault, ◌>>=◌, ◌>>◌, get}
use geekchatserver.Methods.Field.{field}
use geekchatserver.Client.Packets.{recv_buffer, fetch_json, send_json_object}
use geekchatserver.Client.Requests.{recv_respond, recv_stdin}

-- What `epoll_wait` reports.
pub data ClientEvent : Type 0 where
  socket_ready : ClientEvent
  stdin_ready : ClientEvent

-- One round more than there are bytes.
abbrev pub rounds : ℤ → ℕ
rounds (pos n) = suc n
rounds (negsuc n) = 1

module _ ⦃p : Platform⦄ where
  -- The three texts of a message, if it has them all.
  unfoldable pub message_of : p.Json → Option (Bytes × Bytes × Bytes)
  message_of json = elim (field json (codes "from")) [
    | none ↦ none
    | some from ↦ elim (field json (codes "message")) [
      | none ↦ none
      | some message ↦ elim (field json (codes "uuid")) [
        | none ↦ none
        | some uuid ↦ some (from, message, uuid)
      ]
    ]
  ]

  -- The loop of `recv_message`. `deleted` says whether `json` points to a deleted object, else it is
  -- NULL, of which every key is NULL. The result is `none` when the fuel ran out.
  unfoldable pub fetch_loop : ℕ → Bool → C (Option ℤ)
  fetch_loop zero deleted = pure none
  fetch_loop (suc fuel) deleted = do
    (ret, got) ← fetch_json
    let again = fetch_loop fuel true
    if is_neg ret then pure (some (pos 0)) else elim got [
      | none ↦ if deleted then fault else pure (some (pos 0))
      | some json ↦ elim (message_of json) [
        | none ↦ pure (some (pos 0))
        | some (from, message, uuid) ↦ do
          ct ← get
          send_json_object (recv_respond uuid ct.token)
          again
      ]
    ]

  unfoldable pub recv_message : C (Option ℤ)
  recv_message = do
    ret ← recv_buffer
    ct ← get
    if is_neg ret then pure (some (negsuc 0)) else fetch_loop (rounds ct.recv_offset) false

  -- The events of one `epoll_wait`; `false` is the jump to `exit`.
  unfoldable pub client_events : List ClientEvent → C Bool
  client_events [] = pure true
  client_events (socket_ready ∷ evs) = do
    ret ← recv_message
    code ← (elim ret [ none ↦ fault | some r ↦ pure r ])
    if is_neg code then pure false else client_events evs
  client_events (stdin_ready ∷ evs) = recv_stdin >> client_events evs

  -- The loop of `main`, for the events that the rounds report.
  unfoldable pub client_rounds : List (List ClientEvent) → C (Unit {0})
  unfolding client_events
  client_rounds [] = pure tt
  client_rounds (evs ∷ rounds) = do
    ct ← get
    if not ct.thread_loop
        then pure tt
        else do go_on ← client_events evs; if go_on then client_rounds rounds else pure tt
