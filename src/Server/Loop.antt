-- ===== src/Server/Loop.antt =====
-- timer.c: `handle_timer_list`, and the loop of `main` in server.c.
use geekchatserver.Prelude.{
  ℕ, zero, suc, List, [], ◌∷◌, length, leb, Bool, true, false, Option, none, some,
}
use geekchatserver.Platform.{Platform}
use geekchatserver.State.{M, pure, ◌>>=◌, ◌>>◌, get, deref, with_timers}
use geekchatserver.Server.Clients.{accept_new_client, Accept, client_timeout_handler}
use geekchatserver.Server.Receive.{Event, client_socket}
use geekchatserver.Messages.Deliver.{send_message_handler}
use geekchatserver.Users.Load.{user_memory_free_handler}
use geekchatserver.Timer.{
  Owner, client_timer, looper_timer, user_timer, del_timer, next_owner, timeout_of, Cbtimer,
}

-- One event of `epoll_wait`: a connection to accept, or a client's.
pub data Happening : Type 0 where
  connection : Accept → Happening
  client_event : Event → Happening

module _ ⦃p : Platform⦄ where
  -- `tmp->handler(tmp, tmp->arg)`.
  unfoldable pub fire : Owner → M (Unit {0})
  fire (client_timer c) = client_timeout_handler c
  fire (looper_timer c) = send_message_handler c
  fire (user_timer a) = user_memory_free_handler a

  -- The loop of `handle_timer_list` at the timer `o`, where `none` is the list head. `next` is read before
  -- the handler runs. A timer that is no longer linked has no successor: a fault. The result is
  -- `false` when the fuel ran out.
  unfoldable pub timer_loop : ℕ → ℕ → Option Owner → M Bool
  timer_loop fuel now none = pure true
  timer_loop zero now (some o) = pure false
  timer_loop (suc fuel) now (some o) = do
    sv ← get
    timeout ← deref (timeout_of sv.timers_list o)
    let next = next_owner sv.timers_list o
    elim (leb timeout now) [
      | false ↦ pure true
      | true ↦ do with_timers (λ _ ts. del_timer ts o); fire o; timer_loop fuel now next
    ]

  abbrev pub first_owner : List Cbtimer → Option Owner
  first_owner [] = none
  first_owner (t ∷ ts) = some t.owner

  -- One round more than timers are linked: each round but the last takes a timer out, and what the
  -- handlers link is not due.
  unfoldable pub handle_timer_list : M Bool
  handle_timer_list = do
    sv ← get
    timer_loop (suc (length sv.timers_list)) sv.now (first_owner sv.timers_list)

  unfoldable pub handle_event : Happening → M (Unit {0})
  handle_event (connection ev) = do accepted ← accept_new_client ev; pure tt
  handle_event (client_event ev) = client_socket ev

  unfoldable pub handle_events : List Happening → M (Unit {0})
  unfolding handle_event
  handle_events [] = pure tt
  handle_events (ev ∷ evs) = handle_event ev >> handle_events evs

  -- `get_now_time` during the round.
  abbrev pub set_now : ℕ → M (Unit {0})
  set_now now sv = some (tt, record sv { now = now })

  -- One round of the loop of `main`: the events, then the timers that are due at the time.
  unfoldable pub server_round : ℕ → List Happening → M Bool
  unfolding handle_events handle_timer_list
  server_round now evs = do set_now now; handle_events evs; handle_timer_list
