-- ===== src/Server/Stale.antt =====
-- server.c, users.c: what the end of an old connection does to the one that its user has now.
use geekchatserver.Prelude.{ℕ, ◌≡◌, refl, arith, false, ◌==◌, ==_self, none, some}
use geekchatserver.Platform.{Platform}
use geekchatserver.State.{User, Client, Server, update}
use geekchatserver.Timer.{client_timer, looper_timer, is_timer_effective}
use geekchatserver.Users.Refs.{unbind_user, is_user_bind}
use geekchatserver.Messages.Looper.{is_message_looper_alive}
use geekchatserver.Server.Clients.{free_client_socket, client_timeout_handler}

module _ ⦃p : Platform⦄ where
  module _ (a c : ℕ) (sv : Server) {u : User} {ct : Client} (known : sv.users a ≡ some u)
      (bound : u.client ≡ some c) (there : sv.clients c ≡ some ct)
      (quiet : is_timer_effective sv.timers_list (looper_timer c) ≡ false) where
    not_alive : is_message_looper_alive c sv ≡ some (false, sv)
    unfolding is_message_looper_alive
    not_alive = ground arith

    unbind_run :
        unbind_user a sv
        ≡ some (
          tt,
          record sv {
            clients = update sv.clients c (some (record ct { usr = none }));
            users = update sv.users a (some (record u { client = none }));
          },
        )
    unfolding unbind_user
    unbind_run = ground (arith, not_alive)

  -- When a connection times out whose user has come back on another one, whose message looper does not
  -- wait, it is the other connection that loses the user: its client no longer has a user, and the
  -- user no longer a client.
  pub client_timeout_handler_stale :
      (old c a : ℕ) (sv : Server) (stale ct : Client) (u : User)
      → (old == c) ≡ false
      → sv.clients old ≡ some stale
      → stale.usr ≡ some a
      → sv.users a ≡ some u
      → u.client ≡ some c
      → sv.clients c ≡ some ct
      → is_timer_effective sv.timers_list (looper_timer c) ≡ false
      → is_timer_effective sv.timers_list (client_timer old) ≡ false
      → (sv' : Server) × (client_timeout_handler old sv ≡ some (tt, sv'))
        × (sv'.clients c ≡ some (record ct { usr = none }))
        × (sv'.users a ≡ some (record u { client = none }))
  unfolding client_timeout_handler free_client_socket is_user_bind
  client_timeout_handler_stale old c a sv stale ct u differ gone usr known bound there quiet
        no_timer =
      let sv1 = record sv { clients_map = (p.hashmap_remove sv.clients_map stale.name).1 } in
      let sv2 = record sv1 {
        clients = update sv.clients c (some (record ct { usr = none }));
        users = update sv.users a (some (record u { client = none }));
      } in
      (
        record sv2 { clients = update sv2.clients old none },
        ground (arith, unbind_run a c sv1 known bound there quiet),
        rw (differ, ==_self c) refl,
        rw (==_self a) refl,
      )
