-- ===== src/Invariant/Events.antt =====
-- server.c and timer.c: a stable property outlasts the end of a connection and the timers that are due.
use geekchatserver.Prelude.{ℕ, zero, suc, leb, true, false, Option, none, some}
use geekchatserver.Platform.{Platform}
use geekchatserver.State.{Server}
use geekchatserver.Timer.{
  Owner, client_timer, looper_timer, user_timer, timeout_of, next_owner, is_timer_effective,
}
use geekchatserver.Server.Clients.{free_client_socket, client_timeout_handler}
use geekchatserver.Server.Loop.{fire, timer_loop, handle_timer_list}
use geekchatserver.Invariant.Rules.{
  Always, Always-bind, Always-pure, Always-get, Always-deref, Always-when, Always-bool,
  Always-client_at,
}
use geekchatserver.Invariant.Stable.{IsStable, Always-unlink}
use geekchatserver.Invariant.Bears.{BearsSent, BearsEnd, Always-set_clients_map, Always-free_client}
use geekchatserver.Invariant.Users.{
  Always-unbind_user, Always-is_user_bind, Always-user_memory_free_handler,
}
use geekchatserver.Invariant.Messages.{Always-send_message_handler}

module _ ⦃p : Platform⦄ where
  -- A property that bears the end of any client.
  pub Always-free_client_socket :
      {P : Server → Type 0} → IsStable P → BearsEnd P → (c : ℕ) → Always P (free_client_socket c)
  unfolding free_client_socket
  Always-free_client_socket st en c = Always-bind (Always-client_at c) (λ ct.
      Always-bind Always-get (λ sv.
        Always-bind (Always-set_clients_map en (p.hashmap_remove sv.clients_map ct.name).1) (λ _.
          Always-bind (Always-is_user_bind st ct.usr) (λ bound.
            Always-bind (Always-pure ct.usr) (λ usr.
              Always-bind
                (Always-when bound (Always-bind (Always-deref usr) (λ a. Always-unbind_user st a)))
                (λ _. Always-bind Always-get (λ sv'.
                  Always-bind
                    (Always-when (is_timer_effective sv'.timers_list (client_timer c))
                      (Always-unlink st (client_timer c)))
                    (λ _. Always-free_client en c))))))))

module _ ⦃p : Platform⦄ {P : Server → Type 0} (st : IsStable P) (se : BearsSent P)
    (ends : (c : ℕ) → Always P (free_client_socket c)) where
  pub Always-fire : (o : Owner) → Always P (fire o)
  unfolding fire client_timeout_handler
  Always-fire (client_timer c) = ends c
  Always-fire (looper_timer c) = Always-send_message_handler st se c
  Always-fire (user_timer a) = Always-user_memory_free_handler st a

  pub Always-timer_loop : (fuel now : ℕ) (o : Option Owner) → Always P (timer_loop fuel now o)
  unfolding timer_loop
  Always-timer_loop fuel now none = Always-pure true
  Always-timer_loop zero now (some o) = Always-pure false
  Always-timer_loop (suc fuel) now (some o) =
      let rest = λ (next : Option Owner). Always-timer_loop fuel now next in
      Always-bind Always-get (λ sv.
        Always-bind (Always-deref (timeout_of sv.timers_list o)) (λ timeout.
          Always-bool (leb timeout now) (Always-pure true) (
            Always-bind (Always-unlink st o)
              (λ _. Always-bind (Always-fire o) (λ _. rest (next_owner sv.timers_list o))))))

  pub Always-handle_timer_list : Always P handle_timer_list
  unfolding handle_timer_list
  Always-handle_timer_list = Always-bind Always-get (λ sv. Always-timer_loop _ _ _)
