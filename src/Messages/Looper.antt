-- ===== src/Messages/Looper.antt =====
-- messages.c: the message looper of a client, a timer that delivers what waits in the database.
use geekchatserver.Prelude.{ℕ, if◌then◌else◌, Bool, false}
use geekchatserver.Platform.{Platform}
use geekchatserver.State.{M, pure, ◌>>=◌, get, client_at, with_timers}
use geekchatserver.Timer.{looper_timer, is_timer_effective, del_timer, add_timer}

module _ ⦃p : Platform⦄ where
  unfoldable pub stop_message_looper : ℕ → M (Unit {0})
  stop_message_looper c = with_timers (λ now ts. del_timer ts (looper_timer c))

  unfoldable pub start_message_looper : ℕ → M (Unit {0})
  start_message_looper c = with_timers (λ now ts. add_timer now ts (looper_timer c) 0)

  unfoldable pub is_message_looper_alive : ℕ → M Bool
  is_message_looper_alive c = do
    ct ← client_at c
    sv ← get
    pure (if ct.looper then is_timer_effective sv.timers_list (looper_timer c) else false)
