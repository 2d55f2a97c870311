-- ===== src/Users/Refs.antt =====
-- users.c: references to a user, and the binding of a user to a client.
use geekchatserver.Prelude.{ℕ, Bool, true, false, Option, none, some, is_some}
use geekchatserver.Platform.{Platform}
use geekchatserver.State.{
  M, pure, ◌>>=◌, ◌>>◌, get, deref, when, user_at, set_user, edit_user, edit_client, set_users_map,
  with_timers, inc, dec, is_zero,
}
use geekchatserver.Timer.{user_timer, is_timer_effective, kick_timer}
use geekchatserver.Messages.Looper.{
  stop_message_looper, start_message_looper, is_message_looper_alive,
}
use geekchatserver.Friends.Cache.{free_friends}

module _ ⦃p : Platform⦄ where
  unfoldable pub user_get : ℕ → M (Unit {0})
  user_get a = do
    edit_user a (λ u. record u { use_cnt = inc u.use_cnt })
    sv ← get
    when (is_timer_effective sv.timers_list (user_timer a))
        (with_timers (λ now ts. kick_timer now ts (user_timer a)))

  unfoldable pub bind_user_to_client : ℕ → ℕ → M (Unit {0})
  unfolding start_message_looper
  bind_user_to_client a c = do
    edit_client c (λ ct. record ct { usr = some a })
    edit_user a (λ u. record u { client = some c })
    edit_client c (λ ct. record ct { looper = true })
    start_message_looper c

  unfoldable pub unbind_user : ℕ → M (Unit {0})
  unfolding stop_message_looper is_message_looper_alive
  unbind_user a = do
    u ← user_at a
    c ← deref u.client
    alive ← is_message_looper_alive c
    when alive (stop_message_looper c)
    edit_client c (λ ct. record ct { usr = none })
    edit_user a (λ v. record v { client = none })

  unfoldable pub is_user_bind : Option ℕ → M Bool
  is_user_bind none = pure false
  is_user_bind (some a) = do u ← user_at a; pure (is_some u.client)

  -- The branch of `user_put` that frees the user. Its timer is not deleted: the call stands in a
  -- comment.
  unfoldable pub free_last : ℕ → M (Unit {0})
  unfolding free_friends unbind_user is_user_bind
  free_last a = do
    u ← user_at a
    sv ← get
    set_users_map (p.hashmap_remove sv.users_map u.username).1
    when u.friends.is_inited (free_friends a)
    bound ← is_user_bind (some a)
    when bound (unbind_user a)
    set_user a none

  unfoldable pub user_put : ℕ → M (Unit {0})
  user_put a = do
    edit_user a (λ u. record u { use_cnt = dec u.use_cnt })
    u ← user_at a
    when (is_zero u.use_cnt) (free_last a)
