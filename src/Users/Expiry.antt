-- ===== src/Users/Expiry.antt =====
-- users.c: what the timer of a user does when nobody uses the user any more.
use geekchatserver.Prelude.{
  ℕ, ◌≡◌, refl, ◌∙◌, arith, same_self, true, false, ◌==◌, Option, none, some, pos,
}
use geekchatserver.Platform.{Platform}
use geekchatserver.State.{User, Server, M, ◌>>=◌, when, update, user_at, edit_user, dec, is_zero}
use geekchatserver.State.Bind.{bind_some, update_self}
use geekchatserver.Users.Frame.{edit_user_users}
use geekchatserver.Users.Refs.{user_put, free_last, is_user_bind}
use geekchatserver.Users.Load.{user_memory_free_handler}
use geekchatserver.Tokens.Registry.{free_token, is_token_in_memory}

module _ ⦃p : Platform⦄ where
  abbrev put_user : User → User
  put_user u = record u { use_cnt = dec u.use_cnt }

  abbrev with_user : Server → ℕ → Option User → Server
  with_user sv a o = record sv { users = update sv.users a o }

  -- `user_put` behind the decrement.
  put_rest : ℕ → M (Unit {0})
  put_rest a = do u ← user_at a; when (is_zero u.use_cnt) (free_last a)

  module _ (a : ℕ) (sv : Server) {u : User} (known : sv.users a ≡ some u) where
    user_put_rest : user_put a sv ≡ put_rest a (with_user sv a (some (put_user u)))
    unfolding user_put put_rest
    user_put_rest =
        bind_some (edit_user a put_user) (λ _. put_rest a) sv
          (edit_user_users a put_user sv u known)

    rest_used : is_zero u.use_cnt ≡ false → put_rest a sv ≡ some (tt, sv)
    unfolding put_rest
    rest_used e = ground arith

    -- No friends were loaded and no client is bound.
    rest_free :
        is_zero u.use_cnt ≡ true
        → u.friends.is_inited ≡ false
        → u.client ≡ none
        → put_rest a sv
          ≡ some (
            tt,
            record sv {
              users = update sv.users a none;
              users_map = (p.hashmap_remove sv.users_map u.username).1;
            },
          )
    unfolding put_rest free_last is_user_bind
    rest_free e f g = ground arith

  module _ (a : ℕ) (sv : Server) {u : User} {b : ℕ} (known : sv.users a ≡ some u)
      (in_memory : p.hashmap_get sv.tokens_map u.token ≡ some b) where
    -- The token is gone from memory; the user is as before.
    abbrev without_token : Server
    without_token = record sv { tokens_map = (p.hashmap_remove sv.tokens_map u.token).1 }

    handler_run :
        {sv1 sv2 : Server}
        → user_put a without_token ≡ some (tt, sv1)
        → user_put a sv1 ≡ some (tt, sv2)
        → user_memory_free_handler a sv ≡ some (tt, sv2)
    unfolding user_memory_free_handler free_token is_token_in_memory
    handler_run first second = ground arith

  -- The user after the two decrements, and the server without it.
  abbrev expired : Server → ℕ → User → Server
  expired sv a u = record sv {
    users =
        update (update (update sv.users a (some (put_user u))) a (some (put_user (put_user u)))) a
          none;
    users_map = (p.hashmap_remove sv.users_map u.username).1;
    tokens_map = (p.hashmap_remove sv.tokens_map u.token).1;
  }

  used_once : (u : User) → u.use_cnt ≡ pos 2 → is_zero (dec u.use_cnt) ≡ false
  used_once u e = rw e refl

  unused : (u : User) → u.use_cnt ≡ pos 2 → is_zero (dec (dec u.use_cnt)) ≡ true
  unused u e = rw e refl

  handler_expires :
      (a : ℕ) (sv : Server) (u : User) (b : ℕ)
      → sv.users a ≡ some u
      → u.use_cnt ≡ pos 2
      → p.hashmap_get sv.tokens_map u.token ≡ some b
      → u.friends.is_inited ≡ false
      → u.client ≡ none
      → user_memory_free_handler a sv ≡ some (tt, expired sv a u)
  handler_expires a sv u b known two in_memory no_friends unbound =
      let sv0 = record sv { tokens_map = (p.hashmap_remove sv.tokens_map u.token).1 } in
      let sv1 = with_user sv0 a (some (put_user u)) in
      let sv2 = with_user sv1 a (some (put_user (put_user u))) in
      let known1 = update_self sv0.users a (some (put_user u)) in
      let known2 = update_self sv1.users a (some (put_user (put_user u))) in
      handler_run a sv known in_memory
        (user_put_rest a sv0 known ∙ rest_used a sv1 known1 (used_once u two))
        (user_put_rest a sv1 known1 ∙ rest_free a sv2 known2 (unused u two) no_friends unbound)

  -- When the timer of a user fires and only the cache and the token refer to the user, who has no
  -- client and no friends loaded, then the handler succeeds, frees the user, leaves neither the name
  -- nor the token in its map, and touches no other user.
  pub user_memory_free_handler_lem :
      (a : ℕ) (sv : Server) (u : User) (b : ℕ)
      → sv.users a ≡ some u
      → u.use_cnt ≡ pos 2
      → p.hashmap_get sv.tokens_map u.token ≡ some b
      → u.friends.is_inited ≡ false
      → u.client ≡ none
      → (sv' : Server) × (user_memory_free_handler a sv ≡ some (tt, sv'))
        × (sv'.users a ≡ none)
        × (p.hashmap_get sv'.users_map u.username ≡ none)
        × (p.hashmap_get sv'.tokens_map u.token ≡ none)
        × ((c : ℕ) → (a == c) ≡ false → sv'.users c ≡ sv.users c)
  user_memory_free_handler_lem a sv u b known two in_memory no_friends unbound = (
    expired sv a u,
    handler_expires a sv u b known two in_memory no_friends unbound,
    update_self (update (update sv.users a (some (put_user u))) a (some (put_user (put_user u)))) a
        none,
    p.get_remove sv.users_map u.username u.username ∙ rw (same_self u.username),
    p.get_remove sv.tokens_map u.token u.token ∙ rw (same_self u.token),
    λ c e. rw e refl,
  )
