-- ===== src/Invariant/Users.antt =====
-- users.c, friends.c, messages.c, tokens.c and packet.c: a stable property outlasts each action that
-- binds no client.
use geekchatserver.Prelude.{ℕ, refl, Bytes, get_elem?, Option, none, some, ℤ, pos, negsuc, is_neg}
use geekchatserver.Platform.{Platform, Row}
use geekchatserver.State.{
  Buffer, null, live, dangling, server_username_lens, server_password_lens, Server, edit_client,
  strncpy,
}
use geekchatserver.Timer.{looper_timer}
use geekchatserver.Mysql.{affect_one_row}
use geekchatserver.Friends.Cache.{free_buffer, free_friends}
use geekchatserver.Messages.Looper.{stop_message_looper, is_message_looper_alive}
use geekchatserver.Users.Refs.{user_get, user_put, unbind_user, is_user_bind, free_last}
use geekchatserver.Users.Load.{
  user_query, new_user, token_column, load_user, get_user_by_name_from_mysql, cache_user,
  get_user_by_name, user_memory_free_handler,
}
use geekchatserver.Tokens.Registry.{
  try_effect_token, free_token, is_token_in_memory, is_token_effective,
}
use geekchatserver.Invariant.Rules.{
  Always-option, Always-list, Always-if, Always-column, Always-deref, Always-get, Always,
  Always-pure, Always-fault, Always-bind,
}
use geekchatserver.Invariant.Stable.{
  Always-try_malloc, Always-set_user, Always-set_users_map, Always-mysql_real_query_result,
  Always-unlink, Always-kick_user, Always-link_user, IsStable, stable_rules, Always-edit_client,
}

module _ ⦃p : Platform⦄ {P : Server → Type 0} (st : IsStable P) where
  pub Always-user_get : (a : ℕ) → Always P (user_get a)
  unfolding user_get
  Always-user_get a = search (stable_rules, Always-kick_user st)

  pub Always-free_buffer : (b : Buffer) → Always P (free_buffer b)
  unfolding free_buffer
  Always-free_buffer null = Always-pure null
  Always-free_buffer (live names) = Always-pure dangling
  Always-free_buffer dangling = Always-fault

  pub Always-free_friends : (a : ℕ) → Always P (free_friends a)
  unfolding free_friends
  Always-free_friends a = search (stable_rules, Always-free_buffer) depth 20

  Always-is_message_looper_alive : (c : ℕ) → Always P (is_message_looper_alive c)
  unfolding is_message_looper_alive
  Always-is_message_looper_alive c = search stable_rules depth 20

  Always-stop_message_looper : (c : ℕ) → Always P (stop_message_looper c)
  unfolding stop_message_looper
  Always-stop_message_looper c = Always-unlink st (looper_timer c)

  Always-unbound : (c : ℕ) → Always P (edit_client c (λ ct. record ct { usr = none }))
  Always-unbound c =
      Always-edit_client st c (λ ct. record ct { usr = none }) (λ ct. (refl, refl, refl))

  pub Always-unbind_user : (a : ℕ) → Always P (unbind_user a)
  unfolding unbind_user
  Always-unbind_user a =
      search
        (stable_rules, Always-is_message_looper_alive, Always-stop_message_looper, Always-unbound)
        depth 20

  pub Always-is_user_bind : (o : Option ℕ) → Always P (is_user_bind o)
  unfolding is_user_bind
  Always-is_user_bind none = search stable_rules depth 20
  Always-is_user_bind (some a) = search stable_rules depth 20

  Always-free_last : (a : ℕ) → Always P (free_last a)
  unfolding free_last
  Always-free_last a =
      search (stable_rules, Always-free_friends, Always-is_user_bind, Always-unbind_user) depth 20

  pub Always-user_put : (a : ℕ) → Always P (user_put a)
  unfolding user_put
  Always-user_put a = search (stable_rules, Always-free_last) depth 20

  pub Always-try_effect_token : (a : ℕ) → Always P (try_effect_token a)
  unfolding try_effect_token
  Always-try_effect_token a = search (stable_rules, Always-user_get) depth 20

  pub Always-free_token : (a : ℕ) → Always P (free_token a)
  unfolding free_token
  Always-free_token a = search (stable_rules, Always-user_put) depth 20

  pub Always-is_token_in_memory : (a : ℕ) → Always P (is_token_in_memory a)
  unfolding is_token_in_memory
  Always-is_token_in_memory a = search stable_rules depth 20

  pub Always-is_token_effective : (a : ℕ) → Always P (is_token_effective a)
  unfolding is_token_effective
  Always-is_token_effective a = Always-is_token_in_memory a

  Always-load_user : (row : Row) → Always P (load_user row)
  unfolding load_user
  Always-load_user row = Always-bind (Always-try_malloc st) (λ memory.
      Always-option memory (Always-pure (negsuc 0, none)) (λ a.
        Always-bind (Always-column row 0) (λ username.
          Always-bind (Always-column row 1) (λ password.
            Always-bind (Always-deref (get_elem? row 2)) (λ token.
              let name = strncpy username server_username_lens in
              let u = new_user name (strncpy password server_password_lens) (token_column token) in
              Always-bind (Always-set_user st a (some u)) (λ _. Always-bind Always-get (λ sv.
                Always-option (p.hashmap_put sv.users_map name a)
                  (Always-bind (Always-set_user st a none) (λ _. Always-pure (negsuc 0, none)))
                  (λ map.
                    Always-bind (Always-set_users_map st map)
                      (λ _. Always-pure (pos 0, some a))))))))))

  Always-get_user_by_name_from_mysql : (name : Bytes) → Always P (get_user_by_name_from_mysql name)
  unfolding get_user_by_name_from_mysql
  Always-get_user_by_name_from_mysql name =
      Always-bind (Always-mysql_real_query_result st (user_query name)) (λ answer.
        Always-if (is_neg answer.0) (Always-pure (answer.0, none)) (
          Always-option answer.1 (Always-pure (answer.0, none)) (λ rows.
            Always-list rows (Always-pure (negsuc 0, none)) (λ row more.
              Always-list more (Always-load_user row) (λ _ _. Always-pure (negsuc 0, none))))))

  Always-cache_user : (a : ℕ) → Always P (cache_user a)
  unfolding cache_user
  Always-cache_user a =
      search (stable_rules, Always-link_user st, Always-user_get, Always-try_effect_token) depth 20

  pub Always-get_user_by_name : (name : Bytes) → Always P (get_user_by_name name)
  unfolding get_user_by_name
  Always-get_user_by_name name = Always-bind Always-get (λ sv.
      Always-option (p.hashmap_get sv.users_map name)
        (Always-bind (Always-get_user_by_name_from_mysql name) (λ answer.
          Always-if (is_neg answer.0) (Always-pure (answer.0, none)) (
            Always-bind (Always-deref answer.1) (λ a.
              Always-bind (Always-cache_user a)
                (λ _. Always-bind (Always-user_get a) (λ _. Always-pure (answer.0, some a)))))))
        (λ a. Always-bind (Always-user_get a) (λ _. Always-pure (pos 0, some a))))

  pub Always-user_memory_free_handler : (a : ℕ) → Always P (user_memory_free_handler a)
  unfolding user_memory_free_handler
  Always-user_memory_free_handler a =
      search (stable_rules, Always-is_token_in_memory, Always-free_token, Always-user_put) depth 20

  pub Always-affect_one_row :
      (query : Bytes) (success : ℤ) → Always P (affect_one_row query success)
  unfolding affect_one_row
  Always-affect_one_row query success = search stable_rules depth 20
