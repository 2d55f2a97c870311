-- ===== src/Invariant/Tokens.antt =====
-- users.c and tokens.c: the actions that bind a client, and those on tokens.
use geekchatserver.Prelude.{ℕ, ◌/◌, ◌≡◌, refl, [], Bytes, true, none, some, pos, negsuc, is_neg}
use geekchatserver.Platform.{Platform}
use geekchatserver.State.{server_token_lens, server_username_lens, Server, strncpy}
use geekchatserver.Timer.{TimersList, looper_timer, add_timer}
use geekchatserver.Hex.{hex_to_ascii}
use geekchatserver.Messages.Looper.{start_message_looper}
use geekchatserver.Users.Refs.{bind_user_to_client}
use geekchatserver.Tokens.Auth.{
  store_token_to_mysql, get_username_by_token_from_mysql, alloc_new_token, usr_by_stored_token,
  get_usr_by_token, token_query,
}
use geekchatserver.Invariant.Rules.{
  Always, Always-bind, Always-pure, Always-get, Always-when, Always-if, Always-option, Always-list,
  Always-column,
}
use geekchatserver.Invariant.Stable.{
  IsStable, stable_rules, Always-timers, Always-edit_user, Always-edit_client,
  Always-get_random_bytes, Always-mysql_real_query_result,
}
use geekchatserver.Invariant.Users.{
  Always-user_get, Always-get_user_by_name, Always-affect_one_row, Always-is_token_effective,
  Always-free_token, Always-try_effect_token,
}

module _ ⦃p : Platform⦄ where
  -- The property bears the timer of a message looper too, which is due at once.
  pub record BearsLooper (P : Server → Type 0) : Type 0 where
    pub started :
        (sv : Server) (c : ℕ) (ts : TimersList)
        → add_timer sv.now sv.timers_list (looper_timer c) 0 ≡ some ts
        → P sv
        → P (record sv { timers_list = ts })

  module _ {P : Server → Type 0} (st : IsStable P) where
    Always-store_token_to_mysql : (a : ℕ) → Always P (store_token_to_mysql a)
    unfolding store_token_to_mysql
    Always-store_token_to_mysql a = search (stable_rules, Always-affect_one_row)

    pub Always-alloc_new_token : (a : ℕ) → Always P (alloc_new_token a)
    unfolding alloc_new_token
    Always-alloc_new_token a =
        Always-bind (Always-get_random_bytes st (server_token_lens / 2)) (λ raw.
          Always-option raw (Always-pure (negsuc 0)) (λ bytes.
            Always-bind (Always-is_token_effective st a) (λ effective.
              Always-bind (Always-when effective (Always-free_token st a)) (λ _.
                Always-bind (Always-edit_user st a (λ u. record u { token = hex_to_ascii bytes }))
                  (λ _. Always-bind (Always-store_token_to_mysql a) (λ ret.
                    Always-if (is_neg ret) (Always-pure ret) (Always-try_effect_token st a)))))))

    Always-get_username_by_token_from_mysql :
        (token : Bytes) → Always P (get_username_by_token_from_mysql token)
    unfolding get_username_by_token_from_mysql
    Always-get_username_by_token_from_mysql token =
        Always-bind (Always-mysql_real_query_result st (token_query token)) (λ answer.
          Always-if (is_neg answer.0) (Always-pure (answer.0, [])) (
            Always-option answer.1 (Always-pure (answer.0, [])) (λ rows.
              Always-list rows (Always-pure (negsuc 0, [])) (λ row more.
                Always-list more
                  (Always-bind (Always-column row 0)
                    (λ username. Always-pure (answer.0, strncpy username server_username_lens)))
                  (λ _ _. Always-pure (negsuc 0, []))))))

  module _ {P : Server → Type 0} (st : IsStable P) (lo : BearsLooper P) where
    Always-start_message_looper : (c : ℕ) → Always P (start_message_looper c)
    unfolding start_message_looper
    Always-start_message_looper c =
        Always-timers (λ now ts. add_timer now ts (looper_timer c) 0)
          (λ sv ts e h. lo.started sv c ts e h)

    pub Always-bind_user_to_client : (a c : ℕ) → Always P (bind_user_to_client a c)
    unfolding bind_user_to_client
    Always-bind_user_to_client a c =
        Always-bind
          (Always-edit_client st c (λ ct. record ct { usr = some a }) (λ ct. (refl, refl, refl)))
          (λ _. Always-bind (Always-edit_user st a (λ u. record u { client = some c })) (λ _.
            Always-bind
              (Always-edit_client st c (λ ct. record ct { looper = true })
                (λ ct. (refl, refl, refl)))
              (λ _. Always-start_message_looper c)))

    Always-usr_by_stored_token : (c : ℕ) (token : Bytes) → Always P (usr_by_stored_token c token)
    unfolding usr_by_stored_token
    Always-usr_by_stored_token c token =
        Always-bind (Always-get_username_by_token_from_mysql st token) (λ name.
          Always-if (is_neg name.0) (Always-pure (name.0, none)) (
            Always-bind (Always-get_user_by_name st name.1) (λ answer.
              Always-if (is_neg answer.0) (Always-pure (answer.0, answer.1)) (
                Always-option answer.1 (Always-pure (answer.0, none)) (λ a.
                  Always-bind (Always-bind_user_to_client a c)
                    (λ _. Always-pure (answer.0, some a)))))))

    pub Always-get_usr_by_token : (c : ℕ) (token : Bytes) → Always P (get_usr_by_token c token)
    unfolding get_usr_by_token
    Always-get_usr_by_token c token = Always-bind Always-get (λ sv.
        Always-option (p.hashmap_get sv.tokens_map token) (Always-usr_by_stored_token c token)
          (λ a. Always-bind (Always-user_get st a) (λ _. Always-pure (pos 0, some a))))
