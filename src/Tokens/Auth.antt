-- ===== src/Tokens/Auth.antt =====
-- tokens.c: a new token for a login, and the user that a token stands for.
use geekchatserver.Prelude.{
  ℕ, ◌/◌, [], ◌∷◌, ◌++◌, Bytes, codes, if◌then◌else◌, Option, none, some, ℤ, pos, negsuc, is_neg,
}
use geekchatserver.Platform.{Platform}
use geekchatserver.State.{
  server_token_lens, server_username_lens, M, pure, ◌>>=◌, ◌>>◌, get, when, user_at, edit_user,
  column, snprintf, strncpy,
}
use geekchatserver.Mysql.{mysql_real_query_result, affect_one_row}
use geekchatserver.Users.Refs.{user_get, bind_user_to_client}
use geekchatserver.Tokens.Registry.{try_effect_token, free_token, is_token_effective}
use geekchatserver.Users.Load.{get_user_by_name}
use geekchatserver.Hex.{hex_to_ascii}

unfoldable pub store_token_query : Bytes → Bytes → Bytes
store_token_query token username = snprintf 200 (
    codes "update users set token = '"
    ++ (token ++ (codes "', token_valid = '1' where username = '" ++ (username ++ codes "'"))))

unfoldable pub token_query : Bytes → Bytes
token_query token = snprintf 200 (
    codes "select username, token from users where token = '"
    ++ (token ++ codes "' and token_valid = '1'"))

module _ ⦃p : Platform⦄ where
  unfoldable pub store_token_to_mysql : ℕ → M ℤ
  unfolding affect_one_row store_token_query
  store_token_to_mysql a = do
    u ← user_at a
    affect_one_row (store_token_query u.token u.username) (pos 0)

  -- The code and what stands in the zeroed buffer `username` afterwards.
  unfoldable pub get_username_by_token_from_mysql : Bytes → M (ℤ × Bytes)
  unfolding mysql_real_query_result token_query
  get_username_by_token_from_mysql token = do
    (ret, result) ← mysql_real_query_result (token_query token)
    if is_neg ret then pure (ret, []) else elim result [
      | none ↦ pure (ret, [])
      | some rows ↦ elim rows [
        | [] ↦ pure (negsuc 0, [])
        | row ∷ more ↦ elim more [
          | [] ↦ do username ← column row 0; pure (ret, strncpy username server_username_lens)
          | _ ∷ _ ↦ pure (negsuc 0, [])
        ]
      ]
    ]

  -- `get_random_bytes`: `none` is its failure.
  unfoldable pub get_random_bytes : ℕ → M (Option Bytes)
  get_random_bytes n sv =
      let (bytes, rest) = p.random_read n sv.random in some (bytes, record sv { random = rest })

  unfoldable pub alloc_new_token : ℕ → M ℤ
  alloc_new_token a = do
    raw ← get_random_bytes (server_token_lens / 2)
    elim raw [
      | none ↦ pure (negsuc 0)
      | some bytes ↦ do
        effective ← is_token_effective a
        when effective (free_token a)
        edit_user a (λ u. record u { token = hex_to_ascii bytes })
        ret ← store_token_to_mysql a
        if is_neg ret then pure ret else try_effect_token a
    ]

  -- Read from the database, for a token that is not in memory.
  unfoldable pub usr_by_stored_token : ℕ → Bytes → M (ℤ × Option ℕ)
  unfolding get_username_by_token_from_mysql
  usr_by_stored_token c token = do
    (ret, username) ← get_username_by_token_from_mysql token
    if is_neg ret then pure (ret, none) else do
      (ret', usr) ← get_user_by_name username
      if is_neg ret' then pure (ret', usr) else elim usr [
        | none ↦ pure (ret', none)
        | some a ↦ do bind_user_to_client a c; pure (ret', some a)
      ]

  unfoldable pub get_usr_by_token : ℕ → Bytes → M (ℤ × Option ℕ)
  get_usr_by_token c token = do
    sv ← get
    elim (p.hashmap_get sv.tokens_map token) [
      | some a ↦ do user_get a; pure (pos 0, some a)
      | none ↦ usr_by_stored_token c token
    ]
