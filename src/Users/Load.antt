-- ===== src/Users/Load.antt =====
-- users.c: a user looked up in memory, or else read from the database and kept in memory for two
-- minutes after its last use.
use geekchatserver.Prelude.{
  ℕ, [], ◌∷◌, ◌++◌, map, Bytes, codes, get_elem?, if◌then◌else◌, false, Option, none, some, ℤ, pos,
  negsuc, is_neg,
}
use geekchatserver.Platform.{Platform, Row}
use geekchatserver.State.{
  null, Friends, User, server_token_lens, server_username_lens, server_password_lens,
  server_user_unused_timeout, M, pure, ◌>>=◌, ◌>>◌, get, deref, when, set_user, set_users_map,
  with_timers, try_malloc, column, snprintf, strncpy,
}
use geekchatserver.Mysql.{mysql_real_query_result}
use geekchatserver.Users.Refs.{user_get, user_put}
use geekchatserver.Tokens.Registry.{try_effect_token, free_token, is_token_in_memory}
use geekchatserver.Timer.{user_timer, add_timer}

unfoldable pub user_query : Bytes → Bytes
user_query username = snprintf 100 (
    codes "select username, password, token from users where username = '"
    ++ (username ++ codes "'"))

-- The string that `row[2]` leaves in the zeroed buffer: nothing for NULL.
abbrev pub token_column : Option Bytes → Bytes
token_column none = []
token_column (some text) = strncpy text server_token_lens

abbrev no_friends : Friends
no_friends = record { is_inited = false; num_of_friends = 0; buffer = null }

abbrev pub new_user : Bytes → Bytes → Bytes → User
new_user username password token = record {
  token = token;
  seed = [];
  username = username;
  password = password;
  is_online = false;
  use_cnt = pos 0;
  is_seed_existed = false;
  client = none;
  friends = no_friends;
}

module _ ⦃p : Platform⦄ where
  -- A row becomes a user in memory, known by the name that the row has.
  unfoldable pub load_user : Row → M (ℤ × Option ℕ)
  load_user row = do
    memory ← try_malloc
    elim memory [
      | none ↦ pure (negsuc 0, none)
      | some a ↦ do
        username ← column row 0
        password ← column row 1
        token ← deref (get_elem? row 2)
        let name = strncpy username server_username_lens
        set_user a
            (some (new_user name (strncpy password server_password_lens) (token_column token)))
        sv ← get
        elim (p.hashmap_put sv.users_map name a) [
          | none ↦ do set_user a none; pure (negsuc 0, none)
          | some map ↦ do set_users_map map; pure (pos 0, some a)
        ]
    ]

  unfoldable pub get_user_by_name_from_mysql : Bytes → M (ℤ × Option ℕ)
  unfolding mysql_real_query_result user_query
  get_user_by_name_from_mysql username = do
    (ret, result) ← mysql_real_query_result (user_query username)
    if is_neg ret then pure (ret, none) else elim result [
      | none ↦ pure (ret, none)
      | some rows ↦ elim rows [
        | [] ↦ pure (negsuc 0, none)
        | row ∷ more ↦ elim more [ [] ↦ load_user row | _ ∷ _ ↦ pure (negsuc 0, none) ]
      ]
    ]

  -- The reference of the cache, with the timer that will drop it, and the reference of the token.
  unfoldable pub cache_user : ℕ → M (Unit {0})
  cache_user a = do
    with_timers (λ now ts. add_timer now ts (user_timer a) server_user_unused_timeout)
    user_get a
    ret ← try_effect_token a
    pure tt

  unfoldable pub get_user_by_name : Bytes → M (ℤ × Option ℕ)
  get_user_by_name username = do
    sv ← get
    elim (p.hashmap_get sv.users_map username) [
      | some a ↦ do user_get a; pure (pos 0, some a)
      | none ↦ do
        (ret, usr) ← get_user_by_name_from_mysql username
        if is_neg ret
            then pure (ret, none)
            else do a ← deref usr; cache_user a; user_get a; pure (ret, some a)
    ]

  unfoldable pub user_memory_free_handler : ℕ → M (Unit {0})
  user_memory_free_handler a = do
    known ← is_token_in_memory a
    when known (free_token a)
    user_put a
