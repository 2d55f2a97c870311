-- ===== src/Mysql.antt =====
-- mysql_connector.c: queries, which are repeated over a new connection when the server has gone away.
pub mod Retry
pub mod Connection
use geekchatserver.Prelude.{
  ℕ, zero, suc, ◌+◌, ◌-◌, ◌*◌, ◌/◌, ◌%◌, ◌^◌, ◌≤◌, ◌<◌, ◌≡◌, ◌≢◌, ◌↔◌, ◌⊎◌, inl, inr, refl, sym, ap,
  ap₂, ◌∙◌, ◌≡⟨◌⟩◌, ◌∎, subst, fun_ext, List, [], ◌∷◌, ◌++◌, map, append-nil, append_assoc, arith,
  bit_and, bit_xor, ◌>>>◌, bit_and_fifteen, bit_xor_step, bit_xor-lt, bit_and-le, Bytes, same,
  same_self, eq_of_same, String, codes, get_elem?, get_or, length, take, drop, length-append,
  length-take, length-drop, take-append-drop, take-append, drop-append, take_all, take_prefix,
  drop_prefix, drop_all, All, ltb, leb, if◌then◌else◌, ◌&&◌, ◌||◌, not, Bool, true, false, ◌==◌,
  ==_iff, ==_self, ltb→lt, leb→le, lt→ltb, ge→ltb, Bool-cases, Option-cases, Option, none, some,
  is_some, ℤ, pos, negsuc, neg, is_neg,
}
use geekchatserver.Platform.{Platform, Row}
use geekchatserver.State.{
  Buffer, null, live, dangling, Friends, User, Client, server_token_lens, server_seed_lens,
  server_uuid_lens, sha256_lens, server_username_lens, server_password_lens,
  server_client_unused_timeout, server_user_unused_timeout, Server, M, pure, fault, ◌>>=◌, ◌>>◌,
  get, deref, when, update, user_at, client_at, set_user, set_client, edit_user, edit_client,
  set_users_map, set_tokens_map, set_clients_map, with_timers, try_malloc, column, write_to,
  snprintf, strncpy, inc, dec, is_zero,
}

-- `ret == 1`.
abbrev pub is_one : ℤ → Bool
is_one (pos n) = n == 1
is_one (negsuc n) = false

module _ ⦃p : Platform⦄ where
  open p use {Conn}

  -- `mysql_close`, `mysql_init` and `mysql_real_connect` with the parameters of `mysql_config`.
  unfoldable pub reconnect : Conn → Conn
  reconnect conn = p.mysql_real_connect (p.mysql_init (p.mysql_close conn))

  unfoldable pub is_gone : ℕ → Bool
  is_gone err = err == p.cr_server_gone_error

  -- What one round of a query loop leaves: `mysql_errno`, what was read, and the connection.
  pub record Round (A : Type 0) : Type 0 where
    pub err : ℕ
    pub value : A
    pub conn : Conn

  -- The body of the loop of `mysql_real_query_result`.
  unfoldable pub result_round : Bytes → Conn → Round (Option (List Row))
  unfolding reconnect is_gone
  result_round query conn =
      let (result, stored) = p.mysql_store_result (p.mysql_real_query query conn) in
      let err = p.mysql_errno stored in
      record {
        err = err;
        value = result;
        conn = if not (is_some result) && is_gone err then reconnect stored else stored;
      }

  -- The body of the loop of `mysql_real_query_affected`.
  unfoldable pub affected_round : Bytes → Conn → Round ℤ
  unfolding reconnect is_gone
  affected_round query conn =
      let sent = p.mysql_real_query query conn in
      let err = p.mysql_errno sent in
      record {
        err = err;
        value = p.mysql_affected_rows sent;
        conn = if is_gone err then reconnect sent else sent;
      }

  -- `do … while(gone && retry--)`, for either body.
  unfoldable pub retry_loop : {A : Type 0} → (Conn → Round A) → ℕ → Conn → Round A
  unfolding is_gone
  retry_loop body zero conn = body conn
  retry_loop body (suc retry) conn =
      let again = retry_loop body retry (body conn).conn in
      if is_gone (body conn).err then again else body conn

  abbrev pub retry_count : ℕ
  retry_count = 2

  -- The error code and the result set.
  unfoldable pub mysql_real_query_result : Bytes → M (ℤ × Option (List Row))
  mysql_real_query_result query sv =
      let r = retry_loop (result_round query) retry_count sv.mysql in
      some ((neg r.err, r.value), record sv { mysql = r.conn })

  -- The error code, or the number of affected rows.
  unfoldable pub mysql_real_query_affected : Bytes → M ℤ
  mysql_real_query_affected query sv =
      let r = retry_loop (affected_round query) retry_count sv.mysql in
      some (if is_neg (neg r.err) then neg r.err else r.value, record sv { mysql = r.conn })

  -- What the callers of `mysql_real_query_affected` make of it: exactly one row, or a failure.
  unfoldable pub affect_one_row : Bytes → ℤ → M ℤ
  affect_one_row query success = do
    ret ← mysql_real_query_affected query
    pure (if is_neg ret then ret else if is_one ret then success else negsuc 0)
