-- ===== src/Methods/Login.antt =====
-- methods/com.login.request.c.
pub mod Security
use geekchatserver.Prelude.{
  ℕ, zero, suc, ◌+◌, ◌-◌, ◌*◌, ◌/◌, ◌%◌, ◌^◌, ◌≤◌, ◌<◌, ◌≡◌, ◌≢◌, ◌↔◌, ◌⊎◌, inl, inr, refl, sym, ap,
  ap₂, ◌∙◌, ◌≡⟨◌⟩◌, ◌∎, subst, fun_ext, List, [], ◌∷◌, ◌++◌, map, append-nil, append_assoc, arith,
  bit_and, bit_xor, ◌>>>◌, bit_and_fifteen, bit_xor_step, bit_xor-lt, bit_and-le, Bytes, same,
  same_self, eq_of_same, String, codes, get_elem?, get_or, length, take, drop, length-append,
  length-take, length-drop, take-append-drop, take-append, drop-append, take_all, take_prefix,
  drop_prefix, drop_all, All, ltb, leb, if◌then◌else◌, ◌&&◌, ◌||◌, not, Bool, true, false, ◌==◌,
  ==_iff, ==_self, ltb→lt, leb→le, lt→ltb, ge→ltb, Bool-cases, Option-cases, Option, none, some,
  is_some, ℤ, pos, negsuc, neg, is_neg,
}
use geekchatserver.Platform.{Platform, Row}
use geekchatserver.State.{
  Buffer, null, live, dangling, Friends, User, Client, server_token_lens, server_seed_lens,
  server_uuid_lens, sha256_lens, server_username_lens, server_password_lens,
  server_client_unused_timeout, server_user_unused_timeout, Server, M, pure, fault, ◌>>=◌, ◌>>◌,
  get, deref, when, update, user_at, client_at, set_user, set_client, edit_user, edit_client,
  set_users_map, set_tokens_map, set_clients_map, with_timers, try_malloc, column, write_to,
  snprintf, strncpy, inc, dec, is_zero,
}
use geekchatserver.Users.Refs.{user_get, user_put, bind_user_to_client, unbind_user, is_user_bind}
use geekchatserver.Tokens.Auth.{get_usr_by_token, alloc_new_token, get_random_bytes}
use geekchatserver.Users.Load.{get_user_by_name}
use geekchatserver.Packet.Respond.{build_simplify_json, respond, respond_json}
use geekchatserver.Packet.Respond.{
  serr_success, serr_err, serr_is_online, serr_usr_not_exist, serr_pwd_err, serr_force_logout,
  serr_not_method, serr_arg, zeros,
}
use geekchatserver.Methods.Field.{field}
use geekchatserver.Hex.{hex_to_ascii}

abbrev pub login_respond : Bytes
login_respond = codes "com.login.respond"

-- A `char` array of n bytes that is zero behind the string in it.
abbrev pub fixed : ℕ → Bytes → Bytes
fixed n text = take n (text ++ zeros n)

module _ ⦃p : Platform⦄ where
  -- What the client must send: the hex digest of the seed and the password.
  unfoldable pub expected_crypto : User → Bytes
  expected_crypto u =
      hex_to_ascii
        (p.sha256 (fixed server_seed_lens u.seed ++ fixed server_password_lens u.password))

  abbrev pub fail : ℕ → ℕ → M ℤ
  fail c err = respond c p.json_object login_respond (neg err)

  abbrev pub fail_put : ℕ → ℕ → ℕ → M ℤ
  fail_put c a err = do user_put a; fail c err

  -- All checks passed: a token, and the user is bound to this client.
  unfoldable pub accept_login : ℕ → ℕ → M ℤ
  accept_login c a = do
    ret ← alloc_new_token a
    u ← user_at a
    let rsp = p.json_object_set_new p.json_object (codes "token") (p.json_string u.token)
    edit_user a (λ v. record v { is_online = true; is_seed_existed = false })
    bind_user_to_client a c
    user_put a
    respond c rsp login_respond (neg serr_success)

  unfoldable pub check_login : ℕ → ℕ → Bytes → M ℤ
  check_login c a crypto = do
    u ← user_at a
    if not u.is_seed_existed
        then fail_put c a serr_pwd_err
        else if not (same (expected_crypto u) crypto)
        then fail_put c a serr_pwd_err
        else if u.is_online
        then fail_put c a serr_is_online
        else accept_login c a

  unfoldable pub method_com_login_request : ℕ → p.Json → M ℤ
  method_com_login_request c json = elim (field json (codes "username")) [
    | none ↦ fail c serr_arg
    | some username ↦ elim (field json (codes "crypto")) [
      | none ↦ fail c serr_arg
      | some crypto ↦ if not (length crypto == sha256_lens * 2) then fail c serr_arg else do
        (ret, usr) ← get_user_by_name username
        if is_neg ret then fail c serr_pwd_err else do a ← deref usr; check_login c a crypto
    ]
  ]
