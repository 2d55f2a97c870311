-- ===== src/Methods/LoginSeed.antt =====
-- methods/com.login.seed.request.c.
use geekchatserver.Prelude.{
  ℕ, ◌/◌, Bytes, codes, if◌then◌else◌, true, none, some, ℤ, pos, negsuc, neg, is_neg,
}
use geekchatserver.Platform.{Platform}
use geekchatserver.State.{server_seed_lens, M, pure, ◌>>=◌, ◌>>◌, deref, user_at, edit_user}
use geekchatserver.Users.Refs.{user_put}
use geekchatserver.Tokens.Auth.{get_random_bytes}
use geekchatserver.Users.Load.{get_user_by_name}
use geekchatserver.Packet.Respond.{respond}
use geekchatserver.Packet.Respond.{serr_success, serr_usr_not_exist, serr_arg}
use geekchatserver.Methods.Field.{field}
use geekchatserver.Hex.{hex_to_ascii}

abbrev pub seed_respond : Bytes
seed_respond = codes "com.login.seed.respond"

module _ ⦃p : Platform⦄ where
  unfoldable pub build_new_seed : ℕ → M ℤ
  unfolding get_random_bytes
  build_new_seed a = do
    raw ← get_random_bytes (server_seed_lens / 2)
    elim raw [
      | none ↦ pure (negsuc 0)
      | some bytes ↦ do edit_user a (λ u. record u { seed = hex_to_ascii bytes }); pure (pos 0)
    ]

  abbrev seed_fail : ℕ → ℕ → M ℤ
  seed_fail c a = do user_put a; respond c p.json_object seed_respond (neg serr_arg)

  -- The answer carries the seed and the name of the user.
  unfoldable pub give_seed : ℕ → ℕ → M ℤ
  unfolding build_new_seed
  give_seed c a = do
    ret ← build_new_seed a
    if is_neg ret then seed_fail c a else do
      edit_user a (λ u. record u { is_seed_existed = true })
      u ← user_at a
      let j = p.json_object_set_new p.json_object (codes "seed") (p.json_string u.seed)
      let rsp = p.json_object_set_new j (codes "username") (p.json_string u.username)
      user_put a
      respond c rsp seed_respond (neg serr_success)

  unfoldable pub method_com_login_seed_request : ℕ → p.Json → M ℤ
  method_com_login_seed_request c json = elim (field json (codes "username")) [
    | none ↦ respond c p.json_object seed_respond (neg serr_arg)
    | some username ↦ do
      (ret, usr) ← get_user_by_name username
      if is_neg ret
          then respond c p.json_object seed_respond (neg serr_usr_not_exist)
          else do a ← deref usr; give_seed c a
  ]
