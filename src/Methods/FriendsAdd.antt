-- ===== src/Methods/FriendsAdd.antt =====
-- methods/com.friends.add.request.c.
use geekchatserver.Prelude.{ℕ, Bytes, codes, if◌then◌else◌, none, some, ℤ, neg, is_neg}
use geekchatserver.Platform.{Platform}
use geekchatserver.State.{M, ◌>>=◌, ◌>>◌}
use geekchatserver.Users.Refs.{user_put}
use geekchatserver.Tokens.Auth.{get_usr_by_token}
use geekchatserver.Users.Load.{get_user_by_name}
use geekchatserver.Packet.Respond.{respond}
use geekchatserver.Packet.Respond.{
  serr_success, serr_err, serr_usr_not_exist, serr_force_logout, serr_arg,
}
use geekchatserver.Methods.Field.{field}
use geekchatserver.Friends.Load.{make_friend}

abbrev friends_add_respond : Bytes
friends_add_respond = codes "com.friends.add.respond"

module _ ⦃p : Platform⦄ where
  abbrev add_answer : ℕ → ℕ → M ℤ
  add_answer c err = respond c p.json_object friends_add_respond (neg err)

  -- Whatever `make_friend` says, both references are given back.
  unfoldable pub add_friend : ℕ → ℕ → Bytes → M ℤ
  add_friend c usr name = do
    (ret, friend) ← get_user_by_name name
    elim (if is_neg ret then none else friend) [
      | none ↦ do user_put usr; add_answer c serr_usr_not_exist
      | some f ↦ do
        made ← make_friend usr f
        user_put usr
        user_put f
        add_answer c (if is_neg made then serr_err else serr_success)
    ]

  unfoldable pub method_com_friends_add_request : ℕ → p.Json → M ℤ
  unfolding add_friend
  method_com_friends_add_request c json = elim (field json (codes "token")) [
    | none ↦ add_answer c serr_arg
    | some token ↦ do
      (ret, usr) ← get_usr_by_token c token
      elim (if is_neg ret then none else usr) [
        | none ↦ add_answer c serr_force_logout
        | some a ↦ elim (field json (codes "friend")) [
          | none ↦ do user_put a; add_answer c serr_arg
          | some name ↦ add_friend c a name
        ]
      ]
  ]
