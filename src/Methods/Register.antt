-- ===== src/Methods/Register.antt =====
-- methods/com.register.request.c.
use geekchatserver.Prelude.{ℕ, ◌++◌, Bytes, codes, if◌then◌else◌, none, some, ℤ, pos, neg, is_neg}
use geekchatserver.Platform.{Platform}
use geekchatserver.State.{M, ◌>>=◌, snprintf}
use geekchatserver.Mysql.{affect_one_row}
use geekchatserver.Packet.Respond.{respond}
use geekchatserver.Packet.Respond.{serr_success, serr_err, serr_arg}
use geekchatserver.Methods.Field.{field}

abbrev register_respond : Bytes
register_respond = codes "com.register.respond"

unfoldable pub create_user_query : Bytes → Bytes → Bytes
create_user_query username password = snprintf 4096 (
    codes "insert into users(username, password) values ('"
    ++ (username ++ (codes "', '" ++ (password ++ codes "')"))))

module _ ⦃p : Platform⦄ where
  unfoldable pub create_user_to_mysql : Bytes → Bytes → M ℤ
  unfolding affect_one_row create_user_query
  create_user_to_mysql username password =
      affect_one_row (create_user_query username password) (pos 1)

  abbrev register_answer : ℕ → ℕ → M ℤ
  register_answer c err = respond c p.json_object register_respond (neg err)

  unfoldable pub method_com_register_request : ℕ → p.Json → M ℤ
  method_com_register_request c json = elim (field json (codes "username")) [
    | none ↦ register_answer c serr_arg
    | some username ↦ elim (field json (codes "password")) [
      | none ↦ register_answer c serr_arg
      | some password ↦ do
        ret ← create_user_to_mysql username password
        register_answer c (if is_neg ret then serr_err else serr_success)
    ]
  ]
