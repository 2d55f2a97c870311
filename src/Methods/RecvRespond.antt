-- ===== src/Methods/RecvRespond.antt =====
-- methods/com.message.recv.respond.c.
use geekchatserver.Prelude.{
  ℕ, ◌++◌, Bytes, codes, if◌then◌else◌, Option, none, some, ℤ, pos, is_neg,
}
use geekchatserver.Platform.{Platform}
use geekchatserver.State.{M, pure, ◌>>=◌, ◌>>◌, deref, user_at, snprintf}
use geekchatserver.Mysql.{affect_one_row}
use geekchatserver.Users.Refs.{user_put}
use geekchatserver.Tokens.Registry.{is_token_effective}
use geekchatserver.Tokens.Auth.{get_usr_by_token}
use geekchatserver.Methods.Field.{field}

unfoldable pub set_read_query : Bytes → Bytes → Bytes
set_read_query username uuid = snprintf 4096 (
    codes "update messages set have_read = '1' where to_user = '"
    ++ (username ++ (codes "' and uuid = '" ++ (uuid ++ codes "'"))))

module _ ⦃p : Platform⦄ where
  -- `uuid` may be NULL, which `%s` does not take.
  unfoldable pub set_message_read_to_mysql : ℕ → Option Bytes → M ℤ
  unfolding affect_one_row set_read_query
  set_message_read_to_mysql a uuid = do
    u ← user_at a
    id ← deref uuid
    affect_one_row (set_read_query u.username id) (pos 1)

  -- The client is not answered. `uuid` is not tested for NULL: the test names `token` again.
  unfoldable pub method_com_message_recv_respond : ℕ → p.Json → M ℤ
  method_com_message_recv_respond c json = elim (field json (codes "token")) [
    | none ↦ pure (pos 0)
    | some token ↦ do
      (ret, usr) ← get_usr_by_token c token
      elim (if is_neg ret then none else usr) [
        | none ↦ pure (pos 0)
        | some a ↦ do
          effective ← is_token_effective a
          if effective
              then (set_message_read_to_mysql a (field json (codes "uuid")) >>= λ _. pure tt)
              else pure tt
          user_put a
          pure (pos 0)
      ]
  ]
