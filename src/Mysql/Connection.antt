-- ===== src/Mysql/Connection.antt =====
-- mysql_connector.c: opening, testing and closing the connection to the database.
use geekchatserver.Prelude.{Bytes, codes, if◌then◌else◌, not, Bool, some, ℤ, pos, neg, is_neg}
use geekchatserver.Platform.{Platform}
use geekchatserver.State.{M, pure, ◌>>=◌, ◌>>◌}

module _ ⦃p : Platform⦄ where
  abbrev set_mysql : p.Conn → M (Unit {0})
  set_mysql conn sv = some (tt, record sv { mysql = conn })

  -- `-mysql_errno(&config->mysql)`.
  abbrev mysql_error_code : M ℤ
  mysql_error_code sv = some (neg (p.mysql_errno sv.mysql), sv)

  abbrev send_query : Bytes → M ℤ
  send_query query sv =
      let (ret, conn) = p.mysql_query query sv.mysql in some (ret, record sv { mysql = conn })

  abbrev use_result : M Bool
  use_result sv =
      let (there, conn) = p.mysql_use_result sv.mysql in some (there, record sv { mysql = conn })

  abbrev free_result : M (Unit {0})
  free_result sv = some (tt, record sv { mysql = p.mysql_free_result sv.mysql })

  unfoldable pub mysql_test_connection : M ℤ
  mysql_test_connection = do
    ret ← send_query (codes "show tables")
    if is_neg ret then mysql_error_code else do
      result ← use_result
      if not result then mysql_error_code else do free_result; pure (pos 0)

  abbrev connect : M (Unit {0})
  connect sv = some (tt, record sv { mysql = p.mysql_real_connect (p.mysql_init sv.mysql) })

  unfoldable pub init_mysql : M ℤ
  unfolding mysql_test_connection
  init_mysql = do
    connect
    code ← mysql_error_code
    if is_neg code then pure code else mysql_test_connection

  unfoldable pub exit_mysql : M (Unit {0})
  exit_mysql sv = some (tt, record sv { mysql = p.mysql_close sv.mysql })
