-- ===== src/Invariant/Opening.antt =====
-- mysql_connector.c, random_pool.c: opening the connection and the pool keeps what is stable.
use geekchatserver.Prelude.{arith, codes, not, some, pos, neg, is_neg}
use geekchatserver.Platform.{Platform}
use geekchatserver.State.{Server, ◌>>=◌}
use geekchatserver.State.Bind.{pure_inv}
use geekchatserver.Mysql.Connection.{mysql_test_connection, init_mysql}
use geekchatserver.Tokens.Pool.{init_random_pool}
use geekchatserver.Invariant.Rules.{Always, Always-of, Always-bind, Always-if, Always-pure}
use geekchatserver.Invariant.Stable.{IsStable}

module _ ⦃p : Platform⦄ {P : Server → Type 0} (st : IsStable P) where
  -- A command that only moves the connection on.
  Always-conn :
      {A : Type 0} (value : p.Conn → A) (next : p.Conn → p.Conn)
      → Always P (λ sv. some (value sv.mysql, record sv { mysql = next sv.mysql }))
  Always-conn value next =
      Always-of (λ sv. record sv { mysql = next sv.mysql }) (λ sv b sv' r. (pure_inv r).1)
        (λ sv.
          st.quiet sv sv.users sv.mallocs sv.users_map sv.tokens_map (next sv.mysql) sv.random
            (omega arith))

  Always-code : Always P (λ sv. some (neg (p.mysql_errno sv.mysql), sv))
  Always-code = Always-of (λ sv. sv) (λ sv b sv' r. (pure_inv r).1) (λ sv h. h)

  Always-mysql_test_connection : Always P mysql_test_connection
  unfolding mysql_test_connection
  Always-mysql_test_connection =
      let query = codes "show tables" in
      Always-bind (Always-conn (λ c. (p.mysql_query query c).0) (λ c. (p.mysql_query query c).1))
        (λ ret. Always-if (is_neg ret) Always-code (
          Always-bind (Always-conn (λ c. (p.mysql_use_result c).0) (λ c. (p.mysql_use_result c).1))
            (λ there. Always-if (not there) Always-code (
              Always-bind (Always-conn (λ c. tt) p.mysql_free_result) (λ _. Always-pure (pos 0))))))

  pub Always-init_mysql : Always P init_mysql
  unfolding init_mysql
  Always-init_mysql =
      Always-bind (Always-conn (λ c. tt) (λ c. p.mysql_real_connect (p.mysql_init c))) (λ _.
        Always-bind Always-code
          (λ code. Always-if (is_neg code) (Always-pure code) Always-mysql_test_connection))

  Always-init_random_pool : Always P init_random_pool
  unfolding init_random_pool
  Always-init_random_pool =
      Always-of (λ sv. record sv { random = (p.random_open sv.random).1 })
        (λ sv b sv' r. (pure_inv r).1)
        (λ sv.
          st.quiet sv sv.users sv.mallocs sv.users_map sv.tokens_map sv.mysql
            (p.random_open sv.random).1 (omega arith))

  pub Always-open : Always P (init_mysql >>= λ ignored. init_random_pool)
  Always-open = Always-bind Always-init_mysql (λ _. Always-init_random_pool)
