-- ===== src/Server/Main.antt =====
-- server.c: `main` up to its loop, and the states that the loop goes through. What stands in the
-- memory of the connection to the database and of the random pool before they are opened is given.
use geekchatserver.Prelude.{ℕ, ◌≡◌, List, [], Bool, false, none, some, ℤ, is_neg}
use geekchatserver.Platform.{Platform}
use geekchatserver.State.{Server, M, ◌>>=◌, ◌>>◌}
use geekchatserver.Mysql.Connection.{init_mysql}
use geekchatserver.Tokens.Pool.{init_random_pool}
use geekchatserver.Packet.Dispatch.{init_methods_maps}
use geekchatserver.Server.Loop.{Happening, server_round}

module _ ⦃p : Platform⦄ where
  unfoldable pub init_timer : M (Unit {0})
  init_timer sv = some (tt, record sv { timers_list = [] })

  unfoldable pub init_token : M (Unit {0})
  init_token sv = some (tt, record sv { tokens_map = p.hashmap_new })

  unfoldable pub init_users_map : M (Unit {0})
  init_users_map sv = some (tt, record sv { users_map = p.hashmap_new })

  -- The memory of the server after `memset` and the first two maps; where a map is still NULL an
  -- empty one stands, which nothing reads.
  unfoldable pub blank : p.Conn → p.Rand → Server
  blank mysql random = record {
    users = λ a. none;
    clients = λ c. none;
    mallocs = 0;
    clients_map = p.hashmap_new;
    methods_map = p.hashmap_new;
    users_map = p.hashmap_new;
    tokens_map = p.hashmap_new;
    timers_list = [];
    mysql = mysql;
    random = random;
    now = 0;
    sent = [];
  }

  -- The four calls that set up the server's own memory.
  unfoldable pub init_memory : M (Unit {0})
  unfolding init_timer init_token init_users_map
  init_memory = do init_timer; init_token; init_methods_maps; init_users_map

  -- The result of `init_mysql` is not looked at; `main` goes on unless that of the pool is negative.
  unfoldable pub init_server : M ℤ
  unfolding init_memory
  init_server = do init_memory; ignored ← init_mysql; init_random_pool

  -- The states between the rounds of the loop of `main`, whatever the kernel reports and whatever
  -- the clock shows in each of them.
  pub data Reach (mysql : p.Conn) (random : p.Rand) : Server → Type 0 where
    booted :
        (sv : Server) (ret : ℤ)
        → init_server (blank mysql random) ≡ some (ret, sv)
        → is_neg ret ≡ false
        → Reach mysql random sv
    round :
        (sv sv' : Server) (now : ℕ) (evs : List Happening) (ended : Bool)
        → Reach mysql random sv
        → server_round now evs sv ≡ some (ended, sv')
        → Reach mysql random sv'
