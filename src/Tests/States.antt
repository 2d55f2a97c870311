-- ===== src/Tests/States.antt =====
-- A server with one client at address 1 and one user at address 2.
use geekchatserver.Prelude.{[], ◌∷◌, ◌++◌, codes, true, false, Option, none, some, pos}
use geekchatserver.State.{live, User, Client, Server, update}
use geekchatserver.Tests.Toy.{toy}
use geekchatserver.Framing.{raw_packet}

abbrev pub some_user : User
some_user = record {
  token = [];
  seed = [];
  username = codes "root";
  password = codes "root";
  is_online = false;
  use_cnt = pos 2;
  is_seed_existed = false;
  client = none;
  friends = record { is_inited = true; num_of_friends = 1; buffer = live (codes "lisi" ∷ []) };
}

abbrev pub some_client : Client
some_client = record {
  fd = 5;
  name = codes "5";
  usr = none;
  looper = false;
  buffer = raw_packet 1 (codes "x") ++ codes "abc";
}

-- One client at address 1 and one user at address 2.
unfoldable pub start : Server
unfolding toy
start = record {
  users = update (λ b. none) 2 (some some_user);
  clients = update (λ b. none) 1 (some some_client);
  mallocs = 3;
  clients_map = (codes "5", 1) ∷ [];
  methods_map = [];
  users_map = (codes "root", 2) ∷ [];
  tokens_map = [];
  timers_list = [];
  mysql = (0, []);
  random = 0;
  now = 100;
  sent = [];
}

abbrev pub state_of : {A : Type 0} → Option (A × Server) → Server
state_of none = start
state_of (some (a, sv)) = sv
