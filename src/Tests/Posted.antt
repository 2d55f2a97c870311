-- ===== src/Tests/Posted.antt =====
-- Two waiting messages, one of them from the recipient.
use geekchatserver.Prelude.{◌≡◌, refl, [], ◌∷◌, ◌++◌, map, arith, same, codes, none, some, pos}
use mathlib.Core.List.{reverse}
use geekchatserver.Platform.{Platform}
use geekchatserver.State.{User, Client, Server, update}
use geekchatserver.Mysql.{mysql_real_query_result, retry_loop, result_round}
use geekchatserver.Timer.{TimersList}
use geekchatserver.Messages.Deliver.{messages_query, send_message_handler}
use geekchatserver.Messages.Known.{Waiting, row_of}
use geekchatserver.Messages.Order.{IsKnown, packet_of, send_message_handler_order}
use geekchatserver.Tests.Toy.{toy}
use geekchatserver.Tests.States.{some_client, some_user}

abbrev recipient : User
recipient = record some_user { client = some 1 }

abbrev lisi : User
lisi = record some_user { username = codes "lisi" }

abbrev to_self : Waiting
to_self = record {
  uuid = codes "1";
  from = codes "root";
  message = codes "a";
  address = 2;
  sender = recipient;
}

abbrev from_lisi : Waiting
from_lisi = record {
  uuid = codes "2";
  from = codes "lisi";
  message = codes "b";
  address = 4;
  sender = lisi;
}

-- The database answers with the two rows.
abbrev mailbox : Platform
unfolding toy
mailbox = record toy {
  mysql_store_result = λ conn. (some (map row_of (to_self ∷ from_lisi ∷ [])), conn);
}

abbrev bound_client : Client
bound_client = record some_client { usr = some 2 }

abbrev posted : Server ⦃p = mailbox⦄
unfolding toy
posted = record {
  users = update ⦃p = mailbox⦄ (update ⦃p = mailbox⦄ (λ b. none) 4 (some lisi)) 2 (some recipient);
  clients = update ⦃p = mailbox⦄ (λ b. none) 1 (some bound_client);
  mallocs = 5;
  clients_map = (codes "5", 1) ∷ [];
  methods_map = [];
  users_map = (codes "root", 2) ∷ (codes "lisi", 4) ∷ [];
  tokens_map = [];
  timers_list = [];
  mysql = (0, []);
  random = 0;
  now = 100;
  sent = [];
}

abbrev asked : mailbox.Conn
asked =
    (retry_loop ⦃p = mailbox⦄ (result_round ⦃p = mailbox⦄ (messages_query (codes "root"))) 2
      posted.mysql).conn

answered :
    mysql_real_query_result ⦃p = mailbox⦄ (messages_query recipient.username) posted
    ≡ some ((pos 0, some (map row_of (to_self ∷ from_lisi ∷ []))), record posted { mysql = asked })
unfolding toy mysql_real_query_result retry_loop result_round messages_query
answered = refl

to_self-IsKnown : IsKnown ⦃p = mailbox⦄ 1 2 bound_client recipient posted to_self
unfolding toy same
to_self-IsKnown = record {
  named = refl;
  there = refl;
  others = 1;
  counted = refl;
  fits = omega arith;
}

from_lisi-IsKnown : IsKnown ⦃p = mailbox⦄ 1 2 bound_client recipient posted from_lisi
unfolding toy same
from_lisi-IsKnown = record {
  named = refl;
  there = refl;
  others = 1;
  counted = refl;
  fits = omega arith;
}

send_message_handler_order_example :
    (ts : TimersList) × (send_message_handler ⦃p = mailbox⦄ 1 posted
      ≡ some (
        tt,
        record posted {
          mysql = asked;
          timers_list = ts;
          sent =
              reverse (
                map (packet_of ⦃p = mailbox⦄ 1 2 bound_client recipient) (to_self ∷ from_lisi ∷ []))
              ++ [];
        },
      ))
unfolding toy
send_message_handler_order_example =
    send_message_handler_order ⦃p = mailbox⦄ 1 2 bound_client recipient to_self (from_lisi ∷ [])
      asked posted refl refl refl refl answered (to_self-IsKnown, (from_lisi-IsKnown, tt))
