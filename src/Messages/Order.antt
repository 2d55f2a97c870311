-- ===== src/Messages/Order.antt =====
-- messages.c: the waiting messages of a user go out in the order in which the database gives them.
use mathlib.Core.List.{reverse, reverse-append}
use geekchatserver.Prelude.{
  ℕ, suc, ◌≡◌, inl, inr, refl, sym, ap, ◌∙◌, List, [], ◌∷◌, ◌++◌, map, append_assoc, arith, Bytes,
  same, All, ◌==◌, ==_iff, Bool-cases, Option, some, pos,
}
use mathlib.Core.Option.{some-injective}
use geekchatserver.Platform.{Platform, Row}
use geekchatserver.State.{User, Client, Server, update, inc}
use geekchatserver.State.Bind.{update_self, bind_some}
use geekchatserver.Timer.{TimersList}
use geekchatserver.Mysql.{mysql_real_query_result}
use geekchatserver.Packet.Respond.{respond_json}
use geekchatserver.Packet.Wire.{Fits, wire, respond_json-Fits}
use geekchatserver.Messages.Deliver.{
  message_json, messages_query, get_message_from_mysql, deliver_row, deliver_rows,
  send_message_handler,
}
use geekchatserver.Messages.Known.{
  Waiting, row_of, counted, user_get_run, user_put_run, get_user_by_name_run, send_message_to_run,
  deliver_row_run, restored,
}

module _ ⦃p : Platform⦄ where
  module _ (c to : ℕ) (ct : Client) (t : User) where
    -- The packet of a message, and the descriptor that it is written to.
    abbrev pub packet_of : Waiting → ℕ × Bytes
    packet_of m = (ct.fd, wire (message_json m.sender t m.uuid m.message))

    -- The sender is in memory, referred to by something else than the delivery, and the packet of the
    -- message fits.
    pub record IsKnown (sv : Server) (m : Waiting) : Type 0 where
      pub named : p.hashmap_get sv.users_map m.from ≡ some m.address
      pub there : sv.users m.address ≡ some m.sender
      pub others : ℕ
      pub counted : m.sender.use_cnt ≡ pos (suc others)
      pub fits : Fits (message_json m.sender t m.uuid m.message)

    -- The recipient when a reference to the sender, who may be the same user, has been taken.
    recipient_after :
        (users : ℕ → Option User) (a : ℕ) (u : User)
        → users a ≡ some u
        → users to ≡ some t
        → (t' : User) × (update users a (some (counted u)) to ≡ some t')
          × (t'.token ≡ t.token)
          × (t'.client ≡ t.client)
    recipient_after users a u known known' = elim (Bool-cases (a == to)) [
      | inl same ↦
          let e : some u ≡ some t = sym known ∙ ap users ((==_iff a to).0 same) ∙ known' in
          (
            counted u,
            rw same refl,
            ap (λ (v : User). v.token) (some-injective u t e),
            ap (λ (v : User). v.client) (some-injective u t e),
          )
      | inr other ↦ (t, rw other known', refl, refl)
    ]

    same_json :
        (u t' : User) (uuid message : Bytes)
        → t'.token ≡ t.token
        → message_json (counted u) t' uuid message ≡ message_json u t uuid message
    unfolding message_json
    same_json u t' uuid message e = rw e refl

    module _ (sv : Server) (there : sv.clients c ≡ some ct) (usr : ct.usr ≡ some to)
        (known : sv.users to ≡ some t) (bound : t.client ≡ some c) where
      deliver_row_known :
          (m : Waiting)
          → IsKnown sv m
          → (ts : TimersList) × (deliver_row c (row_of m) sv
              ≡ some (tt, record sv { timers_list = ts; sent = packet_of m ∷ sv.sent }))
      deliver_row_known m k =
          let a = m.address in
          let u = m.sender in
          let (ts, got) = user_get_run a sv k.there in
          let sv1 = record sv { users = update sv.users a (some (counted u)); timers_list = ts } in
          let (t', known1, token, client) = recipient_after sv.users a u k.there known in
          let json = message_json u t m.uuid m.message in
          let sv2 = record sv1 { sent = packet_of m ∷ sv.sent } in
          let wrote =
            ap (λ j. respond_json c j sv1) (same_json u t' m.uuid m.message token)
            ∙ respond_json-Fits c sv1 there json k.fits in
          let sent =
            send_message_to_run a to c m.uuid m.message sv1 sv2 (counted u) t'
              (update_self sv.users a (some (counted u))) known1 (client ∙ bound) wrote in
          let put =
            user_put_run a k.others sv2 (counted u) (update_self sv.users a (some (counted u)))
              (ap inc k.counted) in
          (
            ts,
            deliver_row_run c to m sv sv1 sv2 _ ct p.indeterminate
                  (get_user_by_name_run m.from a sv sv1 k.named got) there usr sent put
                ∙ ap
                    (λ (h : ℕ → Option User).
                      some (
                        tt,
                        record sv { users = h; timers_list = ts; sent = packet_of m ∷ sv.sent },
                      ))
                    (restored sv.users a k.others u k.there k.counted),
          )

    out_of_order :
        (m : Waiting) (ms : List Waiting) (old : List (ℕ × Bytes))
        → reverse (map packet_of ms) ++ packet_of m ∷ old ≡ reverse (map packet_of (m ∷ ms)) ++ old
    out_of_order m ms old =
        sym (append_assoc (reverse (map packet_of ms)) (packet_of m ∷ []) old)
        ∙ ap (λ l. l ++ old) (sym (reverse-append (packet_of m ∷ []) (map packet_of ms)))

    abbrev with_sent : Server → TimersList → List (ℕ × Bytes) → Server
    with_sent sv ts sent = record sv { timers_list = ts; sent = sent }

    with_sent-IsKnown :
        (sv : Server) (ts : TimersList) (sent : List (ℕ × Bytes)) (ms : List Waiting)
        → All (IsKnown sv) ms
        → All (IsKnown (with_sent sv ts sent)) ms
    with_sent-IsKnown sv ts sent [] k = tt
    with_sent-IsKnown sv ts sent (m ∷ ms) k = (
      record {
        named = k.0.named;
        there = k.0.there;
        others = k.0.others;
        counted = k.0.counted;
        fits = k.0.fits;
      },
      with_sent-IsKnown sv ts sent ms k.1,
    )

    deliver_rows_known :
        (ms : List Waiting) (sv : Server)
        → sv.clients c ≡ some ct
        → ct.usr ≡ some to
        → sv.users to ≡ some t
        → t.client ≡ some c
        → All (IsKnown sv) ms
        → (ts : TimersList) × (deliver_rows c (map row_of ms) sv
            ≡ some (tt, with_sent sv ts (reverse (map packet_of ms) ++ sv.sent)))
    unfolding deliver_rows
    deliver_rows_known [] sv there usr known bound k = (sv.timers_list, refl)
    deliver_rows_known (m ∷ ms) sv there usr known bound k =
        let (ts, first) = deliver_row_known sv there usr known bound m k.0 in
        let sv1 = with_sent sv ts (packet_of m ∷ sv.sent) in
        let (ts', others) =
          deliver_rows_known ms sv1 there usr known bound
            (with_sent-IsKnown sv ts (packet_of m ∷ sv.sent) ms k.1) in
        (
          ts',
          bind_some (deliver_row c (row_of m)) (λ _. deliver_rows c (map row_of ms)) sv first
              ∙ others
              ∙ ap (λ l. some (tt, with_sent sv ts' l)) (out_of_order m ms sv.sent),
        )

    get_message_run :
        (sv : Server) (m : Waiting) (ms : List Waiting) (conn : p.Conn)
        → sv.users to ≡ some t
        → mysql_real_query_result (messages_query t.username) sv
          ≡ some ((pos 0, some (map row_of (m ∷ ms))), record sv { mysql = conn })
        → get_message_from_mysql to sv
          ≡ some ((pos 0, some (map row_of (m ∷ ms))), record sv { mysql = conn })
    unfolding get_message_from_mysql
    get_message_run sv m ms conn known answer = ground arith

    handler_run :
        (sv sv1 sv2 : Server) (rows : List Row)
        → sv.clients c ≡ some ct
        → ct.usr ≡ some to
        → get_message_from_mysql to sv ≡ some ((pos 0, some rows), sv1)
        → deliver_rows c rows sv1 ≡ some (tt, sv2)
        → send_message_handler c sv ≡ some (tt, sv2)
    unfolding send_message_handler
    handler_run sv sv1 sv2 rows there usr got delivered = ground arith

    -- When the message looper of a client fires whose user is bound to it, and the query, without an
    -- error, gives rows of a uuid, a sender and a text, where every sender is in memory and referred
    -- to by something else, and every packet fits: the messages are written to the client's socket,
    -- one packet each, in the order of the rows, and nothing else of the server changes but the
    -- connection to the database and the timers.
    pub send_message_handler_order :
        (m : Waiting) (ms : List Waiting) (conn : p.Conn) (sv : Server)
        → sv.clients c ≡ some ct
        → ct.usr ≡ some to
        → sv.users to ≡ some t
        → t.client ≡ some c
        → mysql_real_query_result (messages_query t.username) sv
          ≡ some ((pos 0, some (map row_of (m ∷ ms))), record sv { mysql = conn })
        → All (IsKnown sv) (m ∷ ms)
        → (ts : TimersList) × (send_message_handler c sv
            ≡ some (
              tt,
              record sv {
                mysql = conn;
                timers_list = ts;
                sent = reverse (map packet_of (m ∷ ms)) ++ sv.sent;
              },
            ))
    send_message_handler_order m ms conn sv there usr known bound answer k =
        let sv1 = record sv { mysql = conn } in
        let (ts, delivered) =
          deliver_rows_known (m ∷ ms) sv1 there usr known bound (at_conn (m ∷ ms) k) in
        (
          ts,
          handler_run sv sv1 _ (map row_of (m ∷ ms)) there usr
              (get_message_run sv m ms conn known answer) delivered,
        )
      where
        at_conn :
            (ns : List Waiting)
            → All (IsKnown sv) ns
            → All (IsKnown (record sv { mysql = conn })) ns
        at_conn [] k = tt
        at_conn (n ∷ ns) k = (
          record {
            named = k.0.named;
            there = k.0.there;
            others = k.0.others;
            counted = k.0.counted;
            fits = k.0.fits;
          },
          at_conn ns k.1,
        )
