-- ===== src/Invariant/Messages.antt =====
-- packet.c, friends.c and messages.c: a stable property outlasts their actions.
use geekchatserver.Prelude.{
  ℕ, ◌+◌, List, [], ◌∷◌, Bytes, length, true, none, some, ℤ, negsuc, is_neg,
}
use geekchatserver.Platform.{Platform, Row}
use geekchatserver.State.{null, live, server_username_lens, Server, ◌>>◌, strncpy}
use geekchatserver.Friends.Load.{
  slot_string, is_terminated, fetch_friends, get_friends_by_user_from_mysql, get_friends_by_user,
  insert_friend_to_mysql, make_friend, add_name, friends_of, friends_query,
}
use geekchatserver.Messages.Deliver.{
  send_message_to, get_message_from_mysql, deliver_row, deliver_rows, send_message_handler,
  messages_query,
}
use geekchatserver.Users.Refs.{user_put}
use geekchatserver.Packet.Respond.{
  json_to_raw_packet, respond_json, respond, respond_method_not_found,
}
use geekchatserver.Invariant.Rules.{
  always_rules, Always, Always-bind, Always-fault, Always-pure, Always-deref, Always-if,
  Always-option, Always-list, Always-user_at, Always-client_at, Always-column,
}
use geekchatserver.Invariant.Stable.{
  IsStable, stable_rules, Always-edit_user, Always-try_malloc, Always-mysql_real_query_result,
}
use geekchatserver.Invariant.Bears.{BearsSent, Always-write_to}
use geekchatserver.Invariant.Users.{
  Always-user_put, Always-get_user_by_name, Always-free_friends, Always-affect_one_row,
}

module _ ⦃p : Platform⦄ {P : Server → Type 0} where
  pub Always-json_to_raw_packet :
      (json : p.Json) (type : ℕ) → Always P (json_to_raw_packet json type)
  unfolding json_to_raw_packet
  Always-json_to_raw_packet json type = search always_rules

module _ ⦃p : Platform⦄ {P : Server → Type 0} (st : IsStable P) where
  Always-slot_string : (num offset : ℕ) (name : Bytes) → Always P (slot_string num offset name)
  unfolding slot_string
  Always-slot_string num offset name =
      Always-if (is_terminated num offset name) (Always-pure name) Always-fault

  pub Always-fetch_friends :
      (num offset : ℕ) (rows : List Row) (m : p.Map) → Always P (fetch_friends num offset rows m)
  unfolding fetch_friends
  Always-fetch_friends num offset [] m = Always-pure (some [])
  Always-fetch_friends num offset (row ∷ rows) m =
      let rest = λ (m' : p.Map). Always-fetch_friends num (offset + 1) rows m' in
      Always-bind (Always-column row 1) (λ friend.
        Always-bind (Always-slot_string num offset (strncpy friend server_username_lens)) (λ name.
          Always-option (p.hashmap_put m name 1) (Always-pure none)
            (λ m'. Always-bind (rest m') (λ names. Always-pure (add_name name names)))))

  Always-get_friends_by_user_from_mysql : (a : ℕ) → Always P (get_friends_by_user_from_mysql a)
  unfolding get_friends_by_user_from_mysql
  Always-get_friends_by_user_from_mysql a = Always-bind (Always-user_at a) (λ u.
      Always-bind (Always-mysql_real_query_result st (friends_query u.username)) (λ answer.
        Always-if (is_neg answer.0) (Always-pure answer.0) (
          Always-option answer.1 (Always-pure answer.0) (λ rows.
            Always-bind (Always-try_malloc st) (λ memory.
              Always-option memory
                (Always-bind
                  (Always-edit_user st a
                    (λ v. record v { friends = record (v.friends) { buffer = null } }))
                  (λ _. Always-pure (negsuc 0)))
                (λ _.
                  Always-bind (Always-fetch_friends (length rows) 0 rows p.hashmap_new) (λ names.
                    Always-option names
                      (Always-bind
                        (Always-edit_user st a (λ v. record v {
                          friends = friends_of true v.friends.num_of_friends null;
                        }))
                        (λ _. Always-pure (negsuc 0)))
                      (λ list.
                        Always-bind
                          (Always-edit_user st a
                            (λ v. record v { friends = friends_of true (length rows) (live list) }))
                          (λ _. Always-pure answer.0)))))))))

  pub Always-get_friends_by_user : (a : ℕ) → Always P (get_friends_by_user a)
  unfolding get_friends_by_user
  Always-get_friends_by_user a = search (stable_rules, Always-get_friends_by_user_from_mysql)

  Always-insert_friend_to_mysql : (a b : ℕ) → Always P (insert_friend_to_mysql a b)
  unfolding insert_friend_to_mysql
  Always-insert_friend_to_mysql a b = search (stable_rules, Always-affect_one_row)

  pub Always-make_friend : (a b : ℕ) → Always P (make_friend a b)
  unfolding make_friend
  Always-make_friend a b =
      search (stable_rules, Always-insert_friend_to_mysql, Always-free_friends) depth 20

  Always-get_message_from_mysql : (a : ℕ) → Always P (get_message_from_mysql a)
  unfolding get_message_from_mysql
  Always-get_message_from_mysql a = Always-bind (Always-user_at a) (λ u.
      Always-bind (Always-mysql_real_query_result st (messages_query u.username)) (λ answer.
        Always-if (is_neg answer.0) (Always-pure (answer.0, none)) (
          Always-option answer.1 (Always-pure (answer.0, none)) (λ rows.
            Always-list rows (Always-pure (negsuc 0, none))
              (λ row more. Always-pure (answer.0, some (row ∷ more)))))))

module _ ⦃p : Platform⦄ {P : Server → Type 0} (st : IsStable P) (se : BearsSent P) where
  pub Always-respond_json : (c : ℕ) (json : p.Json) → Always P (respond_json c json)
  unfolding respond_json
  Always-respond_json c json = search (stable_rules, Always-json_to_raw_packet, Always-write_to se)

  pub Always-respond :
      (c : ℕ) (json : p.Json) (method : Bytes) (err : ℤ) → Always P (respond c json method err)
  unfolding respond
  Always-respond c json method err = search (stable_rules, Always-respond_json)

  pub Always-answer_put :
      (c a : ℕ) (json : p.Json) (method : Bytes) (err : ℤ)
      → Always P (user_put a >> respond c json method err)
  Always-answer_put c a json method err =
      Always-bind (Always-user_put st a) (λ _. Always-respond c json method err)

  pub Always-respond_method_not_found : (c : ℕ) → Always P (respond_method_not_found c)
  unfolding respond_method_not_found
  Always-respond_method_not_found c = search (stable_rules, Always-respond_json)

  pub Always-send_message_to :
      (from to : ℕ) (uuid message : Bytes) → Always P (send_message_to from to uuid message)
  unfolding send_message_to
  Always-send_message_to from to uuid message = search (stable_rules, Always-respond_json) depth 20

  Always-deliver_row : (c : ℕ) (row : Row) → Always P (deliver_row c row)
  unfolding deliver_row
  Always-deliver_row c row = Always-bind (Always-column row 1) (λ from_name.
      Always-bind (Always-get_user_by_name st from_name) (λ answer.
        Always-if (is_neg answer.0) (Always-pure tt) (
          Always-option answer.1 (Always-pure tt) (λ f. Always-bind (Always-client_at c) (λ ct.
            Always-bind (Always-deref ct.usr) (λ to. Always-bind (Always-column row 0) (λ uuid.
              Always-bind (Always-column row 2) (λ message.
                Always-bind (Always-send_message_to f to uuid message)
                  (λ _. Always-user_put st f)))))))))

  Always-deliver_rows : (c : ℕ) (rows : List Row) → Always P (deliver_rows c rows)
  unfolding deliver_rows
  Always-deliver_rows c [] = Always-pure tt
  Always-deliver_rows c (row ∷ rows) =
      Always-bind (Always-deliver_row c row) (λ _. Always-deliver_rows c rows)

  pub Always-send_message_handler : (c : ℕ) → Always P (send_message_handler c)
  unfolding send_message_handler
  Always-send_message_handler c = Always-bind (Always-client_at c) (λ ct.
      Always-bind (Always-deref ct.usr) (λ to.
        Always-bind (Always-get_message_from_mysql st to) (λ answer.
          Always-if (is_neg answer.0) (Always-pure tt)
            (Always-option answer.1 (Always-pure tt) (λ rows. Always-deliver_rows c rows)))))
