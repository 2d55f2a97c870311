-- ===== src/Invariant/Methods/Talk.antt =====
-- methods/com.message.sendto.request.c, com.message.recv.respond.c, com.friends.add.request.c,
-- com.friends.list.request.c and the methods that only answer: what they keep.
use geekchatserver.Prelude.{
  ℕ, zero, suc, List, [], ◌∷◌, Bytes, codes, if◌then◌else◌, Option, none, pos, is_neg,
}
use geekchatserver.Platform.{Platform}
use geekchatserver.State.{Server}
use geekchatserver.Methods.Field.{field}
use geekchatserver.Packet.Respond.{serr_success, serr_err}
use geekchatserver.Methods.SendTo.{
  write_message_to_mysql, allow_new_uuid, send_or_store, send_from, finish,
  method_com_message_sendto_request,
}
use geekchatserver.Methods.RecvRespond.{set_message_read_to_mysql, method_com_message_recv_respond}
use geekchatserver.Methods.FriendsAdd.{add_friend, method_com_friends_add_request}
use geekchatserver.Methods.FriendsList.{append_names, list_friends, method_com_friends_list_request}
use geekchatserver.Methods.Stubs.{acknowledge}
use geekchatserver.Invariant.Rules.{
  Always, Always-bind, Always-pure, Always-fault, Always-deref, Always-if, Always-option,
  Always-user_at,
}
use geekchatserver.Invariant.Stable.{IsStable, stable_rules}
use geekchatserver.Invariant.Bears.{BearsSent}
use geekchatserver.Invariant.Users.{
  Always-user_put, Always-get_user_by_name, Always-affect_one_row, Always-is_token_effective,
}
use geekchatserver.Invariant.Messages.{
  Always-answer_put, Always-respond, Always-respond_json, Always-send_message_to,
  Always-make_friend, Always-get_friends_by_user,
}
use geekchatserver.Invariant.Tokens.{BearsLooper, Always-get_usr_by_token}

module _ ⦃p : Platform⦄ {P : Server → Type 0} (st : IsStable P) where
  pub Always-write_message_to_mysql :
      (from to : ℕ) (uuid message : Bytes) → Always P (write_message_to_mysql from to uuid message)
  unfolding write_message_to_mysql
  Always-write_message_to_mysql from to uuid message = search (stable_rules, Always-affect_one_row)

  pub Always-allow_new_uuid : Always P allow_new_uuid
  unfolding allow_new_uuid
  Always-allow_new_uuid = search stable_rules

  pub Always-set_message_read_to_mysql :
      (a : ℕ) (uuid : Option Bytes) → Always P (set_message_read_to_mysql a uuid)
  unfolding set_message_read_to_mysql
  Always-set_message_read_to_mysql a uuid = search (stable_rules, Always-affect_one_row)

  pub Always-append_names :
      (n : ℕ) (names : List Bytes) (array : p.Json) → Always P (append_names n names array)
  unfolding append_names
  Always-append_names zero names array = Always-pure array
  Always-append_names (suc n) [] array = Always-fault
  Always-append_names (suc n) (name ∷ names) array = Always-append_names n names _

module _ ⦃p : Platform⦄ {P : Server → Type 0} (st : IsStable P) (se : BearsSent P) where
  Always-finish : (c from to err : ℕ) → Always P (finish c from to err)
  Always-finish c from to err = search (stable_rules, Always-user_put, Always-respond)

  Always-send_or_store :
      (c from to : ℕ) (text : Option Bytes) → Always P (send_or_store c from to text)
  unfolding send_or_store
  Always-send_or_store c from to text = Always-bind (Always-allow_new_uuid st) (λ uuid.
      Always-bind (Always-user_at to) (λ t. Always-bind (Always-deref text) (λ message.
        Always-option t.client
          (Always-bind (Always-write_message_to_mysql st from to uuid message)
            (λ _. Always-finish c from to serr_success))
          (λ _. Always-bind (Always-send_message_to st se from to uuid message) (λ sent.
            Always-if (is_neg sent) (Always-finish c from to serr_err) (
              Always-bind (Always-write_message_to_mysql st from to uuid message)
                (λ _. Always-finish c from to serr_success)))))))

  Always-send_from : (c : ℕ) (json : p.Json) (from : ℕ) → Always P (send_from c json from)
  unfolding send_from
  Always-send_from c json from =
      Always-option (field json (codes "sendto")) (Always-answer_put st se c from _ _ _) (λ sendto.
        Always-bind (Always-get_user_by_name st sendto) (λ answer.
          Always-option (if is_neg answer.0 then none else answer.1)
            (Always-answer_put st se c from _ _ _)
            (λ t. Always-send_or_store c from t (field json (codes "message")))))

  Always-add_friend : (c usr : ℕ) (name : Bytes) → Always P (add_friend c usr name)
  unfolding add_friend
  Always-add_friend c usr name = Always-bind (Always-get_user_by_name st name) (λ answer.
      Always-option (if is_neg answer.0 then none else answer.1)
        (Always-answer_put st se c usr _ _ _)
        (λ f.
          Always-bind (Always-make_friend st usr f) (λ made.
            Always-bind (Always-user_put st usr) (λ _. Always-answer_put st se c f _ _ _))))

  Always-list_friends : (c a : ℕ) → Always P (list_friends c a)
  unfolding list_friends
  Always-list_friends c a =
      search (stable_rules, Always-get_friends_by_user, Always-append_names st, Always-answer_put)
        depth 20

  pub Always-acknowledge : (method : Bytes) (c : ℕ) → Always P (acknowledge method c)
  unfolding acknowledge
  Always-acknowledge method c = search (stable_rules, Always-respond_json)

  module _ (lo : BearsLooper P) where
    pub Always-method_com_message_sendto_request :
        (c : ℕ) (json : p.Json) → Always P (method_com_message_sendto_request c json)
    unfolding method_com_message_sendto_request
    Always-method_com_message_sendto_request c json =
        Always-option (field json (codes "token")) (Always-respond st se _ _ _ _) (λ token.
          Always-bind (Always-get_usr_by_token st lo c token) (λ answer.
            Always-option (if is_neg answer.0 then none else answer.1)
              (Always-respond st se _ _ _ _)
              (λ from. Always-bind (Always-is_token_effective st from) (λ effective.
                Always-if effective (Always-send_from c json from)
                  (Always-answer_put st se c from _ _ _)))))

    pub Always-method_com_message_recv_respond :
        (c : ℕ) (json : p.Json) → Always P (method_com_message_recv_respond c json)
    unfolding method_com_message_recv_respond
    Always-method_com_message_recv_respond c json =
        Always-option (field json (codes "token")) (Always-pure (pos 0)) (λ token.
          Always-bind (Always-get_usr_by_token st lo c token) (λ answer.
            Always-option (if is_neg answer.0 then none else answer.1) (Always-pure (pos 0)) (λ a.
              Always-bind (Always-is_token_effective st a) (λ effective.
                Always-bind
                  (Always-if effective
                    (Always-bind (Always-set_message_read_to_mysql st a (field json (codes "uuid")))
                      (λ _. Always-pure tt))
                    (Always-pure tt))
                  (λ _. Always-bind (Always-user_put st a) (λ _. Always-pure (pos 0)))))))

    pub Always-method_com_friends_add_request :
        (c : ℕ) (json : p.Json) → Always P (method_com_friends_add_request c json)
    unfolding method_com_friends_add_request
    Always-method_com_friends_add_request c json =
        Always-option (field json (codes "token")) (Always-respond st se _ _ _ _) (λ token.
          Always-bind (Always-get_usr_by_token st lo c token) (λ answer.
            Always-option (if is_neg answer.0 then none else answer.1)
              (Always-respond st se _ _ _ _)
              (λ a.
                Always-option (field json (codes "friend")) (Always-answer_put st se c a _ _ _)
                  (λ name. Always-add_friend c a name))))

    pub Always-method_com_friends_list_request :
        (c : ℕ) (json : p.Json) → Always P (method_com_friends_list_request c json)
    unfolding method_com_friends_list_request
    Always-method_com_friends_list_request c json =
        Always-option (field json (codes "token")) (Always-respond st se _ _ _ _) (λ token.
          Always-bind (Always-get_usr_by_token st lo c token) (λ answer.
            Always-option (if is_neg answer.0 then none else answer.1)
              (Always-respond st se _ _ _ _) (λ a. Always-list_friends c a)))
