-- ===== src/Invariant/Answers/Talk.antt =====
-- methods/com.message.sendto.request.c, com.friends.add.request.c, com.friends.list.request.c and the
-- methods that only answer: each way through a method answers the client that asked, once.
use geekchatserver.Prelude.{
  ℕ, ◌≤◌, List, arith, Bytes, codes, if◌then◌else◌, Option, none, ℤ, pos, is_neg,
}
use geekchatserver.Platform.{Platform}
use geekchatserver.Methods.Field.{field}
use geekchatserver.Packet.Respond.{serr_success, serr_err}
use geekchatserver.Methods.SendTo.{
  write_message_to_mysql, send_or_store, send_from, finish, method_com_message_sendto_request,
}
use geekchatserver.Methods.FriendsAdd.{add_friend, method_com_friends_add_request}
use geekchatserver.Methods.FriendsList.{list_friends, method_com_friends_list_request}
use geekchatserver.Methods.Stubs.{acknowledge}
use geekchatserver.Invariant.Rules.{Always-pure, Always-deref, Always-user_at}
use geekchatserver.Invariant.Users.{
  Always-user_put, Always-get_user_by_name, Always-is_token_effective,
}
use geekchatserver.Invariant.Messages.{Always-make_friend, Always-get_friends_by_user}
use geekchatserver.Invariant.Tokens.{Always-get_usr_by_token}
use geekchatserver.Invariant.Answers.{
  Unanswered, Answered, IsStable-Unanswered, Leads-respond, Leads-answer_put, Leads-respond_json,
  Leads-send_message_to,
}
use geekchatserver.Invariant.Leads.{
  Leads, Leads-bind, Leads-then, Leads-if, Leads-option, Always→Leads,
}
use geekchatserver.Packet.Respond.{respond}
use geekchatserver.State.{M, ◌>>=◌, ◌>>◌}
use geekchatserver.Users.Refs.{user_put}
use geekchatserver.Methods.FriendsList.{buffer_names}
use geekchatserver.Invariant.Methods.Talk.{
  Always-write_message_to_mysql, Always-allow_new_uuid, Always-append_names,
}
use geekchatserver.Invariant.Answers.Once.{Answers, st, lo, Answers-respond, Answers-put}

module _ ⦃p : Platform⦄ (c fd : ℕ) (before : List (ℕ × Bytes)) where
  Answers-add_friend : (usr : ℕ) (name : Bytes) → Answers c fd before (add_friend c usr name)
  unfolding add_friend
  Answers-add_friend usr name = Leads-then (Always-get_user_by_name st name) (λ answer.
      Leads-option (if is_neg answer.0 then none else answer.1) (Answers-put usr _ _ _) (λ f.
        Leads-then (Always-make_friend st usr f)
          (λ made. Leads-then (Always-user_put st usr) (λ _. Answers-put f _ _ _))))

  pub Answers-method_com_friends_add_request :
      (json : p.Json) → Answers c fd before (method_com_friends_add_request c json)
  unfolding method_com_friends_add_request
  Answers-method_com_friends_add_request json =
      Leads-option (field json (codes "token")) (Answers-respond _ _ _) (λ token.
        Leads-then (Always-get_usr_by_token st lo c token) (λ answer.
          Leads-option (if is_neg answer.0 then none else answer.1) (Answers-respond _ _ _) (λ a.
            Leads-option (field json (codes "friend")) (Answers-put a _ _ _)
              (λ name. Answers-add_friend a name))))

  Answers-list_friends : (a : ℕ) → Answers c fd before (list_friends c a)
  unfolding list_friends
  Answers-list_friends a = Leads-then (Always-get_friends_by_user st a) (λ ret.
      Leads-if (is_neg ret) (Answers-put a _ _ _) (
        Leads-then (Always-user_at a) (λ u.
          Leads-then
            (Always-append_names st u.friends.num_of_friends (buffer_names u.friends.buffer) _)
            (λ array. Answers-put a _ _ _))))

  pub Answers-method_com_friends_list_request :
      (json : p.Json) → Answers c fd before (method_com_friends_list_request c json)
  unfolding method_com_friends_list_request
  Answers-method_com_friends_list_request json =
      Leads-option (field json (codes "token")) (Answers-respond _ _ _) (λ token.
        Leads-then (Always-get_usr_by_token st lo c token) (λ answer.
          Leads-option (if is_neg answer.0 then none else answer.1) (Answers-respond _ _ _)
            (λ a. Answers-list_friends a)))

  pub Answers-acknowledge : (method : Bytes) → Answers c fd before (acknowledge method c)
  unfolding acknowledge
  Answers-acknowledge method =
      Leads-bind (Answered fd before 0) (Leads-respond_json c fd before 0 0 (omega arith) _)
        (λ _. Always→Leads (Always-pure (pos 0)))

  -- Answers after at most one message to another client.
  abbrev AnswersLast : {A : Type 0} → M A → Type 0
  AnswersLast m = Leads (Unanswered c fd before 0) (Answered fd before 1) m

  Last-respond :
      (json : p.Json) (method : Bytes) (err : ℤ) → AnswersLast (respond c json method err)
  Last-respond = Leads-respond c fd before 0 1 (omega arith)

  Last-put :
      (a : ℕ) (json : p.Json) (method : Bytes) (err : ℤ)
      → AnswersLast (user_put a >> respond c json method err)
  Last-put = Leads-answer_put c fd before 0 1 (omega arith)

  Leads-finish :
      (n : ℕ)
      → n ≤ 1
      → (from to err : ℕ)
      → Leads (Unanswered c fd before n) (Answered fd before 1) (finish c from to err)
  Leads-finish n few from to err =
      Leads-then (Always-user_put (IsStable-Unanswered c fd before n) from)
        (λ _. Leads-answer_put c fd before n 1 few to _ _ _)

  Leads-stored :
      (n : ℕ)
      → n ≤ 1
      → (from to : ℕ) (uuid message : Bytes)
      → Leads
          (Unanswered c fd before n)
          (Answered fd before 1)
          (write_message_to_mysql from to uuid message >>= λ _. finish c from to serr_success)
  Leads-stored n few from to uuid message =
      Leads-then
        (Always-write_message_to_mysql (IsStable-Unanswered c fd before n) from to uuid message)
        (λ _. Leads-finish n few from to serr_success)

  Last-send_or_store :
      (from to : ℕ) (text : Option Bytes) → AnswersLast (send_or_store c from to text)
  unfolding send_or_store
  Last-send_or_store from to text = Leads-then (Always-allow_new_uuid st) (λ uuid.
      Leads-then (Always-user_at to) (λ t. Leads-then (Always-deref text) (λ message.
        Leads-option t.client (Leads-stored 0 (omega arith) from to uuid message) (λ _.
          Leads-bind (Unanswered c fd before 1)
            (Leads-send_message_to c fd before 0 from to uuid message)
            (λ sent.
              Leads-if (is_neg sent) (Leads-finish 1 (omega arith) from to serr_err)
                (Leads-stored 1 (omega arith) from to uuid message))))))

  Last-send_from : (json : p.Json) (from : ℕ) → AnswersLast (send_from c json from)
  unfolding send_from
  Last-send_from json from =
      Leads-option (field json (codes "sendto")) (Last-put from _ _ _) (λ sendto.
        Leads-then (Always-get_user_by_name st sendto) (λ answer.
          Leads-option (if is_neg answer.0 then none else answer.1) (Last-put from _ _ _)
            (λ t. Last-send_or_store from t (field json (codes "message")))))

  pub Last-method_com_message_sendto_request :
      (json : p.Json) → AnswersLast (method_com_message_sendto_request c json)
  unfolding method_com_message_sendto_request
  Last-method_com_message_sendto_request json =
      Leads-option (field json (codes "token")) (Last-respond _ _ _) (λ token.
        Leads-then (Always-get_usr_by_token st lo c token) (λ answer.
          Leads-option (if is_neg answer.0 then none else answer.1) (Last-respond _ _ _) (λ from.
            Leads-then (Always-is_token_effective st from)
              (λ effective. Leads-if effective (Last-send_from json from) (Last-put from _ _ _)))))
