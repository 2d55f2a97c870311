-- ===== src/Invariant/Answers/Requests.antt =====
-- packet.c: every request of the table of methods is answered, once.
use geekchatserver.Prelude.{
  ℕ, zero, suc, ◌≡◌, refl, sym, ◌∙◌, subst, List, [], ◌∷◌, arith, Bytes, same, codes, get_elem?,
  All, if◌then◌else◌, not, Bool, true, false, none, some, ℤ,
}
use geekchatserver.Platform.{Platform}
use geekchatserver.State.{Client, Server, M}
use geekchatserver.Methods.Stubs.{
  method_com_hello_request, method_com_heartbeat_request, method_com_user_info_request,
  method_com_user_password_request, method_com_user_changeinfo_request,
  method_com_friends_info_request, method_com_friends_delete_request,
}
use geekchatserver.Packet.Dispatch.{methods, Method, call_method}
use mathlib.Core.Option.{some-injective}
use geekchatserver.Packet.Table.{HasRoom, methods_table, call_method-handler}
use geekchatserver.Invariant.Leads.{Leads}
use geekchatserver.Invariant.Answers.{Unanswered, Answered}
use geekchatserver.Invariant.Answers.Session.{
  Answers-method_com_login_seed_request, Answers-method_com_login_request,
  Answers-method_com_logout_bytoken_request, Answers-method_com_register_request,
}
use geekchatserver.Invariant.Answers.Talk.{
  Last-method_com_message_sendto_request, Answers-method_com_friends_add_request,
  Answers-method_com_friends_list_request, Answers-acknowledge,
}

-- The packets that a method may send to others: a message that is passed on.
abbrev pub passed_on : Bytes → ℕ
passed_on name = if same name (codes "com.message.sendto.request") then 1 else 0

-- The method that acknowledges a message is not answered.
abbrev pub is_answered : Bytes → Bool
is_answered name = not (same name (codes "com.message.recv.respond"))

module _ ⦃p : Platform⦄ where
  AnswersHandled : Method → Type 0
  AnswersHandled m =
      is_answered m.name ≡ true
      → (c fd : ℕ) (before : List (ℕ × Bytes)) (json : p.Json)
      → Leads (Unanswered c fd before 0) (Answered fd before (passed_on m.name)) (m.handler c json)

  -- Nothing is claimed of the method that is not answered.
  Answers-unanswered :
      (handler : ℕ → p.Json → M ℤ)
      → AnswersHandled (record { name = codes "com.message.recv.respond"; handler = handler })
  unfolding AnswersHandled same
  Answers-unanswered handler e = absurd (contrary e)
    where
      contrary : false ≡ true → ⊥
      contrary e = cc

  Answers-methods : All AnswersHandled methods
  unfolding AnswersHandled methods same method_com_hello_request method_com_heartbeat_request
      method_com_user_info_request method_com_user_password_request
      method_com_user_changeinfo_request method_com_friends_info_request
      method_com_friends_delete_request
  Answers-methods =
      search
        (
          Answers-acknowledge, Answers-method_com_login_seed_request,
          Answers-method_com_login_request, Last-method_com_message_sendto_request,
          Answers-method_com_friends_list_request, Answers-method_com_logout_bytoken_request,
          Answers-method_com_friends_add_request, Answers-method_com_register_request,
          Answers-unanswered,
        )
        depth 30

  Answers-listed :
      (ms : List Method) (i : ℕ) (x : Method)
      → All AnswersHandled ms
      → get_elem? ms i ≡ some x
      → AnswersHandled x
  Answers-listed [] i x all e = absurd (nothing e)
    where
      nothing : {A : Type 0} {a : A} → none ≡ some a → ⊥
      nothing e = cc
  Answers-listed (m ∷ ms) zero x all e = subst AnswersHandled (some-injective m x e) all.0
  Answers-listed (m ∷ ms) (suc i) x all e = Answers-listed ms i x all.1 e

  -- With the table of the methods, a request is answered.
  pub request-Answered :
      (sv : Server)
      → sv.methods_map ≡ methods_table
      → HasRoom
      → (i : ℕ) (x : Method) (c : ℕ) (ct : Client) (json : p.Json) → get_elem? methods i ≡ some x
      → is_answered x.name ≡ true
      → sv.clients c ≡ some ct
      → (ret : ℤ) (sv' : Server) → call_method c json x.name sv ≡ some (ret, sv')
      → Answered ct.fd sv.sent (passed_on x.name) sv'
  unfolding AnswersHandled
  request-Answered sv table room i x c ct json e expects known ret sv' run =
      (Answers-listed methods i x Answers-methods e expects c ct.fd sv.sent json).leads sv ret sv'
        (record { here = (ct, known, refl); others = ([], refl, omega arith) })
        (sym (call_method-handler room i x c json sv e table) ∙ run)
