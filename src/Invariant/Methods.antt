-- ===== src/Invariant/Methods.antt =====
-- packet.c: what every method keeps, and so a packet that is dispatched.
use geekchatserver.Prelude.{
  ℕ, zero, suc, ◌+◌, ◌-◌, ◌*◌, ◌/◌, ◌%◌, ◌^◌, ◌≤◌, ◌<◌, ◌≡◌, ◌≢◌, ◌↔◌, ◌⊎◌, inl, inr, refl, sym, ap,
  ap₂, ◌∙◌, ◌≡⟨◌⟩◌, ◌∎, subst, fun_ext, List, [], ◌∷◌, ◌++◌, map, append-nil, append_assoc, arith,
  bit_and, bit_xor, ◌>>>◌, bit_and_fifteen, bit_xor_step, bit_xor-lt, bit_and-le, bit_xor_comm,
  bit_xor_cancel, bit_xor-zero, low_bits, low_bits-lt, high_bits_24, high_bits, low_bits_8,
  low_bits_cancel, low_bits_small, high_bits_xor, high_bits_small, bit_and_byte,
  bit_and_three_bytes, Bytes, same, same_self, eq_of_same, String, codes, get_elem?, get_or, length,
  take, drop, length-append, length-take, length-drop, take-append-drop, take-append, drop-append,
  take_all, take_prefix, drop_prefix, drop_all, All, ltb, leb, if◌then◌else◌, ◌&&◌, ◌||◌, not, Bool,
  true, false, ◌==◌, ==_iff, ==_self, ltb→lt, leb→le, le→leb, lt→ltb, ge→ltb, Bool-cases,
  Option-cases, Option, none, some, is_some, ℤ, pos, negsuc, neg, is_neg,
}
use geekchatserver.Platform.{Platform, Row}
use geekchatserver.State.{
  Buffer, null, live, dangling, Friends, User, Client, server_token_lens, server_seed_lens,
  server_uuid_lens, sha256_lens, server_username_lens, server_password_lens,
  server_client_unused_timeout, server_user_unused_timeout, Server, M, pure, fault, ◌>>=◌, ◌>>◌,
  get, deref, when, update, user_at, client_at, set_user, set_client, edit_user, edit_client,
  set_users_map, set_tokens_map, set_clients_map, with_timers, try_malloc, column, write_to,
  snprintf, strncpy, inc, dec, is_zero,
}
pub mod Session
pub mod Talk
use geekchatserver.Methods.Field.{field}
use geekchatserver.Methods.Stubs.{
  method_com_hello_request, method_com_heartbeat_request, method_com_user_info_request,
  method_com_user_password_request, method_com_user_changeinfo_request,
  method_com_friends_info_request, method_com_friends_delete_request,
}
use geekchatserver.Packet.Dispatch.{methods, Method, call_method, dispatch_packet}
use geekchatserver.Invariant.Rules.{
  Always, Always-of, Always-bind, Always-pure, Always-fault, Always-get, Always-deref, Always-when,
  Always-if, Always-option, Always-list, Always-user_at, Always-client_at, Always-column,
  always_rules,
}
use geekchatserver.Invariant.Stable.{IsStable}
use geekchatserver.Invariant.Bears.{BearsSent}
use geekchatserver.Invariant.Messages.{Always-respond_method_not_found}
use geekchatserver.Invariant.Tokens.{BearsLooper}
use geekchatserver.Invariant.Methods.Session.{
  Always-method_com_login_seed_request, Always-method_com_login_request,
  Always-method_com_logout_bytoken_request, Always-method_com_register_request,
}
use geekchatserver.Invariant.Methods.Talk.{
  Always-method_com_message_sendto_request, Always-method_com_message_recv_respond,
  Always-method_com_friends_add_request, Always-method_com_friends_list_request, Always-acknowledge,
}

module _ ⦃p : Platform⦄ {P : Server → Type 0} (st : IsStable P) (se : BearsSent P)
    (lo : BearsLooper P) where
  AlwaysHandled : Method → Type 0
  AlwaysHandled m = (c : ℕ) (json : p.Json) → Always P (m.handler c json)

  Always-methods : All AlwaysHandled methods
  unfolding AlwaysHandled methods method_com_hello_request method_com_heartbeat_request
      method_com_user_info_request method_com_user_password_request
      method_com_user_changeinfo_request method_com_friends_info_request
      method_com_friends_delete_request
  Always-methods =
      search
        (
          Always-acknowledge st se,
          Always-method_com_login_seed_request st se,
          Always-method_com_login_request st se lo,
          Always-method_com_message_sendto_request st se lo,
          Always-method_com_friends_list_request st se lo,
          Always-method_com_logout_bytoken_request st se lo,
          Always-method_com_friends_add_request st se lo,
          Always-method_com_register_request st se,
          Always-method_com_message_recv_respond st se lo,
        )
        depth 30

  Always-handler :
      (ms : List Method)
      → All AlwaysHandled ms
      → (i c : ℕ) (json : p.Json) → Always P (deref (get_elem? ms i) >>= λ m. m.handler c json)
  unfolding AlwaysHandled
  Always-handler [] all i c json = Always-fault
  Always-handler (m ∷ ms) all zero c json = Always-bind (Always-pure m) (λ _. all.0 c json)
  Always-handler (m ∷ ms) all (suc i) c json = Always-handler ms all.1 i c json

  pub Always-call_method :
      (c : ℕ) (json : p.Json) (method : Bytes) → Always P (call_method c json method)
  unfolding call_method
  Always-call_method c json method = Always-bind Always-get (λ sv.
      Always-option (p.hashmap_get sv.methods_map method)
        (Always-bind (Always-respond_method_not_found st se c) (λ _. Always-pure (negsuc 0)))
        (λ i. Always-handler methods Always-methods i c json))

  pub Always-dispatch_packet : (c : ℕ) (payload : Bytes) → Always P (dispatch_packet c payload)
  unfolding dispatch_packet
  Always-dispatch_packet c payload =
      Always-option (p.json_loadb payload) (Always-pure (negsuc 0)) (λ json.
        Always-option (field json (codes "method")) (Always-pure (negsuc 0))
          (λ method. Always-call_method c json method))
