-- ===== src/Packet/Dispatch.antt =====
-- packet.c, methods/methods.h: from the payload of a packet to the method that it names. A handler is
-- known in `methods_map` by its place in the table `methods`.
use geekchatserver.Prelude.{ℕ, ◌+◌, List, [], ◌∷◌, Bytes, codes, get_elem?, none, some, ℤ, negsuc}
use geekchatserver.Platform.{Platform}
use geekchatserver.State.{M, pure, ◌>>=◌, ◌>>◌, get, deref}
use geekchatserver.Tokens.Registry.{put_or_keep}
use geekchatserver.Packet.Respond.{respond_method_not_found}
use geekchatserver.Methods.Field.{field}
use geekchatserver.Methods.Login.{method_com_login_request}
use geekchatserver.Methods.LoginSeed.{method_com_login_seed_request}
use geekchatserver.Methods.SendTo.{method_com_message_sendto_request}
use geekchatserver.Methods.Logout.{method_com_logout_bytoken_request}
use geekchatserver.Methods.RecvRespond.{method_com_message_recv_respond}
use geekchatserver.Methods.Register.{method_com_register_request}
use geekchatserver.Methods.FriendsAdd.{method_com_friends_add_request}
use geekchatserver.Methods.FriendsList.{method_com_friends_list_request}
use geekchatserver.Methods.Stubs.{
  method_com_hello_request, method_com_heartbeat_request, method_com_user_info_request,
  method_com_user_password_request, method_com_user_changeinfo_request,
  method_com_friends_info_request, method_com_friends_delete_request,
}

module _ ⦃p : Platform⦄ where
  pub record Method : Type 0 where
    pub name : Bytes
    pub handler : ℕ → p.Json → M ℤ

  unfoldable pub methods : List Method
  methods =
      record { name = codes "com.hello.request"; handler = method_com_hello_request }
      ∷ record { name = codes "com.login.seed.request"; handler = method_com_login_seed_request }
      ∷ record { name = codes "com.login.request"; handler = method_com_login_request }
      ∷ record {
        name = codes "com.message.sendto.request";
        handler = method_com_message_sendto_request;
      }
      ∷ record {
        name = codes "com.friends.list.request";
        handler = method_com_friends_list_request;
      }
      ∷ record {
        name = codes "com.logout.bytoken.request";
        handler = method_com_logout_bytoken_request;
      }
      ∷ record {
        name = codes "com.friends.delete.request";
        handler = method_com_friends_delete_request;
      }
      ∷ record { name = codes "com.friends.add.request"; handler = method_com_friends_add_request }
      ∷ record {
        name = codes "com.friends.info.request";
        handler = method_com_friends_info_request;
      }
      ∷ record { name = codes "com.heartbeat.request"; handler = method_com_heartbeat_request }
      ∷ record { name = codes "com.register.request"; handler = method_com_register_request }
      ∷ record {
        name = codes "com.user.changeinfo.request";
        handler = method_com_user_changeinfo_request;
      }
      ∷ record { name = codes "com.user.info.request"; handler = method_com_user_info_request }
      ∷ record {
        name = codes "com.user.password.request";
        handler = method_com_user_password_request;
      }
      ∷ record {
        name = codes "com.message.recv.respond";
        handler = method_com_message_recv_respond;
      }
      ∷ []

  unfoldable pub put_methods : List Method → ℕ → p.Map → p.Map
  put_methods [] i m = m
  put_methods (x ∷ xs) i m = put_methods xs (i + 1) (put_or_keep m x.name i)

  unfoldable pub init_methods_maps : M (Unit {0})
  unfolding put_methods
  init_methods_maps sv = some (tt, record sv { methods_map = put_methods methods 0 sv.methods_map })

  unfoldable pub call_method : ℕ → p.Json → Bytes → M ℤ
  call_method c json method = do
    sv ← get
    elim (p.hashmap_get sv.methods_map method) [
      | none ↦ do respond_method_not_found c; pure (negsuc 0)
      | some i ↦ do m ← deref (get_elem? methods i); m.handler c json
    ]

  unfoldable pub dispatch_packet : ℕ → Bytes → M ℤ
  dispatch_packet c payload = elim (p.json_loadb payload) [
    | none ↦ pure (negsuc 0)
    | some json ↦ elim (field json (codes "method")) [
      | none ↦ pure (negsuc 0)
      | some method ↦ call_method c json method
    ]
  ]
