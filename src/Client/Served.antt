-- ===== src/Client/Served.antt =====
-- client.c, packet.c, methods/methods.h: what the server does with the requests of the client.
use geekchatserver.Prelude.{
  ℕ, ◌≡◌, refl, ◌∙◌, [], ◌∷◌, Bytes, same, same_self, codes, get_elem?, length, drop, false, some,
  ℤ,
}
use geekchatserver.Platform.{Platform}
use geekchatserver.State.{Server, M}
use geekchatserver.Framing.{head_size, next_frame, packet, raw_packet_buffer_max}
use geekchatserver.Methods.Field.{field}
use geekchatserver.Methods.Login.{method_com_login_request}
use geekchatserver.Methods.LoginSeed.{method_com_login_seed_request}
use geekchatserver.Methods.SendTo.{method_com_message_sendto_request}
use geekchatserver.Methods.Logout.{method_com_logout_bytoken_request}
use geekchatserver.Methods.RecvRespond.{method_com_message_recv_respond}
use geekchatserver.Methods.Register.{method_com_register_request}
use geekchatserver.Methods.FriendsAdd.{method_com_friends_add_request}
use geekchatserver.Methods.FriendsList.{method_com_friends_list_request}
use geekchatserver.Packet.Dispatch.{methods, call_method, dispatch_packet}
use geekchatserver.Packet.Table.{HasRoom}
use geekchatserver.Packet.Wire.{Fits, text_of, wire, wire-next_frame, packet_text, leb_fits}
use geekchatserver.Server.Main.{Reach}
use geekchatserver.Invariant.Reach.{reached_handler}
use geekchatserver.Client.{ClientStruct, overwrite}
use geekchatserver.Client.Packets.{send_json_object}
use geekchatserver.Client.Requests.{
  seed_request, login_request, sendto_request, logout_request, friends_add_request,
  register_request, friends_list_request, recv_respond,
}

-- What the client can ask for, with the texts that go with it.
pub data Request : Type 0 where
  seed : Bytes → Request
  login : Bytes → Bytes → Request
  sendto : Bytes → Bytes → Bytes → Request
  logout : Bytes → Request
  friends_add : Bytes → Bytes → Request
  register : Bytes → Bytes → Request
  friends_list : Bytes → Request
  acknowledgement : Bytes → Bytes → Request

module _ ⦃p : Platform⦄ where
  -- The JSON that the client builds, and the handler that is meant to get it.
  unfoldable pub request_json : Request → p.Json
  request_json (seed username) = seed_request username
  request_json (login crypto username) = login_request crypto username
  request_json (sendto message token to) = sendto_request message token to
  request_json (logout token) = logout_request token
  request_json (friends_add token friend) = friends_add_request token friend
  request_json (register username password) = register_request username password
  request_json (friends_list token) = friends_list_request token
  request_json (acknowledgement uuid token) = recv_respond uuid token

  unfoldable pub request_handler : Request → ℕ → p.Json → M ℤ
  request_handler (seed username) = method_com_login_seed_request
  request_handler (login crypto username) = method_com_login_request
  request_handler (sendto message token to) = method_com_message_sendto_request
  request_handler (logout token) = method_com_logout_bytoken_request
  request_handler (friends_add token friend) = method_com_friends_add_request
  request_handler (register username password) = method_com_register_request
  request_handler (friends_list token) = method_com_friends_list_request
  request_handler (acknowledgement uuid token) = method_com_message_recv_respond

  -- The value of a JSON text is the text.
  abbrev pub KeepsTexts : Type 0
  KeepsTexts = (t : Bytes) → p.json_string_value (p.json_string t) ≡ some t

  -- Where a request stands in the table, and the name that it carries.
  record Listed (r : Request) : Type 0 where
    place : ℕ
    name : Bytes
    listed : get_elem? methods place ≡ some (record { name = name; handler = request_handler r })
    named : field (request_json r) (codes "method") ≡ some name

  abbrev method_key : Bytes
  method_key = codes "method"

  pub other :
      (o v : p.Json) (k j : Bytes)
      → same k j ≡ false
      → field (p.json_object_set_new o k v) j ≡ field o j
  unfolding field
  other o v k j e = rw (field, p.get_set_new o v k j, e) refl

  pub here :
      KeepsTexts
      → (o : p.Json) (k t : Bytes) → field (p.json_object_set_new o k (p.json_string t)) k ≡ some t
  unfolding field
  here texts o k t = rw (field, p.get_set_new o (p.json_string t) k k, same_self k) (texts t)

  listed : KeepsTexts → (r : Request) → Listed r
  unfolding methods request_json request_handler same seed_request login_request sendto_request
      logout_request friends_add_request register_request friends_list_request recv_respond
  listed texts (seed username) = record {
    place = 1;
    name = codes "com.login.seed.request";
    listed = refl;
    named = other _ _ _ method_key refl ∙ here texts _ method_key _;
  }
  listed texts (login crypto username) = record {
    place = 2;
    name = codes "com.login.request";
    listed = refl;
    named = other _ _ _ method_key refl ∙ other _ _ _ method_key refl ∙ here texts _ method_key _;
  }
  listed texts (sendto message token to) = record {
    place = 3;
    name = codes "com.message.sendto.request";
    listed = refl;
    named =
        other _ _ _ method_key refl
        ∙ other _ _ _ method_key refl
        ∙ other _ _ _ method_key refl
        ∙ here texts _ method_key _;
  }
  listed texts (logout token) = record {
    place = 5;
    name = codes "com.logout.bytoken.request";
    listed = refl;
    named = other _ _ _ method_key refl ∙ here texts _ method_key _;
  }
  listed texts (friends_add token friend) = record {
    place = 7;
    name = codes "com.friends.add.request";
    listed = refl;
    named = other _ _ _ method_key refl ∙ other _ _ _ method_key refl ∙ here texts _ method_key _;
  }
  listed texts (register username password) = record {
    place = 10;
    name = codes "com.register.request";
    listed = refl;
    named = other _ _ _ method_key refl ∙ other _ _ _ method_key refl ∙ here texts _ method_key _;
  }
  listed texts (friends_list token) = record {
    place = 4;
    name = codes "com.friends.list.request";
    listed = refl;
    named = other _ _ _ method_key refl ∙ here texts _ method_key _;
  }
  listed texts (acknowledgement uuid token) = record {
    place = 14;
    name = codes "com.message.recv.respond";
    listed = refl;
    named =
        other _ _ _ method_key refl
        ∙ other _ _ _ method_key refl
        ∙ other _ _ _ method_key refl
        ∙ here texts _ method_key _;
  }

  pub sent_run :
      (json : p.Json) (ct : ClientStruct)
      → Fits json
      → send_json_object json ct
        ≡ some (
          tt,
          record ct {
            send_buffer = overwrite (wire json) ct.send_buffer;
            written = wire json ∷ ct.written;
          },
        )
  unfolding send_json_object
  sent_run json ct fits =
      let (n, text) = p.json_dumpb json raw_packet_buffer_max in
      rw
        (
          leb_fits n fits,
          packet_text n text (drop (length text) (drop head_size ct.send_buffer))
              (p.dumpb_fits json raw_packet_buffer_max fits) fits,
        )
        refl

  dispatch_run :
      (c : ℕ) (json : p.Json) (name payload : Bytes) (sv : Server)
      → p.json_loadb payload ≡ some json
      → field json (codes "method") ≡ some name
      → dispatch_packet c payload sv ≡ call_method c json name sv
  unfolding dispatch_packet
  dispatch_run c json name payload sv loads named = rw (dispatch_packet, loads, named) refl

  -- A request of the client, in a server that has been started and has run for any number of rounds:
  -- where its text fits a packet and parses to itself, JSON texts are kept, and the map of the methods
  -- had memory, the client writes one packet, which the server cuts out whole, and dispatching it
  -- runs the handler that is meant for the request.
  pub request_served :
      (mysql : p.Conn) (random : p.Rand) (sv : Server)
      → Reach mysql random sv
      → HasRoom
      → KeepsTexts
      → (r : Request) (c : ℕ) (ct : ClientStruct) → Fits (request_json r)
      → p.json_loadb (text_of (request_json r)) ≡ some (request_json r)
      → (ct' : ClientStruct) × (send_json_object (request_json r) ct ≡ some (tt, ct'))
        × (ct'.written ≡ wire (request_json r) ∷ ct.written)
        × (next_frame (wire (request_json r)) ≡ packet (text_of (request_json r)) [])
        × (dispatch_packet c (text_of (request_json r)) sv
            ≡ request_handler r c (request_json r) sv)
  request_served mysql random sv reach room texts r c ct fits loads =
      let json = request_json r in
      let at = listed texts r in
      (
        record ct {
          send_buffer = overwrite (wire json) ct.send_buffer;
          written = wire json ∷ ct.written;
        },
        sent_run json ct fits,
        refl,
        wire-next_frame json fits,
        dispatch_run c json at.name (text_of json) sv loads at.named
            ∙ reached_handler mysql random sv reach room at.place
                (record { name = at.name; handler = request_handler r }) c json at.listed,
      )
