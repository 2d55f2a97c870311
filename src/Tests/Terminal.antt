-- ===== src/Tests/Terminal.antt =====
-- The client at concrete states: packets that it reads, requests that it sends, and its login.
use geekchatserver.Prelude.{
  ℕ, zero, suc, ◌+◌, ◌-◌, ◌≤◌, ◌≡◌, refl, List, [], ◌∷◌, ◌++◌, arith, Bytes, same, codes, length,
  take, length-append, true, Option, none, some, is_some, ℤ, pos, negsuc,
}
use geekchatserver.Platform.{Platform}
use geekchatserver.State.{User, Server, update}
use geekchatserver.Framing.{raw_packet, next_frame, packet, not_a_packet}
use geekchatserver.Crc.{crc32_classic}
use geekchatserver.Methods.Field.{field}
use geekchatserver.Methods.Login.{check_login, accept_login, fixed}
use geekchatserver.Packet.Dispatch.{dispatch_packet, init_methods_maps}
use geekchatserver.Packet.Respond.{zeros}
use geekchatserver.Packet.Wire.{wire, text_of}
use geekchatserver.Packet.Table.{HasRoom}
use geekchatserver.Mysql.Connection.{init_mysql}
use geekchatserver.Tokens.Pool.{init_random_pool}
use geekchatserver.Server.Main.{
  blank, init_timer, init_token, init_users_map, init_memory, init_server, Reach, booted,
}
use geekchatserver.Client.{ClientStruct, packet_buffer_size, read_socket, add_size}
use geekchatserver.Client.Packets.{send_json_object, recv_buffer, fetch_json}
use geekchatserver.Client.Requests.{recv_respond, logout_request}
use geekchatserver.Client.Login.{login_crypto}
use geekchatserver.Client.Loop.{message_of, recv_message, fetch_loop}
use geekchatserver.Client.Fetch.{Holds, fetch_json-packet, fetch_json-waits}
use geekchatserver.Client.Ends.{recv_message_ends}
use geekchatserver.Client.Reads.{recv_buffer_overwrites, recv_message_acknowledges}
use geekchatserver.Client.Digest.{login_crypto-accepted}
use geekchatserver.Client.Served.{request_served, request_json, request_handler, logout, KeepsTexts}
use geekchatserver.Tests.Toy.{toy, Json, text, object, entry, end}
use geekchatserver.Tests.States.{start, some_user}

-- A platform on which every text parses to one JSON, and every JSON is written as the empty text.
unfoldable pub talking : Json → Platform
unfolding toy
talking json = record toy { json_loadb = λ bytes. some json }

-- A client that has received some bytes.
abbrev pub client_with : Bytes → List (Option Bytes) → ClientStruct
client_with stream reads = record {
  password = fixed 32 (codes "root");
  username = codes "root";
  token = codes "T";
  thread_loop = true;
  recv_offset = pos (length stream);
  recv_buffer = stream ++ zeros (packet_buffer_size - length stream);
  send_buffer = zeros packet_buffer_size;
  reads = reads;
  words = [];
  written = [];
}

length-zeros : (n : ℕ) → length (zeros n) ≡ n
unfolding zeros
length-zeros zero = refl
length-zeros (suc n) = omega (arith, length-zeros n)

pub client_with-Holds :
    (stream : Bytes) (reads : List (Option Bytes))
    → length stream ≤ packet_buffer_size
    → Holds stream (client_with stream reads)
client_with-Holds stream reads h = record {
  behind = zeros (packet_buffer_size - length stream);
  bytes = refl;
  offset = refl;
  size = omega (
    arith,
    length-append stream (zeros (packet_buffer_size - length stream)),
    length-zeros (packet_buffer_size - length stream),
  );
}

-- A packet, and three bytes of the next one.
abbrev stream : Bytes
stream = raw_packet 1 (codes "x") ++ codes "abc"

has_packet : next_frame stream ≡ packet (codes "x") (codes "abc")
unfolding next_frame raw_packet crc32_classic
has_packet = refl

stream_fits : length stream ≤ packet_buffer_size
unfolding raw_packet
stream_fits = omega arith

abbrev parsed_x : toy.Json
unfolding toy
parsed_x = object (entry (codes "method") (text (codes "x")) end)

loads_x : toy.json_loadb (codes "x") ≡ some parsed_x
unfolding toy
loads_x = refl

fetch_json-packet_example :
    (ct' : ClientStruct) × (fetch_json (client_with stream []) ≡ some ((pos 0, some parsed_x), ct'))
    × Holds (codes "abc") ct'
    × (ct'.token ≡ codes "T")
    × (ct'.written ≡ [])
fetch_json-packet_example =
    fetch_json-packet (client_with stream []) stream (codes "x") (codes "abc") parsed_x
      (client_with-Holds stream [] stream_fits) has_packet loads_x

waits_abc : next_frame (codes "abc") ≡ not_a_packet
unfolding next_frame
waits_abc = refl

fetch_json-waits_example :
    fetch_json (client_with (codes "abc") [])
    ≡ some ((negsuc 0, none), client_with (codes "abc") [])
fetch_json-waits_example =
    fetch_json-waits (client_with (codes "abc") []) (codes "abc")
      (client_with-Holds (codes "abc") [] (omega arith)) waits_abc

recv_buffer_overwrites_example :
    (ct' : ClientStruct) × (recv_buffer (client_with (codes "abc") (some (codes "de") ∷ []))
      ≡ some (pos 2, ct'))
    × (take 2 ct'.recv_buffer ≡ codes "de")
    × (ct'.recv_offset ≡ pos (3 + 2))
recv_buffer_overwrites_example =
    recv_buffer_overwrites (codes "abc") (client_with (codes "abc") (some (codes "de") ∷ []))
      (codes "de") [] (client_with-Holds (codes "abc") (some (codes "de") ∷ []) (omega arith)) refl
      (omega arith)

-- A message, as JSON.
abbrev message_json : Json
message_json = object (
    entry (codes "from") (text (codes "lisi"))
      (entry (codes "message") (text (codes "hi")) (entry (codes "uuid") (text (codes "7")) end)))

abbrev terminal : Platform
terminal = talking message_json

abbrev said : terminal.Json
unfolding talking toy
said = message_json

message_parts : message_of ⦃p = terminal⦄ said ≡ some (codes "lisi", codes "hi", codes "7")
unfolding talking toy message_of field same
message_parts = refl

message_loads : terminal.json_loadb (text_of ⦃p = terminal⦄ said) ≡ some said
unfolding talking toy
message_loads = refl

size_zero : (j : terminal.Json) → (terminal.json_dumpb j 4088).0 ≤ 4088
unfolding talking toy
size_zero j = omega arith

abbrev reads_message : List (Option Bytes)
reads_message = some (wire ⦃p = terminal⦄ said) ∷ []

abbrev listening : ClientStruct
listening = client_with [] reads_message

recv_message_acknowledges_example :
    (ct' : ClientStruct) × (recv_message ⦃p = terminal⦄ listening ≡ some (some (pos 0), ct'))
    × (ct'.written ≡ wire ⦃p = terminal⦄ (recv_respond ⦃p = terminal⦄ (codes "7") (codes "T")) ∷ [])
    × Holds [] ct'
recv_message_acknowledges_example =
    recv_message_acknowledges ⦃p = terminal⦄ listening said (codes "lisi") (codes "hi") (codes "7")
      [] (client_with-Holds [] reads_message (omega arith)) refl (size_zero said) message_loads
      message_parts (size_zero (recv_respond ⦃p = terminal⦄ (codes "7") (codes "T")))

abbrev result_of : Option (Option ℤ × ClientStruct) → Option ℤ
result_of none = none
result_of (some (r, ct)) = r

abbrev client_after : Option (Option ℤ × ClientStruct) → ClientStruct
client_after none = listening
client_after (some (r, ct)) = ct

-- The connection was closed.
abbrev closed : ClientStruct
closed = client_with (codes "abc") []

closed_run :
    recv_message closed ≡ some (result_of (recv_message closed), client_after (recv_message closed))
unfolding toy recv_message recv_buffer read_socket add_size fetch_loop fetch_json
closed_run = refl

recv_message_ends_example : is_some (result_of (recv_message closed)) ≡ true
recv_message_ends_example =
    recv_message_ends closed (result_of (recv_message closed)) (client_after (recv_message closed))
      closed_run

-- The user "root" was given a seed, and the client has its password.
abbrev seeded_user : User
seeded_user = record some_user {
  seed = codes "0123456789ABCDEF0123456789ABCDEF";
  is_seed_existed = true;
}

abbrev seeded : Server
seeded = record start { users = update (λ b. none) 2 (some seeded_user) }

login_crypto-accepted_example :
    check_login 1 2 (login_crypto seeded_user.seed (fixed 32 (codes "root"))) seeded
    ≡ accept_login 1 2 seeded
login_crypto-accepted_example =
    login_crypto-accepted 1 2 seeded seeded_user (fixed 32 (codes "root")) refl refl refl refl refl

-- A platform on which every text parses to the client's request to log out.
abbrev request_fields : Json
request_fields = object (
    entry (codes "token") (text (codes "T"))
      (entry (codes "method") (text (codes "com.logout.bytoken.request")) end))

abbrev office : Platform
office = talking request_fields

request_loads :
    office.json_loadb (text_of ⦃p = office⦄ (request_json ⦃p = office⦄ (logout (codes "T"))))
    ≡ some (request_json ⦃p = office⦄ (logout (codes "T")))
unfolding talking toy request_json logout_request
request_loads = refl

request_small : (office.json_dumpb (request_json ⦃p = office⦄ (logout (codes "T"))) 4088).0 ≤ 4088
unfolding talking toy
request_small = omega arith

keeps_texts : KeepsTexts ⦃p = office⦄
unfolding talking toy
keeps_texts t = refl

has_room : HasRoom ⦃p = office⦄
unfolding talking toy
has_room m k v = ((k, v) ∷ m, refl)

abbrev link : office.Conn
unfolding talking toy
link = (0, [])

abbrev pool : office.Rand
unfolding talking toy
pool = 0

abbrev state_after : Option (ℤ × Server ⦃p = office⦄) → Server ⦃p = office⦄
state_after none = blank ⦃p = office⦄ link pool
state_after (some (x, sv)) = sv

abbrev opened : Server ⦃p = office⦄
opened = state_after (init_server ⦃p = office⦄ (blank ⦃p = office⦄ link pool))

opened_reached : Reach ⦃p = office⦄ link pool opened
unfolding talking toy init_memory init_mysql init_random_pool init_server blank init_timer
    init_token init_users_map init_methods_maps
opened_reached = booted opened (pos 0) refl refl

abbrev asked : office.Json
asked = request_json ⦃p = office⦄ (logout (codes "T"))

request_served_example :
    (ct' : ClientStruct) × (send_json_object ⦃p = office⦄ asked listening ≡ some (tt, ct'))
    × (ct'.written ≡ wire ⦃p = office⦄ asked ∷ [])
    × (next_frame (wire ⦃p = office⦄ asked) ≡ packet (text_of ⦃p = office⦄ asked) [])
    × (dispatch_packet ⦃p = office⦄ 1 (text_of ⦃p = office⦄ asked) opened
        ≡ request_handler ⦃p = office⦄ (logout (codes "T")) 1 asked opened)
request_served_example =
    request_served ⦃p = office⦄ link pool opened opened_reached has_room keeps_texts
      (logout (codes "T")) 1 listening request_small request_loads
