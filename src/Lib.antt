-- ===== src/Lib.antt =====
-- geekchatserver: a chat server in C. Clients connect over TCP and send packets, a head with a CRC
-- and a JSON text each; the text names a method, whose handler reads and changes the users, the
-- tokens and the friends, asks the database, and answers in a packet of the same form. Users that
-- are logged in are told their unread messages by a timer of their connection.
--
-- Parts, and the files that model them:
--   Prelude    shared names, Boolean tests, lists over the native numbers, bits, the exclusive or
--              (Xor, Swap), signed codes
--   Hex        hex.h: hex_to_ascii. Hex/Decode: a decoder to compare it with
--   Crc        crc32/crc32.c, crc32/crc32.h: the table, crc32, crc32_classic. Detect: their range;
--              Errors: the checksums of bytes that differ; Reference: CRC-32 by single bits
--   Framing    packet.h, packet.c, server.c: the head of a packet, its bytes, and one round of
--              try_make_net_packet on bytes. Cut: what decides a round; Chunks: the stream
--              parser; Roundtrip: what a sender wrote is cut out again; Bounds: how long the
--              rest of a buffer is; Damage: packets that have changed on the way
--   Timer      timer.c: the list of timers. Order: what each operation keeps; Due: how many timers
--              are due; Valid: a valid list, and what each operation does to the number of those;
--              Linked: which timers each operation links
--   Platform   what is not code of the repository: the maps of c_hashmap, the JSON of jansson, the
--              calls of the MySQL client, SHA-256, random bytes and malloc, each with the documented
--              behaviour that the code relies on
--   State      server.h, users.h, friends.h, server_configs.h: the state and the monad of operations.
--              State/Bind: how a run decomposes
--   Mysql      mysql_connector.c: the retry loops of mysql_real_query_result and of
--              mysql_real_query_affected. Mysql/Retry: what they do; Connection: init_mysql,
--              mysql_test_connection, exit_mysql
--   Friends    friends.c: Cache (free_friends), Load (the rest), Refresh (freeing twice),
--              Loaded (the names that are loaded and listed)
--   Messages   messages.c: Looper (the timer of a connection), Deliver (unread messages); Known
--              and Order: senders that are in memory, and the order of the messages
--   Users      users.c: Refs (counts, binding), Load (get_user_by_name, expiry); Frame and
--              Unchanged: which operations leave the account of a user as it was; Expiry: what the
--              timer of a user frees; Rebind: a client that is bound again
--   Tokens     tokens.c, random_pool.c: Registry (the map), Auth (allocation and lookup), Pool (the
--              start and the end of random_pool.c), Lookup (what a registered token stands for)
--   Packet     packet.c: Respond (answers), Dispatch (call_method, dispatch_packet, the table of
--              methods/methods.h), Table (which handler a name leads to), Wire (answers as bytes)
--   Methods    methods/*.c: a module for each handler; Stubs has those that only acknowledge.
--              Login/Security: who can log in; Logout/Offline: what a logout changes
--   Server     server.c: Clients (accept_new_client, free_client_socket), Receive
--              (try_make_net_packet, client_socket), Loop (handle_timer_list, the loop of main),
--              Main (the start of main, and the states it reaches); Stream: the packets that a
--              connection dispatches; Reading: what a read leaves behind; Accepting: what an
--              accepted connection adds; Names: the names of descriptors; Damage: packets that
--              have changed on the way; Stale: the end of an old connection of a user
--   Invariant  what every action of the server keeps: Rules, Leads, Stable and Bears for the
--              commands, then Users, Messages, Tokens, Methods, Opening and Events for the
--              functions of those parts; Answers: what is sent while a request is handled, by its
--              method (Session, Talk), by call_method (Requests; Unknown where it finds none) and
--              by an event (Events);
--              Consistent: the invariant of the server, with its parts in Owned (timers of
--              clients), Named (the map of clients) and Sound (a client by itself); Release,
--              Accepting and Rounds: the end and the start of a client, and the loop;
--              Firing: the walk of the timers; Idle: a client that is due; Reach: the states that
--              the server reaches
--   Client     client.c: the state and the monad of the client; Packets (send_json_object,
--              recv_json_object, recv_buffer, fetch_json), Requests (the requests and the menu),
--              Login (login_to_server), Loop (recv_message, the loop of main); Fetch: fetch_json and
--              the server's next_frame; Ends: the loop of recv_message; Reads: what a read does;
--              Digest: the digest of a login; Served: what the server does with a request;
--              Delivered: a message and its acknowledgement; Marked: the statement that the
--              database is asked for then;
--              Seeded: from a seed to the login that answers it
--   Tests      concrete packets (Wire), a platform that runs (Toy), states of the server (States)
--              and its runs (Session, Answers, Running, Requests, Damage, Posted), and the client
--              (Terminal, Delivery)
--
-- The model. An operation is a function from the state of the server to a result and a state, or to
-- `none` for a fault: a use of freed or missing memory, a second free, a removal of a timer that
-- is not linked, or the linking of one that is. Clients and users live at addresses, and a pointer
-- is an address, so that a client and its user may point at each other, and at memory that is
-- freed. Errors that the code returns are values. A struct that embeds a timer is the owner of it,
-- and the list holds owners. To read memory that was never written is a fault, as at a slot of the
-- friends that has no terminator. Integers of 16 and 32 bits have their wrap-around written out and
-- are little-endian; the integers that the code counts in, file descriptors and times are unbounded.
--
-- Bounds and fuel. try_make_net_packet has fuel for 4097 packets: the buffer of a client holds 4096
-- bytes and each packet takes 8 at least. The loop over the timers has a round more than timers are
-- linked, and a loop over a query as many as retries are left (2 after the first).
--
-- The client is a model of its own, over a script of what its socket and its terminal give; a write or
-- a read outside of an array is a fault there. The loop of recv_message has a round more than bytes
-- are counted in the buffer.
--
-- Not modelled: mysql_test.c and the log in mlog.c; the set-up of sockets and of epoll, which is
-- input and output; the text of log lines; json_string for a text that is not UTF-8, except for the
-- names in the list of friends, where it leaves the name out; the third-party copies c_hashmap,
-- jansson, crypto and list, whose calls are parameters or, for the list, sequences. Queries are
-- texts: what the database makes of them is a parameter.
pub mod Prelude
pub mod Hex
pub mod Crc
pub mod Framing
pub mod Timer
pub mod Platform
pub mod State
pub mod Mysql
pub mod Friends
pub mod Messages
pub mod Users
pub mod Tokens
pub mod Packet
pub mod Methods
pub mod Server
pub mod Invariant
pub mod Client
pub mod Tests
