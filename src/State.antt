-- ===== src/State.antt =====
-- server.h, users.h, friends.h, server_configs.h: the state of the server, with the heaps of users
-- and clients, and commands over it. `none` is a fault: a NULL or dangling pointer is followed,
-- memory is freed twice, a buffer is overrun, or the timer list is misused. Addresses are numbers.
-- `sent` is what was written to sockets, newest first.
pub mod Bind
use geekchatserver.Prelude.{
  ℕ, zero, suc, ◌+◌, ◌-◌, ◌*◌, ◌/◌, ◌%◌, ◌^◌, ◌≤◌, ◌<◌, ◌≡◌, ◌≢◌, ◌↔◌, ◌⊎◌, inl, inr, refl, sym, ap,
  ap₂, ◌∙◌, ◌≡⟨◌⟩◌, ◌∎, subst, fun_ext, List, [], ◌∷◌, ◌++◌, map, append-nil, append_assoc, arith,
  bit_and, bit_xor, ◌>>>◌, bit_and_fifteen, bit_xor_step, bit_xor-lt, bit_and-le, Bytes, same,
  same_self, eq_of_same, String, codes, get_elem?, get_or, length, take, drop, length-append,
  length-take, length-drop, take-append-drop, take-append, drop-append, take_all, take_prefix,
  drop_prefix, drop_all, All, ltb, leb, if◌then◌else◌, ◌&&◌, ◌||◌, not, Bool, true, false, ◌==◌,
  ==_iff, ==_self, ltb→lt, leb→le, lt→ltb, ge→ltb, Bool-cases, Option-cases, Option, none, some,
  is_some, ℤ, pos, negsuc, neg, is_neg,
}
use geekchatserver.Platform.{Platform, Row}
use geekchatserver.Timer.{TimersList}

-- A `unsigned char *` that is NULL, points to the names of the friends, or was freed.
pub data Buffer : Type 0 where
  null : Buffer
  live : List Bytes → Buffer
  dangling : Buffer

pub record Friends : Type 0 where
  pub is_inited : Bool
  pub num_of_friends : ℕ
  pub buffer : Buffer

pub record User : Type 0 where
  pub token : Bytes
  pub seed : Bytes
  pub username : Bytes
  pub password : Bytes
  pub is_online : Bool
  pub use_cnt : ℤ
  pub is_seed_existed : Bool
  pub client : Option ℕ
  pub friends : Friends

-- `buffer_offset` is the length of `buffer`; `looper` says whether `looper.sv` was set.
pub record Client : Type 0 where
  pub fd : ℕ
  pub name : Bytes
  pub usr : Option ℕ
  pub looper : Bool
  pub buffer : Bytes

abbrev pub server_token_lens : ℕ
server_token_lens = 32

abbrev pub server_seed_lens : ℕ
server_seed_lens = 32

abbrev pub server_uuid_lens : ℕ
server_uuid_lens = 32

abbrev pub sha256_lens : ℕ
sha256_lens = 32

abbrev pub server_username_lens : ℕ
server_username_lens = 20

abbrev pub server_password_lens : ℕ
server_password_lens = sha256_lens

abbrev pub server_client_unused_timeout : ℕ
server_client_unused_timeout = 30 * 60

abbrev pub server_user_unused_timeout : ℕ
server_user_unused_timeout = 2 * 60

module _ ⦃p : Platform⦄ where
  open p use {Map, Conn, Rand}

  pub record Server : Type 0 where
    pub users : ℕ → Option User
    pub clients : ℕ → Option Client
    pub mallocs : ℕ
    pub clients_map : Map
    pub methods_map : Map
    pub users_map : Map
    pub tokens_map : Map
    pub timers_list : TimersList
    pub mysql : Conn
    pub random : Rand
    pub now : ℕ
    pub sent : List (ℕ × Bytes)

  abbrev pub M : Type 0 → Type 0
  M A = Server → Option (A × Server)

  abbrev pub pure : {A : Type 0} → A → M A
  pure a sv = some (a, sv)

  abbrev pub fault : {A : Type 0} → M A
  fault sv = none

  infixl 5 ◌>>=◌ ◌>>◌
  abbrev pub ◌>>=◌ : {A B : Type 0} → M A → (A → M B) → M B
  ◌>>=◌ m f sv = elim (m sv) [ none ↦ none | some (a, sv') ↦ f a sv' ]

  abbrev pub ◌>>◌ : {B : Type 0} → M (Unit {0}) → M B → M B
  m >> k = m >>= λ _. k

  abbrev pub get : M Server
  get sv = some (sv, sv)

  -- A pointer that is followed must not be NULL.
  abbrev pub deref : {A : Type 0} → Option A → M A
  deref none = fault
  deref (some a) = pure a

  abbrev pub when : Bool → M (Unit {0}) → M (Unit {0})
  when b m = if b then m else pure tt

  abbrev pub update {ℓ} : {A : Type ℓ} → (ℕ → Option A) → ℕ → Option A → ℕ → Option A
  update h a v b = if a == b then v else h b

  abbrev pub user_at : ℕ → M User
  user_at a sv = elim (sv.users a) [ none ↦ none | some u ↦ some (u, sv) ]

  abbrev pub client_at : ℕ → M Client
  client_at a sv = elim (sv.clients a) [ none ↦ none | some c ↦ some (c, sv) ]

  abbrev pub set_user : ℕ → Option User → M (Unit {0})
  set_user a u sv = some (tt, record sv { users = update sv.users a u })

  abbrev pub set_client : ℕ → Option Client → M (Unit {0})
  set_client a c sv = some (tt, record sv { clients = update sv.clients a c })

  -- `usr->field = …`: the other fields stay what they are at that moment.
  abbrev pub edit_user : ℕ → (User → User) → M (Unit {0})
  edit_user a f sv = elim (sv.users a) [
    | none ↦ none
    | some u ↦ some (tt, record sv { users = update sv.users a (some (f u)) })
  ]

  abbrev pub edit_client : ℕ → (Client → Client) → M (Unit {0})
  edit_client c f sv = elim (sv.clients c) [
    | none ↦ none
    | some ct ↦ some (tt, record sv { clients = update sv.clients c (some (f ct)) })
  ]

  abbrev pub set_users_map : Map → M (Unit {0})
  set_users_map m sv = some (tt, record sv { users_map = m })

  abbrev pub set_tokens_map : Map → M (Unit {0})
  set_tokens_map m sv = some (tt, record sv { tokens_map = m })

  abbrev pub set_clients_map : Map → M (Unit {0})
  set_clients_map m sv = some (tt, record sv { clients_map = m })

  -- The timer functions, on the list of the server; `none` of theirs is a fault.
  abbrev pub with_timers : (ℕ → TimersList → Option TimersList) → M (Unit {0})
  with_timers f sv = elim (f sv.now sv.timers_list) [
    | none ↦ none
    | some ts ↦ some (tt, record sv { timers_list = ts })
  ]

  -- `malloc`: the address of the new memory, or NULL.
  abbrev pub try_malloc : M (Option ℕ)
  try_malloc sv = some (
    if p.malloc sv.mallocs then some sv.mallocs else none,
    record sv { mallocs = sv.mallocs + 1 },
  )

  -- `row[i]` where the code goes on to read the text.
  abbrev pub column : Row → ℕ → M Bytes
  column row i = elim (get_elem? row i) [ none ↦ fault | some text ↦ deref text ]

  -- `write` to a socket; its result is not looked at.
  abbrev pub write_to : ℕ → Bytes → M (Unit {0})
  write_to fd bytes sv = some (tt, record sv { sent = (fd, bytes) ∷ sv.sent })

-- `snprintf(query, size, …)` into a buffer of `size` bytes cuts the text, and so does `strncpy`
-- into a zeroed buffer of one byte more.
abbrev pub snprintf : ℕ → Bytes → Bytes
snprintf size text = take (size - 1) text

abbrev pub strncpy : Bytes → ℕ → Bytes
strncpy src size = take size src

-- `x++` and `x--` on an `int`.
abbrev pub inc : ℤ → ℤ
inc (pos n) = pos (suc n)
inc (negsuc zero) = pos 0
inc (negsuc (suc n)) = negsuc n

abbrev pub dec : ℤ → ℤ
dec (pos zero) = negsuc 0
dec (pos (suc n)) = pos n
dec (negsuc n) = negsuc (suc n)

abbrev pub is_zero : ℤ → Bool
is_zero (pos n) = n == 0
is_zero (negsuc n) = false
