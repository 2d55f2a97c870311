-- ===== src/Client.antt =====
-- client.c: the command-line client. `ClientStruct` is its `struct client_struct`, with what it reads
-- from the socket and from the terminal, and what it has written to the socket. Arrays that the
-- code fills by parts are all their bytes; texts are what stands before the NUL.
pub mod Packets
pub mod Requests
pub mod Login
pub mod Loop
pub mod Fetch
pub mod Served
pub mod Digest
pub mod Seeded
pub mod Ends
pub mod Reads
pub mod Delivered
pub mod Marked
use geekchatserver.Prelude.{
  ℕ, zero, suc, ◌+◌, ◌-◌, ◌*◌, ◌/◌, ◌%◌, ◌^◌, ◌≤◌, ◌<◌, ◌≡◌, ◌≢◌, ◌↔◌, ◌⊎◌, inl, inr, refl, sym, ap,
  ap₂, ◌∙◌, ◌≡⟨◌⟩◌, ◌∎, subst, fun_ext, List, [], ◌∷◌, ◌++◌, map, append-nil, append_assoc, arith,
  bit_and, bit_xor, ◌>>>◌, bit_and_fifteen, bit_xor_step, bit_xor-lt, bit_and-le, Bytes, same,
  same_self, eq_of_same, String, codes, get_elem?, get_or, length, take, drop, length-append,
  length-take, length-drop, take-append-drop, take-append, drop-append, take_all, take_prefix,
  drop_prefix, drop_all, All, ltb, leb, if◌then◌else◌, ◌&&◌, ◌||◌, not, Bool, true, false, ◌==◌,
  ==_iff, ==_self, ltb→lt, leb→le, le→leb, lt→ltb, ge→ltb, Bool-cases, Option-cases, Option, none,
  some, is_some, ℤ, pos, negsuc, neg, is_neg,
}

-- `sizeof(ct->recv_buffer)` and `sizeof(ct->send_buffer)`.
abbrev pub packet_buffer_size : ℕ
packet_buffer_size = 4096

pub record ClientStruct : Type 0 where
  pub password : Bytes
  pub username : Bytes
  pub token : Bytes
  pub thread_loop : Bool
  pub recv_offset : ℤ
  pub recv_buffer : Bytes
  pub send_buffer : Bytes
  -- What the coming calls of `read` find, NULL for a failure; when nothing is left, the connection is
  -- closed.
  pub reads : List (Option Bytes)
  -- The words that the coming calls of `scanf` find.
  pub words : List Bytes
  -- What was written to the socket, the last one first.
  pub written : List Bytes

-- A command of the client; `none` is a read or a write outside of an array or of freed memory.
abbrev pub C : Type 0 → Type 0
C A = ClientStruct → Option (A × ClientStruct)

abbrev pub pure : {A : Type 0} → A → C A
pure a ct = some (a, ct)

abbrev pub fault : {A : Type 0} → C A
fault ct = none

infixl 5 ◌>>=◌ ◌>>◌
abbrev pub ◌>>=◌ : {A B : Type 0} → C A → (A → C B) → C B
◌>>=◌ m f ct = elim (m ct) [ none ↦ none | some (a, ct') ↦ f a ct' ]

abbrev pub ◌>>◌ : {A B : Type 0} → C A → C B → C B
◌>>◌ m n = m >>= λ _. n

abbrev pub get : C ClientStruct
get ct = some (ct, ct)

abbrev pub modify : (ClientStruct → ClientStruct) → C (Unit {0})
modify f ct = some (tt, f ct)

-- `read(ct->fd, ct->recv_buffer, sizeof(ct->recv_buffer))`.
unfoldable pub read_socket : C (Option Bytes)
read_socket ct = elim ct.reads [
  | [] ↦ some (some [], ct)
  | none ∷ rest ↦ some (none, record ct { reads = rest })
  | some bytes ∷ rest ↦ some (some (take packet_buffer_size bytes), record ct { reads = rest })
]

-- `scanf("%s", …)` into an array of `size` bytes; a word that does not fit runs over its end.
unfoldable pub scan_word : ℕ → C Bytes
scan_word size ct = elim ct.words [
  | [] ↦ none
  | word ∷ rest ↦ if ltb (length word) size then some (word, record ct { words = rest }) else none
]

-- Bytes laid over the start of an array.
abbrev pub overwrite : Bytes → Bytes → Bytes
overwrite bytes buffer = bytes ++ drop (length bytes) buffer

-- `ct->recv_offset += n` and `ct->recv_offset -= n`.
unfoldable pub add_size : ℤ → ℕ → ℤ
add_size (pos m) n = pos (m + n)
add_size (negsuc m) n = if leb n m then negsuc (m - n) else pos (n - suc m)

unfoldable pub sub_size : ℤ → ℕ → ℤ
sub_size (pos m) n = if leb n m then pos (m - n) else negsuc (n - suc m)
sub_size (negsuc m) n = negsuc (m + n)
