-- ===== src/Client/Fetch.antt =====
-- client.c: what `fetch_json` cuts out of the buffer, compared with `try_make_net_packet` of the server.
use geekchatserver.Prelude.{
  ℕ, ◌-◌, ◌≤◌, ◌<◌, ◌≡◌, refl, sym, ap, ap₂, ◌∙◌, ◌++◌, arith, Bytes, length, take, drop,
  length-append, length-drop, take-append, drop-append, take_prefix, if◌then◌else◌, Bool, le→leb,
  lt→ltb, ge→ltb, none, some, pos, negsuc,
}
use geekchatserver.Platform.{Platform}
use geekchatserver.Client.{packet_buffer_size, ClientStruct, overwrite}
use geekchatserver.Framing.{head_size, next_frame, packet, not_a_packet, crc_error}
use native.Mathlib.Decide.{dec_lt}
use geekchatserver.Framing.Cut.{next_frame_whole, read_head-append, size_of, next_frame-Parts}
use geekchatserver.Client.Packets.{fetch_json, take_json, move_down}

-- The buffer begins with the bytes that were received and not yet taken, and the offset counts them.
pub record Holds (stream : Bytes) (ct : ClientStruct) : Type 0 where
  pub behind : Bytes
  pub bytes : ct.recv_buffer ≡ stream ++ behind
  pub offset : ct.recv_offset ≡ pos (length stream)
  pub size : length ct.recv_buffer ≡ packet_buffer_size

module _ ⦃p : Platform⦄ where
  module _ (ct : ClientStruct) (n : ℕ) (offset : ct.recv_offset ≡ pos n) where
    abbrev claimed : ℕ
    claimed = size_of ct.recv_buffer

    fetch_short : n < head_size → fetch_json ct ≡ some ((negsuc 0, none), ct)
    unfolding fetch_json
    fetch_short h = rw (offset, lt→ltb _ _ h) refl

    fetch_waiting : head_size ≤ n → n < claimed → fetch_json ct ≡ some ((negsuc 0, none), ct)
    unfolding fetch_json
    fetch_waiting h k = rw (offset, ge→ltb _ _ h, lt→ltb _ _ k) refl

    fetch_whole : head_size ≤ n → claimed ≤ n → fetch_json ct ≡ take_json n claimed ct
    unfolding fetch_json
    fetch_whole h k = rw (offset, ge→ltb _ _ h, ge→ltb _ _ k) refl

  -- The client after a packet of `size` bytes was taken out of the first n.
  abbrev pub taken : ClientStruct → ℕ → ℕ → ClientStruct
  taken ct n size = record ct {
    recv_offset = pos (n - size);
    recv_buffer = move_down ct.recv_buffer size (n - size);
  }

  take_json_run :
      (ct : ClientStruct) (n size : ℕ) (json : p.Json)
      → size ≤ n
      → n ≤ packet_buffer_size
      → p.json_loadb (take (size - head_size) (drop head_size ct.recv_buffer)) ≡ some json
      → take_json n size ct ≡ some ((pos 0, some json), taken ct n size)
  unfolding take_json
  take_json_run ct n size json h k parsed =
      rw (le→leb size packet_buffer_size (omega arith), parsed, le→leb n packet_buffer_size k) refl

  taken-Holds :
      (ct : ClientStruct) (stream rest : Bytes) (size : ℕ)
      → Holds stream ct
      → size ≤ length stream
      → drop size stream ≡ rest
      → Holds rest (taken ct (length stream) size)
  taken-Holds ct stream rest size held h cut =
      let count : length stream - size ≡ length rest =
        sym (length-drop size stream) ∙ ap length cut in
      let left : take (length stream - size) (drop size ct.recv_buffer) ≡ rest =
        ap₂ (λ (n : ℕ) (t : Bytes). take n (drop size t)) count held.bytes
        ∙ ap (take (length rest))
            (drop-append size stream held.behind h ∙ ap (λ (t : Bytes). t ++ held.behind) cut)
        ∙ take_prefix rest held.behind in
      let after = drop (length rest) ct.recv_buffer in
      let moved : move_down ct.recv_buffer size (length stream - size) ≡ rest ++ after =
        ap (λ (t : Bytes). overwrite t ct.recv_buffer) left in
      record {
        behind = after;
        bytes = moved;
        offset = ap pos count;
        size =
            ap length moved
            ∙ omega (
              arith,
              length-append rest after,
              length-drop (length rest) ct.recv_buffer,
              count,
              held.size,
              ap length held.bytes,
              length-append stream held.behind,
            );
      }

  Holds-fits :
      (stream : Bytes) (ct : ClientStruct) → Holds stream ct → length stream ≤ packet_buffer_size
  Holds-fits stream ct held =
      omega (arith, held.size, ap length held.bytes, length-append stream held.behind)

  size_of-Holds :
      (stream : Bytes) (ct : ClientStruct)
      → Holds stream ct
      → head_size ≤ length stream
      → size_of ct.recv_buffer ≡ size_of stream
  size_of-Holds stream ct held h =
      ap size_of held.bytes ∙ rw (read_head-append stream held.behind h) refl

  -- Where the server would cut a packet out of the bytes at hand, and its payload is JSON, the client
  -- takes out the same packet, has the same bytes left, and keeps its token and what it has written.
  pub fetch_json-packet :
      (ct : ClientStruct) (stream payload rest : Bytes) (json : p.Json)
      → Holds stream ct
      → next_frame stream ≡ packet payload rest
      → p.json_loadb payload ≡ some json
      → (ct' : ClientStruct) × (fetch_json ct ≡ some ((pos 0, some json), ct'))
        × Holds rest ct'
        × (ct'.token ≡ ct.token)
        × (ct'.written ≡ ct.written)
  fetch_json-packet ct stream payload rest json held cut parsed =
      let parts = next_frame-Parts stream payload rest cut in
      let n = length stream in
      let same_size = size_of-Holds stream ct held parts.has_head in
      let body : take (size_of stream - head_size) (drop head_size ct.recv_buffer) ≡ payload =
        ap (λ (t : Bytes). take (size_of stream - head_size) (drop head_size t)) held.bytes
        ∙ ap (take (size_of stream - head_size))
            (drop-append head_size stream held.behind parts.has_head)
        ∙ take-append (size_of stream - head_size) (drop head_size stream) held.behind
            (omega (arith, parts.is_whole, length-drop head_size stream))
        ∙ parts.payload_at in
      (
        taken ct n (size_of stream),
        fetch_whole ct n held.offset parts.has_head (omega (arith, same_size, parts.is_whole))
            ∙ ap (λ (s : ℕ). take_json n s ct) same_size
            ∙ take_json_run ct n (size_of stream) json parts.is_whole (Holds-fits stream ct held)
                (ap p.json_loadb body ∙ parsed),
        taken-Holds ct stream rest (size_of stream) held parts.is_whole parts.rest_at,
        refl,
        refl,
      )

  -- Where the server would wait for more bytes, the client waits too, and nothing changes.
  pub fetch_json-waits :
      (ct : ClientStruct) (stream : Bytes)
      → Holds stream ct
      → next_frame stream ≡ not_a_packet
      → fetch_json ct ≡ some ((negsuc 0, none), ct)
  fetch_json-waits ct stream held waiting = elim (dec_lt (length stream) head_size) [
    | yes short ↦ fetch_short ct (length stream) held.offset short
    | no long ↦ elim (dec_lt (length stream) (size_of stream)) [
      | yes partial ↦
          fetch_waiting ct (length stream) held.offset (omega arith)
            (omega (arith, partial, size_of-Holds stream ct held (omega arith)))
      | no whole ↦
          absurd (
            not_waiting _ _ _ (sym (next_frame_whole stream (omega arith) (omega arith)) ∙ waiting))
    ]
  ]
    where
      not_waiting :
          (b : Bool) (payload rest : Bytes)
          → (if b then packet payload rest else crc_error) ≡ not_a_packet
          → ⊥
      not_waiting b payload rest e = ground arith
