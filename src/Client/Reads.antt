-- ===== src/Client/Reads.antt =====
-- client.c: what `recv_buffer` does to the bytes at hand, and the messages that are acknowledged.
use geekchatserver.Prelude.{
  ℕ, zero, suc, ◌+◌, ◌≤◌, ◌<◌, ◌≡◌, refl, sym, ap, ap₂, ◌∙◌, subst, List, [], ◌∷◌, arith, Bytes,
  length, take, drop, length-append, length-drop, take_prefix, true, false, Option, some, pos,
}
use geekchatserver.Platform.{Platform}
use geekchatserver.Client.{packet_buffer_size, ClientStruct, read_socket, overwrite, add_size}
use geekchatserver.Framing.{head_size, raw_packet, raw_packet_buffer_max, write32, write16}
use geekchatserver.Framing.Cut.{next_frame_short}
use geekchatserver.Packet.Wire.{Fits, text_of, wire, wire-next_frame}
use geekchatserver.Client.Packets.{send_json_object, recv_buffer}
use geekchatserver.Client.Requests.{recv_respond}
use geekchatserver.Client.Loop.{message_of, fetch_loop, recv_message}
use geekchatserver.Client.Fetch.{Holds, fetch_json-packet, fetch_json-waits}
use geekchatserver.Client.Ends.{bind_some, fetch_loop_goes_on, fetch_loop_waits}
use geekchatserver.Client.Served.{sent_run}

-- The client after a read of `bytes`, where `n` bytes were counted.
abbrev filled : ClientStruct → Bytes → List (Option Bytes) → ℕ → ClientStruct
filled ct bytes more n = record ct {
  reads = more;
  recv_buffer = overwrite bytes ct.recv_buffer;
  recv_offset = pos (n + length bytes);
}

take_within : (n : ℕ) (bytes : Bytes) → length bytes ≤ n → take n bytes ≡ bytes
take_within zero [] h = refl
take_within zero (b ∷ bytes) h = absurd (omega arith)
take_within (suc n) [] h = refl
take_within (suc n) (b ∷ bytes) h = ap (λ (t : Bytes). b ∷ t) (take_within n bytes (omega arith))

one_less : (n : ℕ) → 0 < n → (m : ℕ) × (n ≡ suc m)
one_less zero h = absurd (omega arith)
one_less (suc m) h = (m, refl)

module _ ⦃p : Platform⦄ where
  recv_buffer_run :
      (ct : ClientStruct) (bytes : Bytes) (more : List (Option Bytes)) (n : ℕ)
      → ct.reads ≡ some bytes ∷ more
      → length bytes ≤ packet_buffer_size
      → ct.recv_offset ≡ pos n
      → recv_buffer ct ≡ some (pos (length bytes), filled ct bytes more n)
  unfolding recv_buffer read_socket add_size
  recv_buffer_run ct bytes more n reads fits offset =
      rw (reads, take_within packet_buffer_size bytes fits, offset) refl

  -- Bytes that were left from an earlier read are lost when more arrive: the new bytes lie over
  -- them at the start of the buffer, though the offset counts both.
  pub recv_buffer_overwrites :
      (stream : Bytes) (ct : ClientStruct) (bytes : Bytes) (more : List (Option Bytes))
      → Holds stream ct
      → ct.reads ≡ some bytes ∷ more
      → length bytes ≤ packet_buffer_size
      → (ct' : ClientStruct) × (recv_buffer ct ≡ some (pos (length bytes), ct'))
        × (take (length bytes) ct'.recv_buffer ≡ bytes)
        × (ct'.recv_offset ≡ pos (length stream + length bytes))
  recv_buffer_overwrites stream ct bytes more held reads fits = (
    filled ct bytes more (length stream),
    recv_buffer_run ct bytes more (length stream) reads fits held.offset,
    take_prefix bytes (drop (length bytes) ct.recv_buffer),
    refl,
  )

  filled-Holds :
      (ct : ClientStruct) (bytes : Bytes) (more : List (Option Bytes))
      → Holds [] ct
      → length bytes ≤ packet_buffer_size
      → Holds bytes (filled ct bytes more 0)
  filled-Holds ct bytes more held fits = record {
    behind = drop (length bytes) ct.recv_buffer;
    bytes = refl;
    offset = ap pos (omega arith);
    size = omega (
      arith,
      fits,
      held.size,
      length-append bytes (drop (length bytes) ct.recv_buffer),
      length-drop (length bytes) ct.recv_buffer,
    );
  }

  length-wire : (json : p.Json) → length (wire json) ≡ head_size + length (text_of json)
  unfolding raw_packet write32 write16
  length-wire json = omega arith

  -- A client that holds no bytes and reads one whole packet of a message, as the server writes it, with
  -- a sender, a text and an id, and whose acknowledgement fits a packet: it answers with just one
  -- packet, the acknowledgement of that id with its own token, and holds no bytes again.
  pub recv_message_acknowledges :
      (ct : ClientStruct) (json : p.Json) (from message uuid : Bytes) (more : List (Option Bytes))
      → Holds [] ct
      → ct.reads ≡ some (wire json) ∷ more
      → Fits json
      → p.json_loadb (text_of json) ≡ some json
      → message_of json ≡ some (from, message, uuid)
      → Fits (recv_respond uuid ct.token)
      → (ct' : ClientStruct) × (recv_message ct ≡ some (some (pos 0), ct'))
        × (ct'.written ≡ wire (recv_respond uuid ct.token) ∷ ct.written)
        × Holds [] ct'
  unfolding recv_message
  recv_message_acknowledges ct json from message uuid more held reads fits loads said fits' =
      let bytes = wire json in
      let small : length bytes ≤ packet_buffer_size =
        omega (arith, fits, length-wire json, p.dumpb_fits json raw_packet_buffer_max fits) in
      let ct1 = filled ct bytes more 0 in
      let (ct2, fetched, held2, token2, written2) =
        fetch_json-packet ct1 bytes (text_of json) [] json (filled-Holds ct bytes more held small)
          (wire-next_frame json fits) loads in
      let ack = recv_respond uuid ct2.token in
      let ack_fits : Fits ack =
        subst (λ (t : Bytes). Fits (recv_respond uuid t)) (sym token2) fits' in
      let ct3 = record ct2 {
        send_buffer = overwrite (wire ack) ct2.send_buffer;
        written = wire ack ∷ ct2.written;
      } in
      let held3 : Holds [] ct3 = record {
        behind = held2.behind;
        bytes = held2.bytes;
        offset = held2.offset;
        size = held2.size;
      } in
      let (m, count) = one_less (0 + length bytes) (omega (arith, length-wire json)) in
      (
        ct3,
        bind_some recv_buffer _ ct (recv_buffer_run ct bytes more 0 reads small held.offset)
            ∙ ap (λ (k : ℕ). fetch_loop (suc k) false ct1) count
            ∙ fetch_loop_goes_on (suc m) false ct1 json ct2 from message uuid fetched said
            ∙ bind_some (send_json_object ack) (λ _. fetch_loop (suc m) true) ct2
                (sent_run ack ct2 ack_fits)
            ∙ fetch_loop_waits m true ct3 ct3
                (fetch_json-waits ct3 [] held3 (next_frame_short [] (omega arith))),
        ap₂ (λ (t : Bytes) (w : List Bytes). wire (recv_respond uuid t) ∷ w) token2 written2,
        held3,
      )
