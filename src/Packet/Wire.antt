-- ===== src/Packet/Wire.antt =====
-- packet.c: what an answer is on the wire, and what an unknown method gets.
use geekchatserver.Prelude.{
  ℕ, ◌%◌, ◌≤◌, ◌≡◌, refl, sym, ap, ◌∙◌, [], ◌∷◌, ◌++◌, append-nil, arith, Bytes, codes, length,
  take, take_prefix, leb, true, none, some, negsuc, neg,
}
use geekchatserver.Platform.{Platform}
use geekchatserver.State.{Client, Server}
use geekchatserver.Framing.{
  packet, next_frame, raw_packet, raw_packet_buffer_max, packet_type_unencry,
}
use geekchatserver.Framing.Roundtrip.{next_frame-raw_packet}
use geekchatserver.Methods.Field.{field}
use geekchatserver.Packet.Respond.{
  build_simplify_json, json_to_raw_packet, respond_json, respond_method_not_found, zeros,
  serr_not_method,
}
use geekchatserver.Packet.Dispatch.{call_method, dispatch_packet}

module _ ⦃p : Platform⦄ where
  abbrev pub Fits : p.Json → Type 0
  Fits json = (p.json_dumpb json raw_packet_buffer_max).0 ≤ raw_packet_buffer_max

  -- The text of a JSON value, as `json_dumpb` writes it.
  abbrev pub text_of : p.Json → Bytes
  text_of json = (p.json_dumpb json raw_packet_buffer_max).1

  abbrev pub wire : p.Json → Bytes
  wire json = raw_packet packet_type_unencry (text_of json)

  pub packet_text :
      (n : ℕ) (text more : Bytes)
      → length text ≡ n
      → n ≤ raw_packet_buffer_max
      → take (n % 65536) (text ++ more) ≡ text
  packet_text n text more e h = rw (short n h, sym e) (take_prefix text more)
    where
      short : (n : ℕ) → n ≤ 4088 → n % 65536 ≡ n
      short n h = omega arith

  pub leb_fits : (n : ℕ) → n ≤ raw_packet_buffer_max → leb (n % 65536) 4088 ≡ true
  leb_fits n h = ground arith

  json_to_raw_packet-Fits :
      (json : p.Json) (sv : Server)
      → Fits json
      → json_to_raw_packet json packet_type_unencry sv ≡ some (wire json, sv)
  unfolding json_to_raw_packet
  json_to_raw_packet-Fits json sv h =
      let n = (p.json_dumpb json raw_packet_buffer_max).0 in
      rw
        (
          leb_fits n h,
          packet_text n (text_of json) (zeros (n % 65536))
              (p.dumpb_fits json raw_packet_buffer_max h),
        )
        refl

  pub wire-next_frame :
      (json : p.Json) → Fits json → next_frame (wire json) ≡ packet (text_of json) []
  wire-next_frame json h =
      ap next_frame (sym (append-nil (wire json)))
      ∙ next_frame-raw_packet packet_type_unencry (text_of json) []
          (omega (arith, p.dumpb_fits json raw_packet_buffer_max h)) (omega arith)

  -- The JSON text that answers a method which is not in the table.
  abbrev pub not_found : p.Json
  not_found = build_simplify_json p.json_object (codes "null") (neg serr_not_method)

  module _ (c : ℕ) (sv : Server) {ct : Client} (known : sv.clients c ≡ some ct) where
    -- The server after an answer was written to the socket of a client.
    abbrev pub answered : p.Json → Server
    answered json = record sv { sent = (ct.fd, wire json) ∷ sv.sent }

    respond_json_run :
        (json : p.Json) {bytes : Bytes}
        → json_to_raw_packet json packet_type_unencry sv ≡ some (bytes, sv)
        → respond_json c json sv ≡ some (tt, record sv { sent = (ct.fd, bytes) ∷ sv.sent })
    unfolding respond_json
    respond_json_run json built = ground arith

    pub respond_json-Fits :
        (json : p.Json) → Fits json → respond_json c json sv ≡ some (tt, answered json)
    respond_json-Fits json h = respond_json_run json (json_to_raw_packet-Fits json sv h)

    module _ (payload : Bytes) {json : p.Json} {method : Bytes}
        (parsed : p.json_loadb payload ≡ some json)
        (named : field json (codes "method") ≡ some method)
        (unknown : p.hashmap_get sv.methods_map method ≡ none) (fits : Fits not_found) where
      dispatch_unknown_run :
          {sv' : Server}
          → respond_json c not_found sv ≡ some (tt, sv')
          → dispatch_packet c payload sv ≡ some (negsuc 0, sv')
      unfolding dispatch_packet call_method respond_method_not_found
      dispatch_unknown_run answer = ground arith

      pub unknown_run :
          (dispatch_packet c payload sv ≡ some (negsuc 0, answered not_found))
          × (next_frame (wire not_found) ≡ packet (text_of not_found) [])
      unknown_run =
          (dispatch_unknown_run (respond_json-Fits not_found fits), wire-next_frame not_found fits)
