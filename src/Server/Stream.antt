-- ===== src/Server/Stream.antt =====
-- server.c: `try_make_net_packet` on the state of the server does to the buffer of a client what the
-- parser of Framing/Chunks does to the bytes, and hands on the packets that the parser finds.
use geekchatserver.Prelude.{
  ℕ, zero, suc, ◌<◌, ◌≡◌, inl, inr, refl, sym, ap, ◌∙◌, subst, List, [], ◌∷◌, arith, Bytes, length,
  ltb, not, Bool, true, false, Bool-cases, Option-cases, Option, none, some, ℤ,
}
use geekchatserver.Platform.{Platform}
use geekchatserver.State.{Client, Server, update}
use geekchatserver.State.Bind.{update_self}
use geekchatserver.Framing.{not_a_packet, crc_error, packet, next_frame}
use geekchatserver.Framing.Cut.{short, bad, whole, outcome, next_frame_short}
use geekchatserver.Framing.Chunks.{
  Split, prepend, frames, frames_waiting, frames_error, frames_packet,
}
use geekchatserver.Packet.Dispatch.{dispatch_packet}
use geekchatserver.Server.Receive.{try_make_net_packet}

module _ ⦃p : Platform⦄ where
  -- The server with the rest of the buffer moved to its front.
  abbrev pub with_buffer : Server → ℕ → Client → Bytes → Server
  with_buffer sv c ct rest = record sv {
    clients = update sv.clients c (some (record ct { buffer = rest }));
  }

  module _ (fuel c : ℕ) (sv : Server) {ct : Client} (known : sv.clients c ≡ some ct) where
    try_make_waiting :
        next_frame ct.buffer ≡ not_a_packet
        → try_make_net_packet (suc fuel) c sv ≡ some (some true, sv)
    unfolding try_make_net_packet
    try_make_waiting e = ground arith

    try_make_error :
        next_frame ct.buffer ≡ crc_error
        → try_make_net_packet (suc fuel) c sv ≡ some (some false, sv)
    unfolding try_make_net_packet
    try_make_error e = ground arith

    module _ {payload rest : Bytes} (e : next_frame ct.buffer ≡ packet payload rest) where
      try_make_fault :
          dispatch_packet c payload sv ≡ none → try_make_net_packet (suc fuel) c sv ≡ none
      unfolding try_make_net_packet
      try_make_fault d = ground arith

      try_make_lost :
          {ret : ℤ} {sv' : Server}
          → dispatch_packet c payload sv ≡ some (ret, sv')
          → sv'.clients c ≡ none
          → try_make_net_packet (suc fuel) c sv ≡ none
      unfolding try_make_net_packet
      try_make_lost d l = ground arith

      try_make_last :
          {ret : ℤ} {sv' : Server} {ct' : Client}
          → dispatch_packet c payload sv ≡ some (ret, sv')
          → sv'.clients c ≡ some ct'
          → ltb 0 (length rest) ≡ false
          → try_make_net_packet (suc fuel) c sv ≡ some (some true, with_buffer sv' c ct' rest)
      unfolding try_make_net_packet
      try_make_last d l h = ground arith

      try_make_more :
          {ret : ℤ} {sv' : Server} {ct' : Client}
          → dispatch_packet c payload sv ≡ some (ret, sv')
          → sv'.clients c ≡ some ct'
          → ltb 0 (length rest) ≡ true
          → try_make_net_packet (suc fuel) c sv
            ≡ try_make_net_packet fuel c (with_buffer sv' c ct' rest)
      unfolding try_make_net_packet
      try_make_more d l h = ground arith

  -- The payloads were given to `dispatch_packet` one after the other, in this order, and after each
  -- one the rest of the buffer was moved to its front.
  abbrev pub Handled : ℕ → List Bytes → Server → Server → Type 0
  Handled c [] sv sv' = sv ≡ sv'
  Handled c (payload ∷ payloads) sv sv' =
      (ret : ℤ) × (mid : Server) × (ct : Client) × (rest : Bytes) × (dispatch_packet c payload sv
        ≡ some (ret, mid))
      × (mid.clients c ≡ some ct)
      × Handled c payloads (with_buffer mid c ct rest) sv'

  -- What a run that gives `r` and ends in `sv'` has done to the stream that the parser reads as `s`.
  pub record Parsed (c : ℕ) (s : Split) (sv : Server) (r : Option Bool) (sv' : Server)
      : Type 0 where
    pub result : r ≡ some (not s.failed)
    pub after : Client
    pub alive : sv'.clients c ≡ some after
    pub kept : after.buffer ≡ s.rest
    pub handled : Handled c s.packets sv sv'

  abbrev Ran : Option (Option Bool × Server) → Option Bool → Server → Type 0
  Ran m r sv' = m ≡ some (r, sv')

  Ran-result : {r s : Option Bool} {sv sv' : Server} → Ran (some (s, sv)) r sv' → s ≡ r
  Ran-result e = ground arith

  Ran-server : {r s : Option Bool} {sv sv' : Server} → Ran (some (s, sv)) r sv' → sv ≡ sv'
  Ran-server e = ground arith

  not-Ran : {r : Option Bool} {sv' : Server} → Ran none r sv' → ⊥
  not-Ran e = cc

  module _ (c : ℕ) (payload rest : Bytes) (s : Split) (sv mid : Server) (ct : Client)
      (ret : ℤ) where
    Parsed-prepend :
        {sv' : Server} {r : Option Bool}
        → dispatch_packet c payload sv ≡ some (ret, mid)
        → mid.clients c ≡ some ct
        → Parsed c s (with_buffer mid c ct rest) r sv'
        → Parsed c (prepend payload s) sv r sv'
    Parsed-prepend d l q = record {
      result = q.result;
      after = q.after;
      alive = q.alive;
      kept = q.kept;
      handled = (ret, mid, ct, rest, d, l, q.handled);
    }

  abbrev Runs : ℕ → Type 0
  Runs fuel =
      (c : ℕ) (sv : Server) (ct : Client) (r : Option Bool) (sv' : Server)
      → sv.clients c ≡ some ct
      → length ct.buffer < fuel
      → try_make_net_packet fuel c sv ≡ some (r, sv')
      → Parsed c (frames ct.buffer) sv r sv'

  frames_nil :
      (xs : Bytes)
      → ltb 0 (length xs) ≡ false
      → frames xs ≡ record { packets = []; rest = xs; failed = false }
  frames_nil xs h = frames_waiting xs (next_frame_short xs (ground arith))

  -- The loop ends in a state, with the parser's view of a buffer that holds no packet.
  Parsed-stop :
      (c : ℕ) (s : Split) (sv : Server) (ct : Client) {r : Option Bool} {sv' : Server}
      → s.packets ≡ []
      → ct.buffer ≡ s.rest
      → sv.clients c ≡ some ct
      → Ran (some (some (not s.failed), sv)) r sv'
      → Parsed c s sv r sv'
  Parsed-stop c s sv ct {r} {sv'} none_left kept known ran = record {
    result = sym (Ran-result ran);
    after = ct;
    alive = ap (λ (t : Server). t.clients c) (sym (Ran-server ran)) ∙ known;
    kept = kept;
    handled = subst (λ (l : List Bytes). Handled c l sv sv') (sym none_left) (Ran-server ran);
  }

  -- What follows a packet: more rounds if bytes are left, or the end.
  handled_rest :
      (fuel c : ℕ) (mid : Server) (ct' : Client) (r : Option Bool) (sv' : Server) (rest : Bytes)
      → Runs fuel
      → length rest < fuel
      → (ltb 0 (length rest) ≡ false → Ran (some (some true, with_buffer mid c ct' rest)) r sv')
      → (ltb 0 (length rest) ≡ true
          → try_make_net_packet fuel c (with_buffer mid c ct' rest) ≡ some (r, sv'))
      → Parsed c (frames rest) (with_buffer mid c ct' rest) r sv'
  handled_rest fuel c mid ct' r sv' rest runs enough last more =
      let ct'' : Client = record ct' { buffer = rest } in
      elim (Bool-cases (ltb 0 (length rest))) [
        | inl h ↦
            runs c (with_buffer mid c ct' rest) ct'' r sv' (update_self mid.clients c (some ct''))
              enough (more h)
        | inr h ↦ rw (frames_nil rest h) (
            Parsed-stop c (record { packets = []; rest = rest; failed = false })
              (with_buffer mid c ct' rest) ct'' refl refl (update_self mid.clients c (some ct''))
              (last h))
      ]

  -- One packet cut out and handled, given what the rest of the fuel does.
  packet-Runs :
      (fuel c : ℕ) (sv : Server) (ct : Client) (r : Option Bool) (sv' : Server)
      (payload rest : Bytes)
      → Runs fuel
      → sv.clients c ≡ some ct
      → next_frame ct.buffer ≡ packet payload rest
      → length rest < fuel
      → try_make_net_packet (suc fuel) c sv ≡ some (r, sv')
      → Parsed c (prepend payload (frames rest)) sv r sv'
  packet-Runs fuel c sv ct r sv' payload rest runs known e enough ran =
      elim (Option-cases (dispatch_packet c payload sv)) [
        | inl d ↦ absurd (not-Ran (sym (try_make_fault fuel c sv known e d) ∙ ran))
        | inr ((ret, mid), d) ↦ elim (Option-cases (mid.clients c)) [
          | inl l ↦ absurd (not-Ran (sym (try_make_lost fuel c sv known e d l) ∙ ran))
          | inr (ct', l) ↦ Parsed-prepend c payload rest (frames rest) sv mid ct' ret d l (
              handled_rest fuel c mid ct' r sv' rest runs enough
                (λ h. sym (try_make_last fuel c sv known e d l h) ∙ ran)
                (λ h. sym (try_make_more fuel c sv known e d l h) ∙ ran))
        ]
      ]

  -- For a client whose buffer is shorter than the fuel, a run without a fault does what the parser
  -- does with the buffer: the fuel has not run out, the result says whether a bad CRC stopped it,
  -- the packets that the parser finds were dispatched in order, and the bytes that it leaves are in
  -- the buffer of the client afterwards.
  pub try_make-frames :
      (fuel c : ℕ) (sv : Server) (ct : Client) (r : Option Bool) (sv' : Server)
      → sv.clients c ≡ some ct
      → length ct.buffer < fuel
      → try_make_net_packet fuel c sv ≡ some (r, sv')
      → Parsed c (frames ct.buffer) sv r sv'
  try_make-frames zero c sv ct r sv' known enough ran = absurd (omega arith)
  try_make-frames (suc fuel) c sv ct r sv' known enough ran = elim (outcome ct.buffer) [
    | short e ↦ rw (frames_waiting ct.buffer e) (
        Parsed-stop c (record { packets = []; rest = ct.buffer; failed = false }) sv ct refl refl
          known (sym (try_make_waiting fuel c sv known e) ∙ ran))
    | bad e _ _ ↦ rw (frames_error ct.buffer e) (
        Parsed-stop c (record { packets = []; rest = ct.buffer; failed = true }) sv ct refl refl
          known (sym (try_make_error fuel c sv known e) ∙ ran))
    | whole payload rest e _ _ less ↦ rw (frames_packet ct.buffer payload rest e less) (
        packet-Runs fuel c sv ct r sv' payload rest (try_make-frames fuel) known e (omega arith)
          ran)
  ]
