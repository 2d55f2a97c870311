-- ===== src/Framing/Bounds.antt =====
-- server.c: how many bytes `try_make_net_packet` can leave in a buffer.
use geekchatserver.Prelude.{ℕ, zero, suc, ◌≤◌, ◌<◌, ◌≡◌, sym, ap, ◌∙◌, arith, Bytes, length}
use geekchatserver.Framing.{next_frame, not_a_packet, crc_error, packet}
use geekchatserver.Framing.Cut.{short, bad, whole, outcome}
use geekchatserver.Framing.Chunks.{Split, frames, frames_waiting, frames_error, frames_packet}

rest_below : (n : ℕ) (buf : Bytes) → length buf < n → length (frames buf).rest ≤ length buf
rest_below zero buf h = absurd (omega arith)
rest_below (suc n) buf h = elim (outcome buf) [
  | short e ↦ omega (arith, ap (λ (t : Split). length t.rest) (frames_waiting buf e))
  | bad e _ _ ↦ omega (arith, ap (λ (t : Split). length t.rest) (frames_error buf e))
  | whole payload rest e _ _ less ↦ omega (
    arith,
    ap (λ (t : Split). length t.rest) (frames_packet buf payload rest e less),
    rest_below n rest (omega arith),
  )
]

-- Cutting packets out of a buffer never makes it longer.
pub rest-frames-le : (buf : Bytes) → length (frames buf).rest ≤ length buf
rest-frames-le buf = rest_below (suc (length buf)) buf (omega arith)

-- What follows a packet that was cut out is shorter than the buffer.
pub next_frame-lt :
    (buf : Bytes) {p rest : Bytes} → next_frame buf ≡ packet p rest → length rest < length buf
next_frame-lt buf {p} {rest} h = elim (outcome buf) [
  | short e ↦ absurd (is_packet (sym e ∙ h))
  | bad e _ _ ↦ absurd (no_error (sym e ∙ h))
  | whole p' rest' e _ _ less ↦ omega (arith, less, ap length (rest_of (sym e ∙ h)))
]
  where
    is_packet : not_a_packet ≡ packet p rest → ⊥
    is_packet e = cc

    no_error : crc_error ≡ packet p rest → ⊥
    no_error e = cc

    rest_of : {p' rest' : Bytes} → packet p' rest' ≡ packet p rest → rest' ≡ rest
    rest_of e = cc
