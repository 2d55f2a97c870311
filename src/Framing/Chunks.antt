-- ===== src/Framing/Chunks.antt =====
-- server.c: `try_make_net_packet` as a parser of a byte stream that arrives in pieces.
use geekchatserver.Prelude.{
  ℕ, zero, suc, ◌<◌, ◌≡◌, sym, ap, ◌∙◌, List, [], ◌∷◌, ◌++◌, arith, Bytes, length, length-append,
  if◌then◌else◌, Bool, true, false,
}
use geekchatserver.Framing.{Frame, not_a_packet, crc_error, packet, next_frame}
use geekchatserver.Framing.Cut.{extend, next_frame-append, short, bad, whole, outcome}

-- What the loop has done to a stream so far: the packets it handed on, the bytes it keeps, and
-- whether it met a bad CRC, after which the connection is closed.
pub record Split : Type 0 where
  pub packets : List Bytes
  pub rest : Bytes
  pub failed : Bool

abbrev pub prepend : Bytes → Split → Split
prepend p s = record { packets = p ∷ s.packets; rest = s.rest; failed = s.failed }

abbrev after_frame : (Bytes → Split) → Bytes → Frame → Split
after_frame go_on buf not_a_packet = record { packets = []; rest = buf; failed = false }
after_frame go_on buf crc_error = record { packets = []; rest = buf; failed = true }
after_frame go_on buf (packet p rest) = prepend p (go_on rest)

split : ℕ → Bytes → Split
split zero buf = record { packets = []; rest = buf; failed = false }
split (suc fuel) buf = after_frame (split fuel) buf (next_frame buf)

-- Each packet takes 8 bytes at least, so the bytes at hand are rounds enough.
unfoldable pub frames : Bytes → Split
unfolding split
frames buf = split (suc (length buf)) buf

split_fuel : (f g : ℕ) (buf : Bytes) → length buf < f → length buf < g → split f buf ≡ split g buf
unfolding split
split_fuel zero g buf h k = absurd (omega arith)
split_fuel (suc f) zero buf h k = absurd (omega arith)
split_fuel (suc f) (suc g) buf h k = elim (outcome buf) [
  | short e ↦ rw e
  | bad e _ _ ↦ rw e
  | whole p rest e _ _ less ↦
      rw e (ap (λ (t : Split). prepend p t) (split_fuel f g rest (omega arith) (omega arith)))
]

pub frames_waiting :
    (buf : Bytes)
    → next_frame buf ≡ not_a_packet
    → frames buf ≡ record { packets = []; rest = buf; failed = false }
unfolding frames
frames_waiting buf e = rw e

pub frames_error :
    (buf : Bytes)
    → next_frame buf ≡ crc_error
    → frames buf ≡ record { packets = []; rest = buf; failed = true }
unfolding frames
frames_error buf e = rw e

pub frames_packet :
    (buf p rest : Bytes)
    → next_frame buf ≡ packet p rest
    → length rest < length buf
    → frames buf ≡ prepend p (frames rest)
unfolding frames
frames_packet buf p rest e less = rw e (
    ap (λ (t : Split). prepend p t)
      (split_fuel (length buf) (suc (length rest)) rest (omega arith) (omega arith)))

-- What a later read adds to a stream that was cut already: nothing is cut after a bad CRC.
abbrev pub resume : Split → Bytes → Split
resume s more =
    if s.failed
    then record { packets = s.packets; rest = s.rest ++ more; failed = true }
    else record {
      packets = s.packets ++ (frames (s.rest ++ more)).packets;
      rest = (frames (s.rest ++ more)).rest;
      failed = (frames (s.rest ++ more)).failed;
    }

resume-prepend :
    (p : Bytes) (s : Split) (more : Bytes) → prepend p (resume s more) ≡ resume (prepend p s) more
resume-prepend p s more = ground arith

append_below : (n : ℕ) (a b : Bytes) → length a < n → frames (a ++ b) ≡ resume (frames a) b
append_below zero a b h = absurd (omega arith)
append_below (suc n) a b h = elim (outcome a) [
  | short e ↦ rw (frames_waiting a e)
  | bad e l k ↦
      frames_error (a ++ b) (next_frame-append a b l k ∙ ap (λ (t : Frame). extend t b) e)
      ∙ rw (frames_error a e)
  | whole p rest e l k less ↦
      frames_packet (a ++ b) p (rest ++ b)
        (next_frame-append a b l k ∙ ap (λ (t : Frame). extend t b) e)
        (omega (arith, length-append a b, length-append rest b))
      ∙ ap (λ (t : Split). prepend p t) (append_below n rest b (omega arith))
      ∙ resume-prepend p (frames rest) b
      ∙ ap (λ (t : Split). resume t b) (sym (frames_packet a p rest e less))
]

-- How a stream is split into reads does not matter: reading `a` first and `b` later hands on the
-- same packets in the same order, keeps the same bytes and stops at the same bad CRC as reading
-- them at once.
pub frames-append : (a b : Bytes) → frames (a ++ b) ≡ resume (frames a) b
frames-append a b = append_below (suc (length a)) a b (omega arith)
