-- ===== src/Framing/Cut.antt =====
-- server.c: one round of `try_make_net_packet` on the bytes of a buffer: what decides its outcome,
-- and that bytes which arrive later do not change it.
use geekchatserver.Prelude.{
  ℕ, zero, suc, ◌-◌, ◌≤◌, ◌<◌, ◌≡◌, inl, inr, refl, sym, ap, ◌∙◌, ◌≡⟨◌⟩◌, ◌∎, [], ◌∷◌, ◌++◌, arith,
  Bytes, get_or, length, take, drop, length-append, length-drop, take-append, drop-append,
  if◌then◌else◌, Bool, true, false, ◌==◌, lt→ltb, ge→ltb, Bool-cases,
}
use native.Mathlib.Decide.{dec_lt}
use geekchatserver.Crc.{crc32_classic}
use geekchatserver.Framing.{
  head_size, crc_size, read16, read32, read_head, sizeof_raw_packet, Frame, not_a_packet, crc_error,
  packet, next_frame,
}

get_or-append : (xs ys : Bytes) (i : ℕ) → i < length xs → get_or (xs ++ ys) i 0 ≡ get_or xs i 0
get_or-append [] ys i h = absurd (omega arith)
get_or-append (x ∷ xs) ys zero h = refl
get_or-append (x ∷ xs) ys (suc i) h = get_or-append xs ys i (omega arith)

-- The head is in the buffer as soon as 8 bytes are.
pub read_head-append : (a b : Bytes) → head_size ≤ length a → read_head (a ++ b) ≡ read_head a
unfolding read_head read32 read16
read_head-append a b h = rw (
  get_or-append a b 0 (omega arith),
  get_or-append a b 1 (omega arith),
  get_or-append a b 2 (omega arith),
  get_or-append a b 3 (omega arith),
  get_or-append a b 4 (omega arith),
  get_or-append a b 5 (omega arith),
  get_or-append a b 6 (omega arith),
  get_or-append a b 7 (omega arith),
)

-- The three outcomes, on a buffer whose head is known: what decides each.
abbrev pub size_of : Bytes → ℕ
size_of buf = sizeof_raw_packet (read_head buf)

abbrev crc_matches : Bytes → Bool
crc_matches buf =
    crc32_classic (take (size_of buf - crc_size) (drop crc_size buf)) == (read_head buf).crc32

pub next_frame_short : (buf : Bytes) → length buf < head_size → next_frame buf ≡ not_a_packet
unfolding next_frame
next_frame_short buf h = rw (lt→ltb _ _ h)

pub next_frame_waiting :
    (buf : Bytes)
    → head_size ≤ length buf
    → length buf < size_of buf
    → next_frame buf ≡ not_a_packet
unfolding next_frame
next_frame_waiting buf h k = rw (ge→ltb _ _ h, lt→ltb _ _ k)

abbrev body_of : Bytes → Bytes
body_of buf = take (size_of buf - head_size) (drop head_size buf)

pub next_frame_whole :
    (buf : Bytes)
    → head_size ≤ length buf
    → size_of buf ≤ length buf
    → next_frame buf
      ≡ (if crc_matches buf then packet (body_of buf) (drop (size_of buf) buf) else crc_error)
unfolding next_frame
next_frame_whole buf h k = rw (ge→ltb _ _ h, ge→ltb _ _ k)

head_size-le : (buf : Bytes) → head_size ≤ size_of buf
unfolding sizeof_raw_packet
head_size-le buf = omega arith

crc_matches-append :
    (a b : Bytes)
    → head_size ≤ length a
    → size_of a ≤ length a
    → crc_matches (a ++ b) ≡ crc_matches a
crc_matches-append a b h k = rw (
  read_head-append a b h,
  drop-append crc_size a b (omega arith),
  take-append (size_of a - crc_size) (drop crc_size a) b (omega (arith, length-drop crc_size a)),
)

body_of-append :
    (a b : Bytes) → head_size ≤ length a → size_of a ≤ length a → body_of (a ++ b) ≡ body_of a
body_of-append a b h k = rw (
  read_head-append a b h,
  drop-append head_size a b h,
  take-append (size_of a - head_size) (drop head_size a) b (omega (arith, length-drop head_size a)),
)

abbrev pub extend : Frame → Bytes → Frame
extend not_a_packet more = not_a_packet
extend crc_error more = crc_error
extend (packet p rest) more = packet p (rest ++ more)

choose : Bool → Bytes → Bytes → Frame
choose matches body rest = if matches then packet body rest else crc_error

extend-choose :
    (m : Bool) (body rest more : Bytes)
    → choose m body (rest ++ more) ≡ extend (choose m body rest) more
unfolding choose
extend-choose true body rest more = refl
extend-choose false body rest more = refl

choose-next_frame :
    (buf : Bytes)
    → head_size ≤ length buf
    → size_of buf ≤ length buf
    → next_frame buf ≡ choose (crc_matches buf) (body_of buf) (drop (size_of buf) buf)
unfolding choose
choose-next_frame buf h k = next_frame_whole buf h k

rest-append :
    (a b : Bytes)
    → head_size ≤ length a
    → size_of a ≤ length a
    → drop (size_of (a ++ b)) (a ++ b) ≡ drop (size_of a) a ++ b
rest-append a b h k = rw (read_head-append a b h) (drop-append (size_of a) a b k)

size_of-append : (a b : Bytes) → head_size ≤ length a → size_of (a ++ b) ≡ size_of a
size_of-append a b h = rw (read_head-append a b h)

-- A packet, once whole, is cut out the same whatever arrives behind it.
pub next_frame-append :
    (a b : Bytes)
    → head_size ≤ length a
    → size_of a ≤ length a
    → next_frame (a ++ b) ≡ extend (next_frame a) b
next_frame-append a b h k =
    next_frame (a ++ b)
    ≡⟨ choose-next_frame (a ++ b) (omega (arith, length-append a b))
        (omega (arith, length-append a b, size_of-append a b h)) ⟩
      choose (crc_matches (a ++ b)) (body_of (a ++ b)) (drop (size_of (a ++ b)) (a ++ b))
    ≡⟨ cc (crc_matches-append a b h k, body_of-append a b h k, rest-append a b h k) ⟩
      choose (crc_matches a) (body_of a) (drop (size_of a) a ++ b)
    ≡⟨ extend-choose (crc_matches a) (body_of a) (drop (size_of a) a) b ⟩
      extend (choose (crc_matches a) (body_of a) (drop (size_of a) a)) b
    ≡⟨ ap (λ (t : Frame). extend t b) (sym (choose-next_frame a h k)) ⟩ extend (next_frame a) b ∎

-- The three cases of `next_frame`, with the sizes that go with them.
pub data Outcome (buf : Bytes) : Type 0 where
  short : next_frame buf ≡ not_a_packet → Outcome buf
  bad : next_frame buf ≡ crc_error → head_size ≤ length buf → size_of buf ≤ length buf → Outcome buf
  whole :
      (p rest : Bytes)
      → next_frame buf ≡ packet p rest
      → head_size ≤ length buf
      → size_of buf ≤ length buf
      → length rest < length buf
      → Outcome buf

choose-true : (m : Bool) (body rest : Bytes) → m ≡ true → choose m body rest ≡ packet body rest
unfolding choose
choose-true m body rest e = rw e

choose-false : (m : Bool) (body rest : Bytes) → m ≡ false → choose m body rest ≡ crc_error
unfolding choose
choose-false m body rest e = rw e

Outcome-whole :
    (buf : Bytes) (h : head_size ≤ length buf) (k : size_of buf ≤ length buf) → Outcome buf
Outcome-whole buf h k = elim (Bool-cases (crc_matches buf)) [
  | inl e ↦
      whole (body_of buf) (drop (size_of buf) buf)
        (choose-next_frame buf h k
          ∙ choose-true (crc_matches buf) (body_of buf) (drop (size_of buf) buf) e)
        h k (omega (arith, length-drop (size_of buf) buf, head_size-le buf))
  | inr e ↦
      bad
        (choose-next_frame buf h k
          ∙ choose-false (crc_matches buf) (body_of buf) (drop (size_of buf) buf) e)
        h k
]

pub outcome : (buf : Bytes) → Outcome buf
outcome buf = elim (dec_lt (length buf) head_size) [
  | yes h ↦ short (next_frame_short buf h)
  | no h ↦ elim (dec_lt (length buf) (size_of buf)) [
    | yes k ↦ short (next_frame_waiting buf (omega arith) k)
    | no k ↦ Outcome-whole buf (omega arith) (omega arith)
  ]
]

-- What a packet that is cut out consists of.
pub record Parts (buf payload rest : Bytes) : Type 0 where
  pub has_head : head_size ≤ length buf
  pub is_whole : size_of buf ≤ length buf
  pub payload_at : take (size_of buf - head_size) (drop head_size buf) ≡ payload
  pub rest_at : drop (size_of buf) buf ≡ rest

choose_inv :
    (m : Bool) (body rest' payload rest : Bytes)
    → choose m body rest' ≡ packet payload rest
    → (body ≡ payload) × (rest' ≡ rest)
unfolding choose
choose_inv m body rest' payload rest e = ground arith

pub next_frame-Parts :
    (buf payload rest : Bytes) → next_frame buf ≡ packet payload rest → Parts buf payload rest
next_frame-Parts buf payload rest h = elim (outcome buf) [
  | short e ↦ absurd (waiting (sym e ∙ h))
  | bad e _ _ ↦ absurd (broken (sym e ∙ h))
  | whole p' rest' e has_head is_whole less ↦
      let (at_payload, at_rest) =
        choose_inv (crc_matches buf) (body_of buf) (drop (size_of buf) buf) payload rest
          (sym (choose-next_frame buf has_head is_whole) ∙ h) in
      record {
        has_head = has_head;
        is_whole = is_whole;
        payload_at = at_payload;
        rest_at = at_rest;
      }
]
  where
    waiting : not_a_packet ≡ packet payload rest → ⊥
    waiting e = cc

    broken : crc_error ≡ packet payload rest → ⊥
    broken e = cc
