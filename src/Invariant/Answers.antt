-- ===== src/Invariant/Answers.antt =====
-- packet.c: what a client has been sent while its request is handled.
use geekchatserver.Prelude.{
  ℕ, zero, suc, ◌+◌, ◌-◌, ◌*◌, ◌/◌, ◌%◌, ◌^◌, ◌≤◌, ◌<◌, ◌≡◌, ◌≢◌, ◌↔◌, ◌⊎◌, inl, inr, refl, sym, ap,
  ap₂, ◌∙◌, ◌≡⟨◌⟩◌, ◌∎, subst, fun_ext, List, [], ◌∷◌, ◌++◌, map, append-nil, append_assoc, arith,
  bit_and, bit_xor, ◌>>>◌, bit_and_fifteen, bit_xor_step, bit_xor-lt, bit_and-le, bit_xor_comm,
  bit_xor_cancel, bit_xor-zero, low_bits, low_bits-lt, high_bits_24, high_bits, low_bits_8,
  low_bits_cancel, low_bits_small, high_bits_xor, high_bits_small, bit_and_byte,
  bit_and_three_bytes, Bytes, same, same_self, eq_of_same, String, codes, get_elem?, get_or, length,
  take, drop, length-append, length-take, length-drop, take-append-drop, take-append, drop-append,
  take_all, take_prefix, drop_prefix, drop_all, All, ltb, leb, if◌then◌else◌, ◌&&◌, ◌||◌, not, Bool,
  true, false, ◌==◌, ==_iff, ==_self, ltb→lt, leb→le, le→leb, lt→ltb, ge→ltb, Bool-cases,
  Option-cases, Option, none, some, is_some, ℤ, pos, negsuc, neg, is_neg,
}
pub mod Once
pub mod Session
pub mod Talk
pub mod Requests
pub mod Events
pub mod Unknown
use geekchatserver.Platform.{Platform}
use geekchatserver.State.{Client, Server, ◌>>=◌, ◌>>◌, update, write_to}
use geekchatserver.State.Bind.{pure_inv}
use geekchatserver.Packet.Respond.{respond, respond_json, respond_method_not_found}
use geekchatserver.Messages.Deliver.{send_message_to, message_json}
use geekchatserver.Users.Refs.{user_put}
use geekchatserver.Invariant.Rules.{
  Always, Always-pure, Always-user_at, Always-deref, Always-client_at,
}
use mathlib.Core.Option.{some-injective}
use geekchatserver.Invariant.Leads.{
  Leads, Leads-of, Leads-bind, Leads-then, Leads-client_at, Always→Leads,
}
use geekchatserver.Invariant.Stable.{IsStable, SameSocket}
use geekchatserver.Invariant.Tokens.{BearsLooper}
use geekchatserver.Invariant.Users.{Always-user_put}
use geekchatserver.Invariant.Messages.{Always-json_to_raw_packet}

-- At most `n` packets have been sent since `sent`.
abbrev pub SentAtMost : ℕ → List (ℕ × Bytes) → List (ℕ × Bytes) → Type 0
SentAtMost n before sent = (more : List (ℕ × Bytes)) × (sent ≡ more ++ before) × (length more ≤ n)

module _ ⦃p : Platform⦄ where
  -- The client is in memory with its descriptor, and at most `n` packets have been sent.
  pub record Unanswered (c fd : ℕ) (before : List (ℕ × Bytes)) (n : ℕ) (sv : Server) : Type 0 where
    pub here : (ct : Client) × (sv.clients c ≡ some ct) × (ct.fd ≡ fd)
    pub others : SentAtMost n before sv.sent

  -- The newest packet is on the descriptor, and at most `n` packets have been sent before.
  pub record Answered (fd : ℕ) (before : List (ℕ × Bytes)) (n : ℕ) (sv : Server) : Type 0 where
    pub answer :
        (bytes : Bytes) × (more : List (ℕ × Bytes)) × (sv.sent ≡ (fd, bytes) ∷ more ++ before)
        × (length more ≤ n)

  still_here :
      (clients : ℕ → Option Client) (c fd c' : ℕ) (ct ct' : Client)
      → clients c' ≡ some ct
      → SameSocket ct ct'
      → (t : Client) × (clients c ≡ some t) × (t.fd ≡ fd)
      → (t : Client) × (update clients c' (some ct') c ≡ some t) × (t.fd ≡ fd)
  still_here clients c fd c' ct ct' known same_socket (t, there, on) = elim (Bool-cases (c' == c)) [
    | inl e ↦
        let equal : ct ≡ t =
          some-injective ct t (sym known ∙ ap clients ((==_iff c' c).0 e) ∙ there) in
        (ct', rw e refl, same_socket.1 ∙ ap (λ (x : Client). x.fd) equal ∙ on)
    | inr e ↦ (t, rw e there, on)
  ]

  module _ (c fd : ℕ) (before : List (ℕ × Bytes)) (n : ℕ) where
    pub IsStable-Unanswered : IsStable (Unanswered c fd before n)
    IsStable-Unanswered = record {
      quiet = λ sv users mallocs users_map tokens_map mysql random more h. record {
        here = h.here;
        others = h.others;
      };
      edited = λ sv c' ct ct' known same_socket h. record {
        here = still_here sv.clients c fd c' ct ct' known same_socket h.here;
        others = h.others;
      };
      linked = λ sv a ts e h. record { here = h.here; others = h.others };
      unlinked = λ sv o ts e h. record { here = h.here; others = h.others };
      kicked = λ sv o ts k e h. record { here = h.here; others = h.others };
    }

    pub BearsLooper-Unanswered : BearsLooper (Unanswered c fd before n)
    BearsLooper-Unanswered = record {
      started = λ sv c' ts e h. record { here = h.here; others = h.others };
    }

    module _ (k : ℕ) (room : n ≤ k) where
      Leads-write :
          (ct : Client) (bytes : Bytes)
          → Leads
              (λ sv. Unanswered c fd before n sv × (sv.clients c ≡ some ct))
              (Answered fd before k)
              (write_to ct.fd bytes)
      Leads-write ct bytes =
          Leads-of (λ sv. record sv { sent = (ct.fd, bytes) ∷ sv.sent })
            (λ sv b sv' r. (pure_inv r).1)
            (λ sv h.
              let (t, there, on) = h.0.here in
              let (more, e, few) = h.0.others in
              let same_fd : ct.fd ≡ fd =
                ap (λ (x : Client). x.fd) (some-injective ct t (sym h.1 ∙ there)) ∙ on in
              record {
                answer = (
                  bytes,
                  more,
                  ap₂ (λ (f : ℕ) (l : List (ℕ × Bytes)). (f, bytes) ∷ l) same_fd e,
                  omega (arith, few),
                );
              })

      pub Leads-respond_json :
          (json : p.Json)
          → Leads (Unanswered c fd before n) (Answered fd before k) (respond_json c json)
      unfolding respond_json
      Leads-respond_json json =
          Leads-client_at c
            (λ ct. Leads-then (Always-json_to_raw_packet json _) (λ bytes. Leads-write ct bytes))

      pub Leads-respond :
          (json : p.Json) (method : Bytes) (err : ℤ)
          → Leads (Unanswered c fd before n) (Answered fd before k) (respond c json method err)
      unfolding respond
      Leads-respond json method err =
          Leads-bind (Answered fd before k) (Leads-respond_json _)
            (λ _. Always→Leads (Always-pure (pos 0)))

      pub Leads-answer_put :
          (a : ℕ) (json : p.Json) (method : Bytes) (err : ℤ)
          → Leads
              (Unanswered c fd before n)
              (Answered fd before k)
              (user_put a >> respond c json method err)
      Leads-answer_put a json method err =
          Leads-then (Always-user_put IsStable-Unanswered a) (λ _. Leads-respond json method err)

    Leads-one_more :
        (fd' : ℕ) (bytes : Bytes)
        → Leads (Unanswered c fd before n) (Unanswered c fd before (n + 1)) (write_to fd' bytes)
    Leads-one_more fd' bytes =
        Leads-of (λ sv. record sv { sent = (fd', bytes) ∷ sv.sent }) (λ sv b sv' r. (pure_inv r).1)
          (λ sv h.
            let (more, e, few) = h.others in
            record {
              here = h.here;
              others = (
                (fd', bytes) ∷ more,
                ap (λ (l : List (ℕ × Bytes)). (fd', bytes) ∷ l) e,
                omega (arith, few),
              );
            })

    -- A message to another client is one packet more.
    pub Leads-send_message_to :
        (from to : ℕ) (uuid message : Bytes)
        → Leads
            (Unanswered c fd before n)
            (Unanswered c fd before (n + 1))
            (send_message_to from to uuid message)
    unfolding send_message_to respond_json
    Leads-send_message_to from to uuid message = Leads-then (Always-user_at from) (λ f.
        Leads-then (Always-user_at to) (λ t. Leads-then (Always-deref t.client) (λ c'.
          Leads-bind (Unanswered c fd before (n + 1))
            (Leads-then (Always-client_at c') (λ ct.
              Leads-then (Always-json_to_raw_packet _ _) (λ bytes. Leads-one_more ct.fd bytes)))
            (λ _. Always→Leads (Always-pure p.indeterminate)))))
