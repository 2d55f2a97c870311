-- ===== src/Invariant/Sound.antt =====
-- server.c, packet.h: what holds of every client in memory by itself.
use geekchatserver.Prelude.{
  ℕ, ◌≤◌, ◌≡◌, subst, length, if◌then◌else◌, Bool, true, false, ◌==◌, Option, none, some,
}
use geekchatserver.Platform.{Platform}
use geekchatserver.State.{Client, update}
use geekchatserver.Server.Clients.{fd_name}
use mathlib.Core.Option.{some-injective}
use geekchatserver.Framing.{raw_packet_buffer_max}

-- The buffer of a client holds at most as many bytes as it has room for, and its name is that of its
-- descriptor.
pub record IsSound (ct : Client) : Type 0 where
  pub fits : length ct.buffer ≤ raw_packet_buffer_max
  pub named : ct.name ≡ fd_name ct.fd

-- What holds of every client in memory.
abbrev pub Each : (Client → Type 0) → (ℕ → Option Client) → Type 0
Each Q clients = (c : ℕ) (ct : Client) → clients c ≡ some ct → Q ct

module _ ⦃p : Platform⦄ {Q : Client → Type 0} (clients : ℕ → Option Client)
    (each : Each Q clients) where
  chosen :
      (b : Bool) {o o' : Option Client} {ct : Client} {A : Type 0}
      → (if b then o else o') ≡ some ct
      → (o ≡ some ct → A)
      → (o' ≡ some ct → A)
      → A
  chosen true e first second = first e
  chosen false e first second = second e

  pub Each-set : (c : ℕ) (ct : Client) → Q ct → Each Q (update clients c (some ct))
  Each-set c ct h c' ct' e =
      chosen (c == c') e (λ same. subst Q (some-injective ct ct' same) h) (each c' ct')

  pub Each-free : (c : ℕ) → Each Q (update clients c none)
  Each-free c c' ct' e = chosen (c == c') e (λ gone. absurd (lost gone)) (each c' ct')
    where
      lost : {ct : Client} → none ≡ some ct → ⊥
      lost gone = cc
