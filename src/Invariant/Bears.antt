-- ===== src/Invariant/Bears.antt =====
-- What a property of the server may bear beside the actions of Stable: answers, and the end of clients.
use geekchatserver.Prelude.{ℕ, List, ◌∷◌, Bytes, none}
use geekchatserver.Platform.{Platform}
use geekchatserver.State.{Server, update, set_client, set_clients_map, write_to}
use geekchatserver.State.Bind.{pure_inv}
use geekchatserver.Invariant.Rules.{Always, Always-of}

module _ ⦃p : Platform⦄ where
  -- The property bears what is written to a socket.
  pub record BearsSent (P : Server → Type 0) : Type 0 where
    pub written : (sv : Server) (sent : List (ℕ × Bytes)) → P sv → P (record sv { sent = sent })

  -- The property bears the end of any client.
  pub record BearsEnd (P : Server → Type 0) : Type 0 where
    pub unnamed : (sv : Server) (map : p.Map) → P sv → P (record sv { clients_map = map })
    pub freed : (sv : Server) (c : ℕ) → P sv → P (record sv { clients = update sv.clients c none })

  pub Always-write_to :
      {P : Server → Type 0} → BearsSent P → (fd : ℕ) (bytes : Bytes) → Always P (write_to fd bytes)
  Always-write_to se fd bytes =
      Always-of (λ sv. record sv { sent = (fd, bytes) ∷ sv.sent }) (λ sv b sv' r. (pure_inv r).1)
        (λ sv. se.written sv ((fd, bytes) ∷ sv.sent))

  module _ {P : Server → Type 0} (en : BearsEnd P) where
    pub Always-free_client : (c : ℕ) → Always P (set_client c none)
    Always-free_client c =
        Always-of (λ sv. record sv { clients = update sv.clients c none })
          (λ sv b sv' r. (pure_inv r).1) (λ sv. en.freed sv c)

    pub Always-set_clients_map : (m : p.Map) → Always P (set_clients_map m)
    Always-set_clients_map m =
        Always-of (λ sv. record sv { clients_map = m }) (λ sv b sv' r. (pure_inv r).1)
          (λ sv. en.unnamed sv m)
