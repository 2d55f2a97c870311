-- ===== src/Invariant/Owned.antt =====
-- server.c, timer.c: the timers of clients belong to clients in memory.
use geekchatserver.Prelude.{
  ℕ, ◌≡◌, inl, inr, sym, ap, ◌∙◌, arith, ◌||◌, true, false, ◌==◌, Bool-cases, Option, none, some,
  is_some,
}
use geekchatserver.Platform.{Platform}
use geekchatserver.State.{Client, update}
use geekchatserver.Timer.{Owner, client_timer, TimersList, same_owner, is_timer_effective}

-- Every linked timer of a client is that of one in memory.
abbrev pub Owned : TimersList → (ℕ → Option Client) → Type 0
Owned ts clients =
    (c : ℕ) → is_timer_effective ts (client_timer c) ≡ true → is_some (clients c) ≡ true

module _ ⦃p : Platform⦄ (ts : TimersList) (clients : ℕ → Option Client)
    (owned : Owned ts clients) where
  pub Owned-set : (c : ℕ) (ct : Client) → Owned ts (update clients c (some ct))
  Owned-set c ct c' linked = ground (arith, owned c')

  pub Owned-free :
      (c : ℕ) → is_timer_effective ts (client_timer c) ≡ false → Owned ts (update clients c none)
  Owned-free c out c' linked = elim (Bool-cases (c == c')) [
    | inl same ↦ absurd (
        contrary (sym out ∙ ap (λ k. is_timer_effective ts (client_timer k)) (==→eq same) ∙ linked))
    | inr other ↦ rw other (owned c' linked)
  ]
    where
      contrary : false ≡ true → ⊥
      contrary e = cc

      ==→eq : {c' : ℕ} → (c == c') ≡ true → c ≡ c'
      ==→eq e = ground arith

module _ (ts : TimersList) (clients : ℕ → Option Client) (owned : Owned ts clients) where
  -- Fewer timers.
  pub Owned-fewer :
      (ts' : TimersList)
      → ((c : ℕ)
          → is_timer_effective ts' (client_timer c) ≡ true
          → is_timer_effective ts (client_timer c) ≡ true)
      → Owned ts' clients
  Owned-fewer ts' fewer c linked = owned c (fewer c linked)

  -- One timer more, of a client in memory or of none.
  pub Owned-more :
      (ts' : TimersList) (o : Owner)
      → ((c : ℕ)
          → is_timer_effective ts' (client_timer c)
            ≡ (same_owner o (client_timer c) || is_timer_effective ts (client_timer c)))
      → ((c : ℕ) → same_owner o (client_timer c) ≡ true → is_some (clients c) ≡ true)
      → Owned ts' clients
  Owned-more ts' o linked own c h = ground (arith, linked c, own c, owned c)
