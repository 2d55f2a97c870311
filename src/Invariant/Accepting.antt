-- ===== src/Invariant/Accepting.antt =====
-- server.c: the consistency of the server outlasts `accept_new_client`.
use geekchatserver.Prelude.{
  ℕ, ◌+◌, ◌<◌, ◌≡◌, refl, ap, subst, map, arith, if◌then◌else◌, not, Bool, true, false, ==_iff,
  Option, none, some, is_some,
}
use geekchatserver.Platform.{Platform}
use geekchatserver.State.{
  Client, server_client_unused_timeout, Server, M, ◌>>=◌, update, set_client, set_clients_map,
  with_timers, try_malloc,
}
use geekchatserver.Timer.{client_timer, same_owner, add_timer}
use geekchatserver.Tokens.Registry.{put_or_keep}
use geekchatserver.Server.Clients.{accept_new_client, Accept, new_client, fd_name}
use geekchatserver.Invariant.Rules.{Always, Always-pure}
use geekchatserver.Invariant.Leads.{
  Leads, Leads-of, Leads-bind, Leads-then, Leads-get, Leads-if, Leads-option, Leads-Always,
}
use geekchatserver.Invariant.Sound.{IsSound}
use geekchatserver.Invariant.Named.{Named, Fresh-next, Named-removed, Named-put_or_keep}
use geekchatserver.State.Bind.{pure_inv, update_self}
use geekchatserver.Invariant.Stable.{Always-try_malloc, Always-timers}
use geekchatserver.Invariant.Consistent.{
  IsConsistent, WithClient, client_added, map_changed, timer_linked, IsStable-IsConsistent,
}

module _ ⦃p : Platform⦄ (table : p.Map) where
  Always-link_client :
      (c : ℕ) (ct : Client)
      → Always
          (WithClient table c ct)
          (with_timers (λ now ts. add_timer now ts (client_timer c) server_client_unused_timeout))
  unfolding same_owner
  Always-link_client c ct =
      Always-timers (λ now ts. add_timer now ts (client_timer c) server_client_unused_timeout)
        (λ sv ts e h. (
          timer_linked table sv (client_timer c) server_client_unused_timeout ts (omega arith)
              (λ c' same.
                subst (λ (k : ℕ). is_some (sv.clients k) ≡ true) ((==_iff c c').0 same)
                  (ap is_some h.1))
              e h.0,
          h.1,
        ))

  -- A map that is made of the one in the state.
  Leads-map :
      (c : ℕ) (ct : Client) (map : p.Map) (change : p.Map → p.Map)
      → ((m : p.Map) (clients : ℕ → Option Client)
          → Named m clients
          → clients c ≡ some ct
          → Named (change m) clients)
      → Leads
          (λ sv. WithClient table c ct sv × (sv.clients_map ≡ map))
          (WithClient table c ct)
          (set_clients_map (change map))
  Leads-map c ct map change named =
      Leads-of (λ sv. record sv { clients_map = change map }) (λ sv b sv' r. (pure_inv r).1)
        (λ sv h. (
          map_changed table sv (change map)
              (subst (λ (m : p.Map). Named (change m) sv.clients) h.1
                (named sv.clients_map sv.clients h.0.0.clients_named h.0.1))
              h.0.0,
          h.0.1,
        ))

  -- What follows a call of malloc, by whether it gives memory.
  answered :
      {A C : Type 0} (m : M A) (f : ℕ → M A) (b : Bool) {c : ℕ} {next : Server}
      {R : Option (A × Server)}
      → (m next ≡ R → C)
      → (f c next ≡ R → C)
      → (elim (if b then some c else none) as (λ (o : Option ℕ). M A) [ none ↦ m | some c ↦ f c ])
          next
        ≡ R
      → C
  answered m f false first second run = first run
  answered m f true first second run = second run

  -- A server with new memory.
  abbrev Vacant : ℕ → Server → Type 0
  Vacant c sv = (sv.clients c ≡ none) × (c < sv.mallocs)

  abbrev WithMemory : ℕ → Server → Type 0
  WithMemory c sv = IsConsistent table sv × Vacant c sv

  Always-memory :
      {A : Type 0} {m : M A} {f : ℕ → M A}
      → Always (IsConsistent table) m
      → ((c : ℕ) → Leads (WithMemory c) (IsConsistent table) (f c))
      → Always
          (IsConsistent table)
          (try_malloc >>= λ memory. elim memory [ none ↦ m | some c ↦ f c ])
  Always-memory {m = m} {f = f} gone got = record {
    always = λ sv a sv' h run.
        let next = record sv { mallocs = sv.mallocs + 1 } in
        let kept =
          (Always-try_malloc (IsStable-IsConsistent table)).always sv
            (if p.malloc sv.mallocs then some sv.mallocs else none) next h refl in
        let vacant : Vacant sv.mallocs next =
          (Fresh-next sv.mallocs sv.clients h.clients_fresh, omega arith) in
        answered m f (p.malloc sv.mallocs) (gone.always next a sv' kept)
          ((got sv.mallocs).leads next a sv' (kept, vacant)) run;
  }

  -- The new client takes its memory.
  Leads-place :
      (c : ℕ) (ct : Client)
      → IsSound ct
      → Leads (WithMemory c) (WithClient table c ct) (set_client c (some ct))
  Leads-place c ct sound =
      Leads-of (λ sv. record sv { clients = update sv.clients c (some ct) })
        (λ sv b sv' r. (pure_inv r).1)
        (λ sv h.
          (client_added table sv c ct h.1.0 h.1.1 sound h.0, update_self sv.clients c (some ct)))

  Leads-replace :
      (c : ℕ) (ct : Client) (map : p.Map)
      → Leads
          (λ sv. WithClient table c ct sv × (sv.clients_map ≡ map))
          (WithClient table c ct)
          (set_clients_map (put_or_keep map ct.name c))
  Leads-replace c ct map =
      Leads-map c ct map (λ m. put_or_keep m ct.name c)
        (λ m clients named known. Named-put_or_keep m clients named c ct known)

  Leads-forget :
      (c : ℕ) (ct : Client) (map : p.Map)
      → Leads
          (λ sv. WithClient table c ct sv × (sv.clients_map ≡ map))
          (WithClient table c ct)
          (set_clients_map (p.hashmap_remove map ct.name).1)
  Leads-forget c ct map =
      Leads-map c ct map (λ m. (p.hashmap_remove m ct.name).1)
        (λ m clients named known. Named-removed m clients named ct.name)

  pub Always-accept_new_client : (ev : Accept) → Always (IsConsistent table) (accept_new_client ev)
  unfolding accept_new_client
  Always-accept_new_client ev =
      let fails = Always-pure false in
      Always-memory fails (λ c. Leads-option ev.fd (Leads-Always fails) (λ fd.
        let ct = new_client fd (fd_name fd) in
        Leads-if (not ev.fcntl_ok) (Leads-Always fails) (
          Leads-bind (WithClient table c ct)
            (Leads-place c ct (record { fits = omega arith; named = refl }))
            (λ _. Leads-get (λ sv.
              Leads-bind (WithClient table c ct) (Leads-forget c ct sv.clients_map) (λ _.
                Leads-if (p.hashmap_remove sv.clients_map (fd_name fd)).0 (Leads-Always fails) (
                  Leads-get (λ sv'.
                    Leads-bind (WithClient table c ct) (Leads-replace c ct sv'.clients_map) (λ _.
                      Leads-if (not ev.epoll_ok) (Leads-Always fails) (
                        Leads-then (Always-link_client c ct)
                          (λ _. Leads-Always (Always-pure true))))))))))))
