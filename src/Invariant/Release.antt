-- ===== src/Invariant/Release.antt =====
-- server.c: `free_client_socket`, which takes a client out of the map before it frees its memory.
use geekchatserver.Prelude.{
  ℕ, ◌≡◌, inl, inr, subst, map, arith, true, false, Bool-cases, Option-cases, none, some,
}
use geekchatserver.Platform.{Platform}
use geekchatserver.State.{
  Client, Server, M, ◌>>=◌, ◌>>◌, get, when, update, set_client, set_clients_map, with_timers,
}
use geekchatserver.State.Bind.{pure_inv}
use geekchatserver.Timer.{TimersList, client_timer, is_timer_effective, del_timer}
use geekchatserver.Timer.Linked.{del_timer-gone}
use geekchatserver.Server.Clients.{free_client_socket}
use geekchatserver.Invariant.Rules.{Always, Always-bind, Always-pure, Always-deref, Always-when}
use geekchatserver.Invariant.Leads.{
  Leads, Leads-of, Leads-bind, Leads-then, Leads-get, Leads-client_at, Leads→Always,
}
use geekchatserver.Invariant.Stable.{IsStable}
use geekchatserver.Invariant.Users.{Always-is_user_bind, Always-unbind_user}
use geekchatserver.Invariant.Named.{Unnamed, Named-removed, Unnamed-removed}
use geekchatserver.Invariant.Consistent.{
  IsConsistent, client_freed, timer_unlinked, map_changed, IsStable-IsConsistent,
}

module _ ⦃p : Platform⦄ (table : p.Map) where
  -- The server is consistent, and no name leads to the client.
  record IsUnnamed (c : ℕ) (sv : Server) : Type 0 where
    kept : IsConsistent table sv
    unnamed : Unnamed sv.clients_map c

  IsStable-IsUnnamed : (c : ℕ) → IsStable (IsUnnamed c)
  IsStable-IsUnnamed c =
      let st = IsStable-IsConsistent table in
      record {
        quiet = λ sv users mallocs users_map tokens_map mysql random more h. record {
          kept = st.quiet sv users mallocs users_map tokens_map mysql random more h.kept;
          unnamed = h.unnamed;
        };
        edited = λ sv c' ct ct' known same_socket h. record {
          kept = st.edited sv c' ct ct' known same_socket h.kept;
          unnamed = h.unnamed;
        };
        linked = λ sv a ts e h. record { kept = st.linked sv a ts e h.kept; unnamed = h.unnamed };
        unlinked =
            λ sv o ts e h. record { kept = st.unlinked sv o ts e h.kept; unnamed = h.unnamed };
        kicked =
            λ sv o ts k e h. record { kept = st.kicked sv o ts k e h.kept; unnamed = h.unnamed };
      }

  -- The end of `free_client_socket`: the timer of the client is unlinked and its memory freed.
  abbrev release : ℕ → M (Unit {0})
  release c = do
    sv ← get
    when (is_timer_effective sv.timers_list (client_timer c))
        (with_timers (λ now ts. del_timer ts (client_timer c)))
    set_client c none

  Leads-release : (c : ℕ) → Leads (IsUnnamed c) (IsConsistent table) (release c)
  Leads-release c = record {
    leads = λ sv x sv' h r. elim (Bool-cases (is_timer_effective sv.timers_list (client_timer c))) [
      | inl linked ↦ elim (Option-cases (del_timer sv.timers_list (client_timer c))) [
        | inl e ↦ absurd (lost sv r linked e)
        | inr (ts, e) ↦ subst (IsConsistent table) (unlinks sv r linked e) (
            client_freed table (record sv { timers_list = ts }) c
              (del_timer-gone sv.now sv.timers_list (client_timer c) e h.kept.timers) h.unnamed
              (timer_unlinked table sv (client_timer c) ts e h.kept))
      ]
      | inr out ↦
          subst (IsConsistent table) (runs sv r out) (client_freed table sv c out h.unnamed h.kept)
    ];
  }
    where
      lost :
          (sv : Server) {x : Unit {0}} {sv' : Server}
          → release c sv ≡ some (x, sv')
          → is_timer_effective sv.timers_list (client_timer c) ≡ true
          → del_timer sv.timers_list (client_timer c) ≡ none
          → ⊥
      lost sv r linked e = ground arith

      unlinks :
          (sv : Server) {x : Unit {0}} {sv' : Server} {ts : TimersList}
          → release c sv ≡ some (x, sv')
          → is_timer_effective sv.timers_list (client_timer c) ≡ true
          → del_timer sv.timers_list (client_timer c) ≡ some ts
          → record sv { timers_list = ts; clients = update sv.clients c none } ≡ sv'
      unlinks sv r linked e = ground arith

      runs :
          (sv : Server) {x : Unit {0}} {sv' : Server}
          → release c sv ≡ some (x, sv')
          → is_timer_effective sv.timers_list (client_timer c) ≡ false
          → record sv { clients = update sv.clients c none } ≡ sv'
      runs sv r out = ground arith

  -- The client of the state is taken out of the map.
  out_of_map :
      (c : ℕ) (ct : Client) (sv : Server)
      → sv.clients c ≡ some ct
      → IsConsistent table sv
      → IsUnnamed c (record sv { clients_map = (p.hashmap_remove sv.clients_map ct.name).1 })
  out_of_map c ct sv known h = record {
    kept =
        map_changed table sv (p.hashmap_remove sv.clients_map ct.name).1
          (Named-removed sv.clients_map sv.clients h.clients_named ct.name) h;
    unnamed = Unnamed-removed sv.clients_map sv.clients h.clients_named c ct known;
  }

  Leads-unname :
      (c : ℕ) (ct : Client) (map : p.Map)
      → Leads
          (λ sv. (IsConsistent table sv × (sv.clients c ≡ some ct)) × (sv.clients_map ≡ map))
          (IsUnnamed c)
          (set_clients_map (p.hashmap_remove map ct.name).1)
  Leads-unname c ct map =
      Leads-of (λ sv. record sv { clients_map = (p.hashmap_remove map ct.name).1 })
        (λ sv b sv' r. (pure_inv r).1)
        (λ sv h.
          subst
            (λ (m : p.Map).
              IsUnnamed c (record sv { clients_map = (p.hashmap_remove m ct.name).1 }))
            h.1 (out_of_map c ct sv h.0.1 h.0.0))

  pub Always-free_client_socket : (c : ℕ) → Always (IsConsistent table) (free_client_socket c)
  unfolding free_client_socket
  Always-free_client_socket c =
      let st = IsStable-IsUnnamed c in
      Leads→Always (
        Leads-client_at c (λ ct. Leads-get (λ sv.
          Leads-bind (IsUnnamed c) (Leads-unname c ct sv.clients_map) (λ _.
            Leads-then (Always-is_user_bind st ct.usr) (λ bound.
              Leads-then (Always-pure ct.usr) (λ usr.
                Leads-then
                  (Always-when bound
                    (Always-bind (Always-deref usr) (λ a. Always-unbind_user st a)))
                  (λ _. Leads-release c)))))))
