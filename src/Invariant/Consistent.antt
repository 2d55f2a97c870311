-- ===== src/Invariant/Consistent.antt =====
-- server.c: what holds of the server whatever it is sent, and that the actions of the methods keep it.
use geekchatserver.Prelude.{
  ℕ, ◌<◌, ◌≡◌, refl, sym, ap, ◌∙◌, map, arith, length, ◌&&◌, not, Bool, true, false, none, some,
  is_some,
}
use geekchatserver.Platform.{Platform}
use geekchatserver.State.{Client, server_user_unused_timeout, Server, update}
use geekchatserver.Timer.{
  Owner, client_timer, looper_timer, user_timer, TimersList, same_owner, is_timer_effective,
  add_timer, del_timer, kick_timer,
}
use geekchatserver.Timer.Due.{Waits}
use geekchatserver.Timer.Linked.{add_timer-linked, del_timer-linked, kick_timer-linked}
use geekchatserver.Invariant.Named.{
  Named, Unnamed, Fresh, Named-edited, Named-other, Unnamed-vacant, Fresh-set, Fresh-freed,
  Fresh-le,
}
use geekchatserver.Invariant.Bears.{BearsSent}
use geekchatserver.Invariant.Owned.{Owned, Owned-set, Owned-free, Owned-fewer, Owned-more}
use geekchatserver.Timer.Valid.{IsValid, add_timer-IsValid, del_timer-IsValid, kick_timer-IsValid}
use geekchatserver.Invariant.Stable.{IsStable, SameSocket}
use geekchatserver.Server.Clients.{fd_name}
use geekchatserver.Invariant.Tokens.{BearsLooper}
use geekchatserver.Invariant.Sound.{IsSound, Each, Each-set, Each-free}

module _ ⦃p : Platform⦄ where
  -- The timers are in order, those of clients belong to clients in memory, the names of clients lead to
  -- clients in memory of that name, new memory is not in use, no buffer holds more than it has room
  -- for, a client has the name of its descriptor, and the table of the methods is the one that was built at the start.
  pub record IsConsistent (table : p.Map) (sv : Server) : Type 0 where
    pub timers : IsValid sv.timers_list
    pub client_timers : Owned sv.timers_list sv.clients
    pub clients_named : Named sv.clients_map sv.clients
    pub clients_fresh : Fresh sv.mallocs sv.clients
    pub clients_sound : Each IsSound sv.clients
    pub methods_map : sv.methods_map ≡ table

  -- The server while a client is in memory.
  abbrev pub WithClient : p.Map → ℕ → Client → Server → Type 0
  WithClient table c ct sv = IsConsistent table sv × (sv.clients c ≡ some ct)

  module _ (table : p.Map) where
    pub timers_changed :
        (sv : Server) (ts : TimersList)
        → IsValid ts
        → Owned ts sv.clients
        → IsConsistent table sv
        → IsConsistent table (record sv { timers_list = ts })
    timers_changed sv ts v owned h = record {
      timers = v;
      client_timers = owned;
      clients_named = h.clients_named;
      clients_fresh = h.clients_fresh;
      clients_sound = h.clients_sound;
      methods_map = h.methods_map;
    }

    pub map_changed :
        (sv : Server) (map : p.Map)
        → Named map sv.clients
        → IsConsistent table sv
        → IsConsistent table (record sv { clients_map = map })
    map_changed sv map named h = record {
      timers = h.timers;
      client_timers = h.client_timers;
      clients_named = named;
      clients_fresh = h.clients_fresh;
      clients_sound = h.clients_sound;
      methods_map = h.methods_map;
    }

    -- A client that was in memory or stands in new memory.
    client_set :
        (sv : Server) (c : ℕ) (ct : Client)
        → IsSound ct
        → c < sv.mallocs
        → Named sv.clients_map (update sv.clients c (some ct))
        → IsConsistent table sv
        → IsConsistent table (record sv { clients = update sv.clients c (some ct) })
    client_set sv c ct sound below named h = record {
      timers = h.timers;
      client_timers = Owned-set sv.timers_list sv.clients h.client_timers c ct;
      clients_named = named;
      clients_fresh = Fresh-set sv.mallocs sv.clients c ct below h.clients_fresh;
      clients_sound = Each-set sv.clients h.clients_sound c ct sound;
      methods_map = h.methods_map;
    }

    pub client_edited :
        (sv : Server) (c : ℕ) (ct ct' : Client)
        → sv.clients c ≡ some ct
        → ct'.name ≡ ct.name
        → IsSound ct'
        → IsConsistent table sv
        → IsConsistent table (record sv { clients = update sv.clients c (some ct') })
    client_edited sv c ct ct' known same_name sound h =
        client_set sv c ct' sound (h.clients_fresh c ct known)
          (Named-edited sv.clients_map sv.clients h.clients_named c ct ct' known same_name) h

    pub client_added :
        (sv : Server) (c : ℕ) (ct : Client)
        → sv.clients c ≡ none
        → c < sv.mallocs
        → IsSound ct
        → IsConsistent table sv
        → IsConsistent table (record sv { clients = update sv.clients c (some ct) })
    client_added sv c ct vacant below sound h =
        client_set sv c ct sound below
          (Named-other sv.clients_map sv.clients h.clients_named c (some ct)
            (Unnamed-vacant sv.clients_map sv.clients c h.clients_named vacant))
          h

    pub client_freed :
        (sv : Server) (c : ℕ)
        → is_timer_effective sv.timers_list (client_timer c) ≡ false
        → Unnamed sv.clients_map c
        → IsConsistent table sv
        → IsConsistent table (record sv { clients = update sv.clients c none })
    client_freed sv c out unnamed h = record {
      timers = h.timers;
      client_timers = Owned-free sv.timers_list sv.clients h.client_timers c out;
      clients_named = Named-other sv.clients_map sv.clients h.clients_named c none unnamed;
      clients_fresh = Fresh-freed sv.mallocs sv.clients c h.clients_fresh;
      clients_sound = Each-free sv.clients h.clients_sound c;
      methods_map = h.methods_map;
    }

    -- A timer is linked whose owner is no client, or a client in memory.
    pub timer_linked :
        (sv : Server) (o : Owner) (delay : ℕ) (ts : TimersList)
        → Waits o delay
        → ((c : ℕ) → same_owner o (client_timer c) ≡ true → is_some (sv.clients c) ≡ true)
        → add_timer sv.now sv.timers_list o delay ≡ some ts
        → IsConsistent table sv
        → IsConsistent table (record sv { timers_list = ts })
    timer_linked sv o delay ts waits own e h =
        timers_changed sv ts (add_timer-IsValid sv.now sv.timers_list o delay waits e h.timers)
          (Owned-more sv.timers_list sv.clients h.client_timers ts o
            (λ c. add_timer-linked sv.now sv.timers_list o (client_timer c) delay e) own)
          h

    pub timer_unlinked :
        (sv : Server) (o : Owner) (ts : TimersList)
        → del_timer sv.timers_list o ≡ some ts
        → IsConsistent table sv
        → IsConsistent table (record sv { timers_list = ts })
    timer_unlinked sv o ts e h =
        timers_changed sv ts (del_timer-IsValid sv.now sv.timers_list o e h.timers)
          (Owned-fewer sv.timers_list sv.clients h.client_timers ts (λ c linked.
            was_linked (same_owner o (client_timer c)) (
              sym (del_timer-linked sv.now sv.timers_list o (client_timer c) e h.timers) ∙ linked)))
          h
      where
        was_linked : (a : Bool) {b : Bool} → (not a && b) ≡ true → b ≡ true
        was_linked a e = ground arith

    timer_kicked :
        (sv : Server) (o : Owner) (ts : TimersList)
        → kick_timer sv.now sv.timers_list o ≡ some ts
        → IsConsistent table sv
        → IsConsistent table (record sv { timers_list = ts })
    timer_kicked sv o ts e h =
        timers_changed sv ts (kick_timer-IsValid sv.now sv.timers_list o e h.timers)
          (Owned-fewer sv.timers_list sv.clients h.client_timers ts (λ c linked.
            sym (kick_timer-linked sv.now sv.timers_list o (client_timer c) e h.timers) ∙ linked))
          h

    nobody :
        (sv : Server) (o : Owner) (e : (c : ℕ) → same_owner o (client_timer c) ≡ false) (c : ℕ)
        → same_owner o (client_timer c) ≡ true
        → is_some (sv.clients c) ≡ true
    nobody sv o e c h = absurd (contrary (sym (e c) ∙ h))
      where
        contrary : false ≡ true → ⊥
        contrary e = cc

    SameSocket-IsSound : (ct ct' : Client) → SameSocket ct ct' → IsSound ct → IsSound ct'
    SameSocket-IsSound ct ct' same_socket h = record {
      fits = omega (arith, ap length same_socket.0, h.fits);
      named = same_socket.2 ∙ h.named ∙ ap fd_name (sym same_socket.1);
    }

    pub IsStable-IsConsistent : IsStable (IsConsistent table)
    unfolding same_owner
    IsStable-IsConsistent = record {
      quiet = λ sv users mallocs users_map tokens_map mysql random more h. record {
        timers = h.timers;
        client_timers = h.client_timers;
        clients_named = h.clients_named;
        clients_fresh = Fresh-le sv.mallocs mallocs sv.clients more h.clients_fresh;
        clients_sound = h.clients_sound;
        methods_map = h.methods_map;
      };
      edited = λ sv c ct ct' known same_socket h.
          client_edited sv c ct ct' known same_socket.2
            (SameSocket-IsSound ct ct' same_socket (h.clients_sound c ct known)) h;
      linked = λ sv a ts e h.
          let o = user_timer a in
          timer_linked sv o server_user_unused_timeout ts (omega arith) (nobody sv o (λ c. refl)) e
            h;
      unlinked = λ sv o ts e h. timer_unlinked sv o ts e h;
      kicked = λ sv o ts k e h. timer_kicked sv o ts e h;
    }

    pub BearsLooper-IsConsistent : BearsLooper (IsConsistent table)
    unfolding same_owner
    BearsLooper-IsConsistent = record {
      started = λ sv c ts e h.
          let o = looper_timer c in timer_linked sv o 0 ts tt (nobody sv o (λ c'. refl)) e h;
    }

    pub BearsSent-IsConsistent : BearsSent (IsConsistent table)
    BearsSent-IsConsistent = record {
      written = λ sv sent h. record {
        timers = h.timers;
        client_timers = h.client_timers;
        clients_named = h.clients_named;
        clients_fresh = h.clients_fresh;
        clients_sound = h.clients_sound;
        methods_map = h.methods_map;
      };
    }
