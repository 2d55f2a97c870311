-- ===== src/Invariant/Reach.antt =====
-- server.c: what holds in every state that the server reaches.
use geekchatserver.Prelude.{ℕ, ◌≡◌, refl, sym, ◌∙◌, List, get_elem?, Bool, true, false, none, some}
use geekchatserver.Platform.{Platform}
use geekchatserver.State.{Server, ◌>>=◌, ◌>>◌}
use geekchatserver.State.Bind.{bind_inv, bind_some}
use geekchatserver.Timer.{is_timer_effective}
use geekchatserver.Packet.Dispatch.{Method, methods, init_methods_maps, call_method}
use geekchatserver.Packet.Table.{HasRoom, methods_table, call_method-handler}
use geekchatserver.Server.Loop.{Happening, server_round, handle_events, handle_timer_list, set_now}
use geekchatserver.Server.Main.{
  blank, init_timer, init_token, init_users_map, init_memory, init_server, Reach, booted, round,
}
use geekchatserver.Invariant.Consistent.{IsConsistent, IsStable-IsConsistent}
use geekchatserver.Invariant.Opening.{Always-open}
use geekchatserver.Mysql.Connection.{init_mysql}
use geekchatserver.Tokens.Pool.{init_random_pool}
use geekchatserver.Invariant.Rounds.{Always-server_round, Always-server_events}
use geekchatserver.Invariant.Firing.{handle_timer_list-true}

module _ ⦃p : Platform⦄ where
  blank-IsConsistent :
      (mysql : p.Conn) (random : p.Rand)
      → IsConsistent methods_table (record (blank mysql random) { methods_map = methods_table })
  unfolding blank is_timer_effective
  blank-IsConsistent mysql random = record {
    timers = record { ordered = tt; waits = tt };
    client_timers = λ c e. absurd (unlinked e);
    clients_named = λ k c found. absurd (nobody (sym (p.get_new k) ∙ found));
    clients_fresh = λ c ct e. absurd (nobody e);
    clients_sound = λ c ct e. absurd (nobody e);
    methods_map = refl;
  }
    where
      unlinked : false ≡ true → ⊥
      unlinked e = cc

      nobody : {A : Type 0} {a : A} → none ≡ some a → ⊥
      nobody e = cc

  init_memory_run :
      (mysql : p.Conn) (random : p.Rand)
      → init_memory (blank mysql random)
        ≡ some (tt, record (blank mysql random) { methods_map = methods_table })
  unfolding init_memory init_timer init_token init_users_map init_methods_maps blank
  init_memory_run mysql random = refl

  -- In every state between two rounds of the loop of `main`, whatever the kernel has reported and
  -- whatever the clock has shown: the timers are in the order of their timeouts, none linked twice;
  -- every linked timer of a client is that of one in memory; every name in the map of clients leads to
  -- a client in memory with that name; no client lies at an address that is still to be given out; no
  -- client's buffer holds more bytes than it has room for; the name of each client is that of its
  -- descriptor; and the table of the methods is the one that `init_methods_maps` has built.
  pub Reach-IsConsistent :
      (mysql : p.Conn) (random : p.Rand) (sv : Server)
      → Reach mysql random sv
      → IsConsistent methods_table sv
  unfolding init_server
  Reach-IsConsistent mysql random _ (booted sv ret run good) =
      (Always-open (IsStable-IsConsistent methods_table)).always
        (record (blank mysql random) { methods_map = methods_table }) ret sv
        (blank-IsConsistent mysql random)
        (sym (
            bind_some init_memory (λ _. init_mysql >>= λ ignored. init_random_pool)
              (blank mysql random) (init_memory_run mysql random))
          ∙ run)
  Reach-IsConsistent mysql random _ (round sv sv' now evs ended reach run) =
      (Always-server_round methods_table now evs).always sv ended sv'
        (Reach-IsConsistent mysql random sv reach) run

  -- In every state that the server reaches, where the map had memory for every method: a request
  -- whose method is the name of the i-th entry of the table runs the handler of that entry.
  pub reached_handler :
      (mysql : p.Conn) (random : p.Rand) (sv : Server)
      → Reach mysql random sv
      → HasRoom
      → (i : ℕ) (x : Method) (c : ℕ) (json : p.Json) → get_elem? methods i ≡ some x
      → call_method c json x.name sv ≡ x.handler c json sv
  reached_handler mysql random sv reach room i x c json e =
      call_method-handler room i x c json sv e
        ((Reach-IsConsistent mysql random sv reach).methods_map)

  -- In every state that the server reaches, a round that meets no fault has gone through the list of
  -- timers to its end: the fuel of the walk, one more than the timers that are linked, is enough.
  pub reached_round_ends :
      (mysql : p.Conn) (random : p.Rand) (sv : Server)
      → Reach mysql random sv
      → (now : ℕ) (evs : List Happening) (ended : Bool) (sv' : Server)
      → server_round now evs sv ≡ some (ended, sv')
      → ended ≡ true
  unfolding server_round
  reached_round_ends mysql random sv reach now evs ended sv' run =
      let (x, mid, r1, r2) =
        bind_inv (set_now now >> handle_events evs) (λ _. handle_timer_list) sv run in
      let kept =
        (Always-server_events methods_table now evs).always sv x mid
          (Reach-IsConsistent mysql random sv reach) r1 in
      handle_timer_list-true mid ended sv' kept.timers r2
