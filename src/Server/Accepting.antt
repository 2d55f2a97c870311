-- ===== src/Server/Accepting.antt =====
-- server.c: what an accepted connection leaves behind.
use geekchatserver.Prelude.{
  ℕ, ◌+◌, ◌≡◌, refl, ◌∙◌, arith, Bytes, same, same_self, if◌then◌else◌, Bool, true, false, Option,
  none, some,
}
use geekchatserver.Platform.{Platform}
use geekchatserver.State.{server_client_unused_timeout, Server, update}
use geekchatserver.State.Bind.{update_self}
use geekchatserver.Timer.{TimersList, client_timer, is_timer_effective, add_timer}
use geekchatserver.Timer.Order.{IsOrdered, add_timer_lem, same_owner_self}
use geekchatserver.Server.Clients.{accept_new_client, Accept, new_client, fd_name}

module _ ⦃p : Platform⦄ where
  -- The kernel has given a descriptor, and its other calls succeed.
  abbrev pub accepted_fd : ℕ → Accept
  accepted_fd fd = record { fd = some fd; fcntl_ok = true; epoll_ok = true }

  module _ (fd : ℕ) (sv : Server) {m' : p.Map} {ts : TimersList}
      (memory : p.malloc sv.mallocs ≡ true)
      (fresh : p.hashmap_get sv.clients_map (fd_name fd) ≡ none)
      (put : p.hashmap_put (p.hashmap_remove sv.clients_map (fd_name fd)).1 (fd_name fd) sv.mallocs
        ≡ some m')
      (ticks : add_timer sv.now sv.timers_list
          (client_timer sv.mallocs)
          server_client_unused_timeout
        ≡ some ts) where
    abbrev accepted : Server
    accepted = record sv {
      clients = update sv.clients sv.mallocs (some (new_client fd (fd_name fd)));
      mallocs = sv.mallocs + 1;
      clients_map = m';
      timers_list = ts;
    }

    not_found : (p.hashmap_remove sv.clients_map (fd_name fd)).0 ≡ false
    not_found = p.remove_found sv.clients_map (fd_name fd) ∙ rw fresh refl

    accept_run :
        (p.hashmap_remove sv.clients_map (fd_name fd)).0 ≡ false
        → accept_new_client (accepted_fd fd) sv ≡ some (true, accepted)
    unfolding accept_new_client
    accept_run e = ground arith

    found_accepted :
        (k : Bytes)
        → p.hashmap_get m' k
          ≡ (if same (fd_name fd) k then some sv.mallocs else p.hashmap_get sv.clients_map k)
    found_accepted k =
        p.get_put (p.hashmap_remove sv.clients_map (fd_name fd)).1 m' (fd_name fd) k sv.mallocs put
        ∙ skip (same (fd_name fd) k) (some sv.mallocs) (p.hashmap_get sv.clients_map k)
            (p.get_remove sv.clients_map (fd_name fd) k)
      where
        skip :
            (b : Bool) {x : Option ℕ} (y z : Option ℕ)
            → x ≡ (if b then none else z)
            → (if b then y else x) ≡ (if b then y else z)
        skip true y z e = refl
        skip false y z e = e

  -- What an accepted connection on descriptor `fd` has added to the server.
  pub record IsAccepted (fd c : ℕ) (sv sv' : Server) : Type 0 where
    pub client : sv'.clients c ≡ some (new_client fd (fd_name fd))
    pub found : p.hashmap_get sv'.clients_map (fd_name fd) ≡ some c
    pub others :
        (k : Bytes)
        → same (fd_name fd) k ≡ false
        → p.hashmap_get sv'.clients_map k ≡ p.hashmap_get sv.clients_map k
    pub ordered : IsOrdered sv'.timers_list
    pub ticking : is_timer_effective sv'.timers_list (client_timer c) ≡ true

  -- With memory, a descriptor that no client has, and kernel calls that succeed, accepting a
  -- connection succeeds: the new client has an empty buffer and no user, is found by its descriptor
  -- where the clients known before are still found, and its timer is linked, in order.
  pub accept_new_client_lem :
      (fd : ℕ) (sv : Server) (m' : p.Map)
      → p.malloc sv.mallocs ≡ true
      → p.hashmap_get sv.clients_map (fd_name fd) ≡ none
      → p.hashmap_put (p.hashmap_remove sv.clients_map (fd_name fd)).1 (fd_name fd) sv.mallocs
        ≡ some m'
      → IsOrdered sv.timers_list
      → is_timer_effective sv.timers_list (client_timer sv.mallocs) ≡ false
      → (sv' : Server) × (accept_new_client (accepted_fd fd) sv ≡ some (true, sv'))
        × IsAccepted fd sv.mallocs sv sv'
  accept_new_client_lem fd sv m' memory fresh put ordered idle =
      let o = client_timer sv.mallocs in
      let (ts, ticks, ordered', linked) =
        add_timer_lem sv.now sv.timers_list o server_client_unused_timeout ordered idle in
      (
        accepted fd sv memory fresh put ticks,
        accept_run fd sv memory fresh put ticks (not_found fd sv memory fresh put ticks),
        record {
          client = update_self sv.clients sv.mallocs (some (new_client fd (fd_name fd)));
          found =
              found_accepted fd sv memory fresh put ticks (fd_name fd)
              ∙ rw (same_self (fd_name fd));
          others = λ k e. found_accepted fd sv memory fresh put ticks k ∙ rw e;
          ordered = ordered';
          ticking = linked o ∙ rw (same_owner_self o);
        },
      )
