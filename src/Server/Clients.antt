-- ===== src/Server/Clients.antt =====
-- server.c: `accept_new_client`, `free_client_socket` and the timeout of a client. The name of a
-- client is its file descriptor in decimal.
use geekchatserver.Prelude.{
  ℕ, zero, suc, ◌+◌, ◌/◌, ◌%◌, [], ◌∷◌, ◌++◌, map, Bytes, codes, if◌then◌else◌, not, Bool, true,
  false, ◌==◌, Option, none, some,
}
use geekchatserver.Platform.{Platform}
use geekchatserver.State.{
  Client, server_client_unused_timeout, M, pure, ◌>>=◌, ◌>>◌, get, deref, when, client_at,
  set_client, set_clients_map, with_timers, try_malloc,
}
use geekchatserver.Users.Refs.{unbind_user, is_user_bind}
use geekchatserver.Tokens.Registry.{put_or_keep}
use geekchatserver.Timer.{client_timer, is_timer_effective, add_timer, del_timer}

-- `snprintf(…, "%d", fd)`: the decimal digits; 10 of them hold every `int`.
unfoldable pub decimal_digits : ℕ → ℕ → Bytes
decimal_digits zero n = []
decimal_digits (suc fuel) n =
    let high = decimal_digits fuel (n / 10) in if n == 0 then [] else high ++ (b'0' + n % 10) ∷ []

unfoldable pub fd_name : ℕ → Bytes
unfolding decimal_digits
fd_name fd = if fd == 0 then codes "0" else decimal_digits 10 fd

-- What the kernel answers while a client is accepted: the descriptor or a failure of `accept`, and
-- whether both `fcntl` calls and `epoll_ctl` succeed.
pub record Accept : Type 0 where
  pub fd : Option ℕ
  pub fcntl_ok : Bool
  pub epoll_ok : Bool

abbrev pub new_client : ℕ → Bytes → Client
new_client fd name = record { fd = fd; name = name; usr = none; looper = false; buffer = [] }

module _ ⦃p : Platform⦄ where
  -- `true` is the result 0.
  unfoldable pub accept_new_client : Accept → M Bool
  unfolding fd_name
  accept_new_client ev = do
    memory ← try_malloc
    elim memory [
      | none ↦ pure false
      | some c ↦ elim ev.fd [
        | none ↦ pure false
        | some fd ↦ if not ev.fcntl_ok then pure false else do
          let name = fd_name fd
          set_client c (some (new_client fd name))
          sv ← get
          let (found, map) = p.hashmap_remove sv.clients_map name
          set_clients_map map
          if found then pure false else do
            sv' ← get
            set_clients_map (put_or_keep sv'.clients_map name c)
            if not ev.epoll_ok then pure false else do
              with_timers (λ now ts. add_timer now ts (client_timer c) server_client_unused_timeout)
              pure true
      ]
    ]

  -- The result of `epoll_ctl` is only printed and handed on to callers that do not use it.
  unfoldable pub free_client_socket : ℕ → M (Unit {0})
  free_client_socket c = do
    ct ← client_at c
    sv ← get
    set_clients_map (p.hashmap_remove sv.clients_map ct.name).1
    bound ← is_user_bind ct.usr
    usr ← pure ct.usr
    when bound (deref usr >>= unbind_user)
    sv' ← get
    when (is_timer_effective sv'.timers_list (client_timer c))
        (with_timers (λ now ts. del_timer ts (client_timer c)))
    set_client c none

  unfoldable pub client_timeout_handler : ℕ → M (Unit {0})
  unfolding free_client_socket
  client_timeout_handler c = free_client_socket c
