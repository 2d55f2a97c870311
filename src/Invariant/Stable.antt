-- ===== src/Invariant/Stable.antt =====
-- What a property of the server has to bear for the actions to keep it, and the actions on the
-- fields of the server.
use geekchatserver.Prelude.{
  ℕ, ◌+◌, ◌≤◌, ◌≡◌, inl, inr, subst, arith, Bytes, Option-cases, Option, none, some,
}
use geekchatserver.Platform.{Platform}
use geekchatserver.State.{
  User, Client, server_user_unused_timeout, Server, update, set_user, edit_user, edit_client,
  set_users_map, set_tokens_map, with_timers, try_malloc,
}
use geekchatserver.State.Bind.{pure_inv}
use geekchatserver.Timer.{
  TimersList, Owner, client_timer, user_timer, add_timer, del_timer, kick_timer,
}
use geekchatserver.Timer.Valid.{IsKicked}
use geekchatserver.Mysql.{
  retry_loop, result_round, affected_round, retry_count, mysql_real_query_result,
  mysql_real_query_affected,
}
use geekchatserver.Tokens.Auth.{get_random_bytes}
use geekchatserver.Invariant.Rules.{
  Always, Always-of, Always-bind, Always-pure, Always-fault, Always-get, always_rules,
}

le_self : {n : ℕ} → n ≤ n
le_self {n} = omega arith

module _ ⦃p : Platform⦄ where
  -- What an action outside of the event loop leaves of a client.
  abbrev pub SameSocket : Client → Client → Type 0
  SameSocket ct ct' = (ct'.buffer ≡ ct.buffer) × (ct'.fd ≡ ct.fd) × (ct'.name ≡ ct.name)

  -- The property does not speak of the users, the maps of users and tokens, the database or the random
  -- bytes; it bears memory that is given out; of a client it speaks of the buffer, the descriptor and
  -- the name only; and it bears the timers that are linked, unlinked and kicked outside of a binding.
  pub record IsStable (P : Server → Type 0) : Type 0 where
    pub quiet :
        (sv : Server) (users : ℕ → Option User) (mallocs : ℕ) (users_map tokens_map : p.Map)
        (mysql : p.Conn) (random : p.Rand)
        → sv.mallocs ≤ mallocs
        → P sv
        → P (record sv {
          users = users;
          mallocs = mallocs;
          users_map = users_map;
          tokens_map = tokens_map;
          mysql = mysql;
          random = random;
        })
    pub edited :
        (sv : Server) (c : ℕ) (ct ct' : Client)
        → sv.clients c ≡ some ct
        → SameSocket ct ct'
        → P sv
        → P (record sv { clients = update sv.clients c (some ct') })
    pub linked :
        (sv : Server) (a : ℕ) (ts : TimersList)
        → add_timer sv.now sv.timers_list (user_timer a) server_user_unused_timeout ≡ some ts
        → P sv
        → P (record sv { timers_list = ts })
    pub unlinked :
        (sv : Server) (o : Owner) (ts : TimersList)
        → del_timer sv.timers_list o ≡ some ts
        → P sv
        → P (record sv { timers_list = ts })
    pub kicked :
        (sv : Server) (o : Owner) (ts : TimersList)
        → IsKicked o
        → kick_timer sv.now sv.timers_list o ≡ some ts
        → P sv
        → P (record sv { timers_list = ts })

  -- An action on the timers is decided by what it does where it has no fault.
  pub Always-timers :
      {P : Server → Type 0} (f : ℕ → TimersList → Option TimersList)
      → ((sv : Server) (ts : TimersList)
          → f sv.now sv.timers_list ≡ some ts
          → P sv
          → P (record sv { timers_list = ts }))
      → Always P (with_timers f)
  Always-timers {P} f keep = record {
    always = λ sv a sv' h r. elim (Option-cases (f sv.now sv.timers_list)) [
      | inl e ↦ absurd (lost f sv r e)
      | inr (ts, e) ↦ subst P (leads f sv r e) (keep sv ts e h)
    ];
  }
    where
      lost :
          (f : ℕ → TimersList → Option TimersList) (sv : Server) {a : Unit {0}} {sv' : Server}
          → with_timers f sv ≡ some (a, sv')
          → f sv.now sv.timers_list ≡ none
          → ⊥
      lost f sv r e = ground arith

      leads :
          (f : ℕ → TimersList → Option TimersList) (sv : Server) {a : Unit {0}} {sv' : Server}
          {ts : TimersList}
          → with_timers f sv ≡ some (a, sv')
          → f sv.now sv.timers_list ≡ some ts
          → record sv { timers_list = ts } ≡ sv'
      leads f sv r e = ground arith

  module _ {P : Server → Type 0} (st : IsStable P) where
    abbrev same_users : (h : ℕ → Option User) (sv : Server) → P sv → P (record sv { users = h })
    same_users h sv = st.quiet sv h sv.mallocs sv.users_map sv.tokens_map sv.mysql sv.random le_self

    pub Always-edit_user : (a : ℕ) (f : User → User) → Always P (edit_user a f)
    Always-edit_user a f = record {
      always = λ sv x sv' h r. elim (Option-cases (sv.users a)) [
        | inl e ↦ absurd (lost sv r e)
        | inr (u, e) ↦ subst P (leads sv r e) (same_users (update sv.users a (some (f u))) sv h)
      ];
    }
      where
        lost :
            (sv : Server) {x : Unit {0}} {sv' : Server}
            → edit_user a f sv ≡ some (x, sv')
            → sv.users a ≡ none
            → ⊥
        lost sv r e = ground arith

        leads :
            (sv : Server) {x : Unit {0}} {sv' : Server} {u : User}
            → edit_user a f sv ≡ some (x, sv')
            → sv.users a ≡ some u
            → record sv { users = update sv.users a (some (f u)) } ≡ sv'
        leads sv r e = ground arith

    pub Always-set_user : (a : ℕ) (o : Option User) → Always P (set_user a o)
    Always-set_user a o =
        Always-of (λ sv. record sv { users = update sv.users a o }) (λ sv b sv' r. (pure_inv r).1)
          (λ sv. same_users (update sv.users a o) sv)

    pub Always-edit_client :
        (c : ℕ) (f : Client → Client)
        → ((ct : Client) → SameSocket ct (f ct))
        → Always P (edit_client c f)
    Always-edit_client c f same_socket = record {
      always = λ sv x sv' h r. elim (Option-cases (sv.clients c)) [
        | inl e ↦ absurd (lost sv r e)
        | inr (ct, e) ↦ subst P (leads sv r e) (st.edited sv c ct (f ct) e (same_socket ct) h)
      ];
    }
      where
        lost :
            (sv : Server) {x : Unit {0}} {sv' : Server}
            → edit_client c f sv ≡ some (x, sv')
            → sv.clients c ≡ none
            → ⊥
        lost sv r e = ground arith

        leads :
            (sv : Server) {x : Unit {0}} {sv' : Server} {ct : Client}
            → edit_client c f sv ≡ some (x, sv')
            → sv.clients c ≡ some ct
            → record sv { clients = update sv.clients c (some (f ct)) } ≡ sv'
        leads sv r e = ground arith

    pub Always-set_users_map : (m : p.Map) → Always P (set_users_map m)
    Always-set_users_map m =
        Always-of (λ sv. record sv { users_map = m }) (λ sv b sv' r. (pure_inv r).1)
          (λ sv. st.quiet sv sv.users sv.mallocs m sv.tokens_map sv.mysql sv.random le_self)

    pub Always-set_tokens_map : (m : p.Map) → Always P (set_tokens_map m)
    Always-set_tokens_map m =
        Always-of (λ sv. record sv { tokens_map = m }) (λ sv b sv' r. (pure_inv r).1)
          (λ sv. st.quiet sv sv.users sv.mallocs sv.users_map m sv.mysql sv.random le_self)

    pub Always-try_malloc : Always P try_malloc
    Always-try_malloc =
        Always-of (λ sv. record sv { mallocs = sv.mallocs + 1 }) (λ sv b sv' r. (pure_inv r).1)
          (λ sv.
            st.quiet sv sv.users (sv.mallocs + 1) sv.users_map sv.tokens_map sv.mysql sv.random
              (omega arith))

    pub Always-get_random_bytes : (n : ℕ) → Always P (get_random_bytes n)
    unfolding get_random_bytes
    Always-get_random_bytes n =
        Always-of (λ sv. record sv { random = (p.random_read n sv.random).1 })
          (λ sv b sv' r. (pure_inv r).1)
          (λ sv.
            st.quiet sv sv.users sv.mallocs sv.users_map sv.tokens_map sv.mysql
              (p.random_read n sv.random).1 le_self)

    pub Always-mysql_real_query_result : (query : Bytes) → Always P (mysql_real_query_result query)
    unfolding mysql_real_query_result
    Always-mysql_real_query_result query =
        let last = λ (sv : Server). (retry_loop (result_round query) retry_count sv.mysql).conn in
        Always-of (λ sv. record sv { mysql = last sv }) (λ sv b sv' r. (pure_inv r).1)
          (λ sv.
            st.quiet sv sv.users sv.mallocs sv.users_map sv.tokens_map (last sv) sv.random le_self)

    pub Always-mysql_real_query_affected :
        (query : Bytes) → Always P (mysql_real_query_affected query)
    unfolding mysql_real_query_affected
    Always-mysql_real_query_affected query =
        let last = λ (sv : Server). (retry_loop (affected_round query) retry_count sv.mysql).conn in
        Always-of (λ sv. record sv { mysql = last sv }) (λ sv b sv' r. (pure_inv r).1)
          (λ sv.
            st.quiet sv sv.users sv.mallocs sv.users_map sv.tokens_map (last sv) sv.random le_self)

    pub Always-link_user :
        (a : ℕ)
        → Always P
            (with_timers (λ now ts. add_timer now ts (user_timer a) server_user_unused_timeout))
    Always-link_user a =
        Always-timers (λ now ts. add_timer now ts (user_timer a) server_user_unused_timeout)
          (λ sv ts e h. st.linked sv a ts e h)

    pub Always-unlink : (o : Owner) → Always P (with_timers (λ now ts. del_timer ts o))
    Always-unlink o =
        Always-timers (λ now ts. del_timer ts o) (λ sv ts e h. st.unlinked sv o ts e h)

    pub Always-kick_user :
        (a : ℕ) → Always P (with_timers (λ now ts. kick_timer now ts (user_timer a)))
    Always-kick_user a =
        Always-timers (λ now ts. kick_timer now ts (user_timer a))
          (λ sv ts e h. st.kicked sv (user_timer a) ts tt e h)

    pub Always-kick_client :
        (c : ℕ) → Always P (with_timers (λ now ts. kick_timer now ts (client_timer c)))
    Always-kick_client c =
        Always-timers (λ now ts. kick_timer now ts (client_timer c))
          (λ sv ts e h. st.kicked sv (client_timer c) ts tt e h)

  pub ruleset stable_rules = (
    always_rules, Always-edit_user, Always-set_user, Always-set_users_map, Always-set_tokens_map,
    Always-try_malloc, Always-get_random_bytes, Always-mysql_real_query_result,
    Always-mysql_real_query_affected, Always-link_user, Always-unlink, Always-kick_user,
    Always-kick_client,
  )
