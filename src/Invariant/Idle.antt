-- ===== src/Invariant/Idle.antt =====
-- timer.c, server.c: a client that has been idle for too long is gone after the walk of the timers.
use geekchatserver.Prelude.{
  ℕ, suc, ◌≤◌, ◌≡◌, refl, sym, ap, ◌∙◌, subst, List, ◌∷◌, arith, length, Bool, le→leb, Option, none,
  some,
}
use geekchatserver.Platform.{Platform}
use geekchatserver.State.{Client, Server, ◌>>◌, update, with_timers}
use geekchatserver.State.Bind.{bind_inv}
use geekchatserver.Timer.{
  Owner, client_timer, TimersList, Cbtimer, timeout_of, next_owner, del_timer,
}
use geekchatserver.Timer.Order.{same_owner_self}
use geekchatserver.Server.Clients.{client_timeout_handler}
use geekchatserver.Server.Reading.{Frees, free_client_socket-Frees}
use geekchatserver.Server.Loop.{fire, timer_loop, handle_timer_list, first_owner}
use geekchatserver.Invariant.Stable.{IsStable}
use geekchatserver.Invariant.Bears.{BearsSent, BearsEnd}
use geekchatserver.Invariant.Firing.{round_at, timer_loop_round}
use geekchatserver.Invariant.Events.{Always-timer_loop, Always-free_client_socket}

module _ ⦃p : Platform⦄ where
  IsGone : ℕ → Server → Type 0
  IsGone c sv = sv.clients c ≡ none

  someone_else :
      (c c' : ℕ) (clients : ℕ → Option Client) (o : Option Client) (ct : Client)
      → clients c' ≡ some ct
      → clients c ≡ none
      → update clients c' o c ≡ none
  someone_else c c' clients o ct known h = ground arith

  stays :
      (c c' : ℕ) (clients : ℕ → Option Client) → clients c ≡ none → update clients c' none c ≡ none
  stays c c' clients h = ground arith

  IsStable-IsGone : (c : ℕ) → IsStable (IsGone c)
  unfolding IsGone
  IsStable-IsGone c = record {
    quiet = λ sv users mallocs users_map tokens_map mysql random more h. h;
    edited =
        λ sv c' ct ct' known same_socket h. someone_else c c' (sv.clients) (some ct') ct known h;
    linked = λ sv a ts e h. h;
    unlinked = λ sv o ts e h. h;
    kicked = λ sv o ts k e h. h;
  }

  BearsSent-IsGone : (c : ℕ) → BearsSent (IsGone c)
  unfolding IsGone
  BearsSent-IsGone c = record { written = λ sv sent h. h }

  BearsEnd-IsGone : (c : ℕ) → BearsEnd (IsGone c)
  unfolding IsGone
  BearsEnd-IsGone c = record {
    unnamed = λ sv map h. h;
    freed = λ sv c' h. stays c c' (sv.clients) h;
  }

  fire-Frees : (c : ℕ) → Frees c (fire (client_timer c))
  unfolding fire client_timeout_handler
  fire-Frees c = free_client_socket-Frees c

  round_frees :
      (fuel now timeout c : ℕ) (sv : Server) (ended : Bool) (sv' : Server)
      → timeout_of sv.timers_list (client_timer c) ≡ some timeout
      → timeout ≤ now
      → timer_loop (suc fuel) now (some (client_timer c)) sv ≡ some (ended, sv')
      → sv'.clients c ≡ none
  unfolding IsGone round_at
  round_frees fuel now timeout c sv ended sv' known late run =
      let run' =
        subst
          (λ (b : Bool).
            round_at b fuel now (client_timer c) (next_owner sv.timers_list (client_timer c)) sv
            ≡ some (ended, sv'))
          (le→leb timeout now late)
          (sym (timer_loop_round fuel now timeout (client_timer c) sv known) ∙ run) in
      let next = next_owner sv.timers_list (client_timer c) in
      let unlink_it = with_timers (λ _ ts. del_timer ts (client_timer c)) in
      let (x, sv1, r1, run1) =
        bind_inv unlink_it (λ _. fire (client_timer c) >> timer_loop fuel now next) sv run' in
      let (y, mid, r2, run2) =
        bind_inv (fire (client_timer c)) (λ _. timer_loop fuel now next) sv1 run1 in
      let st = IsStable-IsGone c in
      (Always-timer_loop st (BearsSent-IsGone c) (Always-free_client_socket st (BearsEnd-IsGone c))
          fuel now next).always
        mid ended sv' ((fire-Frees c).freed sv1 y mid r2) run2

  first_timeout :
      (t : Cbtimer) (ts : List Cbtimer) (c : ℕ)
      → t.owner ≡ client_timer c
      → timeout_of (t ∷ ts) (client_timer c) ≡ some t.timeout
  unfolding timeout_of
  first_timeout t ts c own = rw (own, same_owner_self (client_timer c)) refl

  -- When the first timer of the list is that of a client and its timeout is not after the time of the
  -- round, and the walk of the timers meets no fault, then that client is freed when the walk ends.
  pub idle_client_freed :
      (c : ℕ) (t : Cbtimer) (ts : List Cbtimer) (sv : Server) (ended : Bool) (sv' : Server)
      → sv.timers_list ≡ t ∷ ts
      → t.owner ≡ client_timer c
      → t.timeout ≤ sv.now
      → handle_timer_list sv ≡ some (ended, sv')
      → sv'.clients c ≡ none
  unfolding handle_timer_list
  idle_client_freed c t ts sv ended sv' first own late run =
      round_frees (length sv.timers_list) sv.now t.timeout c sv ended sv'
        (ap (λ (l : TimersList). timeout_of l (client_timer c)) first ∙ first_timeout t ts c own)
        late
        (subst
          (λ (o : Option Owner).
            timer_loop (suc (length sv.timers_list)) sv.now o sv ≡ some (ended, sv'))
          (ap first_owner first ∙ ap some own) run)
