-- ===== src/Invariant/Firing.antt =====
-- timer.c: the walk of `handle_timer_list` ends, whatever the handlers of the timers do to the list.
use geekchatserver.Prelude.{
  ℕ, zero, suc, ◌≤◌, ◌<◌, ◌≡◌, inl, inr, refl, sym, ap, subst, arith, length, leb, Bool, true,
  false, leb→le, Bool-cases, Option, none, some,
}
use geekchatserver.Platform.{Platform}
use geekchatserver.State.{server_user_unused_timeout, Server, M, pure, ◌>>◌, deref, with_timers}
use geekchatserver.State.Bind.{bind_inv, pure_inv, with_timers_run}
use geekchatserver.Timer.{Owner, user_timer, TimersList, del_timer, timeout_of, next_owner}
use geekchatserver.Timer.Due.{due, due-le-length}
use geekchatserver.Timer.Valid.{
  IsValid, add_timer-IsValid, del_timer-IsValid, kick_timer-IsValid, due-add_timer, due-del_timer,
  due-del_timer_lt, due-kick_timer,
}
use geekchatserver.Server.Loop.{fire, timer_loop, handle_timer_list}
use geekchatserver.Invariant.Rules.{Always}
use geekchatserver.Invariant.Stable.{IsStable}
use geekchatserver.Invariant.Bears.{BearsSent, BearsEnd}
use geekchatserver.Invariant.Events.{Always-fire, Always-free_client_socket}

module _ ⦃p : Platform⦄ where
  -- The timers are valid, the clock stands, and at most `n` timers are due.
  record IsWaning (now n : ℕ) (sv : Server) : Type 0 where
    timers : IsValid sv.timers_list
    clock : sv.now ≡ now
    few : due now sv.timers_list ≤ n

  waning :
      (now n : ℕ) (sv : Server) (ts : TimersList)
      → IsValid ts
      → due sv.now ts ≤ due sv.now sv.timers_list
      → IsWaning now n sv
      → IsWaning now n (record sv { timers_list = ts })
  waning now n sv ts v less h = record {
    timers = v;
    clock = h.clock;
    few =
        subst (λ (t : ℕ). due t ts ≤ n) h.clock
          (omega (arith, less, ap (λ (t : ℕ). due t sv.timers_list) h.clock, h.few));
  }

  IsStable-IsWaning : (now n : ℕ) → IsStable (IsWaning now n)
  IsStable-IsWaning now n = record {
    quiet = λ sv users mallocs users_map tokens_map mysql random more h. record {
      timers = h.timers;
      clock = h.clock;
      few = h.few;
    };
    edited = λ sv c ct ct' known same_socket h. record {
      timers = h.timers;
      clock = h.clock;
      few = h.few;
    };
    linked = λ sv a ts e h.
        let o = user_timer a in
        let delay = server_user_unused_timeout in
        waning now n sv ts
          (add_timer-IsValid sv.now sv.timers_list o delay (omega arith) e h.timers)
          (omega (arith, due-add_timer sv.now sv.timers_list o delay (omega arith) e)) h;
    unlinked = λ sv o ts e h.
        waning now n sv ts (del_timer-IsValid sv.now sv.timers_list o e h.timers)
          (due-del_timer sv.now sv.timers_list o e) h;
    kicked = λ sv o ts k e h.
        waning now n sv ts (kick_timer-IsValid sv.now sv.timers_list o e h.timers)
          (due-kick_timer sv.now sv.timers_list o k e h.timers) h;
  }

  BearsSent-IsWaning : (now n : ℕ) → BearsSent (IsWaning now n)
  BearsSent-IsWaning now n = record {
    written = λ sv sent h. record { timers = h.timers; clock = h.clock; few = h.few };
  }

  BearsEnd-IsWaning : (now n : ℕ) → BearsEnd (IsWaning now n)
  BearsEnd-IsWaning now n = record {
    unnamed = λ sv map h. record { timers = h.timers; clock = h.clock; few = h.few };
    freed = λ sv c h. record { timers = h.timers; clock = h.clock; few = h.few };
  }

  Always-IsWaning-fire : (now n : ℕ) (o : Owner) → Always (IsWaning now n) (fire o)
  Always-IsWaning-fire now n o =
      let st = IsStable-IsWaning now n in
      Always-fire st (BearsSent-IsWaning now n)
        (Always-free_client_socket st (BearsEnd-IsWaning now n)) o

  deref_inv :
      {A : Type 0} (o : Option A) {sv : Server} {a : A} {sv' : Server}
      → deref o sv ≡ some (a, sv')
      → (o ≡ some a) × (sv ≡ sv')
  deref_inv o run = ground arith

  -- A round at a timer that is due goes on with one due timer less.
  fire_round :
      (fuel now timeout : ℕ) (o : Owner) (rest : M Bool) (sv : Server) (ended : Bool) (sv' : Server)
      → IsWaning now fuel sv
      → timeout_of sv.timers_list o ≡ some timeout
      → timeout ≤ now
      → (with_timers (λ _ ts. del_timer ts o) >> (fire o >> rest)) sv ≡ some (ended, sv')
      → (mid : Server) × (n : ℕ) × (n < fuel) × IsWaning now n mid × (rest mid ≡ some (ended, sv'))
  fire_round fuel now timeout o rest sv ended sv' h known late run =
      let (x, sv1, r1, run1) =
        bind_inv (with_timers (λ _ ts. del_timer ts o)) (λ _. fire o >> rest) sv run in
      let (ts, deleted, e) = with_timers_run (λ _ ts. del_timer ts o) sv x sv1 r1 in
      let (y, mid, r2, run2) = bind_inv (fire o) (λ _. rest) sv1 run1 in
      let one_less = due-del_timer_lt now sv.timers_list o timeout known late deleted in
      let h1 : IsWaning now (due now ts) sv1 = subst (IsWaning now (due now ts)) (sym e) (record {
        timers = del_timer-IsValid now sv.timers_list o deleted h.timers;
        clock = h.clock;
        few = omega arith;
      }) in
      (
        mid,
        due now ts,
        omega (arith, one_less, h.few),
        (Always-IsWaning-fire now (due now ts) o).always sv1 y mid h1 r2,
        run2,
      )

  -- What a round does when it has read whether the timer is due.
  unfoldable pub round_at : Bool → ℕ → ℕ → Owner → Option Owner → M Bool
  round_at late fuel now o next = elim late [
    | false ↦ pure true
    | true ↦ do with_timers (λ _ ts. del_timer ts o); fire o; timer_loop fuel now next
  ]

  pub timer_loop_round :
      (fuel now timeout : ℕ) (o : Owner) (sv : Server)
      → timeout_of sv.timers_list o ≡ some timeout
      → timer_loop (suc fuel) now (some o) sv
        ≡ round_at (leb timeout now) fuel now o (next_owner sv.timers_list o) sv
  unfolding timer_loop round_at
  timer_loop_round fuel now timeout o sv known = rw known refl

  -- Each round but the last takes a timer that was due from the list, and no handler makes one due.
  timer_loop-true :
      (fuel now n : ℕ) (o : Option Owner) (sv : Server) (ended : Bool) (sv' : Server)
      → IsWaning now n sv
      → n < fuel
      → timer_loop fuel now o sv ≡ some (ended, sv')
      → ended ≡ true
  unfolding timer_loop round_at
  timer_loop-true fuel now n none sv ended sv' h less run = sym (pure_inv run).0
  timer_loop-true zero now n (some o) sv ended sv' h less run = absurd (omega arith)
  timer_loop-true (suc fuel) now n (some o) sv ended sv' h less run =
      let next = next_owner sv.timers_list o in
      let again = λ (m : ℕ). timer_loop-true fuel now m next in
      let (timeout, sv1, r1, run1) = bind_inv (deref (timeout_of sv.timers_list o)) _ sv run in
      let (known, same_state) = deref_inv (timeout_of sv.timers_list o) r1 in
      let run2 =
        subst (λ (t : Server). round_at (leb timeout now) fuel now o next t ≡ some (ended, sv'))
          (sym same_state) run1 in
      let at = λ (b : Bool). round_at b fuel now o next sv ≡ some (ended, sv') in
      elim (Bool-cases (leb timeout now)) [
        | inl late ↦
            let (mid, m, fewer, h', run3) =
              fire_round n now timeout o (timer_loop fuel now next) sv ended sv' h known
                (leb→le timeout now late) (subst at late run2) in
            again m mid ended sv' h' (omega (arith, less, fewer)) run3
        | inr early ↦ sym (pure_inv (subst at early run2)).0
      ]

  pub handle_timer_list-true :
      (sv : Server) (ended : Bool) (sv' : Server)
      → IsValid sv.timers_list
      → handle_timer_list sv ≡ some (ended, sv')
      → ended ≡ true
  unfolding handle_timer_list
  handle_timer_list-true sv ended sv' v run =
      timer_loop-true (suc (length sv.timers_list)) sv.now (length sv.timers_list) _ sv ended sv'
        (record { timers = v; clock = refl; few = due-le-length sv.now sv.timers_list })
        (omega arith) run
