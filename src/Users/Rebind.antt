-- ===== src/Users/Rebind.antt =====
-- users.c and messages.c: binding a client whose message looper still waits.
use geekchatserver.Prelude.{
  ℕ, ◌≡◌, inl, inr, sym, ap, ◌∙◌, subst, arith, Bool, true, false, Bool-cases, Option-cases, none,
  some,
}
use geekchatserver.Platform.{Platform}
use geekchatserver.State.{User, Client, Server, ◌>>◌, edit_user, edit_client}
use geekchatserver.State.Bind.{bind_inv}
use geekchatserver.Timer.{TimersList, looper_timer, is_timer_effective, add_timer}
use geekchatserver.Timer.Order.{IsOrdered, add_timer_lem, same_owner_self}
use geekchatserver.Messages.Looper.{start_message_looper}
use geekchatserver.Users.Refs.{bind_user_to_client}

module _ ⦃p : Platform⦄ where
  edit_client_timers :
      (c : ℕ) (f : Client → Client) (sv : Server) (x : Unit {0}) (sv' : Server)
      → edit_client c f sv ≡ some (x, sv')
      → sv.timers_list ≡ sv'.timers_list
  edit_client_timers c f sv x sv' h = ground arith

  edit_user_timers :
      (a : ℕ) (f : User → User) (sv : Server) (x : Unit {0}) (sv' : Server)
      → edit_user a f sv ≡ some (x, sv')
      → sv.timers_list ≡ sv'.timers_list
  edit_user_timers a f sv x sv' h = ground arith

  start_linked :
      (c : ℕ) (sv : Server)
      → is_timer_effective sv.timers_list (looper_timer c) ≡ true
      → start_message_looper c sv ≡ none
  unfolding start_message_looper add_timer
  start_linked c sv linked = ground arith

  start_timers :
      (c : ℕ) (sv : Server) (x : Unit {0}) (sv' : Server) {ts : TimersList}
      → add_timer sv.now sv.timers_list (looper_timer c) 0 ≡ some ts
      → start_message_looper c sv ≡ some (x, sv')
      → sv'.timers_list ≡ ts
  unfolding start_message_looper
  start_timers c sv x sv' e h = ground arith

  -- What binding does to the timers: the looper was not linked, and now it is.
  record Links (c : ℕ) (sv sv' : Server) : Type 0 where
    before : is_timer_effective sv.timers_list (looper_timer c) ≡ false
    now : is_timer_effective sv'.timers_list (looper_timer c) ≡ true
    ordered : IsOrdered sv'.timers_list

  start-Links :
      (c : ℕ) (sv : Server) (x : Unit {0}) (sv' : Server)
      → IsOrdered sv.timers_list
      → start_message_looper c sv ≡ some (x, sv')
      → Links c sv sv'
  start-Links c sv x sv' ordered h =
      elim (Bool-cases (is_timer_effective sv.timers_list (looper_timer c))) [
        | inl linked ↦ absurd (lost (start_linked c sv linked))
        | inr idle ↦
            let (ts, e, in_order, linked) =
              add_timer_lem sv.now sv.timers_list (looper_timer c) 0 ordered idle in
            record {
              before = idle;
              now =
                  ap (λ (t : TimersList). is_timer_effective t (looper_timer c))
                    (start_timers c sv x sv' e h)
                  ∙ linked (looper_timer c)
                  ∙ rw (same_owner_self (looper_timer c));
              ordered =
                  subst (λ (t : TimersList). IsOrdered t) (sym (start_timers c sv x sv' e h))
                    in_order;
            }
      ]
    where
      lost : start_message_looper c sv ≡ none → ⊥
      lost e = cc

  bind-Links :
      (a c : ℕ) (sv : Server) (x : Unit {0}) (sv' : Server)
      → IsOrdered sv.timers_list
      → bind_user_to_client a c sv ≡ some (x, sv')
      → Links c sv sv'
  unfolding bind_user_to_client
  bind-Links a c sv x sv' ordered h =
      let set_usr : Client → Client = λ ct. record ct { usr = some a } in
      let set_client_of : User → User = λ u. record u { client = some c } in
      let set_looper : Client → Client = λ ct. record ct { looper = true } in
      let (x1, sv1, h1, r1) =
        bind_inv (edit_client c set_usr)
          (λ _. edit_user a set_client_of >> (edit_client c set_looper >> start_message_looper c))
          sv h in
      let (x2, sv2, h2, r2) =
        bind_inv (edit_user a set_client_of)
          (λ _. edit_client c set_looper >> start_message_looper c) sv1 r1 in
      let (x3, sv3, h3, r3) =
        bind_inv (edit_client c set_looper) (λ _. start_message_looper c) sv2 r2 in
      let unchanged : sv.timers_list ≡ sv3.timers_list =
        edit_client_timers c set_usr sv x1 sv1 h1
        ∙ edit_user_timers a set_client_of sv1 x2 sv2 h2
        ∙ edit_client_timers c set_looper sv2 x3 sv3 h3 in
      let links =
        start-Links c sv3 x sv' (subst (λ (t : TimersList). IsOrdered t) unchanged ordered) r3 in
      record {
        before =
            ap (λ (t : TimersList). is_timer_effective t (looper_timer c)) unchanged ∙ links.before;
        now = links.now;
        ordered = links.ordered;
      }

  -- After a user was bound to a client, with the timers in order, a second binding of the client,
  -- of whatever user, in the state that the first one leaves links the timer of its message looper
  -- again, which is a fault.
  pub bind_user_to_client_twice :
      (a b c : ℕ) (sv : Server) (x : Unit {0}) (sv' : Server)
      → IsOrdered sv.timers_list
      → bind_user_to_client a c sv ≡ some (x, sv')
      → bind_user_to_client b c sv' ≡ none
  bind_user_to_client_twice a b c sv x sv' ordered h =
      elim (Option-cases (bind_user_to_client b c sv')) [
        | inl e ↦ e
        | inr ((y, sv''), e) ↦
            let first = bind-Links a c sv x sv' ordered h in
            let second = bind-Links b c sv' y sv'' first.ordered e in
            absurd (both first.now second.before)
      ]
    where
      both : {t : Bool} → t ≡ true → t ≡ false → ⊥
      both p q = cc
