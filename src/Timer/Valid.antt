-- ===== src/Timer/Valid.antt =====
-- timer.c: linking, unlinking and kicking keep the list of timers valid and make none due.
use geekchatserver.Prelude.{ℕ, ◌≤◌, ◌<◌, ◌≡◌, sym, ap, ◌∙◌, subst, arith, true, false, some}
use geekchatserver.Timer.{
  Owner, client_timer, looper_timer, user_timer, Cbtimer, TimersList, is_timer_effective,
  insert_to_timer_list, unlink, del_timer, delay_of, timer_at, add_timer, kick_timer, timeout_of,
}
use geekchatserver.Timer.Order.{IsOrdered, insert-IsOrdered, unlink-IsOrdered, unlinked}
use geekchatserver.Timer.Due.{
  due, Waits, AllWait, due-insert, due-unlink-le, due-unlink-lt, AllWait-insert, AllWait-unlink,
  delay_of-Waits,
}

-- In order, no timer linked twice, and none but the loopers' linked with no delay.
pub record IsValid (ts : TimersList) : Type 0 where
  pub ordered : IsOrdered ts
  pub waits : AllWait ts

-- A timer that the code kicks: that of a client or of a user.
abbrev pub IsKicked : Owner → Type 0
IsKicked (looper_timer c) = ⊥
IsKicked _ = Unit

unlink-IsValid : (ts : TimersList) (o : Owner) → IsValid ts → IsValid (unlink ts o)
unlink-IsValid ts o v = record {
  ordered = unlink-IsOrdered ts o v.ordered;
  waits = AllWait-unlink ts o v.waits;
}

insert-IsValid :
    (timer : Cbtimer) (ts : TimersList)
    → is_timer_effective ts timer.owner ≡ false
    → Waits timer.owner timer.delay_sec
    → IsValid ts
    → IsValid (insert_to_timer_list timer ts)
insert-IsValid timer ts out w v = record {
  ordered = insert-IsOrdered timer ts out v.ordered;
  waits = AllWait-insert timer ts w v.waits;
}

module _ (now : ℕ) (ts : TimersList) (o : Owner) {ts' : TimersList} where
  pub add_inv :
      (delay : ℕ)
      → add_timer now ts o delay ≡ some ts'
      → (is_timer_effective ts o ≡ false) × (insert_to_timer_list (timer_at o now delay) ts ≡ ts')
  unfolding add_timer
  add_inv delay h = ground arith

  pub del_inv : del_timer ts o ≡ some ts' → (is_timer_effective ts o ≡ true) × (unlink ts o ≡ ts')
  unfolding del_timer
  del_inv h = ground arith

  pub kick_inv :
      kick_timer now ts o ≡ some ts'
      → (is_timer_effective ts o ≡ true)
        × (insert_to_timer_list (timer_at o now (delay_of ts o)) (unlink ts o) ≡ ts')
  unfolding kick_timer del_timer
  kick_inv h = ground arith

  pub add_timer-IsValid :
      (delay : ℕ) → Waits o delay → add_timer now ts o delay ≡ some ts' → IsValid ts → IsValid ts'
  add_timer-IsValid delay w h v =
      let (out, e) = add_inv delay h in
      subst (λ (t : TimersList). IsValid t) e (insert-IsValid (timer_at o now delay) ts out w v)

  pub due-add_timer :
      (delay : ℕ) → 0 < delay → add_timer now ts o delay ≡ some ts' → due now ts' ≡ due now ts
  due-add_timer delay w h =
      let (out, e) = add_inv delay h in
      ap (due now) (sym e) ∙ due-insert now (timer_at o now delay) ts (omega arith)

  pub del_timer-IsValid : del_timer ts o ≡ some ts' → IsValid ts → IsValid ts'
  del_timer-IsValid h v =
      let (_, e) = del_inv h in subst (λ (t : TimersList). IsValid t) e (unlink-IsValid ts o v)

  pub due-del_timer : del_timer ts o ≡ some ts' → due now ts' ≤ due now ts
  due-del_timer h = let (_, e) = del_inv h in omega (arith, ap (due now) e, due-unlink-le now ts o)

  pub due-del_timer_lt :
      (timeout : ℕ)
      → timeout_of ts o ≡ some timeout
      → timeout ≤ now
      → del_timer ts o ≡ some ts'
      → due now ts' < due now ts
  due-del_timer_lt timeout t k h =
      let (_, e) = del_inv h in omega (arith, ap (due now) e, due-unlink-lt now ts o timeout t k)

  pub kick_timer-IsValid : kick_timer now ts o ≡ some ts' → IsValid ts → IsValid ts'
  kick_timer-IsValid h v =
      let (linked, e) = kick_inv h in
      subst (λ (t : TimersList). IsValid t) e
        (insert-IsValid (timer_at o now (delay_of ts o)) (unlink ts o) (unlinked ts o v.ordered)
          (delay_of-Waits ts o linked v.waits) (unlink-IsValid ts o v))

kicked-Waits : (o : Owner) (delay : ℕ) → IsKicked o → Waits o delay → 0 < delay
kicked-Waits (client_timer c) delay k w = w
kicked-Waits (looper_timer c) delay k w = absurd k
kicked-Waits (user_timer a) delay k w = w

pub due-kick_timer :
    (now : ℕ) (ts : TimersList) (o : Owner) {ts' : TimersList}
    → IsKicked o
    → kick_timer now ts o ≡ some ts'
    → IsValid ts
    → due now ts' ≤ due now ts
due-kick_timer now ts o k h v =
    let (linked, e) = kick_inv now ts o h in
    let waits = kicked-Waits o (delay_of ts o) k (delay_of-Waits ts o linked v.waits) in
    omega (
      arith,
      ap (due now) e,
      due-insert now (timer_at o now (delay_of ts o)) (unlink ts o) (omega arith),
      due-unlink-le now ts o,
    )
