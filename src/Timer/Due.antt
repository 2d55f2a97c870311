-- ===== src/Timer/Due.antt =====
-- timer.c: how many linked timers are due, and which delays they were linked with.
use geekchatserver.Prelude.{
  ℕ, ◌+◌, ◌≤◌, ◌<◌, ◌≡◌, inl, inr, subst, [], ◌∷◌, arith, length, leb, if◌then◌else◌, true,
  Bool-cases, some,
}
use geekchatserver.Timer.{
  Owner, client_timer, looper_timer, user_timer, same_owner, Cbtimer, TimersList,
  is_timer_effective, insert_to_timer_list, unlink, delay_of, timeout_of,
}
use geekchatserver.Timer.Order.{same_owner-eq}

-- The timers that `handle_timer_list` would fire at a time.
abbrev pub due : ℕ → TimersList → ℕ
due now [] = 0
due now (t ∷ ts) = (if leb t.timeout now then 1 else 0) + due now ts

-- Only a message looper is linked with no delay.
abbrev pub Waits : Owner → ℕ → Type 0
Waits (client_timer c) delay = 0 < delay
Waits (looper_timer c) delay = Unit
Waits (user_timer a) delay = 0 < delay

abbrev pub AllWait : TimersList → Type 0
AllWait [] = Unit
AllWait (t ∷ ts) = Waits t.owner t.delay_sec × AllWait ts

pub due-le-length : (now : ℕ) (ts : TimersList) → due now ts ≤ length ts
due-le-length now [] = omega arith
due-le-length now (t ∷ ts) = ground (arith, due-le-length now ts)

pub due-insert :
    (now : ℕ) (timer : Cbtimer) (ts : TimersList)
    → now < timer.timeout
    → due now (insert_to_timer_list timer ts) ≡ due now ts
unfolding insert_to_timer_list
due-insert now timer [] h = ground arith
due-insert now timer (t ∷ ts) h = ground (arith, due-insert now timer ts)

pub due-unlink-le : (now : ℕ) (ts : TimersList) (o : Owner) → due now (unlink ts o) ≤ due now ts
unfolding unlink
due-unlink-le now [] o = omega arith
due-unlink-le now (t ∷ ts) o = ground (arith, due-unlink-le now ts o)

-- Unlinking a timer that is due takes one from them.
pub due-unlink-lt :
    (now : ℕ) (ts : TimersList) (o : Owner) (timeout : ℕ)
    → timeout_of ts o ≡ some timeout
    → timeout ≤ now
    → due now (unlink ts o) < due now ts
unfolding unlink timeout_of
due-unlink-lt now [] o timeout e h = cc
due-unlink-lt now (t ∷ ts) o timeout e h = ground (arith, due-unlink-lt now ts o timeout)

pub AllWait-insert :
    (timer : Cbtimer) (ts : TimersList)
    → Waits timer.owner timer.delay_sec
    → AllWait ts
    → AllWait (insert_to_timer_list timer ts)
unfolding insert_to_timer_list
AllWait-insert timer [] w h = (w, tt)
AllWait-insert timer (t ∷ ts) w h = elim (Bool-cases (leb timer.timeout t.timeout)) [
  | inl e ↦ rw e (w, h)
  | inr e ↦ rw e (h.0, AllWait-insert timer ts w h.1)
]

pub AllWait-unlink : (ts : TimersList) (o : Owner) → AllWait ts → AllWait (unlink ts o)
unfolding unlink
AllWait-unlink [] o h = tt
AllWait-unlink (t ∷ ts) o h = elim (Bool-cases (same_owner t.owner o)) [
  | inl e ↦ rw e h.1
  | inr e ↦ rw e (h.0, AllWait-unlink ts o h.1)
]

pub delay_of-Waits :
    (ts : TimersList) (o : Owner)
    → is_timer_effective ts o ≡ true
    → AllWait ts
    → Waits o (delay_of ts o)
unfolding is_timer_effective delay_of
delay_of-Waits [] o linked h = cc
delay_of-Waits (t ∷ ts) o linked h = elim (Bool-cases (same_owner t.owner o)) [
  | inl e ↦ rw e (subst (λ (p : Owner). Waits p t.delay_sec) (same_owner-eq t.owner o e) h.0)
  | inr e ↦ rw e (delay_of-Waits ts o (ground arith) h.1)
]
