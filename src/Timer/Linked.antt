-- ===== src/Timer/Linked.antt =====
-- timer.c: which timers are linked after linking, unlinking and kicking one.
use geekchatserver.Prelude.{ℕ, ◌≡◌, sym, ap, ◌∙◌, ◌&&◌, ◌||◌, not, Bool, false, some}
use geekchatserver.Timer.{
  Owner, TimersList, same_owner, is_timer_effective, unlink, del_timer, delay_of, timer_at,
  add_timer, kick_timer,
}
use geekchatserver.Timer.Order.{
  is_timer_effective-insert, is_timer_effective-unlink, unlinked, relinked,
}
use geekchatserver.Timer.Valid.{IsValid, add_inv, del_inv, kick_inv}

module _ (now : ℕ) (ts : TimersList) (o p : Owner) {ts' : TimersList} where
  pub add_timer-linked :
      (delay : ℕ)
      → add_timer now ts o delay ≡ some ts'
      → is_timer_effective ts' p ≡ (same_owner o p || is_timer_effective ts p)
  add_timer-linked delay h =
      let (_, e) = add_inv now ts o delay h in
      ap (λ (t : TimersList). is_timer_effective t p) (sym e)
      ∙ is_timer_effective-insert (timer_at o now delay) ts p

  pub del_timer-linked :
      del_timer ts o ≡ some ts'
      → IsValid ts
      → is_timer_effective ts' p ≡ (not (same_owner o p) && is_timer_effective ts p)
  del_timer-linked h v =
      let (_, e) = del_inv now ts o h in
      ap (λ (t : TimersList). is_timer_effective t p) (sym e)
      ∙ is_timer_effective-unlink ts o p v.ordered

  pub kick_timer-linked :
      kick_timer now ts o ≡ some ts'
      → IsValid ts
      → is_timer_effective ts' p ≡ is_timer_effective ts p
  kick_timer-linked h v =
      let (linked, e) = kick_inv now ts o h in
      ap (λ (t : TimersList). is_timer_effective t p) (sym e)
      ∙ is_timer_effective-insert (timer_at o now (delay_of ts o)) (unlink ts o) p
      ∙ ap (λ (b : Bool). same_owner o p || b) (is_timer_effective-unlink ts o p v.ordered)
      ∙ relinked ts o p linked

pub del_timer-gone :
    (now : ℕ) (ts : TimersList) (o : Owner) {ts' : TimersList}
    → del_timer ts o ≡ some ts'
    → IsValid ts
    → is_timer_effective ts' o ≡ false
del_timer-gone now ts o h v =
    let (_, e) = del_inv now ts o h in
    ap (λ (t : TimersList). is_timer_effective t o) (sym e) ∙ unlinked ts o v.ordered
