-- ===== src/Timer.antt =====
-- timer.c and timer.h. A `struct cbtimer` is embedded in the user, the client or the message looper
-- that owns it; its handler and argument follow from the owner, which names it here. `timers_list`
-- is the sequence of the linked timers, as the macros of list/gnu_list.h present it: a node that is
-- not linked has NULL links, so unlinking it is a fault (`none`), and so is linking a node twice,
-- which the list macros do not allow. `now` is what `get_now_time` returns.
pub mod Order
pub mod Due
pub mod Valid
pub mod Linked
use geekchatserver.Prelude.{
  ℕ, zero, suc, ◌+◌, ◌-◌, ◌*◌, ◌/◌, ◌%◌, ◌^◌, ◌≤◌, ◌<◌, ◌≡◌, ◌≢◌, ◌↔◌, ◌⊎◌, inl, inr, refl, sym, ap,
  ap₂, ◌∙◌, ◌≡⟨◌⟩◌, ◌∎, subst, fun_ext, List, [], ◌∷◌, ◌++◌, map, append-nil, append_assoc, arith,
  bit_and, bit_xor, ◌>>>◌, bit_and_fifteen, bit_xor_step, bit_xor-lt, bit_and-le, Bytes, same,
  same_self, eq_of_same, String, codes, get_elem?, get_or, length, take, drop, length-append,
  length-take, length-drop, take-append-drop, take-append, drop-append, take_all, take_prefix,
  drop_prefix, drop_all, All, ltb, leb, if◌then◌else◌, ◌&&◌, ◌||◌, not, Bool, true, false, ◌==◌,
  ==_iff, ==_self, ltb→lt, leb→le, lt→ltb, ge→ltb, Bool-cases, Option-cases, Option, none, some,
  is_some, ℤ, pos, negsuc, neg, is_neg,
}

-- Addresses of the structures that embed a timer.
pub data Owner : Type 0 where
  client_timer : ℕ → Owner
  looper_timer : ℕ → Owner
  user_timer : ℕ → Owner

unfoldable pub same_owner : Owner → Owner → Bool
same_owner (client_timer a) (client_timer b) = a == b
same_owner (looper_timer a) (looper_timer b) = a == b
same_owner (user_timer a) (user_timer b) = a == b
same_owner (client_timer a) _ = false
same_owner (looper_timer a) _ = false
same_owner (user_timer a) _ = false

pub record Cbtimer : Type 0 where
  pub owner : Owner
  pub timeout : ℕ
  pub delay_sec : ℕ

abbrev pub TimersList : Type 0
TimersList = List Cbtimer

unfoldable pub is_timer_effective : TimersList → Owner → Bool
unfolding same_owner
is_timer_effective [] o = false
is_timer_effective (t ∷ ts) o = same_owner t.owner o || is_timer_effective ts o

-- `__insert_to_timer_list`: the walk to the first timer that is not earlier, and the link before it.
unfoldable pub insert_to_timer_list : Cbtimer → TimersList → TimersList
insert_to_timer_list timer [] = timer ∷ []
insert_to_timer_list timer (t ∷ ts) =
    if leb timer.timeout t.timeout then timer ∷ t ∷ ts else t ∷ insert_to_timer_list timer ts

unfoldable pub unlink : TimersList → Owner → TimersList
unfolding same_owner
unlink [] o = []
unlink (t ∷ ts) o = if same_owner t.owner o then ts else t ∷ unlink ts o

unfoldable pub del_timer : TimersList → Owner → Option TimersList
unfolding unlink is_timer_effective
del_timer ts o = if is_timer_effective ts o then some (unlink ts o) else none

unfoldable pub delay_of : TimersList → Owner → ℕ
unfolding same_owner
delay_of [] o = 0
delay_of (t ∷ ts) o = if same_owner t.owner o then t.delay_sec else delay_of ts o

abbrev pub timer_at : Owner → ℕ → ℕ → Cbtimer
timer_at o now delay = record { owner = o; timeout = now + delay; delay_sec = delay }

unfoldable pub add_timer : ℕ → TimersList → Owner → ℕ → Option TimersList
unfolding insert_to_timer_list is_timer_effective
add_timer now ts o delay =
    if is_timer_effective ts o then none else some (insert_to_timer_list (timer_at o now delay) ts)

unfoldable pub mod_timer : ℕ → TimersList → Owner → ℕ → Option TimersList
unfolding insert_to_timer_list del_timer
mod_timer now ts o delay = elim (del_timer ts o) [
  | none ↦ none
  | some rest ↦ some (insert_to_timer_list (timer_at o now delay) rest)
]

unfoldable pub kick_timer : ℕ → TimersList → Owner → Option TimersList
unfolding insert_to_timer_list del_timer delay_of
kick_timer now ts o = elim (del_timer ts o) [
  | none ↦ none
  | some rest ↦ some (insert_to_timer_list (timer_at o now (delay_of ts o)) rest)
]

-- The owner of the node that follows: `pos->next`, or the list head (`none`).
unfoldable pub next_owner : TimersList → Owner → Option Owner
unfolding same_owner
next_owner [] o = none
next_owner (t ∷ []) o = none
next_owner (t ∷ u ∷ ts) o = if same_owner t.owner o then some u.owner else next_owner (u ∷ ts) o

unfoldable pub timeout_of : TimersList → Owner → Option ℕ
unfolding same_owner
timeout_of [] o = none
timeout_of (t ∷ ts) o = if same_owner t.owner o then some t.timeout else timeout_of ts o
