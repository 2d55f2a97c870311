-- ===== src/Messages/Known.antt =====
-- users.c, messages.c: how the steps run that deliver one message from a sender in memory.
use geekchatserver.Prelude.{
  ℕ, suc, ◌≡◌, inl, inr, fun_ext, [], ◌∷◌, arith, Bytes, true, Bool-cases, Option, some, ℤ, pos,
}
use geekchatserver.Platform.{Platform, Row}
use geekchatserver.State.{User, Client, Server, update, inc}
use geekchatserver.State.Bind.{update_self}
use geekchatserver.Timer.{
  TimersList, user_timer, is_timer_effective, kick_timer, del_timer, insert_to_timer_list, timer_at,
  delay_of, unlink,
}
use geekchatserver.Users.Refs.{user_get, user_put}
use geekchatserver.Users.Load.{get_user_by_name}
use geekchatserver.Packet.Respond.{respond_json}
use geekchatserver.Messages.Deliver.{message_json, send_message_to, deliver_row}

-- A row of the answer, and the user at `address` who is its sender, with `others` references
-- beside one.
pub record Waiting : Type 0 where
  pub uuid : Bytes
  pub from : Bytes
  pub message : Bytes
  pub address : ℕ
  pub sender : User

abbrev pub row_of : Waiting → Row
row_of m = some m.uuid ∷ some m.from ∷ some m.message ∷ []

module _ ⦃p : Platform⦄ where
  abbrev pub counted : User → User
  counted u = record u { use_cnt = inc u.use_cnt }

  kick_timer-some :
      (now : ℕ) (ts : TimersList) (a : ℕ)
      → is_timer_effective ts (user_timer a) ≡ true
      → (ts' : TimersList) × (kick_timer now ts (user_timer a) ≡ some ts')
  unfolding kick_timer del_timer
  kick_timer-some now ts a linked =
      let o = user_timer a in
      (insert_to_timer_list (timer_at o now (delay_of ts o)) (unlink ts o), ground arith)

  pub user_get_run :
      (a : ℕ) (sv : Server) {u : User}
      → sv.users a ≡ some u
      → (ts : TimersList) × (user_get a sv
          ≡ some (tt, record sv { users = update sv.users a (some (counted u)); timers_list = ts }))
  unfolding user_get
  user_get_run a sv {u} known =
      elim (Bool-cases (is_timer_effective sv.timers_list (user_timer a))) [
        | inl linked ↦
            let (ts, kicked) = kick_timer-some sv.now sv.timers_list a linked in (ts, ground arith)
        | inr out ↦ (sv.timers_list, ground arith)
      ]

  -- A reference that is not the last is given back.
  pub user_put_run :
      (a n : ℕ) (sv : Server) (v : User)
      → sv.users a ≡ some v
      → v.use_cnt ≡ pos (suc (suc n))
      → user_put a sv
        ≡ some (
          tt,
          record sv { users = update sv.users a (some (record v { use_cnt = pos (suc n) })) },
        )
  unfolding user_put
  user_put_run a n sv v known count = ground (arith, update_self sv.users a)

  pub get_user_by_name_run :
      (name : Bytes) (a : ℕ) (sv sv' : Server)
      → p.hashmap_get sv.users_map name ≡ some a
      → user_get a sv ≡ some (tt, sv')
      → get_user_by_name name sv ≡ some ((pos 0, some a), sv')
  unfolding get_user_by_name
  get_user_by_name_run name a sv sv' known run = ground arith

  pub send_message_to_run :
      (from to c : ℕ) (uuid message : Bytes) (sv sv' : Server) (f t : User)
      → sv.users from ≡ some f
      → sv.users to ≡ some t
      → t.client ≡ some c
      → respond_json c (message_json f t uuid message) sv ≡ some (tt, sv')
      → send_message_to from to uuid message sv ≡ some (p.indeterminate, sv')
  unfolding send_message_to
  send_message_to_run from to c uuid message sv sv' f t known known' bound run = ground arith

  pub deliver_row_run :
      (c to : ℕ) (m : Waiting) (sv sv1 sv2 sv3 : Server) (ct : Client) (x : ℤ)
      → get_user_by_name m.from sv ≡ some ((pos 0, some m.address), sv1)
      → sv1.clients c ≡ some ct
      → ct.usr ≡ some to
      → send_message_to m.address to m.uuid m.message sv1 ≡ some (x, sv2)
      → user_put m.address sv2 ≡ some (tt, sv3)
      → deliver_row c (row_of m) sv ≡ some (tt, sv3)
  unfolding deliver_row
  deliver_row_run c to m sv sv1 sv2 sv3 ct x found there bound sent put = ground arith

  -- A user is restored when the references are again as many as they were.
  pub restored :
      (users : ℕ → Option User) (a n : ℕ) (u : User)
      → users a ≡ some u
      → u.use_cnt ≡ pos (suc n)
      → update
          (update users a (some (counted u)))
          a
          (some (record (counted u) { use_cnt = pos (suc n) }))
        ≡ users
  restored users a n u known count = fun_ext (λ b. ground arith)
