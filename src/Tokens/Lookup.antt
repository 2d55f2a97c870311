-- ===== src/Tokens/Lookup.antt =====
-- tokens.c: a token that was put into effect is looked up to its user.
use geekchatserver.Prelude.{
  ℕ, ◌≡◌, inl, inr, ◌∙◌, arith, Bytes, same, same_self, codes, true, false, Bool-cases, some, pos,
}
use geekchatserver.Platform.{Platform}
use geekchatserver.State.{User, Server, update, inc}
use geekchatserver.State.Bind.{update_self}
use geekchatserver.Timer.{
  insert_to_timer_list, timer_at, TimersList, Owner, user_timer, is_timer_effective, kick_timer,
  del_timer, insert_to_timer_list, timer_at, unlink, delay_of,
}
use geekchatserver.Users.Refs.{user_get}
use geekchatserver.Tokens.Registry.{try_effect_token}
use geekchatserver.Tokens.Auth.{get_usr_by_token}

module _ ⦃p : Platform⦄ where
  abbrev user_got : User → User
  user_got u = record u { use_cnt = inc u.use_cnt }

  -- The server after `user_get`: one more reference, and the timer of the user perhaps kicked.
  abbrev pub got : Server → ℕ → User → TimersList → Server
  got sv a u ts = record sv { users = update sv.users a (some (user_got u)); timers_list = ts }

  kick-del :
      (now : ℕ) (ts : TimersList) (o : Owner) {rest : TimersList}
      → del_timer ts o ≡ some rest
      → kick_timer now ts o ≡ some (insert_to_timer_list (timer_at o now (delay_of ts o)) rest)
  unfolding kick_timer
  kick-del now ts o d = ground arith

  del-linked :
      (ts : TimersList) (o : Owner)
      → is_timer_effective ts o ≡ true
      → del_timer ts o ≡ some (unlink ts o)
  unfolding del_timer
  del-linked ts o linked = ground arith

  kick-linked :
      (now : ℕ) (ts : TimersList) (o : Owner)
      → is_timer_effective ts o ≡ true
      → (ts' : TimersList) × (kick_timer now ts o ≡ some ts')
  kick-linked now ts o linked = (_, kick-del now ts o (del-linked ts o linked))

  module _ (a : ℕ) (sv : Server) {u : User} (known : sv.users a ≡ some u) where
    user_get_idle :
        is_timer_effective sv.timers_list (user_timer a) ≡ false
        → user_get a sv ≡ some (tt, got sv a u sv.timers_list)
    unfolding user_get
    user_get_idle idle = ground arith

    user_get_linked :
        {ts : TimersList}
        → is_timer_effective sv.timers_list (user_timer a) ≡ true
        → kick_timer sv.now sv.timers_list (user_timer a) ≡ some ts
        → user_get a sv ≡ some (tt, got sv a u ts)
    unfolding user_get
    user_get_linked linked k = ground arith

    -- `user_get` on a user in memory has no fault.
    pub user_get_total : (ts : TimersList) × (user_get a sv ≡ some (tt, got sv a u ts))
    user_get_total = elim (Bool-cases (is_timer_effective sv.timers_list (user_timer a))) [
      | inl linked ↦
          let (ts, k) = kick-linked sv.now sv.timers_list (user_timer a) linked in
          (ts, user_get_linked linked k)
      | inr idle ↦ (sv.timers_list, user_get_idle idle)
    ]

  -- What the two token operations do once `user_get` is known to succeed.
  module _ (a : ℕ) (sv : Server) {u : User} {m' : p.Map} (known : sv.users a ≡ some u)
      (named : same (codes "NULL") u.token ≡ false)
      (put : p.hashmap_put sv.tokens_map u.token a ≡ some m') where
    with_token : Server
    with_token = record sv { tokens_map = m' }

    effect_token_run :
        (ts : TimersList)
        → user_get a with_token ≡ some (tt, got with_token a u ts)
        → try_effect_token a sv ≡ some (pos 0, got with_token a u ts)
    unfolding try_effect_token with_token
    effect_token_run ts g = ground arith

    found_after :
        (ts : TimersList) → p.hashmap_get (got with_token a u ts).tokens_map u.token ≡ some a
    unfolding with_token
    found_after ts = p.get_put sv.tokens_map m' u.token u.token a put ∙ rw (same_self u.token)

    has_user : with_token.users a ≡ some u
    unfolding with_token
    has_user = known

  lookup_run :
      (c a : ℕ) (token : Bytes) (sv sv' : Server)
      → p.hashmap_get sv.tokens_map token ≡ some a
      → user_get a sv ≡ some (tt, sv')
      → get_usr_by_token c token sv ≡ some ((pos 0, some a), sv')
  unfolding get_usr_by_token
  lookup_run c a token sv sv' found g = ground arith

  -- A user whose token is not the text "NULL" and is put into the map stands for that token:
  -- registering it succeeds, and whoever presents the token is then given this user, with one
  -- reference more for the map and one for the caller. No token is excepted, the empty one of a
  -- user without a token in the database included.
  pub try_effect_token-get_usr_by_token :
      (a c : ℕ) (sv : Server) (u : User) (m' : p.Map)
      → sv.users a ≡ some u
      → same (codes "NULL") u.token ≡ false
      → p.hashmap_put sv.tokens_map u.token a ≡ some m'
      → (sv' : Server) × (sv'' : Server) × (try_effect_token a sv ≡ some (pos 0, sv'))
        × (get_usr_by_token c u.token sv' ≡ some ((pos 0, some a), sv''))
        × (sv''.users a ≡ some (record u { use_cnt = inc (inc u.use_cnt) }))
  try_effect_token-get_usr_by_token a c sv u m' known named put =
      let (ts, g) =
        user_get_total a (with_token a sv known named put) (has_user a sv known named put) in
      let sv' = got (with_token a sv known named put) a u ts in
      let (ts', g') =
        user_get_total a sv'
          (update_self (with_token a sv known named put).users a (some (user_got u))) in
      (
        sv',
        got sv' a (user_got u) ts',
        effect_token_run a sv known named put ts g,
        lookup_run c a u.token sv' (got sv' a (user_got u) ts')
            (found_after a sv known named put ts) g',
        update_self sv'.users a _,
      )
