-- ===== src/Users/Unchanged.antt =====
-- users.c, messages.c, packet.c: taking and giving back references, binding, unbinding and answering
-- change no account.
use geekchatserver.Prelude.{
  ℕ, refl, arith, Bytes, if◌then◌else◌, true, false, Option, none, some, is_some, ℤ, pos,
}
use geekchatserver.Platform.{Platform}
use geekchatserver.State.{write_to, inc, dec, is_zero}
use geekchatserver.Users.Frame.{
  Keeps-bind, Keeps-same, Keeps-pure, Keeps-get, Keeps-deref, Keeps-user_at, Keeps-client_at,
  Keeps-edit_client, Keeps-with_timers, Keeps-when, Keeps-edit_user, Keeps-free,
  Keeps-set_users_map, Keeps-free_friends, Keeps,
}
use geekchatserver.Timer.{
  user_timer, looper_timer, is_timer_effective, kick_timer, del_timer, add_timer,
}
use geekchatserver.Users.Refs.{
  user_get, user_put, bind_user_to_client, unbind_user, is_user_bind, free_last,
}
use geekchatserver.Messages.Looper.{
  stop_message_looper, start_message_looper, is_message_looper_alive,
}
use geekchatserver.Packet.Respond.{respond, respond_json, json_to_raw_packet, build_simplify_json}

module _ ⦃p : Platform⦄ where
  pub Keeps-user_get : (a : ℕ) → Keeps (user_get a)
  unfolding user_get
  Keeps-user_get a =
      Keeps-bind (Keeps-edit_user a (λ u. record u { use_cnt = inc u.use_cnt }) (λ v. refl)) (λ _.
        Keeps-bind Keeps-get (λ sv.
          Keeps-when (is_timer_effective sv.timers_list (user_timer a))
            (Keeps-with_timers (λ now ts. kick_timer now ts (user_timer a)))))

  Keeps-start : (c : ℕ) → Keeps (start_message_looper c)
  unfolding start_message_looper
  Keeps-start c = Keeps-with_timers (λ now ts. add_timer now ts (looper_timer c) 0)

  Keeps-stop : (c : ℕ) → Keeps (stop_message_looper c)
  unfolding stop_message_looper
  Keeps-stop c = Keeps-with_timers (λ now ts. del_timer ts (looper_timer c))

  Keeps-alive : (c : ℕ) → Keeps (is_message_looper_alive c)
  unfolding is_message_looper_alive
  Keeps-alive c = Keeps-bind (Keeps-client_at c) (λ ct. Keeps-bind Keeps-get (λ sv.
      Keeps-pure (if ct.looper then is_timer_effective sv.timers_list (looper_timer c) else false)))

  pub Keeps-bind_user_to_client : (a c : ℕ) → Keeps (bind_user_to_client a c)
  unfolding bind_user_to_client
  Keeps-bind_user_to_client a c =
      Keeps-bind (Keeps-edit_client c (λ ct. record ct { usr = some a })) (λ _.
        Keeps-bind (Keeps-edit_user a (λ u. record u { client = some c }) (λ v. refl)) (λ _.
          Keeps-bind (Keeps-edit_client c (λ ct. record ct { looper = true }))
            (λ _. Keeps-start c)))

  pub Keeps-unbind_user : (a : ℕ) → Keeps (unbind_user a)
  unfolding unbind_user
  Keeps-unbind_user a = Keeps-bind (Keeps-user_at a) (λ u. Keeps-bind (Keeps-deref u.client) (λ c.
      Keeps-bind (Keeps-alive c) (λ alive. Keeps-bind (Keeps-when alive (Keeps-stop c)) (λ _.
        Keeps-bind (Keeps-edit_client c (λ ct. record ct { usr = none }))
          (λ _. Keeps-edit_user a (λ v. record v { client = none }) (λ v. refl))))))

  Keeps-is_user_bind : (o : Option ℕ) → Keeps (is_user_bind o)
  unfolding is_user_bind
  Keeps-is_user_bind none = Keeps-pure false
  Keeps-is_user_bind (some a) = Keeps-bind (Keeps-user_at a) (λ u. Keeps-pure (is_some u.client))

  Keeps-free_last : (a : ℕ) → Keeps (free_last a)
  unfolding free_last
  Keeps-free_last a = Keeps-bind (Keeps-user_at a) (λ u. Keeps-bind Keeps-get (λ sv.
      Keeps-bind (Keeps-set_users_map (p.hashmap_remove sv.users_map u.username).1) (λ _.
        Keeps-bind (Keeps-when u.friends.is_inited (Keeps-free_friends a)) (λ _.
          Keeps-bind (Keeps-is_user_bind (some a))
            (λ bound. Keeps-bind (Keeps-when bound (Keeps-unbind_user a)) (λ _. Keeps-free a))))))

  pub Keeps-user_put : (a : ℕ) → Keeps (user_put a)
  unfolding user_put
  Keeps-user_put a =
      Keeps-bind (Keeps-edit_user a (λ u. record u { use_cnt = dec u.use_cnt }) (λ v. refl)) (λ _.
        Keeps-bind (Keeps-user_at a) (λ u. Keeps-when (is_zero u.use_cnt) (Keeps-free_last a)))

  Keeps-json_to_raw_packet : (json : p.Json) (type : ℕ) → Keeps (json_to_raw_packet json type)
  unfolding json_to_raw_packet
  Keeps-json_to_raw_packet json type = Keeps-same (λ sv b sv' h. ground arith)

  Keeps-write_to : (fd : ℕ) (bytes : Bytes) → Keeps (write_to fd bytes)
  Keeps-write_to fd bytes = Keeps-same (λ sv b sv' h. ground arith)

  pub Keeps-respond_json : (c : ℕ) (json : p.Json) → Keeps (respond_json c json)
  unfolding respond_json
  Keeps-respond_json c json =
      Keeps-bind (Keeps-client_at c)
        (λ ct. Keeps-bind (Keeps-json_to_raw_packet json 1) (λ bytes. Keeps-write_to ct.fd bytes))

  pub Keeps-respond :
      (c : ℕ) (json : p.Json) (method : Bytes) (err : ℤ) → Keeps (respond c json method err)
  unfolding respond
  Keeps-respond c json method err =
      Keeps-bind (Keeps-respond_json c (build_simplify_json json method err))
        (λ _. Keeps-pure (pos 0))
