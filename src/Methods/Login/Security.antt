-- ===== src/Methods/Login/Security.antt =====
-- methods/com.login.request.c: who can log in, and that one answer to a seed logs in once.
use geekchatserver.Prelude.{
  ℕ, ◌≡◌, inl, inr, sym, ap, ◌∙◌, arith, Bytes, same, eq_of_same, true, false, ==_self, Bool-cases,
  Option-cases, Option, none, some, ℤ, neg,
}
use geekchatserver.Platform.{Platform}
use geekchatserver.State.{User, Server, M, ◌>>◌, user_at, edit_user}
use geekchatserver.Users.Frame.{Keeps-bind, Keeps, Kept, account, Account}
use mathlib.Core.Option.{some-injective}
use geekchatserver.State.Bind.{bind_inv, pure_inv}
use geekchatserver.Users.Frame.{edit_user_users, edit_user_fault, fault_inv}
use geekchatserver.Users.Refs.{user_put, bind_user_to_client}
use geekchatserver.Users.Unchanged.{Keeps-user_put, Keeps-bind_user_to_client, Keeps-respond}
use geekchatserver.Tokens.Auth.{alloc_new_token}
use geekchatserver.Packet.Respond.{respond, serr_pwd_err, serr_success}
use geekchatserver.Methods.Login.{
  expected_crypto, check_login, accept_login, fail_put, login_respond,
}

module _ ⦃p : Platform⦄ where
  Keeps-fail_put : (c a err : ℕ) → Keeps (fail_put c a err)
  Keeps-fail_put c a err =
      Keeps-bind (Keeps-user_put a) (λ _. Keeps-respond c p.json_object login_respond (neg err))

  module _ (c a : ℕ) (crypto : Bytes) (sv : Server) {u : User} (known : sv.users a ≡ some u) where
    pub check_no_seed :
        u.is_seed_existed ≡ false → check_login c a crypto sv ≡ fail_put c a serr_pwd_err sv
    unfolding check_login
    check_no_seed e = ground arith

    check_wrong :
        u.is_seed_existed ≡ true
        → same (expected_crypto u) crypto ≡ false
        → check_login c a crypto sv ≡ fail_put c a serr_pwd_err sv
    unfolding check_login
    check_wrong e w = ground arith

  pub Kept-account :
      (o o' : Option User) {u v : User}
      → Kept o o'
      → o ≡ some u
      → o' ≡ some v
      → account v ≡ account u
  Kept-account none o' k e f = absurd (bottom k e)
    where
      bottom : {u : User} → Kept none o' → none ≡ some u → ⊥
      bottom k e = cc
  Kept-account (some w) none k e f = absurd (bottom f)
    where
      bottom : {v : User} → none ≡ some v → ⊥
      bottom f = cc
  Kept-account (some w) (some w') k e f =
      ap account (sym (some-injective w' _ f)) ∙ k ∙ ap account (some-injective w _ e)

  -- A refused login changes no account.
  refused :
      (c a err : ℕ) (sv sv' : Server) (r : ℤ) {u v : User}
      → sv.users a ≡ some u
      → sv'.users a ≡ some v
      → fail_put c a err sv ≡ some (r, sv')
      → account v ≡ account u
  refused c a err sv sv' r known known' h =
      Kept-account (sv.users a) (sv'.users a) ((Keeps-fail_put c a err).kept sv r sv' h a) known
        known'

  not_online :
      {A : Type 0} (u v : User)
      → u.is_online ≡ false
      → v.is_online ≡ true
      → v.is_online ≡ u.is_online
      → A
  not_online u v off on e = cc

  still_offline :
      {A : Type 0} (u v : User)
      → u.is_online ≡ false
      → v.is_online ≡ true
      → account v ≡ account u
      → A
  still_offline u v off on e = not_online u v off on (ap (λ (t : Account). t.is_online) e)

  -- Who was offline and is online after a login request had been given a seed, and the request
  -- carried the digest of that seed and the password.
  pub login_sound :
      (c a : ℕ) (crypto : Bytes) (sv sv' : Server) (r : ℤ) (u v : User)
      → sv.users a ≡ some u
      → u.is_online ≡ false
      → check_login c a crypto sv ≡ some (r, sv')
      → sv'.users a ≡ some v
      → v.is_online ≡ true
      → (u.is_seed_existed ≡ true) × (expected_crypto u ≡ crypto)
  login_sound c a crypto sv sv' r u v known off h known' on = elim (Bool-cases u.is_seed_existed) [
    | inr e ↦ still_offline u v off on (
        refused c a serr_pwd_err sv sv' r known known'
          (sym (check_no_seed c a crypto sv known e) ∙ h))
    | inl e ↦ elim (Bool-cases (same (expected_crypto u) crypto)) [
      | inr w ↦ still_offline u v off on (
          refused c a serr_pwd_err sv sv' r known known'
            (sym (check_wrong c a crypto sv known e w) ∙ h))
      | inl m ↦ (e, eq_of_same (expected_crypto u) crypto m)
    ]
  ]

  -- The last steps of an accepted login, after the token was made.
  finish_login : ℕ → ℕ → p.Json → M ℤ
  finish_login c a rsp = do
    bind_user_to_client a c
    user_put a
    respond c rsp login_respond (neg serr_success)

  Keeps-finish_login : (c a : ℕ) (rsp : p.Json) → Keeps (finish_login c a rsp)
  unfolding finish_login
  Keeps-finish_login c a rsp = Keeps-bind (Keeps-bind_user_to_client a c) (λ _.
      Keeps-bind (Keeps-user_put a) (λ _. Keeps-respond c rsp login_respond (neg serr_success)))

  pub edited :
      (a : ℕ) (f : User → User) (sv : Server) (x : Unit {0}) (sv' : Server)
      → edit_user a f sv ≡ some (x, sv')
      → (u : User) × (sv.users a ≡ some u) × (sv'.users a ≡ some (f u))
  edited a f sv x sv' h = elim (Option-cases (sv.users a)) [
    | inl e ↦ fault_inv (edit_user_fault a f sv e) h
    | inr (u, e) ↦ (
      u,
      e,
      sym (ap (λ (t : Server). t.users a) (pure_inv (sym (edit_user_users a f sv u e) ∙ h)).1)
          ∙ rw (==_self a),
    )
  ]

  mark_online : User → User
  mark_online v = record v { is_online = true; is_seed_existed = false }

  accept_login_flags :
      (c a : ℕ) (sv sv' : Server) (r : ℤ) (v : User)
      → accept_login c a sv ≡ some (r, sv')
      → sv'.users a ≡ some v
      → (v.is_online ≡ true) × (v.is_seed_existed ≡ false)
  unfolding accept_login finish_login mark_online
  accept_login_flags c a sv sv' r v h known =
      let (ret, sv1, h1, r1) = bind_inv (alloc_new_token a) _ sv h in
      let (u, sv2, h2, r2) = bind_inv (user_at a) _ sv1 r1 in
      let (x, sv3, h3, r3) = bind_inv (edit_user a mark_online) _ sv2 r2 in
      let (w, _, e) = edited a mark_online sv2 x sv3 h3 in
      let same_account =
        Kept-account (sv3.users a) (sv'.users a) ((Keeps-finish_login c a _).kept sv3 r sv' r3 a) e
          known in
      (
        ap (λ (t : Account). t.is_online) same_account,
        ap (λ (t : Account). t.is_seed_existed) same_account,
      )

  -- When an accepted login leaves the user in memory, a login request for that user in the state that
  -- it leaves, the same one sent again included, is refused with SERR_PWD_ERR on any connection.
  pub login_once :
      (c a c' : ℕ) (crypto : Bytes) (sv sv' : Server) (r : ℤ) (v : User)
      → accept_login c a sv ≡ some (r, sv')
      → sv'.users a ≡ some v
      → check_login c' a crypto sv' ≡ fail_put c' a serr_pwd_err sv'
  login_once c a c' crypto sv sv' r v h known =
      check_no_seed c' a crypto sv' known (accept_login_flags c a sv sv' r v h known).1
