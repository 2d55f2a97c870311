-- ===== src/Methods/Logout/Offline.antt =====
-- methods/com.logout.bytoken.request.c: what a logout does to the account of the user.
use geekchatserver.Prelude.{
  ℕ, ◌≡◌, ◌⊎◌, inl, inr, sym, ap, ◌∙◌, arith, Bytes, if◌then◌else◌, not, Bool, true, false, Option,
  some, is_some, ℤ, pos, negsuc, neg, is_neg,
}
use geekchatserver.Platform.{Platform}
use geekchatserver.State.{User, Server, M, ◌>>=◌, ◌>>◌, edit_user}
use geekchatserver.State.Bind.{bind_inv}
use geekchatserver.Mysql.{affect_one_row, mysql_real_query_affected}
use geekchatserver.Users.Refs.{user_put}
use geekchatserver.Users.Frame.{
  Keeps, Keeps-bind, Keeps-same, Keeps-user_at, Keeps-get, Keeps-set_tokens_map, account, Account,
  Kept, Kept-trans, Kept-of_eq,
}
use geekchatserver.Users.Unchanged.{Keeps-user_put, Keeps-respond}
use geekchatserver.Tokens.Registry.{free_token, is_token_effective, is_token_in_memory}
use geekchatserver.Packet.Respond.{serr_success, serr_force_logout}
use geekchatserver.Methods.Login.Security.{Kept-account, edited}
use geekchatserver.Methods.Logout.{
  logout_user, logout_refused, logout_answer, logout_respond, invalid_token_to_mysql,
  invalid_token_query,
}

module _ ⦃p : Platform⦄ where
  set_offline : User → User
  set_offline u = record u { is_online = false }

  Keeps-affect_one_row : (query : Bytes) (success : ℤ) → Keeps (affect_one_row query success)
  unfolding affect_one_row mysql_real_query_affected
  Keeps-affect_one_row query success = Keeps-same (λ sv b sv' h. ground arith)

  Keeps-invalid_token : (a : ℕ) → Keeps (invalid_token_to_mysql a)
  unfolding invalid_token_to_mysql
  Keeps-invalid_token a =
      Keeps-bind (Keeps-user_at a)
        (λ u. Keeps-affect_one_row (invalid_token_query u.username) (pos 0))

  Keeps-free_token : (a : ℕ) → Keeps (free_token a)
  unfolding free_token
  Keeps-free_token a = Keeps-bind (Keeps-user_at a) (λ u. Keeps-bind Keeps-get (λ sv.
      Keeps-bind (Keeps-set_tokens_map (p.hashmap_remove sv.tokens_map u.token).1)
        (λ _. Keeps-user_put a)))

  Keeps-refused : (c a : ℕ) → Keeps (logout_refused c a)
  Keeps-refused c a =
      Keeps-bind (Keeps-user_put a)
        (λ _. Keeps-respond c p.json_object logout_respond (neg serr_force_logout))

  -- The last steps of a logout, after the user was set offline.
  last_steps : ℕ → ℕ → M ℤ
  last_steps c a = do free_token a; user_put a; logout_answer c serr_success

  Keeps-last_steps : (c a : ℕ) → Keeps (last_steps c a)
  unfolding last_steps
  Keeps-last_steps c a = Keeps-bind (Keeps-free_token a) (λ _.
      Keeps-bind (Keeps-user_put a)
        (λ _. Keeps-respond c p.json_object logout_respond (neg serr_success)))

  effective_inv :
      (a : ℕ) (sv : Server) {u : User} {b : Bool} {sv' : Server}
      → sv.users a ≡ some u
      → is_token_effective a sv ≡ some (b, sv')
      → (b ≡ is_some (p.hashmap_get sv.tokens_map u.token)) × (sv' ≡ sv)
  unfolding is_token_effective is_token_in_memory
  effective_inv a sv known h = ground arith

  -- What is left of a logout when the database has answered.
  when_stored : ℕ → ℕ → ℤ → M ℤ
  unfolding last_steps set_offline
  when_stored c a ret =
      if is_neg ret then logout_refused c a else (edit_user a set_offline >> last_steps c a)

  -- What became of the account of a user: nothing, or the user went offline.
  abbrev Left : User → User → Type 0
  Left u v = (account v ≡ account u) ⊎ (account v ≡ account (set_offline u))

  refused_left :
      (c a : ℕ) (sv sv' : Server) (r : ℤ) (o : Option User) {u v : User}
      → Kept o (sv.users a)
      → o ≡ some u
      → logout_refused c a sv ≡ some (r, sv')
      → sv'.users a ≡ some v
      → account v ≡ account u
  refused_left c a sv sv' r o kept known run known' =
      Kept-account o (sv'.users a)
        (Kept-trans o (sv.users a) (sv'.users a) kept ((Keeps-refused c a).kept sv r sv' run a))
        known known'

  stored-Left :
      (c a : ℕ) (ret : ℤ) (sv sv' : Server) (r : ℤ) (o : Option User) {u v : User}
      → Kept o (sv.users a)
      → o ≡ some u
      → when_stored c a ret sv ≡ some (r, sv')
      → sv'.users a ≡ some v
      → Left u v
  unfolding when_stored last_steps set_offline
  stored-Left c a (negsuc n) sv sv' r o kept known run known' =
      inl (refused_left c a sv sv' r o kept known run known')
  stored-Left c a (pos n) sv sv' r o {u} kept known run known' =
      let (x, sv1, h1, r1) = bind_inv (edit_user a set_offline) (λ _. last_steps c a) sv run in
      let (w, e, e1) = edited a set_offline sv x sv1 h1 in
      let before : account w ≡ account u = Kept-account o (sv.users a) kept known e in
      let after =
        Kept-account (sv1.users a) (sv'.users a) ((Keeps-last_steps c a).kept sv1 r sv' r1 a) e1
          known' in
      inr (after ∙ ap (λ (t : Account). record t { is_online = false }) before)

  -- A logout that ends with the user in memory has left the account as it was, or has set it offline
  -- and nothing else; the latter only if the user's token was in memory.
  pub logout_user_lem :
      (c a : ℕ) (sv sv' : Server) (r : ℤ) (u v : User)
      → sv.users a ≡ some u
      → logout_user c a sv ≡ some (r, sv')
      → sv'.users a ≡ some v
      → (account v ≡ account u)
        ⊎ ((is_some (p.hashmap_get sv.tokens_map u.token) ≡ true)
            × (account v ≡ account (record u { is_online = false })))
  unfolding logout_user when_stored last_steps set_offline
  logout_user_lem c a sv sv' r u v known run known' =
      let (eff, sv1, h1, r1) = bind_inv (is_token_effective a) _ sv run in
      let (e, same_state) = effective_inv a sv known h1 in after eff sv1 e same_state r1
    where
      after :
          (eff : Bool) (sv1 : Server)
          → eff ≡ is_some (p.hashmap_get sv.tokens_map u.token)
          → sv1 ≡ sv
          → (if not eff then logout_refused c a else (invalid_token_to_mysql a >>= when_stored c a))
              sv1
            ≡ some (r, sv')
          → (account v ≡ account u)
            ⊎ ((is_some (p.hashmap_get sv.tokens_map u.token) ≡ true)
                × (account v ≡ account (record u { is_online = false })))
      after false sv1 e same_state run1 = inl (
          refused_left c a sv1 sv' r (sv.users a)
            (Kept-of_eq (sv.users a) (sv1.users a)
              (ap (λ (t : Server). t.users a) (sym same_state)))
            known run1 known')
      after true sv1 e same_state run1 =
          let (ret, sv2, h2, r2) = bind_inv (invalid_token_to_mysql a) (when_stored c a) sv1 run1 in
          let kept =
            Kept-trans (sv.users a) (sv1.users a) (sv2.users a)
              (Kept-of_eq (sv.users a) (sv1.users a)
                (ap (λ (t : Server). t.users a) (sym same_state)))
              ((Keeps-invalid_token a).kept sv1 ret sv2 h2 a) in
          elim (stored-Left c a ret sv2 sv' r (sv.users a) kept known r2 known') [
            | inl same_account ↦ inl same_account
            | inr offline ↦ inr (sym e, offline)
          ]
