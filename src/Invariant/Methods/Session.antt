-- ===== src/Invariant/Methods/Session.antt =====
-- methods/com.login.seed.request.c, com.login.request.c, com.logout.bytoken.request.c and
-- com.register.request.c: what they keep.
use geekchatserver.Prelude.{
  ℕ, ◌*◌, ◌/◌, Bytes, codes, length, if◌then◌else◌, not, ◌==◌, none, pos, negsuc, is_neg,
}
use geekchatserver.Platform.{Platform}
use geekchatserver.State.{server_seed_lens, sha256_lens, Server}
use geekchatserver.Hex.{hex_to_ascii}
use geekchatserver.Methods.Field.{field}
use geekchatserver.Methods.LoginSeed.{build_new_seed, give_seed, method_com_login_seed_request}
use geekchatserver.Methods.Login.{check_login, accept_login, method_com_login_request}
use geekchatserver.Methods.Logout.{
  invalid_token_to_mysql, logout_user, method_com_logout_bytoken_request,
}
use geekchatserver.Methods.Register.{create_user_to_mysql, method_com_register_request}
use geekchatserver.Invariant.Rules.{
  Always, Always-bind, Always-pure, Always-deref, Always-if, Always-option,
}
use geekchatserver.Invariant.Stable.{
  IsStable, stable_rules, Always-edit_user, Always-get_random_bytes,
}
use geekchatserver.Invariant.Bears.{BearsSent}
use geekchatserver.Invariant.Users.{
  Always-get_user_by_name, Always-affect_one_row, Always-is_token_effective, Always-free_token,
}
use geekchatserver.Invariant.Messages.{Always-answer_put, Always-respond}
use geekchatserver.Invariant.Tokens.{
  BearsLooper, Always-alloc_new_token, Always-bind_user_to_client, Always-get_usr_by_token,
}

module _ ⦃p : Platform⦄ {P : Server → Type 0} (st : IsStable P) where
  pub Always-build_new_seed : (a : ℕ) → Always P (build_new_seed a)
  unfolding build_new_seed
  Always-build_new_seed a = Always-bind (Always-get_random_bytes st (server_seed_lens / 2)) (λ raw.
      Always-option raw (Always-pure (negsuc 0)) (λ bytes.
        Always-bind (Always-edit_user st a (λ u. record u { seed = hex_to_ascii bytes }))
          (λ _. Always-pure (pos 0))))

  pub Always-create_user_to_mysql :
      (username password : Bytes) → Always P (create_user_to_mysql username password)
  unfolding create_user_to_mysql
  Always-create_user_to_mysql username password = Always-affect_one_row st _ _

  pub Always-invalid_token_to_mysql : (a : ℕ) → Always P (invalid_token_to_mysql a)
  unfolding invalid_token_to_mysql
  Always-invalid_token_to_mysql a = search (stable_rules, Always-affect_one_row)

module _ ⦃p : Platform⦄ {P : Server → Type 0} (st : IsStable P) (se : BearsSent P) where
  Always-give_seed : (c a : ℕ) → Always P (give_seed c a)
  unfolding give_seed
  Always-give_seed c a = search (stable_rules, Always-build_new_seed st, Always-answer_put) depth 20

  pub Always-method_com_login_seed_request :
      (c : ℕ) (json : p.Json) → Always P (method_com_login_seed_request c json)
  unfolding method_com_login_seed_request
  Always-method_com_login_seed_request c json =
      Always-option (field json (codes "username")) (Always-respond st se _ _ _ _) (λ username.
        Always-bind (Always-get_user_by_name st username) (λ answer.
          Always-if (is_neg answer.0) (Always-respond st se _ _ _ _)
            (Always-bind (Always-deref answer.1) (λ a. Always-give_seed c a))))

  pub Always-method_com_register_request :
      (c : ℕ) (json : p.Json) → Always P (method_com_register_request c json)
  unfolding method_com_register_request
  Always-method_com_register_request c json =
      Always-option (field json (codes "username")) (Always-respond st se _ _ _ _) (λ username.
        Always-option (field json (codes "password")) (Always-respond st se _ _ _ _) (λ password.
          Always-bind (Always-create_user_to_mysql st username password)
            (λ ret. Always-respond st se _ _ _ _)))

  Always-logout_user : (c a : ℕ) → Always P (logout_user c a)
  unfolding logout_user
  Always-logout_user c a =
      search
        (
          stable_rules,
          Always-is_token_effective,
          Always-invalid_token_to_mysql st,
          Always-free_token,
          Always-answer_put,
        )
        depth 20

  module _ (lo : BearsLooper P) where
    Always-accept_login : (c a : ℕ) → Always P (accept_login c a)
    unfolding accept_login
    Always-accept_login c a =
        search (stable_rules, Always-alloc_new_token, Always-bind_user_to_client, Always-answer_put)
          depth 20

    Always-check_login : (c a : ℕ) (crypto : Bytes) → Always P (check_login c a crypto)
    unfolding check_login
    Always-check_login c a crypto =
        search (stable_rules, Always-accept_login, Always-answer_put) depth 20

    pub Always-method_com_login_request :
        (c : ℕ) (json : p.Json) → Always P (method_com_login_request c json)
    unfolding method_com_login_request
    Always-method_com_login_request c json =
        Always-option (field json (codes "username")) (Always-respond st se _ _ _ _) (λ username.
          Always-option (field json (codes "crypto")) (Always-respond st se _ _ _ _) (λ crypto.
            Always-if (not (length crypto == sha256_lens * 2)) (Always-respond st se _ _ _ _) (
              Always-bind (Always-get_user_by_name st username) (λ answer.
                Always-if (is_neg answer.0) (Always-respond st se _ _ _ _)
                  (Always-bind (Always-deref answer.1) (λ a. Always-check_login c a crypto))))))

    pub Always-method_com_logout_bytoken_request :
        (c : ℕ) (json : p.Json) → Always P (method_com_logout_bytoken_request c json)
    unfolding method_com_logout_bytoken_request
    Always-method_com_logout_bytoken_request c json =
        Always-option (field json (codes "token")) (Always-respond st se _ _ _ _) (λ token.
          Always-bind (Always-get_usr_by_token st lo c token) (λ answer.
            Always-option (if is_neg answer.0 then none else answer.1)
              (Always-respond st se _ _ _ _) (λ a. Always-logout_user c a)))
