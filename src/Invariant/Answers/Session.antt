-- ===== src/Invariant/Answers/Session.antt =====
-- methods/com.login.seed.request.c, com.login.request.c, com.logout.bytoken.request.c and
-- com.register.request.c: each way through a method answers the client that asked, once.
use geekchatserver.Prelude.{
  ℕ, ◌*◌, List, Bytes, same, codes, length, if◌then◌else◌, not, ◌==◌, none, is_neg,
}
use geekchatserver.Platform.{Platform}
use geekchatserver.State.{sha256_lens}
use geekchatserver.Methods.Field.{field}
use geekchatserver.Methods.LoginSeed.{give_seed, method_com_login_seed_request}
use geekchatserver.Methods.Login.{
  expected_crypto, check_login, accept_login, method_com_login_request,
}
use geekchatserver.Methods.Logout.{logout_user, method_com_logout_bytoken_request}
use geekchatserver.Methods.Register.{method_com_register_request}
use geekchatserver.Invariant.Rules.{Always-user_at, Always-deref}
use geekchatserver.Invariant.Stable.{Always-edit_user}
use geekchatserver.Invariant.Users.{
  Always-get_user_by_name, Always-is_token_effective, Always-free_token,
}
use geekchatserver.Invariant.Tokens.{
  Always-alloc_new_token, Always-bind_user_to_client, Always-get_usr_by_token,
}
use geekchatserver.Invariant.Leads.{Leads-then, Leads-if, Leads-option}
use geekchatserver.Invariant.Methods.Session.{
  Always-build_new_seed, Always-create_user_to_mysql, Always-invalid_token_to_mysql,
}
use geekchatserver.Invariant.Answers.Once.{Answers, st, lo, Answers-respond, Answers-put}

module _ ⦃p : Platform⦄ (c fd : ℕ) (before : List (ℕ × Bytes)) where
  Answers-give_seed : (a : ℕ) → Answers c fd before (give_seed c a)
  unfolding give_seed
  Answers-give_seed a = Leads-then (Always-build_new_seed st a) (λ ret.
      Leads-if (is_neg ret) (Answers-put a _ _ _) (
        Leads-then (Always-edit_user st a _)
          (λ _. Leads-then (Always-user_at a) (λ u. Answers-put a _ _ _))))

  pub Answers-method_com_login_seed_request :
      (json : p.Json) → Answers c fd before (method_com_login_seed_request c json)
  unfolding method_com_login_seed_request
  Answers-method_com_login_seed_request json =
      Leads-option (field json (codes "username")) (Answers-respond _ _ _) (λ username.
        Leads-then (Always-get_user_by_name st username) (λ answer.
          Leads-if (is_neg answer.0) (Answers-respond _ _ _)
            (Leads-then (Always-deref answer.1) (λ a. Answers-give_seed a))))

  pub Answers-method_com_register_request :
      (json : p.Json) → Answers c fd before (method_com_register_request c json)
  unfolding method_com_register_request
  Answers-method_com_register_request json =
      Leads-option (field json (codes "username")) (Answers-respond _ _ _) (λ username.
        Leads-option (field json (codes "password")) (Answers-respond _ _ _) (λ password.
          Leads-then (Always-create_user_to_mysql st username password)
            (λ ret. Answers-respond _ _ _)))

  Answers-logout_user : (a : ℕ) → Answers c fd before (logout_user c a)
  unfolding logout_user
  Answers-logout_user a = Leads-then (Always-is_token_effective st a) (λ effective.
      Leads-if (not effective) (Answers-put a _ _ _) (
        Leads-then (Always-invalid_token_to_mysql st a) (λ ret.
          Leads-if (is_neg ret) (Answers-put a _ _ _) (
            Leads-then (Always-edit_user st a _)
              (λ _. Leads-then (Always-free_token st a) (λ _. Answers-put a _ _ _))))))

  pub Answers-method_com_logout_bytoken_request :
      (json : p.Json) → Answers c fd before (method_com_logout_bytoken_request c json)
  unfolding method_com_logout_bytoken_request
  Answers-method_com_logout_bytoken_request json =
      Leads-option (field json (codes "token")) (Answers-respond _ _ _) (λ token.
        Leads-then (Always-get_usr_by_token st lo c token) (λ answer.
          Leads-option (if is_neg answer.0 then none else answer.1) (Answers-respond _ _ _)
            (λ a. Answers-logout_user a)))

  Answers-accept_login : (a : ℕ) → Answers c fd before (accept_login c a)
  unfolding accept_login
  Answers-accept_login a = Leads-then (Always-alloc_new_token st a) (λ ret.
      Leads-then (Always-user_at a) (λ u.
        Leads-then (Always-edit_user st a _)
          (λ _. Leads-then (Always-bind_user_to_client st lo a c) (λ _. Answers-put a _ _ _))))

  Answers-check_login : (a : ℕ) (crypto : Bytes) → Answers c fd before (check_login c a crypto)
  unfolding check_login
  Answers-check_login a crypto = Leads-then (Always-user_at a) (λ u.
      Leads-if (not u.is_seed_existed) (Answers-put a _ _ _) (
        Leads-if (not (same (expected_crypto u) crypto)) (Answers-put a _ _ _)
          (Leads-if u.is_online (Answers-put a _ _ _) (Answers-accept_login a))))

  pub Answers-method_com_login_request :
      (json : p.Json) → Answers c fd before (method_com_login_request c json)
  unfolding method_com_login_request
  Answers-method_com_login_request json =
      Leads-option (field json (codes "username")) (Answers-respond _ _ _) (λ username.
        Leads-option (field json (codes "crypto")) (Answers-respond _ _ _) (λ crypto.
          Leads-if (not (length crypto == sha256_lens * 2)) (Answers-respond _ _ _) (
            Leads-then (Always-get_user_by_name st username) (λ answer.
              Leads-if (is_neg answer.0) (Answers-respond _ _ _)
                (Leads-then (Always-deref answer.1) (λ a. Answers-check_login a crypto))))))
