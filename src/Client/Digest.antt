-- ===== src/Client/Digest.antt =====
-- client.c, methods/com.login.request.c: the digest that the client sends and the one that the server expects.
use geekchatserver.Prelude.{
  ℕ, ◌≡◌, sym, ap₂, ◌∙◌, [], ◌∷◌, ◌++◌, arith, Bytes, same, same_self, length, take-append, true,
  false, some,
}
use geekchatserver.Platform.{Platform}
use geekchatserver.State.{User, server_seed_lens, server_password_lens, Server}
use geekchatserver.Hex.{hex_to_ascii}
use geekchatserver.Packet.Respond.{zeros}
use geekchatserver.Methods.Login.{expected_crypto, check_login, accept_login, fixed}
use geekchatserver.Client.Login.{login_crypto}

module _ ⦃p : Platform⦄ where
  login_crypto-expected_crypto :
      (u : User) (password : Bytes)
      → length u.seed ≡ server_seed_lens
      → password ≡ fixed server_password_lens u.password
      → login_crypto u.seed password ≡ expected_crypto u
  unfolding login_crypto expected_crypto
  login_crypto-expected_crypto u password seed typed =
      let alike =
        take-append 32 u.seed (0 ∷ []) (omega (arith, seed))
        ∙ sym (take-append 32 u.seed (zeros 32) (omega (arith, seed))) in
      ap₂ (λ (s t : Bytes). hex_to_ascii (p.sha256 (s ++ t))) alike typed

  digest_matches :
      (c a : ℕ) (sv : Server) (u : User) (crypto : Bytes)
      → sv.users a ≡ some u
      → u.is_seed_existed ≡ true
      → u.is_online ≡ false
      → same (expected_crypto u) crypto ≡ true
      → check_login c a crypto sv ≡ accept_login c a sv
  unfolding check_login
  digest_matches c a sv u crypto known seeded off matches = ground arith

  -- A user who is offline and was given a seed of 32 characters: the digest that the client makes of
  -- that seed and of an array that holds the user's password, zero behind it, is accepted.
  pub login_crypto-accepted :
      (c a : ℕ) (sv : Server) (u : User) (password : Bytes)
      → sv.users a ≡ some u
      → u.is_seed_existed ≡ true
      → u.is_online ≡ false
      → length u.seed ≡ server_seed_lens
      → password ≡ fixed server_password_lens u.password
      → check_login c a (login_crypto u.seed password) sv ≡ accept_login c a sv
  login_crypto-accepted c a sv u password known seeded off seed typed =
      digest_matches c a sv u (login_crypto u.seed password) known seeded off
        (rw (login_crypto-expected_crypto u password seed typed) (same_self (expected_crypto u)))
