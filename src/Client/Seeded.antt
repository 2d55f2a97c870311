-- ===== src/Client/Seeded.antt =====
-- methods/com.login.seed.request.c, com.login.request.c, client.c: from a seed to the login that answers it.
use geekchatserver.Prelude.{
  ℕ, ◌/◌, ◌≡◌, sym, ap, ◌∙◌, arith, Bytes, codes, length, true, false, some, ℤ, pos, neg,
}
use geekchatserver.Platform.{Platform}
use geekchatserver.State.{User, server_seed_lens, server_password_lens, Server, ◌>>◌, update}
use geekchatserver.State.Bind.{update_self}
use geekchatserver.Hex.{hex_to_ascii}
use geekchatserver.Hex.Decode.{length-hex_to_ascii}
use geekchatserver.Users.Refs.{user_put}
use geekchatserver.Users.Frame.{Keeps, Keeps-bind, Account}
use geekchatserver.Users.Unchanged.{Keeps-user_put, Keeps-respond}
use geekchatserver.Tokens.Auth.{get_random_bytes}
use geekchatserver.Packet.Respond.{respond, serr_success}
use geekchatserver.Methods.LoginSeed.{build_new_seed, give_seed, seed_respond}
use geekchatserver.Methods.Login.{check_login, accept_login, fixed}
use geekchatserver.Methods.Login.Security.{Kept-account}
use geekchatserver.Client.Login.{login_crypto}
use geekchatserver.Client.Digest.{login_crypto-accepted}

module _ ⦃p : Platform⦄ where
  abbrev given : User → Bytes → User
  given u bytes = record u { seed = hex_to_ascii bytes; is_seed_existed = true }

  abbrev seed_json : User → p.Json
  seed_json u =
      p.json_object_set_new
        (p.json_object_set_new p.json_object (codes "seed") (p.json_string u.seed))
        (codes "username") (p.json_string u.username)

  -- The server after the seed was made, and after it was marked as given.
  abbrev made : Server → ℕ → User → Bytes → Server
  made sv a u bytes = record sv {
    random = (p.random_read (server_seed_lens / 2) sv.random).1;
    users = update sv.users a (some (record u { seed = hex_to_ascii bytes }));
  }

  abbrev marked : Server → ℕ → User → Bytes → Server
  marked sv a u bytes =
      let sv1 = made sv a u bytes in
      record sv1 { users = update sv1.users a (some (given u bytes)) }

  module _ (c a : ℕ) (sv : Server) {u : User} {bytes : Bytes} (known : sv.users a ≡ some u)
      (random : (p.random_read (server_seed_lens / 2) sv.random).0 ≡ some bytes) where
    build_run : build_new_seed a sv ≡ some (pos 0, made sv a u bytes)
    unfolding build_new_seed get_random_bytes
    build_run = ground arith

    give_seed_run :
        give_seed c a sv
        ≡ (user_put a >> respond c (seed_json (given u bytes)) seed_respond (neg serr_success))
            (marked sv a u bytes)
    unfolding give_seed
    give_seed_run =
        let seeded = update_self sv.users a (some (record u { seed = hex_to_ascii bytes })) in
        let again = update_self (made sv a u bytes).users a (some (given u bytes)) in
        ground (arith, build_run, seeded, again)

  Keeps-rest :
      (c a : ℕ) (json : p.Json)
      → Keeps (user_put a >> respond c json seed_respond (neg serr_success))
  Keeps-rest c a json =
      Keeps-bind (Keeps-user_put a) (λ _. Keeps-respond c json seed_respond (neg serr_success))

  -- A user who is offline asks for a seed, and 16 random bytes are there: if the user is still in memory
  -- after the answer, a login request with the digest that the client makes of the hex text of
  -- those bytes and of the user's password, zero behind it, passes all checks, on any connection.
  pub give_seed-check_login :
      (c c' a : ℕ) (sv sv' : Server) (r : ℤ) (u v : User) (bytes : Bytes)
      → sv.users a ≡ some u
      → u.is_online ≡ false
      → (p.random_read (server_seed_lens / 2) sv.random).0 ≡ some bytes
      → length bytes ≡ server_seed_lens / 2
      → give_seed c a sv ≡ some (r, sv')
      → sv'.users a ≡ some v
      → check_login c' a
          (login_crypto (hex_to_ascii bytes) (fixed server_password_lens u.password))
          sv'
        ≡ accept_login c' a sv'
  give_seed-check_login c c' a sv sv' r u v bytes known off random size run known' =
      let same_account =
        Kept-account ((marked sv a u bytes).users a) (sv'.users a)
          ((Keeps-rest c a (seed_json (given u bytes))).kept (marked sv a u bytes) r sv'
            (sym (give_seed_run c a sv known random) ∙ run) a)
          (update_self (made sv a u bytes).users a (some (given u bytes))) known' in
      let seed_is : v.seed ≡ hex_to_ascii bytes = ap (λ (t : Account). t.seed) same_account in
      ap
        (λ (s : Bytes).
          check_login c' a (login_crypto s (fixed server_password_lens u.password)) sv')
        (sym seed_is)
      ∙ login_crypto-accepted c' a sv' v (fixed server_password_lens u.password) known'
          (ap (λ (t : Account). t.is_seed_existed) same_account)
          (ap (λ (t : Account). t.is_online) same_account ∙ off)
          (ap length seed_is ∙ omega (arith, length-hex_to_ascii bytes, size))
          (ap (fixed server_password_lens) (sym (ap (λ (t : Account). t.password) same_account)))
