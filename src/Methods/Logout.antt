-- ===== src/Methods/Logout.antt =====
-- methods/com.logout.bytoken.request.c.
pub mod Offline
use geekchatserver.Prelude.{
  ℕ, zero, suc, ◌+◌, ◌-◌, ◌*◌, ◌/◌, ◌%◌, ◌^◌, ◌≤◌, ◌<◌, ◌≡◌, ◌≢◌, ◌↔◌, ◌⊎◌, inl, inr, refl, sym, ap,
  ap₂, ◌∙◌, ◌≡⟨◌⟩◌, ◌∎, subst, fun_ext, List, [], ◌∷◌, ◌++◌, map, append-nil, append_assoc, arith,
  bit_and, bit_xor, ◌>>>◌, bit_and_fifteen, bit_xor_step, bit_xor-lt, bit_and-le, Bytes, same,
  same_self, eq_of_same, String, codes, get_elem?, get_or, length, take, drop, length-append,
  length-take, length-drop, take-append-drop, take-append, drop-append, take_all, take_prefix,
  drop_prefix, drop_all, All, ltb, leb, if◌then◌else◌, ◌&&◌, ◌||◌, not, Bool, true, false, ◌==◌,
  ==_iff, ==_self, ltb→lt, leb→le, le→leb, lt→ltb, ge→ltb, Bool-cases, Option-cases, Option, none,
  some, is_some, ℤ, pos, negsuc, neg, is_neg,
}
use geekchatserver.Platform.{Platform}
use geekchatserver.State.{M, ◌>>=◌, ◌>>◌, user_at, edit_user, snprintf}
use geekchatserver.Mysql.{affect_one_row}
use geekchatserver.Users.Refs.{user_put}
use geekchatserver.Tokens.Registry.{free_token, is_token_effective}
use geekchatserver.Tokens.Auth.{get_usr_by_token}
use geekchatserver.Packet.Respond.{respond}
use geekchatserver.Packet.Respond.{serr_success, serr_force_logout, serr_arg}
use geekchatserver.Methods.Field.{field}

abbrev pub logout_respond : Bytes
logout_respond = codes "com.logout.bytoken.respond"

unfoldable pub invalid_token_query : Bytes → Bytes
invalid_token_query username =
    snprintf 200
      (codes "update users set token_valid = '0' where username = '" ++ (username ++ codes "'"))

module _ ⦃p : Platform⦄ where
  unfoldable pub invalid_token_to_mysql : ℕ → M ℤ
  unfolding affect_one_row invalid_token_query
  invalid_token_to_mysql a = do
    u ← user_at a
    affect_one_row (invalid_token_query u.username) (pos 0)

  abbrev pub logout_answer : ℕ → ℕ → M ℤ
  logout_answer c err = respond c p.json_object logout_respond (neg err)

  abbrev pub logout_refused : ℕ → ℕ → M ℤ
  logout_refused c a = do user_put a; logout_answer c serr_force_logout

  unfoldable pub logout_user : ℕ → ℕ → M ℤ
  logout_user c a = do
    effective ← is_token_effective a
    if not effective then logout_refused c a else do
      ret ← invalid_token_to_mysql a
      if is_neg ret then logout_refused c a else do
        edit_user a (λ u. record u { is_online = false })
        free_token a
        user_put a
        logout_answer c serr_success

  unfoldable pub method_com_logout_bytoken_request : ℕ → p.Json → M ℤ
  unfolding logout_user
  method_com_logout_bytoken_request c json = elim (field json (codes "token")) [
    | none ↦ logout_answer c serr_arg
    | some token ↦ do
      (ret, usr) ← get_usr_by_token c token
      elim (if is_neg ret then none else usr) [
        | none ↦ logout_answer c serr_force_logout
        | some a ↦ logout_user c a
      ]
  ]
