-- ===== src/Users/Frame.antt =====
-- users.c, tokens.c, friends.c, messages.c, packet.c: what a command leaves as it was in every user: the
-- account and the state of its login, `account` below. Reference counts, friends and the binding to
-- a client may change, and a user may be freed.
use geekchatserver.Prelude.{
  ℕ, ◌≡◌, inl, inr, refl, sym, ap, ◌∙◌, subst, List, arith, Bytes, Bool, true, false, ◌==◌, ==_iff,
  Bool-cases, Option-cases, Option, none, some,
}
use geekchatserver.Platform.{Platform}
use geekchatserver.State.{
  Buffer, null, live, dangling, User, Client, Server, M, pure, ◌>>=◌, get, deref, when, update,
  user_at, client_at, set_user, edit_user, edit_client, set_users_map, set_tokens_map, with_timers,
}
use geekchatserver.Timer.{Cbtimer}
use geekchatserver.State.Bind.{bind_inv, pure_inv}
use geekchatserver.Friends.Cache.{free_buffer, free_friends}

pub record Account : Type 0 where
  pub token : Bytes
  pub seed : Bytes
  pub username : Bytes
  pub password : Bytes
  pub is_online : Bool
  pub is_seed_existed : Bool

abbrev pub account : User → Account
account u = record {
  token = u.token;
  seed = u.seed;
  username = u.username;
  password = u.password;
  is_online = u.is_online;
  is_seed_existed = u.is_seed_existed;
}

-- The user that is there afterwards was there before, with the same account.
abbrev pub Kept : Option User → Option User → Type 0
Kept o none = Unit
Kept none (some v) = ⊥
Kept (some u) (some v) = account v ≡ account u

Kept-self : (o : Option User) → Kept o o
Kept-self none = tt
Kept-self (some u) = refl

pub Kept-of_eq : (o o' : Option User) → o ≡ o' → Kept o o'
Kept-of_eq o o' e = subst (λ (t : Option User). Kept o t) e (Kept-self o)

pub Kept-trans : (x y z : Option User) → Kept x y → Kept y z → Kept x z
Kept-trans x y none h k = tt
Kept-trans x none (some w) h k = absurd k
Kept-trans none (some v) (some w) h k = absurd h
Kept-trans (some u) (some v) (some w) h k = k ∙ h

module _ ⦃p : Platform⦄ where
  pub record Keeps {A : Type 0} (m : M A) : Type 0 where
    pub kept :
        (sv : Server) (a : A) (sv' : Server)
        → m sv ≡ some (a, sv')
        → (b : ℕ) → Kept (sv.users b) (sv'.users b)

  pub Keeps-bind :
      {A B : Type 0} {m : M A} {f : A → M B} → Keeps m → ((a : A) → Keeps (f a)) → Keeps (m >>= f)
  Keeps-bind {m = m} {f = f} km kf = record {
    kept = λ sv b sv'' h c.
        let (a, sv', hm, hf) = bind_inv m f sv h in
        Kept-trans (sv.users c) (sv'.users c) (sv''.users c) (km.kept sv a sv' hm c)
          ((kf a).kept sv' b sv'' hf c);
  }

  -- Commands that do not write the heap of users.
  pub Keeps-same :
      {A : Type 0} {m : M A}
      → ((sv : Server) (a : A) (sv' : Server) → m sv ≡ some (a, sv') → sv.users ≡ sv'.users)
      → Keeps m
  Keeps-same same_users = record {
    kept = λ sv a sv' h b.
        Kept-of_eq (sv.users b) (sv'.users b)
          (ap (λ (t : ℕ → Option User). t b) (same_users sv a sv' h));
  }

  pub Keeps-pure : {A : Type 0} (a : A) → Keeps (pure a)
  Keeps-pure a = Keeps-same (λ sv b sv' h. ground arith)

  pub Keeps-get : Keeps get
  Keeps-get = Keeps-same (λ sv b sv' h. ground arith)

  pub Keeps-deref : {A : Type 0} (o : Option A) → Keeps (deref o)
  Keeps-deref none = Keeps-same (λ sv b sv' h. cc)
  Keeps-deref (some a) = Keeps-pure a

  pub Keeps-user_at : (a : ℕ) → Keeps (user_at a)
  Keeps-user_at a = Keeps-same (λ sv b sv' h. ground arith)

  pub Keeps-client_at : (c : ℕ) → Keeps (client_at c)
  Keeps-client_at c = Keeps-same (λ sv b sv' h. ground arith)

  pub Keeps-edit_client : (c : ℕ) (f : Client → Client) → Keeps (edit_client c f)
  Keeps-edit_client c f = Keeps-same (λ sv b sv' h. ground arith)

  pub Keeps-with_timers : (f : ℕ → List Cbtimer → Option (List Cbtimer)) → Keeps (with_timers f)
  Keeps-with_timers f = Keeps-same (λ sv b sv' h. ground arith)

  pub Keeps-when : (b : Bool) {m : M (Unit {0})} → Keeps m → Keeps (when b m)
  Keeps-when true k = k
  Keeps-when false k = Keeps-pure tt

  pub Kept-update :
      (h : ℕ → Option User) (a b : ℕ) (u v : User)
      → h a ≡ some u
      → account v ≡ account u
      → Kept (h b) (update h a (some v) b)
  Kept-update h a b u v known same_account = elim (Bool-cases (a == b)) [
    | inl e ↦ rw e (
        subst (λ (o : Option User). Kept o (some v)) (sym (ap h (sym ((==_iff a b).0 e)) ∙ known))
          same_account)
    | inr e ↦ rw e (Kept-self (h b))
  ]

  pub edit_user_users :
      (a : ℕ) (f : User → User) (sv : Server) (u : User)
      → sv.users a ≡ some u
      → edit_user a f sv ≡ some (tt, record sv { users = update sv.users a (some (f u)) })
  edit_user_users a f sv u known = ground arith

  pub edit_user_fault :
      (a : ℕ) (f : User → User) (sv : Server) → sv.users a ≡ none → edit_user a f sv ≡ none
  edit_user_fault a f sv known = ground arith

  pub fault_inv :
      {A B : Type 0} {a : A} {sv' : Server} {o : Option (A × Server)}
      → o ≡ none
      → o ≡ some (a, sv')
      → B
  fault_inv e h = absurd (none_some (sym e ∙ h))
    where
      none_some : {C : Type 0} {c : C} → none ≡ some c → ⊥
      none_some q = cc

  pub Keeps-edit_user :
      (a : ℕ) (f : User → User) → ((u : User) → account (f u) ≡ account u) → Keeps (edit_user a f)
  Keeps-edit_user a f same_account = record {
    kept = λ sv r sv' h b. elim (Option-cases (sv.users a)) [
      | inl e ↦ fault_inv (edit_user_fault a f sv e) h
      | inr (u, e) ↦
          subst (λ (t : ℕ → Option User). Kept (sv.users b) (t b))
            (ap (λ (t : Server). t.users) (pure_inv (sym (edit_user_users a f sv u e) ∙ h)).1)
            (Kept-update sv.users a b u (f u) e (same_account u))
    ];
  }

  pub Kept-free : (h : ℕ → Option User) (a b : ℕ) → Kept (h b) (update h a none b)
  Kept-free h a b = elim (Bool-cases (a == b)) [ inl e ↦ rw e tt | inr e ↦ rw e (Kept-self (h b)) ]

  pub Keeps-free : (a : ℕ) → Keeps (set_user a none)
  Keeps-free a = record {
    kept = λ sv r sv' h b.
        subst (λ (t : ℕ → Option User). Kept (sv.users b) (t b))
          (ap (λ (t : Server). t.users) (pure_inv h).1) (Kept-free sv.users a b);
  }

  pub Keeps-set_users_map : (m : p.Map) → Keeps (set_users_map m)
  Keeps-set_users_map m = Keeps-same (λ sv b sv' h. ground arith)

  pub Keeps-set_tokens_map : (m : p.Map) → Keeps (set_tokens_map m)
  Keeps-set_tokens_map m = Keeps-same (λ sv b sv' h. ground arith)

  pub Keeps-free_buffer : (b : Buffer) → Keeps (free_buffer b)
  unfolding free_buffer
  Keeps-free_buffer null = Keeps-pure null
  Keeps-free_buffer (live names) = Keeps-pure dangling
  Keeps-free_buffer dangling = Keeps-same (λ sv b sv' h. cc)

  pub Keeps-free_friends : (a : ℕ) → Keeps (free_friends a)
  unfolding free_friends
  Keeps-free_friends a =
      Keeps-bind (Keeps-user_at a) (λ u.
        Keeps-bind (Keeps-free_buffer u.friends.buffer) (λ b. Keeps-edit_user a _ (λ v. refl)))
