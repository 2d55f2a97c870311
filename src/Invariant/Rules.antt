-- ===== src/Invariant/Rules.antt =====
-- Actions that keep a property of the server, one rule for each way to build an action.
use geekchatserver.Prelude.{
  ℕ, ◌≡◌, subst, List, [], ◌∷◌, arith, get_elem?, if◌then◌else◌, Bool, true, false, Option, none,
  some,
}
use geekchatserver.Platform.{Platform, Row}
use geekchatserver.State.{
  Server, M, pure, fault, ◌>>=◌, get, deref, when, user_at, client_at, column,
}
use geekchatserver.State.Bind.{bind_inv, pure_inv}

module _ ⦃p : Platform⦄ where
  -- `m` keeps `P` wherever it returns.
  pub record Always (P : Server → Type 0) {A : Type 0} (m : M A) : Type 0 where
    pub always : (sv : Server) (a : A) (sv' : Server) → P sv → m sv ≡ some (a, sv') → P sv'

  module _ {P : Server → Type 0} where
    -- An action that returns leads to a state of which `P` is known.
    pub Always-of :
        {A : Type 0} {m : M A} (next : Server → Server)
        → ((sv : Server) (a : A) (sv' : Server) → m sv ≡ some (a, sv') → next sv ≡ sv')
        → ((sv : Server) → P sv → P (next sv))
        → Always P m
    Always-of next leads keep = record {
      always = λ sv a sv' h r. subst P (leads sv a sv' r) (keep sv h);
    }

    pub Always-bind :
        {A B : Type 0} {m : M A} {f : A → M B}
        → Always P m
        → ((a : A) → Always P (f a))
        → Always P (m >>= f)
    Always-bind {m = m} {f = f} km kf = record {
      always = λ sv b sv'' h r.
          let (a, sv', hm, hf) = bind_inv m f sv r in
          (kf a).always sv' b sv'' (km.always sv a sv' h hm) hf;
    }

    pub Always-pure : {A : Type 0} (a : A) → Always P (pure a)
    Always-pure a = Always-of (λ sv. sv) (λ sv b sv' r. (pure_inv r).1) (λ sv h. h)

    pub Always-fault : {A : Type 0} → Always P (fault {A = A})
    Always-fault = record { always = λ sv a sv' h r. absurd (lost r) }
      where
        lost : {A : Type 0} {a : A} → none ≡ some a → ⊥
        lost r = cc

    pub Always-get : Always P get
    Always-get = Always-of (λ sv. sv) (λ sv b sv' r. (pure_inv r).1) (λ sv h. h)

    pub Always-deref : {A : Type 0} (o : Option A) → Always P (deref o)
    Always-deref none = Always-fault
    Always-deref (some a) = Always-pure a

    pub Always-when : (b : Bool) {m : M (Unit {0})} → Always P m → Always P (when b m)
    Always-when true k = k
    Always-when false k = Always-pure tt

    pub Always-if :
        {A : Type 0} (b : Bool) {m n : M A}
        → Always P m
        → Always P n
        → Always P (if b then m else n)
    Always-if true k l = k
    Always-if false k l = l

    pub Always-bool :
        {A : Type 0} (b : Bool) {m n : M A}
        → Always P m
        → Always P n
        → Always P (elim b [ false ↦ m | true ↦ n ])
    Always-bool false k l = k
    Always-bool true k l = l

    pub Always-option :
        {A B : Type 0} (o : Option A) {m : M B} {f : A → M B}
        → Always P m
        → ((a : A) → Always P (f a))
        → Always P (elim o [ none ↦ m | some a ↦ f a ])
    Always-option none k l = k
    Always-option (some a) k l = l a

    pub Always-list :
        {A B : Type 0} (xs : List A) {m : M B} {f : A → List A → M B}
        → Always P m
        → ((x : A) (rest : List A) → Always P (f x rest))
        → Always P (elim xs [ [] ↦ m | x ∷ rest ↦ f x rest ])
    Always-list [] k l = k
    Always-list (x ∷ xs) k l = l x xs

    pub Always-user_at : (a : ℕ) → Always P (user_at a)
    Always-user_at a = Always-of (λ sv. sv) (λ sv b sv' r. ground arith) (λ sv h. h)

    pub Always-client_at : (c : ℕ) → Always P (client_at c)
    Always-client_at c = Always-of (λ sv. sv) (λ sv b sv' r. ground arith) (λ sv h. h)

    pub Always-column : (row : Row) (i : ℕ) → Always P (column row i)
    Always-column row i = Always-option (get_elem? row i) Always-fault (λ text. Always-deref text)

  pub ruleset always_rules = (
    Always-bind, Always-pure, Always-fault, Always-get, Always-deref, Always-when, Always-if,
    Always-option, Always-list, Always-user_at, Always-client_at, Always-column,
  )
