-- ===== src/Invariant/Leads.antt =====
-- Actions that lead from one property of the server to another, one rule for each way to build one.
use geekchatserver.Prelude.{
  ℕ, ◌≡◌, sym, ap, ◌∙◌, subst, arith, if◌then◌else◌, Bool, true, false, Option, none, some,
}
use geekchatserver.Platform.{Platform}
use geekchatserver.State.{Client, Server, M, ◌>>=◌, get, client_at}
use geekchatserver.State.Bind.{bind_inv, pure_inv}
use geekchatserver.Invariant.Rules.{Always}

module _ ⦃p : Platform⦄ where
  -- Where `m` returns from a state with `P`, the state has `Q`.
  pub record Leads (P Q : Server → Type 0) {A : Type 0} (m : M A) : Type 0 where
    pub leads : (sv : Server) (a : A) (sv' : Server) → P sv → m sv ≡ some (a, sv') → Q sv'

  module _ {P Q : Server → Type 0} where
    -- An action that returns leads to a state of which `Q` is known.
    pub Leads-of :
        {A : Type 0} {m : M A} (next : Server → Server)
        → ((sv : Server) (a : A) (sv' : Server) → m sv ≡ some (a, sv') → next sv ≡ sv')
        → ((sv : Server) → P sv → Q (next sv))
        → Leads P Q m
    Leads-of next runs reach = record {
      leads = λ sv a sv' h r. subst Q (runs sv a sv' r) (reach sv h);
    }

    pub Leads-bind :
        {A B : Type 0} (R : Server → Type 0) {m : M A} {f : A → M B}
        → Leads P R m
        → ((a : A) → Leads R Q (f a))
        → Leads P Q (m >>= f)
    Leads-bind R {m} {f} km kf = record {
      leads = λ sv b sv'' h r.
          let (a, sv', hm, hf) = bind_inv m f sv r in
          (kf a).leads sv' b sv'' (km.leads sv a sv' h hm) hf;
    }

    pub Leads-then :
        {A B : Type 0} {m : M A} {f : A → M B}
        → Always P m
        → ((a : A) → Leads P Q (f a))
        → Leads P Q (m >>= f)
    Leads-then {m = m} {f = f} km kf = record {
      leads = λ sv b sv'' h r.
          let (a, sv', hm, hf) = bind_inv m f sv r in
          (kf a).leads sv' b sv'' (km.always sv a sv' h hm) hf;
    }

    -- What is read of the map of clients is the map of the state that follows.
    pub Leads-get :
        {B : Type 0} {f : Server → M B}
        → ((sv : Server) → Leads (λ sv'. P sv' × (sv'.clients_map ≡ sv.clients_map)) Q (f sv))
        → Leads P Q (get >>= f)
    Leads-get {f = f} kf = record {
      leads = λ sv b sv'' h r.
          let (seen, sv', hm, hf) = bind_inv get f sv r in
          let (same_seen, same_state) = pure_inv hm in
          (kf seen).leads sv' b sv''
            (subst P same_state h, ap (λ (t : Server). t.clients_map) (sym same_state ∙ same_seen))
            hf;
    }

    pub Leads-if :
        {A : Type 0} (b : Bool) {m n : M A}
        → Leads P Q m
        → Leads P Q n
        → Leads P Q (if b then m else n)
    Leads-if true k l = k
    Leads-if false k l = l

    pub Leads-option :
        {A B : Type 0} (o : Option A) {m : M B} {f : A → M B}
        → Leads P Q m
        → ((a : A) → Leads P Q (f a))
        → Leads P Q (elim o [ none ↦ m | some a ↦ f a ])
    Leads-option none k l = k
    Leads-option (some a) k l = l a

  -- What is known of the first state beside the property is not needed.
  pub Leads-Always :
      {P Q : Server → Type 0} {A : Type 0} {m : M A} → Always P m → Leads (λ sv. P sv × Q sv) P m
  Leads-Always k = record { leads = λ sv a sv' h r. k.always sv a sv' h.0 r }

  pub Always→Leads : {P : Server → Type 0} {A : Type 0} {m : M A} → Always P m → Leads P P m
  Always→Leads k = record { leads = k.always }

  pub Leads→Always : {P : Server → Type 0} {A : Type 0} {m : M A} → Leads P P m → Always P m
  Leads→Always k = record { always = k.leads }

  client_at_inv :
      (c : ℕ) {sv : Server} {ct : Client} {sv' : Server}
      → client_at c sv ≡ some (ct, sv')
      → (sv.clients c ≡ some ct) × (sv ≡ sv')
  client_at_inv c r = ground arith

  -- The client that is read is the one in memory.
  pub Leads-client_at :
      {P Q : Server → Type 0} {B : Type 0} (c : ℕ) {f : Client → M B}
      → ((ct : Client) → Leads (λ sv. P sv × (sv.clients c ≡ some ct)) Q (f ct))
      → Leads P Q (client_at c >>= f)
  Leads-client_at {P} c {f} kf = record {
    leads = λ sv b sv'' h r.
        let (ct, sv', hm, hf) = bind_inv (client_at c) f sv r in
        let (known, same_state) = client_at_inv c hm in
        (kf ct).leads sv' b sv''
          (subst (λ (t : Server). P t × (t.clients c ≡ some ct)) same_state (h, known)) hf;
  }
