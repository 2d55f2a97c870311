-- ===== src/State/Bind.antt =====
-- Laws of the commands on the server, for proofs where the parts stay shut.
use geekchatserver.Prelude.{
  ℕ, ◌≡◌, inl, inr, sym, ◌∙◌, arith, ==_self, Option-cases, Option, none, some,
}
use geekchatserver.Platform.{Platform}
use geekchatserver.State.{Server, M, pure, ◌>>=◌, update, with_timers}
use geekchatserver.Timer.{TimersList}

module _ ⦃p : Platform⦄ where
  module _ {A B : Type 0} (m : M A) (f : A → M B) (sv : Server) where
    pub bind_some : {a : A} {sv' : Server} → m sv ≡ some (a, sv') → (m >>= f) sv ≡ f a sv'
    bind_some e = rw (e, ◌>>=◌)

    pub bind_none : m sv ≡ none → (m >>= f) sv ≡ none
    bind_none e = rw (e, ◌>>=◌)

    -- A command that ends went through both its parts.
    pub bind_inv :
        {b : B} {sv'' : Server}
        → (m >>= f) sv ≡ some (b, sv'')
        → (a : A) × (sv' : Server) × (m sv ≡ some (a, sv')) × (f a sv' ≡ some (b, sv''))
    bind_inv h = elim (Option-cases (m sv)) [
      | inl e ↦ absurd (none_some (sym (bind_none e) ∙ h))
      | inr ((a, sv'), e) ↦ (a, sv', e, sym (bind_some e) ∙ h)
    ]
      where
        none_some : {C : Type 0} {c : C} → none ≡ some c → ⊥
        none_some q = cc

  pub pure_inv :
      {A : Type 0} {a b : A} {sv sv' : Server} → pure a sv ≡ some (b, sv') → (a ≡ b) × (sv ≡ sv')
  pure_inv h = ground arith

  pub update_self : {A : Type 0} (h : ℕ → Option A) (a : ℕ) (v : Option A) → update h a v a ≡ v
  update_self h a v = rw (==_self a)

  -- The timer functions leave everything else as it was.
  pub with_timers_run :
      (f : ℕ → TimersList → Option TimersList) (sv : Server) (x : Unit {0}) (sv' : Server)
      → with_timers f sv ≡ some (x, sv')
      → (ts : TimersList) × (f sv.now sv.timers_list ≡ some ts)
        × (sv' ≡ record sv { timers_list = ts })
  with_timers_run f sv x sv' h = elim (Option-cases (f sv.now sv.timers_list)) [
    | inl e ↦ absurd (lost e h)
    | inr (ts, e) ↦ (ts, e, sym (pure_inv (sym (ran e) ∙ h)).1)
  ]
    where
      lost : f sv.now sv.timers_list ≡ none → with_timers f sv ≡ some (x, sv') → ⊥
      lost e h = ground arith

      ran :
          {ts : TimersList}
          → f sv.now sv.timers_list ≡ some ts
          → with_timers f sv ≡ some (tt, record sv { timers_list = ts })
      ran e = ground arith

  pub with_timers_inv :
      (f : ℕ → TimersList → Option TimersList) (sv : Server) (x : Unit {0}) (sv' : Server)
      → with_timers f sv ≡ some (x, sv')
      → (ts : TimersList) × (sv' ≡ record sv { timers_list = ts })
  with_timers_inv f sv x sv' h =
      let (ts, _, same_else) = with_timers_run f sv x sv' h in (ts, same_else)
