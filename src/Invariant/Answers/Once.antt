-- ===== src/Invariant/Answers/Once.antt =====
-- packet.c: the methods that answer once, and send nothing before.
use geekchatserver.Prelude.{ℕ, List, arith, Bytes, ℤ}
use geekchatserver.Platform.{Platform}
use geekchatserver.Invariant.Stable.{IsStable}
use geekchatserver.Invariant.Tokens.{BearsLooper}
use geekchatserver.Invariant.Answers.{
  Unanswered, Answered, IsStable-Unanswered, BearsLooper-Unanswered, Leads-respond,
  Leads-answer_put,
}
use geekchatserver.Invariant.Leads.{Leads}
use geekchatserver.Packet.Respond.{respond}
use geekchatserver.State.{M, ◌>>◌}
use geekchatserver.Users.Refs.{user_put}

module _ ⦃p : Platform⦄ where
  -- What is sent is one packet, to the client.
  abbrev pub Answers : ℕ → ℕ → List (ℕ × Bytes) → {A : Type 0} → M A → Type 0
  Answers c fd before m = Leads (Unanswered c fd before 0) (Answered fd before 0) m

  module _ {c fd : ℕ} {before : List (ℕ × Bytes)} where
    abbrev pub st : IsStable (Unanswered c fd before 0)
    st = IsStable-Unanswered c fd before 0

    abbrev pub lo : BearsLooper (Unanswered c fd before 0)
    lo = BearsLooper-Unanswered c fd before 0

    pub Answers-respond :
        (json : p.Json) (method : Bytes) (err : ℤ) → Answers c fd before (respond c json method err)
    Answers-respond = Leads-respond c fd before 0 0 (omega arith)

    pub Answers-put :
        (a : ℕ) (json : p.Json) (method : Bytes) (err : ℤ)
        → Answers c fd before (user_put a >> respond c json method err)
    Answers-put = Leads-answer_put c fd before 0 0 (omega arith)
