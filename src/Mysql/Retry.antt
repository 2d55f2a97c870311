-- ===== src/Mysql/Retry.antt =====
-- mysql_connector.c: how often a query is sent, and which round's outcome a caller gets.
use geekchatserver.Prelude.{
  ℕ, zero, suc, ◌≤◌, ◌≡◌, ◌↔◌, ◌⊎◌, inl, inr, refl, ap, subst, arith, Bytes, if◌then◌else◌, true,
  false, Bool-cases, some, ℤ, pos, negsuc, neg, is_neg,
}
use geekchatserver.Platform.{Platform}
use geekchatserver.State.{Server}
use geekchatserver.State.Bind.{pure_inv}
use geekchatserver.Mysql.{
  Round, is_gone, retry_loop, retry_count, affected_round, mysql_real_query_affected,
  affect_one_row, is_one,
}

module _ ⦃p : Platform⦄ where
  -- The connection after a number of rounds.
  abbrev pub after_rounds : {A : Type 0} → (p.Conn → Round A) → ℕ → p.Conn → p.Conn
  after_rounds body zero conn = conn
  after_rounds body (suc n) conn = after_rounds body n (body conn).conn

  -- In each of the first rounds the server was gone.
  abbrev pub AllGone : {A : Type 0} → (p.Conn → Round A) → ℕ → p.Conn → Type 0
  AllGone body zero conn = Unit
  AllGone body (suc n) conn = (is_gone (body conn).err ≡ true) × AllGone body n (body conn).conn

  -- The outcome is that of the round after `n` lost ones.
  pub record Outcome {A : Type 0} (body : p.Conn → Round A) (retry : ℕ) (conn : p.Conn)
      : Type 0 where
    pub lost : ℕ
    pub lost-le : lost ≤ retry
    pub all_gone : AllGone body lost conn
    pub last : retry_loop body retry conn ≡ body (after_rounds body lost conn)
    pub stopped : (is_gone (body (after_rounds body lost conn)).err ≡ false) ⊎ (lost ≡ retry)

  -- A query is sent again only while the server is gone, at most `retry` times more; the caller gets
  -- the outcome of the last round, which found the server unless all rounds were used up.
  pub retry_loop_lem :
      {A : Type 0} (body : p.Conn → Round A) (retry : ℕ) (conn : p.Conn) → Outcome body retry conn
  unfolding retry_loop
  retry_loop_lem body zero conn = record {
    lost = 0;
    lost-le = omega arith;
    all_gone = tt;
    last = refl;
    stopped = inr refl;
  }
  retry_loop_lem body (suc retry) conn = elim (Bool-cases (is_gone (body conn).err)) [
    | inl gone ↦
        let o = retry_loop_lem body retry (body conn).conn in
        record {
          lost = suc o.lost;
          lost-le = omega (arith, o.lost-le);
          all_gone = (gone, o.all_gone);
          last = rw gone o.last;
          stopped = elim o.stopped [ inl h ↦ inl h | inr e ↦ inr (ap suc e) ];
        }
    | inr found ↦ record {
      lost = 0;
      lost-le = omega arith;
      all_gone = tt;
      last = rw found;
      stopped = inl found;
    }
  ]

  -- What the caller makes of an error number and a number of rows.
  abbrev one_row_code : ℕ → ℤ → ℕ → ℤ
  one_row_code err rows success =
      let ret = if is_neg (neg err) then neg err else rows in
      if is_neg ret then ret else if is_one ret then pos success else negsuc 0

  one_row_code_iff :
      (err : ℕ) (rows : ℤ) (success : ℕ)
      → (is_neg (one_row_code err rows success) ≡ false) ↔ (err ≡ 0) × (rows ≡ pos 1)
  one_row_code_iff zero (pos n) success = ground arith
  one_row_code_iff zero (negsuc n) success = ground arith
  one_row_code_iff (suc e) rows success = ground arith

  -- A statement that must change one row counts as done exactly when the server reported no error
  -- and one row; the callers of `mysql_real_query_affected` see a negative code in every other case.
  pub affect_one_row_lem :
      (query : Bytes) (success : ℕ) (sv : Server) (ret : ℤ) (sv' : Server)
      → affect_one_row query (pos success) sv ≡ some (ret, sv')
      → (is_neg ret ≡ false)
        ↔ ((retry_loop (affected_round query) retry_count sv.mysql).err ≡ 0)
          × ((retry_loop (affected_round query) retry_count sv.mysql).value ≡ pos 1)
  unfolding affect_one_row mysql_real_query_affected
  affect_one_row_lem query success sv ret sv' h =
      subst
        (λ (t : ℤ).
          (is_neg t ≡ false)
          ↔ ((retry_loop (affected_round query) retry_count sv.mysql).err ≡ 0)
            × ((retry_loop (affected_round query) retry_count sv.mysql).value ≡ pos 1))
        (pure_inv h).0
        (one_row_code_iff (retry_loop (affected_round query) retry_count sv.mysql).err
          (retry_loop (affected_round query) retry_count sv.mysql).value success)
