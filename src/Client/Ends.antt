-- ===== src/Client/Ends.antt =====
-- client.c: the loop of `recv_message` ends.
use geekchatserver.Prelude.{
  ℕ, zero, suc, ◌≤◌, ◌<◌, ◌≡◌, inl, inr, refl, sym, ap, ◌∙◌, arith, Bytes, if◌then◌else◌, Bool,
  true, false, Option-cases, Option, none, some, is_some, ℤ, pos, negsuc, is_neg,
}
use geekchatserver.Platform.{Platform}
use geekchatserver.Client.{ClientStruct, C, pure, fault, ◌>>=◌, ◌>>◌, get}
use geekchatserver.Framing.{sizeof_raw_packet}
use geekchatserver.Client.Packets.{send_json_object, recv_buffer, fetch_json, take_json}
use geekchatserver.Client.Requests.{recv_respond}
use geekchatserver.Client.Loop.{message_of, fetch_loop, rounds, recv_message}

module _ {A B : Type 0} (m : C A) (f : A → C B) (ct : ClientStruct) where
  pub bind_some : {a : A} {ct' : ClientStruct} → m ct ≡ some (a, ct') → (m >>= f) ct ≡ f a ct'
  bind_some e = rw (e, ◌>>=◌)

  bind_none : m ct ≡ none → (m >>= f) ct ≡ none
  bind_none e = rw (e, ◌>>=◌)

  pub bind_inv :
      {b : B} {ct'' : ClientStruct}
      → (m >>= f) ct ≡ some (b, ct'')
      → (a : A) × (ct' : ClientStruct) × (m ct ≡ some (a, ct')) × (f a ct' ≡ some (b, ct''))
  bind_inv h = elim (Option-cases (m ct)) [
    | inl e ↦ absurd (lost (sym (bind_none e) ∙ h))
    | inr ((a, ct'), e) ↦ (a, ct', e, sym (bind_some e) ∙ h)
  ]
    where
      lost : {b : B × ClientStruct} → none ≡ some b → ⊥
      lost q = cc

pure_inv :
    {A : Type 0} {a b : A} {ct ct' : ClientStruct}
    → pure a ct ≡ some (b, ct')
    → (a ≡ b) × (ct ≡ ct')
pure_inv h = ground arith

module _ ⦃p : Platform⦄ where
  -- A packet that was taken out leaves fewer rounds.
  fetch_json_less :
      (ct : ClientStruct) (ret : ℤ) (json : p.Json) (ct' : ClientStruct)
      → fetch_json ct ≡ some ((ret, some json), ct')
      → rounds ct'.recv_offset < rounds ct.recv_offset
  unfolding fetch_json take_json sizeof_raw_packet
  fetch_json_less ct ret json ct' run = ground arith

  send_keeps :
      (json : p.Json) (ct : ClientStruct) (x : Unit {0}) (ct' : ClientStruct)
      → send_json_object json ct ≡ some (x, ct')
      → ct'.recv_offset ≡ ct.recv_offset
  unfolding send_json_object
  send_keeps json ct x ct' run = ground arith

  -- A round that goes on acknowledges the message that it has taken out.
  goes_on : ℕ → Bytes → C (Option ℤ)
  goes_on fuel uuid = do
    ct ← get
    send_json_object (recv_respond uuid ct.token)
    fetch_loop fuel true

  after_message : ℕ → Option (Bytes × Bytes × Bytes) → C (Option ℤ)
  unfolding goes_on
  after_message fuel m = elim m [
    | none ↦ pure (some (pos 0))
    | some (from, message, uuid) ↦ goes_on fuel uuid
  ]

  -- What a round does with the result of `fetch_json`.
  after_fetch : ℕ → Bool → ℤ × Option p.Json → C (Option ℤ)
  unfolding after_message
  after_fetch fuel deleted (ret, got) = if is_neg ret then pure (some (pos 0)) else elim got [
    | none ↦ if deleted then fault else pure (some (pos 0))
    | some json ↦ after_message fuel (message_of json)
  ]

  -- The two ways in which a round ends well: the next round, and waiting for more bytes.
  pub fetch_loop_goes_on :
      (fuel : ℕ) (deleted : Bool) (ct : ClientStruct) (json : p.Json) (ct' : ClientStruct)
      (from message uuid : Bytes)
      → fetch_json ct ≡ some ((pos 0, some json), ct')
      → message_of json ≡ some (from, message, uuid)
      → fetch_loop (suc fuel) deleted ct
        ≡ (send_json_object (recv_respond uuid ct'.token) >> fetch_loop fuel true) ct'
  unfolding fetch_loop after_fetch after_message goes_on
  fetch_loop_goes_on fuel deleted ct json ct' from message uuid fetched said =
      bind_some fetch_json (after_fetch fuel deleted) ct fetched
      ∙ ap (λ (m : Option (Bytes × Bytes × Bytes)). after_message fuel m ct') said

  pub fetch_loop_waits :
      (fuel : ℕ) (deleted : Bool) (ct ct' : ClientStruct)
      → fetch_json ct ≡ some ((negsuc 0, none), ct')
      → fetch_loop (suc fuel) deleted ct ≡ some (some (pos 0), ct')
  unfolding fetch_loop after_fetch
  fetch_loop_waits fuel deleted ct ct' waiting =
      bind_some fetch_json (after_fetch fuel deleted) ct waiting

  -- A round ends the loop with a result, or goes on after a packet was taken out.
  data Turn (fuel : ℕ) (ret : ℤ) (got : Option p.Json) (ct : ClientStruct) (r : Option ℤ)
      (ct' : ClientStruct) : Type 0 where
    done : is_some r ≡ true → Turn fuel ret got ct r ct'
    more :
        (json : p.Json) (uuid : Bytes)
        → got ≡ some json
        → goes_on fuel uuid ct ≡ some (r, ct')
        → Turn fuel ret got ct r ct'

  Turn-message :
      (fuel : ℕ) (ret : ℤ) (json : p.Json) (m : Option (Bytes × Bytes × Bytes)) (ct : ClientStruct)
      (r : Option ℤ) (ct' : ClientStruct)
      → after_message fuel m ct ≡ some (r, ct')
      → Turn fuel ret (some json) ct r ct'
  unfolding after_message
  Turn-message fuel ret json none ct r ct' run = done (ap is_some (sym (pure_inv run).0))
  Turn-message fuel ret json (some (from, message, uuid)) ct r ct' run = more json uuid refl run

  turn :
      (fuel : ℕ) (deleted : Bool) (ret : ℤ) (got : Option p.Json) (ct : ClientStruct) (r : Option ℤ)
      (ct' : ClientStruct)
      → after_fetch fuel deleted (ret, got) ct ≡ some (r, ct')
      → Turn fuel ret got ct r ct'
  unfolding after_fetch
  turn fuel deleted (negsuc n) got ct r ct' run = done (ap is_some (sym (pure_inv run).0))
  turn fuel true (pos n) none ct r ct' run = cc
  turn fuel false (pos n) none ct r ct' run = done (ap is_some (sym (pure_inv run).0))
  turn fuel deleted (pos n) (some json) ct r ct' run =
      Turn-message fuel (pos n) json (message_of json) ct r ct' run

  some_rounds : (offset : ℤ) → 0 < rounds offset
  some_rounds (pos n) = omega arith
  some_rounds (negsuc n) = omega arith

  fetch_loop_ends :
      (fuel : ℕ) (deleted : Bool) (ct : ClientStruct) (r : Option ℤ) (ct' : ClientStruct)
      → rounds ct.recv_offset ≤ fuel
      → fetch_loop fuel deleted ct ≡ some (r, ct')
      → is_some r ≡ true
  unfolding fetch_loop after_fetch after_message goes_on
  fetch_loop_ends zero deleted ct r ct' enough run =
      absurd (omega (arith, enough, some_rounds ct.recv_offset))
  fetch_loop_ends (suc fuel) deleted ct r ct' enough run =
      let again = λ (mid : ClientStruct). fetch_loop_ends fuel true mid r ct' in
      let ((ret, got), ct1, r1, r2) = bind_inv fetch_json (after_fetch fuel deleted) ct run in
      elim (turn fuel deleted ret got ct1 r ct' r2) [
        | done ended ↦ ended
        | more json uuid taken on ↦
            let (x, ct2, r3, r4) =
              bind_inv (send_json_object (recv_respond uuid ct1.token)) (λ _. fetch_loop fuel true)
                ct1 on in
            let less =
              fetch_json_less ct ret json ct1
                (r1 ∙ ap (λ (o : Option p.Json). some ((ret, o), ct1)) taken) in
            again ct2
              (omega (
                arith,
                enough,
                less,
                ap rounds (send_keeps (recv_respond uuid ct1.token) ct1 x ct2 r3),
              ))
              r4
      ]

  -- Whatever was read, a `recv_message` that meets no fault comes to a result: the fuel of its loop,
  -- one more than the bytes that are counted in the buffer, is enough.
  pub recv_message_ends :
      (ct : ClientStruct) (r : Option ℤ) (ct' : ClientStruct)
      → recv_message ct ≡ some (r, ct')
      → is_some r ≡ true
  unfolding recv_message
  recv_message_ends ct r ct' run =
      let (ret, ct1, r1, r2) = bind_inv recv_buffer _ ct run in ended ret ct1 r2
    where
      ended :
          (ret : ℤ) (ct1 : ClientStruct)
          → (if is_neg ret
                then pure (some (negsuc 0))
                else fetch_loop (rounds ct1.recv_offset) false)
              ct1
            ≡ some (r, ct')
          → is_some r ≡ true
      ended (negsuc n) ct1 run = ap is_some (sym (pure_inv run).0)
      ended (pos n) ct1 run =
          fetch_loop_ends (rounds ct1.recv_offset) false ct1 r ct' (omega arith) run
