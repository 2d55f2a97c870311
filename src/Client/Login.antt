-- ===== src/Client/Login.antt =====
-- client.c: the names that are typed in, and `login_to_server`.
use geekchatserver.Prelude.{
  ◌+◌, [], ◌∷◌, ◌++◌, Bytes, String, codes, length, take, ltb, if◌then◌else◌, Option, none, some, ℤ,
  pos, negsuc, is_neg,
}
use geekchatserver.Platform.{Platform}
use geekchatserver.Client.{
  packet_buffer_size, C, pure, fault, ◌>>=◌, ◌>>◌, get, modify, scan_word, overwrite,
}
use geekchatserver.Hex.{hex_to_ascii}
use geekchatserver.Packet.Respond.{zeros}
use geekchatserver.Methods.Field.{field}
use geekchatserver.Client.Packets.{send_json_object, recv_json_object}
use geekchatserver.Client.Requests.{seed_request, login_request}

-- `strcpy` and `scanf("%s", …)` into the array of the password: the bytes behind the NUL stay.
abbrev pub typed : Bytes → Bytes → Bytes
typed text array = overwrite (text ++ 0 ∷ []) array

unfoldable pub enter_names : C (Unit {0})
enter_names = do
  modify (λ ct. record ct { username = codes "root"; password = typed (codes "root") ct.password })
  username ← scan_word 21
  modify (λ ct. record ct { username = username })
  password ← scan_word 32
  modify (λ ct. record ct { password = typed password ct.password })

module _ ⦃p : Platform⦄ where
  -- The digest of 32 bytes at the seed, its NUL among them if it is the last, and of the whole array
  -- of the password.
  unfoldable pub login_crypto : Bytes → Bytes → Bytes
  login_crypto seed password = hex_to_ascii (p.sha256 (take 32 (seed ++ 0 ∷ []) ++ password))

  -- The value of a key, of a JSON that may be missing.
  abbrev answer_field : Option p.Json → String → Option Bytes
  answer_field none key = none
  answer_field (some json) key = field json (codes key)

  -- `strncpy` into the 100 bytes of the token; a longer one is left with no NUL, and read on.
  unfoldable pub store_token : Bytes → C ℤ
  store_token token =
      if ltb (length token) 100
      then (modify (λ ct. record ct { token = token }) >> pure (pos 0))
      else fault

  unfoldable pub answer_seed : Bytes → C ℤ
  answer_seed seed = if ltb (length seed + 1) 32 then fault else do
    ct ← get
    send_json_object (login_request (login_crypto seed ct.password) ct.username)
    (ret, json) ← recv_json_object
    elim (if is_neg ret then none else answer_field json "token") [
      | none ↦ pure (negsuc 0)
      | some token ↦ store_token token
    ]

  unfoldable pub login_to_server : C ℤ
  unfolding zeros
  login_to_server = do
    modify (λ ct. record ct { send_buffer = zeros packet_buffer_size })
    ct ← get
    send_json_object (seed_request ct.username)
    (ret, json) ← recv_json_object
    elim (if is_neg ret then none else answer_field json "seed") [
      | none ↦ pure (negsuc 0)
      | some seed ↦ answer_seed seed
    ]
