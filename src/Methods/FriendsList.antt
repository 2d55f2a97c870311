-- ===== src/Methods/FriendsList.antt =====
-- methods/com.friends.list.request.c.
use geekchatserver.Prelude.{
  ℕ, zero, suc, List, [], ◌∷◌, Bytes, codes, if◌then◌else◌, none, some, ℤ, neg, is_neg,
}
use geekchatserver.Platform.{Platform}
use geekchatserver.State.{Buffer, null, live, dangling, M, pure, fault, ◌>>=◌, ◌>>◌, user_at}
use geekchatserver.Users.Refs.{user_put}
use geekchatserver.Tokens.Auth.{get_usr_by_token}
use geekchatserver.Packet.Respond.{respond}
use geekchatserver.Packet.Respond.{serr_success, serr_force_logout, serr_arg}
use geekchatserver.Methods.Field.{field}
use geekchatserver.Friends.Load.{get_friends_by_user}

abbrev friends_list_respond : Bytes
friends_list_respond = codes "com.friends.list.respond"

module _ ⦃p : Platform⦄ where
  abbrev pub list_answer : ℕ → p.Json → ℕ → M ℤ
  list_answer c rsp err = respond c rsp friends_list_respond (neg err)

  -- The loop over the first `n` names of the buffer; one that is not there is read out of bounds. The
  -- slots are those of `fetch_friends`, which were read as C strings there. `json_array_append` leaves
  -- the array when `json_string` gives NULL.
  unfoldable pub append_names : ℕ → List Bytes → p.Json → M p.Json
  append_names zero names array = pure array
  append_names (suc n) [] array = fault
  append_names (suc n) (name ∷ names) array =
      append_names n names
        (if p.is_utf8 name then p.json_array_append array (p.json_string name) else array)

  unfoldable pub buffer_names : Buffer → List Bytes
  buffer_names null = []
  buffer_names (live names) = names
  buffer_names dangling = []

  unfoldable pub list_friends : ℕ → ℕ → M ℤ
  unfolding append_names buffer_names
  list_friends c a = do
    ret ← get_friends_by_user a
    if is_neg ret then (user_put a >> list_answer c p.json_object serr_force_logout) else do
      u ← user_at a
      array ← append_names u.friends.num_of_friends (buffer_names u.friends.buffer) p.json_array
      user_put a
      list_answer c (p.json_object_set_new p.json_object (codes "friends") array) serr_success

  unfoldable pub method_com_friends_list_request : ℕ → p.Json → M ℤ
  unfolding list_friends
  method_com_friends_list_request c json = elim (field json (codes "token")) [
    | none ↦ list_answer c p.json_object serr_arg
    | some token ↦ do
      (ret, usr) ← get_usr_by_token c token
      elim (if is_neg ret then none else usr) [
        | none ↦ list_answer c p.json_object serr_force_logout
        | some a ↦ list_friends c a
      ]
  ]
