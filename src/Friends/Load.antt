-- ===== src/Friends/Load.antt =====
-- friends.c: friends read from the database and added to it.
use geekchatserver.Prelude.{
  ℕ, ◌+◌, ◌*◌, List, [], ◌∷◌, ◌++◌, Bytes, codes, length, ltb, if◌then◌else◌, ◌||◌, Bool, true,
  Option, none, some, ℤ, pos, negsuc, is_neg,
}
use geekchatserver.Platform.{Platform, Row}
use geekchatserver.State.{
  Buffer, null, live, Friends, server_username_lens, M, pure, fault, ◌>>=◌, ◌>>◌, user_at,
  edit_user, try_malloc, column, snprintf, strncpy,
}
use geekchatserver.Mysql.{mysql_real_query_result, affect_one_row}
use geekchatserver.Friends.Cache.{free_friends}

unfoldable pub friends_query : Bytes → Bytes
friends_query username =
    snprintf 100
      (codes "select username, friend from friends where username = '" ++ (username ++ codes "'"))

unfoldable pub insert_friend_query : Bytes → Bytes → Bytes
insert_friend_query username friend = snprintf 4096 (
    codes "insert into friends(username, friend) values ('"
    ++ (username ++ (codes "', '" ++ (friend ++ codes "')"))))

abbrev pub add_name : Bytes → Option (List Bytes) → Option (List Bytes)
add_name name none = none
add_name name (some names) = some (name ∷ names)

-- The buffer has 21 bytes for each of `num` names, of which `memset` sets the first 20 * num to zero.
-- `strncpy` writes 20 bytes, padded with zeros, and not the byte behind them.
abbrev pub is_terminated : ℕ → ℕ → Bytes → Bool
is_terminated num offset name =
    ltb (length name) server_username_lens
    || ltb ((server_username_lens + 1) * offset + server_username_lens) (num * server_username_lens)

module _ ⦃p : Platform⦄ where
  -- The slot at `offset`, read as a C string, as `hashmap_put` and the list of friends do. Without a
  -- zero in the slot, bytes that were never written are read: a fault.
  unfoldable pub slot_string : ℕ → ℕ → Bytes → M Bytes
  slot_string num offset name = if is_terminated num offset name then pure name else fault

  -- The loop over the rows, of which there are `num`, at `offset`: the names for the buffer, or `none`
  -- where the map has no memory.
  unfoldable pub fetch_friends : ℕ → ℕ → List Row → p.Map → M (Option (List Bytes))
  unfolding slot_string
  fetch_friends num offset [] friends_map = pure (some [])
  fetch_friends num offset (row ∷ rows) friends_map = do
    friend ← column row 1
    name ← slot_string num offset (strncpy friend server_username_lens)
    elim (p.hashmap_put friends_map name 1) [
      | none ↦ pure none
      | some friends_map' ↦
          fetch_friends num (offset + 1) rows friends_map' >>= λ names. pure (add_name name names)
    ]

  abbrev pub friends_of : Bool → ℕ → Buffer → Friends
  friends_of inited num buffer = record {
    is_inited = inited;
    num_of_friends = num;
    buffer = buffer;
  }

  unfoldable pub get_friends_by_user_from_mysql : ℕ → M ℤ
  unfolding fetch_friends mysql_real_query_result friends_query
  get_friends_by_user_from_mysql a = do
    u ← user_at a
    (ret, result) ← mysql_real_query_result (friends_query u.username)
    if is_neg ret then pure ret else elim result [
      | none ↦ pure ret
      | some rows ↦ do
        memory ← try_malloc
        elim memory [
          | none ↦ do
            edit_user a (λ v. record v { friends = record (v.friends) { buffer = null } })
            pure (negsuc 0)
          | some _ ↦ do
            names ← fetch_friends (length rows) 0 rows p.hashmap_new
            elim names [
              | none ↦ do
                edit_user a
                    (λ v. record v { friends = friends_of true v.friends.num_of_friends null })
                pure (negsuc 0)
              | some list ↦ do
                edit_user a (λ v. record v { friends = friends_of true (length rows) (live list) })
                pure ret
            ]
        ]
    ]

  unfoldable pub get_friends_by_user : ℕ → M ℤ
  unfolding get_friends_by_user_from_mysql
  get_friends_by_user a = do
    u ← user_at a
    if u.friends.is_inited then pure (pos 0) else get_friends_by_user_from_mysql a

  unfoldable pub insert_friend_to_mysql : ℕ → ℕ → M ℤ
  unfolding affect_one_row insert_friend_query
  insert_friend_to_mysql usr friend = do
    u ← user_at usr
    f ← user_at friend
    affect_one_row (insert_friend_query u.username f.username) (pos 1)

  unfoldable pub make_friend : ℕ → ℕ → M ℤ
  unfolding insert_friend_to_mysql
  make_friend usr friend = do
    ret ← insert_friend_to_mysql usr friend
    if is_neg ret then pure ret else do free_friends usr; pure ret
