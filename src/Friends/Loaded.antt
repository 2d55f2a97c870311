-- ===== src/Friends/Loaded.antt =====
-- friends.c, methods/com.friends.list.request.c: the names that are loaded, and the list that is answered.
use geekchatserver.Prelude.{
  ℕ, zero, suc, ◌+◌, ◌≤◌, ◌<◌, ◌≡◌, refl, sym, ap, ◌∙◌, List, [], ◌∷◌, ◌++◌, map, append-nil,
  append_assoc, arith, Bytes, codes, get_elem?, length, take, take_all, All, true, false, lt→ltb,
  Option, none, some, pos,
}
use geekchatserver.Platform.{Platform, Row}
use geekchatserver.State.{
  live, User, server_username_lens, Server, pure, ◌>>=◌, ◌>>◌, update, strncpy,
}
use geekchatserver.State.Bind.{bind_some, update_self}
use geekchatserver.Packet.Table.{HasRoom}
use geekchatserver.Mysql.{mysql_real_query_result, Round, retry_loop, result_round, retry_count}
use geekchatserver.Methods.FriendsList.{append_names, buffer_names, list_friends, list_answer}
use geekchatserver.Users.Refs.{user_put}
use geekchatserver.Packet.Respond.{serr_success}
use geekchatserver.Friends.Load.{
  friends_query, slot_string, fetch_friends, add_name, friends_of, get_friends_by_user_from_mysql,
  get_friends_by_user,
}

-- The name in a row of the friends: its second column.
abbrev pub friend_name : Row → Bytes
friend_name row = elim (get_elem? row 1) [
  | none ↦ []
  | some value ↦ elim value [ none ↦ [] | some text ↦ text ]
]

module _ ⦃p : Platform⦄ where
  -- The row has a second column that is no NULL but a text of at most 19 bytes in UTF-8.
  abbrev pub HasName : Row → Type 0
  HasName row =
      (text : Bytes) × (get_elem? row 1 ≡ some (some text))
      × (length text < 20)
      × (p.is_utf8 text ≡ true)

  short_name : (text : Bytes) → length text < 20 → strncpy text server_username_lens ≡ text
  short_name text h = take_short 20 text (omega arith)
    where
      take_short : (n : ℕ) (xs : Bytes) → length xs ≤ n → take n xs ≡ xs
      take_short zero [] h = refl
      take_short (suc n) [] h = refl
      take_short zero (x ∷ xs) h = absurd (omega arith)
      take_short (suc n) (x ∷ xs) h = ap (λ (t : Bytes). x ∷ t) (take_short n xs (omega arith))

  name_is : (row : Row) (text : Bytes) → get_elem? row 1 ≡ some (some text) → friend_name row ≡ text
  name_is row text e = rw (friend_name, e) refl

  slot_run :
      (num offset : ℕ) (text : Bytes) (sv : Server)
      → length text < 20
      → slot_string num offset text sv ≡ some (text, sv)
  unfolding slot_string
  slot_run num offset text sv h = rw (lt→ltb (length text) 20 h) refl

  fetch_friends_row :
      (num offset : ℕ) (row : Row) (rows : List Row) (m m' : p.Map) (text : Bytes) (sv : Server)
      → get_elem? row 1 ≡ some (some text)
      → length text < 20
      → p.hashmap_put m text 1 ≡ some m'
      → fetch_friends num offset (row ∷ rows) m sv
        ≡ (fetch_friends num (offset + 1) rows m' >>= λ names. pure (add_name text names)) sv
  unfolding fetch_friends
  fetch_friends_row num offset row rows m m' text sv e h put =
      rw (e, ◌>>=◌, short_name text h, slot_run num offset text sv h, put) refl

  -- Where every row has a name and the map has memory, the loop over the rows gives their names, in the
  -- order of the rows.
  pub fetch_friends_lem :
      HasRoom
      → (num offset : ℕ) (rows : List Row) (m : p.Map) (sv : Server) → All HasName rows
      → fetch_friends num offset rows m sv ≡ some (some (map friend_name rows), sv)
  unfolding fetch_friends
  fetch_friends_lem room num offset [] m sv all = refl
  fetch_friends_lem room num offset (row ∷ rows) m sv all =
      let (text, e, short, _) = all.0 in
      let (m', put) = room m text 1 in
      fetch_friends_row num offset row rows m m' text sv e short put
      ∙ bind_some (fetch_friends num (offset + 1) rows m') (λ names. pure (add_name text names)) sv
          (fetch_friends_lem room num (offset + 1) rows m' sv all.1)
      ∙ ap (λ (n : Bytes). some (some (n ∷ map friend_name rows), sv)) (sym (name_is row text e))

  -- The JSON texts of the names in the rows.
  abbrev pub texts_of : List Row → List p.Json
  texts_of rows = map (λ row. p.json_string (friend_name row)) rows

  append_names-texts_of :
      (rows : List Row) (array : p.Json) (vs : List p.Json) (sv : Server)
      → All HasName rows
      → p.json_array_values array ≡ some vs
      → (array' : p.Json) × (append_names (length rows) (map friend_name rows) array sv
          ≡ some (array', sv))
        × (p.json_array_values array' ≡ some (vs ++ texts_of rows))
  unfolding append_names
  append_names-texts_of [] array vs sv all e = (array, refl, e ∙ ap some (sym (append-nil vs)))
  append_names-texts_of (row ∷ rows) array vs sv all e =
      let (text, named, _, utf8) = all.0 in
      let name = friend_name row in
      let is_text = ap p.is_utf8 (name_is row text named) ∙ utf8 in
      let next = p.json_array_append array (p.json_string name) in
      let (array', run, values) =
        append_names-texts_of rows next (vs ++ p.json_string name ∷ []) sv all.1
          (p.values_append array (p.json_string name) vs e) in
      (
        array',
        rw is_text run,
        values ∙ ap some (append_assoc vs (p.json_string name ∷ []) (texts_of rows)),
      )

  abbrev pub asked : Server → Bytes → Round (Option (List Row))
  asked sv username = retry_loop (result_round (friends_query username)) retry_count sv.mysql

  -- The server after the friends of a user were loaded.
  abbrev pub loaded : Server → ℕ → User → List Row → Server
  loaded sv a u rows = record sv {
    mysql = (asked sv u.username).conn;
    mallocs = sv.mallocs + 1;
    users =
        update sv.users a (
          some
            (record u { friends = friends_of true (length rows) (live (map friend_name rows)) }));
  }

  module _ (a : ℕ) (sv : Server) {u : User} {rows : List Row} (known : sv.users a ≡ some u)
      (no_error : (asked sv u.username).err ≡ 0) (stored : (asked sv u.username).value ≡ some rows)
      (memory : p.malloc sv.mallocs ≡ true) (room : HasRoom) (named : All HasName rows) where
    query_run :
        mysql_real_query_result (friends_query u.username) sv
        ≡ some ((pos 0, some rows), record sv { mysql = (asked sv u.username).conn })
    unfolding mysql_real_query_result
    query_run = rw (no_error, stored) refl

    load_run : get_friends_by_user_from_mysql a sv ≡ some (pos 0, loaded sv a u rows)
    unfolding get_friends_by_user_from_mysql
    load_run =
        let queried = record sv { mysql = (asked sv u.username).conn } in
        let fetched =
          fetch_friends_lem room (length rows) 0 rows p.hashmap_new
            (record queried { mallocs = sv.mallocs + 1 }) named in
        ground (arith, known, query_run, memory, fetched)

    get_friends_run :
        u.friends.is_inited ≡ false → get_friends_by_user a sv ≡ some (pos 0, loaded sv a u rows)
    unfolding get_friends_by_user
    get_friends_run fresh = ground (arith, known, load_run)

    loaded_user :
        (loaded sv a u rows).users a
        ≡ some (record u { friends = friends_of true (length rows) (live (map friend_name rows)) })
    loaded_user = update_self sv.users a _

    list_run :
        (c : ℕ) (array : p.Json)
        → u.friends.is_inited ≡ false
        → append_names (length rows) (map friend_name rows) p.json_array (loaded sv a u rows)
          ≡ some (array, loaded sv a u rows)
        → list_friends c a sv
          ≡ (user_put a
                >> list_answer c
                    (p.json_object_set_new p.json_object (codes "friends") array)
                    serr_success)
              (loaded sv a u rows)
    unfolding list_friends buffer_names
    list_run c array fresh names = ground (arith, get_friends_run fresh, loaded_user, names)

  -- A request for the list of friends of a user whose friends were not loaded yet: where the query has
  -- no error and gives rows that all have a name of at most 19 bytes in UTF-8, and there is memory, the
  -- friends are loaded, and the answer, after the reference is given back, carries an array whose values
  -- are just the names of the rows as JSON texts, in their order.
  pub list_friends_lem :
      (c a : ℕ) (sv : Server) (u : User) (rows : List Row)
      → sv.users a ≡ some u
      → u.friends.is_inited ≡ false
      → (asked sv u.username).err ≡ 0
      → (asked sv u.username).value ≡ some rows
      → p.malloc sv.mallocs ≡ true
      → HasRoom
      → All HasName rows
      → (array : p.Json) × (list_friends c a sv
          ≡ (user_put a
                >> list_answer c
                    (p.json_object_set_new p.json_object (codes "friends") array)
                    serr_success)
              (loaded sv a u rows))
        × (p.json_array_values array ≡ some (texts_of rows))
  list_friends_lem c a sv u rows known fresh no_error stored memory room named =
      let (array, run, values) =
        append_names-texts_of rows p.json_array [] (loaded sv a u rows) named p.values_array in
      (array, list_run a sv known no_error stored memory room named c array fresh run, values)

  -- The only row has a name of 20 bytes: the byte behind it was never written.
  pub fetch_friends_unterminated :
      (row : Row) (text : Bytes) (m : p.Map) (sv : Server)
      → get_elem? row 1 ≡ some (some text)
      → length text ≡ 20
      → fetch_friends 1 0 (row ∷ []) m sv ≡ none
  unfolding fetch_friends slot_string
  fetch_friends_unterminated row text m sv e full = rw (e, ◌>>=◌, cut text full, full) refl
    where
      cut : (text : Bytes) → length text ≡ 20 → strncpy text server_username_lens ≡ text
      cut text full = ap (λ (n : ℕ). take n text) (sym full) ∙ take_all text
