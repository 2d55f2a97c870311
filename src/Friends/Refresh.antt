-- ===== src/Friends/Refresh.antt =====
-- friends.c: what `make_friend` does to the cached list, and what happens the second time.
use geekchatserver.Prelude.{ℕ, ◌≡◌, refl, ◌∙◌, List, arith, Bytes, false, none, some}
use geekchatserver.Platform.{Platform}
use geekchatserver.State.{live, dangling, Friends, User, Server, ◌>>◌, update}
use geekchatserver.State.Bind.{bind_some, update_self}
use geekchatserver.Friends.Cache.{free_friends}

module _ ⦃p : Platform⦄ where
  module _ (a : ℕ) (sv : Server) {u : User} (known : sv.users a ≡ some u) where
    -- Dropping a loaded list leaves its buffer freed, with the pointer still set.
    free_friends_live :
        {names : List Bytes}
        → u.friends.buffer ≡ live names
        → free_friends a sv
          ≡ some (
            tt,
            record sv {
              users = update sv.users a (
                  some (record u {
                    friends = record { is_inited = false; num_of_friends = 0; buffer = dangling };
                  }));
            },
          )
    unfolding free_friends
    free_friends_live e = ground arith

    free_friends_dangling : u.friends.buffer ≡ dangling → free_friends a sv ≡ none
    unfolding free_friends
    free_friends_dangling e = ground arith

  -- A second `free_friends` on a list that was loaded frees its buffer twice.
  pub free_friends_twice :
      (a : ℕ) (sv : Server) (u : User) (names : List Bytes)
      → sv.users a ≡ some u
      → u.friends.buffer ≡ live names
      → (free_friends a >> free_friends a) sv ≡ none
  free_friends_twice a sv u names known e =
      let freed : Friends = record { is_inited = false; num_of_friends = 0; buffer = dangling } in
      let v : User = record u { friends = freed } in
      bind_some (free_friends a) (λ _. free_friends a) sv (free_friends_live a sv known e)
      ∙ free_friends_dangling a (record sv { users = update sv.users a (some v) })
          (update_self sv.users a (some v)) refl
