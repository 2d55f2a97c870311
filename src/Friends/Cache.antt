-- ===== src/Friends/Cache.antt =====
-- friends.c: `free_friends` and `friends_put`.
use geekchatserver.Prelude.{ℕ, false}
use geekchatserver.Platform.{Platform}
use geekchatserver.State.{
  Buffer, null, live, dangling, Friends, M, pure, fault, ◌>>=◌, user_at, edit_user,
}

module _ ⦃p : Platform⦄ where
  -- `free(usr->friends.buffer)`, a fault when it was freed before. The pointer keeps its value.
  unfoldable pub free_buffer : Buffer → M Buffer
  free_buffer null = pure null
  free_buffer (live names) = pure dangling
  free_buffer dangling = fault

  unfoldable pub free_friends : ℕ → M (Unit {0})
  unfolding free_buffer
  free_friends a = do
    u ← user_at a
    b ← free_buffer u.friends.buffer
    let friends : Friends = record { is_inited = false; num_of_friends = 0; buffer = b }
    edit_user a (λ v. record v { friends = friends })

  unfoldable pub friends_put : Friends → M (Unit {0})
  friends_put friends = pure tt
