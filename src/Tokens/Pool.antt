-- ===== src/Tokens/Pool.antt =====
-- random_pool.c: the device that random bytes are read from. `get_random_bytes` stands in Tokens/Auth.
use geekchatserver.Prelude.{some, ℤ, pos}
use geekchatserver.Platform.{Platform}
use geekchatserver.State.{M}

module _ ⦃p : Platform⦄ where
  -- The result of a failure is `errno`, which is positive.
  unfoldable pub init_random_pool : M ℤ
  init_random_pool sv =
      let (errno, pool) = p.random_open sv.random in some (pos errno, record sv { random = pool })

  unfoldable pub exit_random_pool : M ℤ
  exit_random_pool sv = some (pos 0, record sv { random = p.random_close sv.random })
