-- ===== src/Tokens/Registry.antt =====
-- tokens.c: the map from tokens to users. An entry holds a reference to its user.
use geekchatserver.Prelude.{
  ℕ, Bytes, same, codes, if◌then◌else◌, Bool, none, some, is_some, ℤ, pos, negsuc,
}
use geekchatserver.Platform.{Platform}
use geekchatserver.State.{M, pure, ◌>>=◌, ◌>>◌, get, user_at, set_tokens_map}
use geekchatserver.Users.Refs.{user_get, user_put}

module _ ⦃p : Platform⦄ where
  -- `hashmap_put` whose result is not looked at: without memory the map stays as it is.
  abbrev pub put_or_keep : p.Map → Bytes → ℕ → p.Map
  put_or_keep m k v = elim (p.hashmap_put m k v) [ none ↦ m | some m' ↦ m' ]

  unfoldable pub try_effect_token : ℕ → M ℤ
  try_effect_token a = do
    u ← user_at a
    if same (codes "NULL") u.token then pure (negsuc 0) else do
      sv ← get
      set_tokens_map (put_or_keep sv.tokens_map u.token a)
      user_get a
      pure (pos 0)

  unfoldable pub free_token : ℕ → M (Unit {0})
  free_token a = do
    u ← user_at a
    sv ← get
    set_tokens_map (p.hashmap_remove sv.tokens_map u.token).1
    user_put a

  unfoldable pub is_token_in_memory : ℕ → M Bool
  is_token_in_memory a = do
    u ← user_at a
    sv ← get
    pure (is_some (p.hashmap_get sv.tokens_map u.token))

  unfoldable pub is_token_effective : ℕ → M Bool
  unfolding is_token_in_memory
  is_token_effective a = is_token_in_memory a
