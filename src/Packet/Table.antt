-- ===== src/Packet/Table.antt =====
-- methods/methods.h, packet.c: `init_methods_maps` enters every method of the table under its name.
use geekchatserver.Prelude.{
  ℕ, zero, suc, ◌+◌, ◌≡◌, inl, inr, refl, ap, ◌∙◌, subst, List, [], ◌∷◌, arith, Bytes, same,
  get_elem?, All, if◌then◌else◌, ◌&&◌, Bool, true, false, ◌==◌, Option-cases, Option, none, some,
}
use geekchatserver.Platform.{Platform}
use geekchatserver.State.{Server}
use geekchatserver.Tokens.Registry.{put_or_keep}
use mathlib.Core.Option.{some-injective}
use geekchatserver.Packet.Dispatch.{Method, methods, put_methods, call_method}

module _ ⦃p : Platform⦄ where
  -- The map has memory for every entry.
  abbrev pub HasRoom : Type 0
  HasRoom = (m : p.Map) (k : Bytes) (v : ℕ) → (m' : p.Map) × (p.hashmap_put m k v ≡ some m')

  -- Where a name is found after the entries, if `found` is what was found before.
  index_from : List Method → ℕ → Bytes → Option ℕ → Option ℕ
  index_from [] i k found = found
  index_from (x ∷ xs) i k found = index_from xs (i + 1) k (if same x.name k then some i else found)

  get_put_or_keep :
      HasRoom
      → (m : p.Map) (k j : Bytes) (v : ℕ)
      → p.hashmap_get (put_or_keep m k v) j ≡ (if same k j then some v else p.hashmap_get m j)
  get_put_or_keep room m k j v =
      let (m', e) = room m k v in rw (put_or_keep, e) (p.get_put m m' k j v e)

  get-put_methods :
      HasRoom
      → (ms : List Method) (i : ℕ) (m : p.Map) (k : Bytes)
      → p.hashmap_get (put_methods ms i m) k ≡ index_from ms i k (p.hashmap_get m k)
  unfolding put_methods index_from
  get-put_methods room [] i m k = refl
  get-put_methods room (x ∷ xs) i m k =
      get-put_methods room xs (i + 1) (put_or_keep m x.name i) k
      ∙ ap (index_from xs (i + 1) k) (get_put_or_keep room m x.name k i)

  -- No two entries of the table have the same name.
  is_at : Option ℕ → ℕ → Bool
  is_at none j = false
  is_at (some i) j = i == j

  all_at : List Method → ℕ → Bool
  unfolding is_at
  all_at [] j = true
  all_at (x ∷ xs) j = is_at (index_from methods 0 x.name none) j && all_at xs (j + 1)

  methods-all_at : all_at methods 0 ≡ true
  unfolding all_at index_from methods same
  methods-all_at = refl

  is_at-some : (o : Option ℕ) (j : ℕ) → is_at o j ≡ true → o ≡ some j
  unfolding is_at
  is_at-some o j h = ground arith

  both : (a b : Bool) → (a && b) ≡ true → (a ≡ true) × (b ≡ true)
  both a b h = ground arith

  found_at :
      (ms : List Method) (j i : ℕ) (x : Method)
      → all_at ms j ≡ true
      → get_elem? ms i ≡ some x
      → index_from methods 0 x.name none ≡ some (j + i)
  unfolding all_at
  found_at [] j i x all e = cc
  found_at (m ∷ ms) j zero x all e =
      let here = is_at-some (index_from methods 0 m.name none) j (both _ _ all).0 in
      subst (λ (t : Method). index_from methods 0 t.name none ≡ some (j + 0)) (some-injective m x e)
        (here ∙ ap some (omega arith))
  found_at (m ∷ ms) j (suc i) x all e =
      found_at ms (j + 1) i x (both _ _ all).1 e ∙ ap some (omega arith)

  abbrev pub methods_table : p.Map
  methods_table = put_methods methods 0 p.hashmap_new

  pub get-methods_table :
      HasRoom
      → (i : ℕ) (x : Method) → get_elem? methods i ≡ some x
      → p.hashmap_get methods_table x.name ≡ some i
  get-methods_table room i x e =
      get-put_methods room methods 0 p.hashmap_new x.name
      ∙ rw (p.get_new x.name) (found_at methods 0 i x methods-all_at e ∙ ap some (omega arith))

  pub call_method-handler :
      HasRoom
      → (i : ℕ) (x : Method) (c : ℕ) (json : p.Json) (sv : Server) → get_elem? methods i ≡ some x
      → sv.methods_map ≡ methods_table
      → call_method c json x.name sv ≡ x.handler c json sv
  unfolding call_method
  call_method-handler room i x c json sv e table = rw (table, get-methods_table room i x e, e) refl

  put_or_keep_other :
      (m : p.Map) (k j : Bytes) (v : ℕ)
      → same k j ≡ false
      → p.hashmap_get (put_or_keep m k v) j ≡ p.hashmap_get m j
  put_or_keep_other m k j v e = elim (Option-cases (p.hashmap_put m k v)) [
    | inl none_put ↦ rw (put_or_keep, none_put) refl
    | inr (m', put) ↦ rw (put_or_keep, put) (p.get_put m m' k j v put ∙ rw e refl)
  ]

  -- A name that no entry has is not found after the entries, if it was not found before.
  put_methods_other :
      (ms : List Method) (i : ℕ) (m : p.Map) (k : Bytes)
      → All (λ x. same x.name k ≡ false) ms
      → p.hashmap_get (put_methods ms i m) k ≡ p.hashmap_get m k
  unfolding put_methods
  put_methods_other [] i m k all = refl
  put_methods_other (x ∷ xs) i m k all =
      put_methods_other xs (i + 1) (put_or_keep m x.name i) k all.1
      ∙ put_or_keep_other m x.name k i all.0

  pub methods_table_other :
      (k : Bytes) → All (λ x. same x.name k ≡ false) methods → p.hashmap_get methods_table k ≡ none
  methods_table_other k all = put_methods_other methods 0 p.hashmap_new k all ∙ p.get_new k
