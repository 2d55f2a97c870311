-- ===== src/Platform.antt =====
-- What the program calls and this repository does not implement itself: the hash map of c_hashmap/,
-- jansson/, crypto/sha256, the MySQL client library, /dev/urandom and malloc. The operations are
-- parameters; the laws are what the headers and manuals of those libraries say of them.
use geekchatserver.Prelude.{
  ℕ, ◌≤◌, ◌≡◌, List, [], ◌∷◌, ◌++◌, Bytes, same, length, if◌then◌else◌, Bool, Option, none, some,
  is_some, ℤ,
}

-- The rows of a result set; a column is NULL or a text.
abbrev pub Row : Type 0
Row = List (Option Bytes)

pub record Platform : Type 1 where
  -- c_hashmap/hashmap.h: from C strings to addresses. `none` of `hashmap_put` is MAP_OMEM; the
  -- Boolean of `hashmap_remove` says whether the key was there (MAP_OK).
  pub Map : Type 0
  pub hashmap_new : Map
  pub hashmap_get : Map → Bytes → Option ℕ
  pub hashmap_put : Map → Bytes → ℕ → Option Map
  pub hashmap_remove : Map → Bytes → Bool × Map
  pub get_new : (k : Bytes) → hashmap_get hashmap_new k ≡ none
  pub get_put :
      (m m' : Map) (k j : Bytes) (v : ℕ)
      → hashmap_put m k v ≡ some m'
      → hashmap_get m' j ≡ (if same k j then some v else hashmap_get m j)
  pub get_remove :
      (m : Map) (k j : Bytes)
      → hashmap_get (hashmap_remove m k).1 j ≡ (if same k j then none else hashmap_get m j)
  pub remove_found : (m : Map) (k : Bytes) → (hashmap_remove m k).0 ≡ is_some (hashmap_get m k)
  -- jansson.h. `json_dumpb` gives the size of the text and the bytes that it wrote.
  pub Json : Type 0
  pub json_object : Json
  pub json_array : Json
  pub json_true : Json
  pub json_string : Bytes → Json
  pub json_integer : ℤ → Json
  pub json_object_set_new : Json → Bytes → Json → Json
  pub json_object_del : Json → Bytes → Json
  pub json_object_get : Json → Bytes → Option Json
  pub json_string_value : Json → Option Bytes
  -- `json_string` is NULL for a text that is not UTF-8.
  pub is_utf8 : Bytes → Bool
  -- What `json_array_get` reads at each index; `none` for a value that is no array.
  pub json_array_values : Json → Option (List Json)
  pub json_array_append : Json → Json → Json
  pub values_array : json_array_values json_array ≡ some []
  pub values_append :
      (a v : Json) (vs : List Json)
      → json_array_values a ≡ some vs
      → json_array_values (json_array_append a v) ≡ some (vs ++ v ∷ [])
  pub json_loadb : Bytes → Option Json
  pub json_dumpb : Json → ℕ → ℕ × Bytes
  pub get_set_new :
      (o v : Json) (k j : Bytes)
      → json_object_get (json_object_set_new o k v) j
        ≡ (if same k j then some v else json_object_get o j)
  pub get_del :
      (o : Json) (k j : Bytes)
      → json_object_get (json_object_del o k) j ≡ (if same k j then none else json_object_get o j)
  pub dumpb_fits :
      (o : Json) (size : ℕ)
      → (json_dumpb o size).0 ≤ size
      → length (json_dumpb o size).1 ≡ (json_dumpb o size).0
  -- mysql.h: a connection, the operations on it, and the error code of a lost server.
  pub Conn : Type 0
  pub mysql_real_query : Bytes → Conn → Conn
  pub mysql_store_result : Conn → Option (List Row) × Conn
  pub mysql_affected_rows : Conn → ℤ
  -- `mysql_query` is zero for success; `mysql_use_result` is NULL (false) for an error.
  pub mysql_query : Bytes → Conn → ℤ × Conn
  pub mysql_use_result : Conn → Bool × Conn
  pub mysql_free_result : Conn → Conn
  pub mysql_errno : Conn → ℕ
  pub mysql_close : Conn → Conn
  pub mysql_init : Conn → Conn
  pub mysql_real_connect : Conn → Conn
  pub cr_server_gone_error : ℕ
  -- crypto/sha256.h: the digest of the bytes fed by the `sha256_update` calls.
  pub sha256 : Bytes → Bytes
  -- /dev/urandom: `open`, with the `errno` of a failure or 0, `close`, and `read` for a number of bytes,
  -- where `none` is a failure.
  pub Rand : Type 0
  pub random_open : Rand → ℕ × Rand
  pub random_close : Rand → Rand
  pub random_read : ℕ → Rand → Option Bytes × Rand
  -- Whether the n-th `malloc` succeeds.
  pub malloc : ℕ → Bool
  -- What a caller finds where a C function of type `int` ends with no `return`.
  pub indeterminate : ℤ
