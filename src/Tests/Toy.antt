-- ===== src/Tests/Toy.antt =====
-- A platform that runs: maps are association lists, a JSON text is the name of its method, the
-- database holds the user "root", and a connection may have to be renewed a few times.
use geekchatserver.Prelude.{
  ℕ, zero, suc, ◌+◌, ◌%◌, ◌≤◌, ◌≡◌, refl, sym, ap, ◌∙◌, subst, List, [], ◌∷◌, ◌++◌, arith, Bytes,
  same, same_self, eq_of_same, codes, length, take, if◌then◌else◌, true, Option, none, some,
  is_some, ℤ, pos,
}
use mathlib.Core.Option.{some-injective}
use geekchatserver.Platform.{Platform, Row}

pub bytes_of : ℕ → ℕ → Bytes
bytes_of zero r = []
bytes_of (suc n) r = (r % 256) ∷ bytes_of n r

abbrev pub Table : Type 0
Table = List (Bytes × ℕ)

pub find : Table → Bytes → Option ℕ
find [] k = none
find ((j, v) ∷ m) k = if same j k then some v else find m k

pub erase : Table → Bytes → Table
erase [] k = []
erase ((j, v) ∷ m) k = if same j k then erase m k else (j, v) ∷ erase m k

pub same_sym : (a b : Bytes) → same a b ≡ true → same b a ≡ true
same_sym a b h = subst (λ (t : Bytes). same t a ≡ true) (eq_of_same a b h) (same_self a)

pub same_left : (a b c : Bytes) → same a b ≡ true → same a c ≡ same b c
same_left a b c h = ap (λ (t : Bytes). same t c) (eq_of_same a b h)

pub same_right : (i k j : Bytes) → same k j ≡ true → same i k ≡ same i j
same_right i k j h = ap (λ (t : Bytes). same i t) (eq_of_same k j h)

pub find-erase :
    (m : Table) (k j : Bytes) → find (erase m k) j ≡ (if same k j then none else find m j)
unfolding find erase
find-erase [] k j = ground arith
find-erase ((i, v) ∷ m) k j = ground (arith, find-erase m k j, same_left i k j, same_right i k j)

mutual
  pub data Json : Type 0 where
    text : Bytes → Json
    number : ℤ → Json
    yes_value : Json
    object : Fields → Json
    array : Fields → Json

  pub data Fields : Type 0 where
    end : Fields
    entry : Bytes → Json → Fields → Fields

pub fields : Json → Fields
fields (object fs) = fs
fields _ = end

pub lookup_field : Fields → Bytes → Option Json
lookup_field end k = none
lookup_field (entry j v fs) k = if same j k then some v else lookup_field fs k

pub drop_field : Fields → Bytes → Fields
drop_field end k = end
drop_field (entry j v fs) k = if same j k then drop_field fs k else entry j v (drop_field fs k)

pub lookup-drop :
    (fs : Fields) (k j : Bytes)
    → lookup_field (drop_field fs k) j ≡ (if same k j then none else lookup_field fs j)
unfolding lookup_field drop_field
lookup-drop end k j = ground arith
lookup-drop (entry i v fs) k j =
    ground (arith, lookup-drop fs k j, same_left i k j, same_right i k j)

pub get_field : Json → Bytes → Option Json
unfolding lookup_field fields
get_field o k = lookup_field (fields o) k

pub set_field : Json → Bytes → Json → Json
unfolding fields
set_field o k v = object (entry k v (fields o))

pub del_field : Json → Bytes → Json
unfolding fields drop_field
del_field o k = object (drop_field (fields o) k)

pub get-set :
    (o v : Json) (k j : Bytes)
    → get_field (set_field o k v) j ≡ (if same k j then some v else get_field o j)
unfolding get_field set_field
get-set o v k j = refl

pub get-del :
    (o : Json) (k j : Bytes)
    → get_field (del_field o k) j ≡ (if same k j then none else get_field o j)
unfolding get_field del_field
get-del o k j = lookup-drop (fields o) k j

pub values_of : Fields → List Json
values_of end = []
values_of (entry k v fs) = v ∷ values_of fs

pub values : Json → Option (List Json)
unfolding values_of
values (array fs) = some (values_of fs)
values _ = none

pub put_last : Fields → Json → Fields
put_last end v = entry [] v end
put_last (entry k w fs) v = entry k w (put_last fs v)

pub append_value : Json → Json → Json
unfolding put_last
append_value (array fs) v = array (put_last fs v)
append_value o v = o

values_of-put_last : (fs : Fields) (v : Json) → values_of (put_last fs v) ≡ values_of fs ++ v ∷ []
unfolding values_of put_last
values_of-put_last end v = refl
values_of-put_last (entry k w fs) v = ap (λ (vs : List Json). w ∷ vs) (values_of-put_last fs v)

none_some : {A : Type 0} {vs : List Json} → none ≡ some vs → A
none_some e = absurd (contrary e)
  where
    contrary : {vs : List Json} → none ≡ some vs → ⊥
    contrary e = cc

pub values-append :
    (a v : Json) (vs : List Json)
    → values a ≡ some vs
    → values (append_value a v) ≡ some (vs ++ v ∷ [])
unfolding values append_value
values-append (array fs) v vs e = ap some (
    values_of-put_last fs v
    ∙ ap (λ (ws : List Json). ws ++ v ∷ []) (some-injective (values_of fs) vs e))
values-append (text t) v vs e = none_some e
values-append (number n) v vs e = none_some e
values-append yes_value v vs e = none_some e
values-append (object fs) v vs e = none_some e

pub text_of : Json → Option Bytes
text_of (text t) = some t
text_of _ = none

-- How often the server is still going to be gone, and the last query.
abbrev pub Link : Type 0
Link = ℕ × Bytes

pub answer : Link → Option (List Row) × Link
answer (zero, q) = (some ((some (codes "root") ∷ some (codes "root") ∷ none ∷ []) ∷ []), (zero, q))
answer (suc n, q) = (none, (suc n, q))

pub error_of : Link → ℕ
error_of (zero, q) = 0
error_of (suc n, q) = 2006

pub renew : Link → Link
renew (zero, q) = (zero, q)
renew (suc n, q) = (n, q)

pub dump_empty : (o : Json) (size : ℕ) → 0 ≤ size → ◌≡◌ {A = ℕ} (length {A = ℕ} []) 0
dump_empty o size h = refl

pub remove_some : (m : Table) (k : Bytes) → is_some (find m k) ≡ is_some (find m k)
remove_some m k = refl

pub put_law :
    (m m' : Table) (k j : Bytes) (v : ℕ)
    → ◌≡◌ {A = Option Table} (some ((k, v) ∷ m)) (some m')
    → find m' j ≡ (if same k j then some v else find m j)
unfolding find
put_law m m' k j v e = ap (λ (t : Table). find t j) (sym (some-injective ((k, v) ∷ m) m' e))

-- `toy` computes where the functions above do.
instance unfoldable pub toy : Platform
unfolding bytes_of find erase fields lookup_field drop_field get_field set_field del_field text_of
    values values_of append_value put_last answer error_of renew
toy = record {
  Map = Table;
  hashmap_new = [];
  hashmap_get = find;
  hashmap_put = λ m k v. some ((k, v) ∷ m);
  hashmap_remove = λ m k. (is_some (find m k), erase m k);
  get_new = λ k. refl;
  get_put = put_law;
  get_remove = find-erase;
  remove_found = remove_some;
  Json = Json;
  json_object = object end;
  json_array = array end;
  json_true = yes_value;
  json_string = text;
  json_integer = number;
  json_object_set_new = set_field;
  json_object_del = del_field;
  json_object_get = get_field;
  json_string_value = text_of;
  is_utf8 = λ t. true;
  json_array_values = values;
  json_array_append = append_value;
  values_array = refl;
  values_append = values-append;
  json_loadb = λ bytes. some (object (entry (codes "method") (text bytes) end));
  json_dumpb = λ o size. (0, []);
  get_set_new = get-set;
  get_del = get-del;
  dumpb_fits = dump_empty;
  Conn = Link;
  mysql_real_query = λ q c. (c.0, q);
  mysql_store_result = answer;
  mysql_affected_rows = λ c. pos 1;
  mysql_query = λ q c. (pos 0, c);
  mysql_use_result = λ c. (true, c);
  mysql_free_result = λ c. c;
  mysql_errno = error_of;
  mysql_close = λ c. c;
  mysql_init = λ c. c;
  mysql_real_connect = renew;
  cr_server_gone_error = 2006;
  sha256 = λ bytes. take 32 bytes;
  Rand = ℕ;
  random_open = λ r. (0, r);
  random_close = λ r. r;
  random_read = λ n r. (some (bytes_of n r), r + 1);
  malloc = λ n. true;
  indeterminate = pos 0;
}
