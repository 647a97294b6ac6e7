-- ===== src/Keyfile.antt =====
-- src/keyfile.h and src/keyfile.c: sections of keys, in lists. A list of sections is the pointer to
-- its first one, and the empty list is NULL; a section is what its pointer points to. Whether
-- `malloc` gives memory for a node is an argument, and for a text it is `malloc`.
mod Lookup
mod Lines
mod Files
mod Header
mod Reload
mod RoundTrip
mod Saved
mod Sections
mod Texts
mod Tests
use libcpr.Base.{
  ℕ, ◌+◌, Bool, true, false, Option, none, some, List, [], ◌∷◌, ◌++◌, take, if◌then◌else◌, Ptr,
  null, to, strchr, Malloc, ◌>>=◌,
}
use libcpr.Strchar.{cpr_upper, cpr_lower, cpr_equal, cpr_match}

-- `keydata_t`.
pub record Keydata : Type 0 where
  pub id : Ptr (List ℕ)
  pub value : Ptr (List ℕ)

-- `keysection_t`.
pub record Keysection : Type 0 where
  pub id : Ptr (List ℕ)
  pub keys : List Keydata

-- The loop of `append_keysections` and what follows it: the last section links to `root`.
append_last : List Keysection → Keysection → List Keysection → List Keysection
append_last root prior [] = prior ∷ root
append_last root prior (next ∷ rest) = prior ∷ append_last root next rest

pub append_keysections : List Keysection → List Keysection → List Keysection
unfolding append_last
append_keysections root [] = root
append_keysections root (first ∷ rest) = append_last root first rest

-- The loop of `get_keyvalue`.
value_in : List Keydata → Ptr (List ℕ) → Option (Ptr (List ℕ))
value_in [] id = some null
value_in (key ∷ keys) id = do
  same ← cpr_equal key.id id
  if same then some key.value else value_in keys id

pub get_keyvalue : Keysection → Ptr (List ℕ) → Option (Ptr (List ℕ))
unfolding value_in
get_keyvalue section id = value_in section.keys id

-- `strdup` of the C library.
abbrev pub strdup : Malloc → Ptr (List ℕ) → Option (Ptr (List ℕ))
strdup malloc null = none
strdup malloc (to s) = do
  len ← strchr s 0
  some (elim (malloc (len + 1)) [ null ↦ null | to block ↦ to (take (len + 1) s) ])

-- `make_keydata`: whether it returns a key, which is then the first of the group.
pub make_keydata :
    Bool → Malloc → Keysection → Ptr (List ℕ) → Ptr (List ℕ) → Option (Bool × Keysection)
make_keydata false malloc group id value = some (false, group)
make_keydata true malloc group id value = do
  id ← cpr_lower malloc id 32
  value ← strdup malloc value
  some (true, record group { keys = record { id = id; value = value } ∷ group.keys })

-- `make_keysection`, where `chain` ends with the section `prior`, or is empty for NULL: whether it
-- returns a section, which is then the last of the chain. What followed `prior` is cut off.
pub make_keysection :
    Bool → Malloc → Ptr (List ℕ) → List Keysection → Option (Bool × List Keysection)
make_keysection false malloc id chain = some (false, chain)
make_keysection true malloc id chain = do
  id ← cpr_upper malloc id 32
  some (true, chain ++ (record { id = id; keys = [] } ∷ []))

-- `find_keysection`: the sections from the first that matches.
pub find_keysection : List Keysection → Ptr (List ℕ) → Option (List Keysection)
find_keysection [] id = some []
find_keysection (section ∷ rest) id = do
  same ← cpr_match id section.id
  if same then some (section ∷ rest) else find_keysection rest id
