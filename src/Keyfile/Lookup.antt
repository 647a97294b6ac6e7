-- ===== src/Keyfile/Lookup.antt =====
-- Looking up keys and sections, and the lists that they are found in.
use libcpr.Base.{
  ℕ, zero, suc, ◌+◌, min, ◌≡◌, ◌≢◌, refl, ap, ◌⊎◌, inl, inr, true, some, List, [], ◌∷◌, ◌++◌, map,
  arith, length, take, Ptr, to, strchr, Malloc,
}
use libcpr.Strchar.{cpr_lower, cpr_equal, cpr_match, tolower}
use libcpr.Strchar.Length.{IsText}
use libcpr.Strchar.Copy.{cpr_upper_lower}
use libcpr.Strchar.Compare.{cpr_equal_lem, match-equal, map-IsText}
use libcpr.Keyfile.{
  Keysection, append_last, append_keysections, value_in, get_keyvalue, strdup, make_keydata,
  find_keysection,
}

-- `append_keysections` puts the sections of `root` behind those of `into`.
pub append_keysections_lem :
    (root into : List Keysection) → append_keysections root into ≡ into ++ root
unfolding append_keysections append_last
append_keysections_lem root [] = refl
append_keysections_lem root (first ∷ []) = refl
append_keysections_lem root (first ∷ next ∷ rest) =
    ap (λ l. first ∷ l) (append_keysections_lem root (next ∷ rest))

-- The memory of a text.
abbrev pub terminated : List ℕ → Ptr (List ℕ)
terminated text = to (text ++ (0 ∷ []))

-- Every allocation succeeds.
abbrev pub IsGenerous : Malloc → Type 0
IsGenerous malloc = (size : ℕ) → (block : List ℕ) × (malloc size ≡ to block) × (length block ≡ size)

pub strchr_end :
    (text rest : List ℕ) → IsText text → strchr (text ++ (0 ∷ rest)) 0 ≡ some (length text)
unfolding strchr
strchr_end [] rest i = refl
strchr_end (c ∷ text) rest i = ground (arith, i.0, strchr_end text rest i.1)

take_terminated :
    (text rest : List ℕ) → take (length text + 1) (text ++ (0 ∷ rest)) ≡ text ++ (0 ∷ [])
take_terminated [] rest = refl
take_terminated (c ∷ text) rest =
    let more : length (c ∷ text) + 1 ≡ suc (length text + 1) = omega arith in
    rw more (ap (λ l. c ∷ l) (take_terminated text rest))

strdup_lem :
    (malloc : Malloc) (text rest : List ℕ)
    → IsGenerous malloc
    → IsText text
    → strdup malloc (to (text ++ (0 ∷ rest))) ≡ some (terminated text)
strdup_lem malloc text rest g i =
    let (block, got, size) = g (length text + 1) in
    rw (strchr_end text rest i, got, take_terminated text rest) refl

-- The id that a key is given: its first 32 characters in lower case.
abbrev pub key_id : List ℕ → List ℕ
key_id text = map tolower (take (min (length text) 32) text)

lower_lem :
    (malloc : Malloc) (text rest : List ℕ)
    → IsGenerous malloc
    → IsText text
    → cpr_lower malloc (to (text ++ (0 ∷ rest))) 32 ≡ some (terminated (key_id text))
lower_lem malloc text rest g i =
    let n = min (length text) 32 in
    let (block, got, size) = g (n + 1) in
    (cpr_upper_lower malloc text rest block 32 n i refl (omega arith) got size).1

pub take-IsText : (n : ℕ) (text : List ℕ) → IsText text → IsText (take n text)
take-IsText zero text i = omega arith
take-IsText (suc n) [] i = i
take-IsText (suc n) (c ∷ text) i = (i.0, take-IsText n text i.1)

key_id-IsText : (text : List ℕ) → IsText text → IsText (key_id text)
key_id-IsText text i = map-IsText _ (take-IsText (min (length text) 32) text i)

-- A key that is made stands first in its group.
pub make_keydata_lem :
    (malloc : Malloc) (group : Keysection) (name value rest rest' : List ℕ)
    → IsGenerous malloc
    → IsText name
    → IsText value
    → make_keydata true malloc group (to (name ++ (0 ∷ rest))) (to (value ++ (0 ∷ rest')))
      ≡ some (
        true,
        record group {
          keys = record { id = terminated (key_id name); value = terminated value } ∷ group.keys;
        },
      )
unfolding make_keydata
make_keydata_lem malloc group name value rest rest' g iname ivalue =
    rw (lower_lem malloc name rest g iname, strdup_lem malloc value rest' g ivalue) refl

-- Where no allocation fails, a key that is made is found by the first 32 characters of its name in
-- lower case, whether or not the group had one of that name, and every other name is found as before.
pub get_keyvalue-make_keydata :
    (malloc : Malloc) (group : Keysection) (name value id rest rest' : List ℕ)
    → IsGenerous malloc
    → IsText name
    → IsText value
    → IsText id
    → (after : Keysection) × (make_keydata true malloc group
          (to (name ++ (0 ∷ rest)))
          (to (value ++ (0 ∷ rest')))
        ≡ some (true, after))
      × (((key_id name ≡ id) × (get_keyvalue after (terminated id) ≡ some (terminated value)))
          ⊎ ((key_id name ≢ id)
              × (get_keyvalue after (terminated id) ≡ get_keyvalue group (terminated id))))
unfolding get_keyvalue value_in
get_keyvalue-make_keydata malloc group name value id rest rest' g iname ivalue iid = (
  record group {
    keys = record { id = terminated (key_id name); value = terminated value } ∷ group.keys;
  },
  make_keydata_lem malloc group name value rest rest' g iname ivalue,
  elim (cpr_equal_lem (key_id name) id [] [] (key_id-IsText name iname) iid) [
    | inl (same, e) ↦ inl (same, rw e refl)
    | inr (differ, e) ↦ inr (differ, rw e refl)
  ],
)

-- The text of a section's name, which is what `match` compares.
abbrev pub IsNamed : Keysection → List ℕ → Type 0
IsNamed section name = (section.id ≡ terminated name) × IsText name

-- The names match: they are the same in lower case.
abbrev pub SameName : List ℕ → List ℕ → Type 0
SameName s t = map tolower s ≡ map tolower t

-- What is found among sections with the names `names`: the first match and what follows it, or
-- nothing where none matches.
pub data IsFirst (id : List ℕ) : List Keysection → List (List ℕ) → List Keysection → Type 0 where
  missing : IsFirst id [] [] []
  here :
      {section : Keysection} {rest : List Keysection} {name : List ℕ} {names : List (List ℕ)}
      → SameName id name
      → IsFirst id (section ∷ rest) (name ∷ names) (section ∷ rest)
  further :
      {section : Keysection} {rest found : List Keysection} {name : List ℕ} {names : List (List ℕ)}
      → ¬ SameName id name
      → IsFirst id rest names found
      → IsFirst id (section ∷ rest) (name ∷ names) found

pub data AllNamed : List Keysection → List (List ℕ) → Type 0 where
  nil : AllNamed [] []
  cons :
      {section : Keysection} {rest : List Keysection} {name : List ℕ} {names : List (List ℕ)}
      → IsNamed section name
      → AllNamed rest names
      → AllNamed (section ∷ rest) (name ∷ names)

-- `find_keysection` finds the first section whose name is the one asked for, upper and lower case
-- being the same, or gives NULL where there is none.
pub find_keysection_lem :
    (id : List ℕ) {root : List Keysection} {names : List (List ℕ)}
    → IsText id
    → AllNamed root names
    → (found : List Keysection) × (find_keysection root (terminated id) ≡ some found)
      × IsFirst id root names found
unfolding find_keysection
find_keysection_lem id i nil = ([], refl, missing)
find_keysection_lem id {root = section ∷ rest} {names = name ∷ names} i (cons (is_name, it) named) =
    let matched : cpr_match (terminated id) section.id
        ≡ cpr_equal (terminated (map tolower id)) (terminated (map tolower name)) =
      rw is_name (match-equal id name [] [] i it) in
    elim (cpr_equal_lem (map tolower id) (map tolower name) [] [] (map-IsText id i)
      (map-IsText name it)) [
        | inl (same, e) ↦ (section ∷ rest, rw (matched, e) refl, here same)
        | inr (differ, e) ↦
            let (found, e', first) = find_keysection_lem id i named in
            (found, rw (matched, e) e', further differ first)
      ]
