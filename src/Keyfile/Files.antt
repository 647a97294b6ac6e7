-- ===== src/Keyfile/Files.antt =====
-- `load_keyfile` and `save_keyfile`, on the bytes of the file. In `load_keyfile` every node gets its
-- memory; texts may not.
use libcpr.Base.{
  ℕ, zero, suc, ◌+◌, ◌-◌, ◌≤◌, ◌<◌, ◌≡◌, refl, Bool, true, false, Option, none, some, List, [], ◌∷◌,
  ◌++◌, arith, length, take, drop, Ptr, null, to, strchr, Malloc, ◌>>=◌, fgets, fgets_takes,
}
use libcpr.Keyfile.{Keydata, Keysection, make_keydata, make_keysection}
use libcpr.Keyfile.Lines.{linebuf_size, Line, skipped, header, entry, parse_line}

-- `make_keydata` on the current section, which is the last of the chain.
unfoldable pub add_key : Malloc → List Keysection → List ℕ → List ℕ → Option (List Keysection)
add_key malloc [] id value = none
add_key malloc (section ∷ []) id value = do
  made ← make_keydata true malloc section (to id) (to value)
  some (made.1 ∷ [])
add_key malloc (section ∷ next ∷ rest) id value = do
  chain ← add_key malloc (next ∷ rest) id value
  some (section ∷ chain)

unfoldable pub add_line : Malloc → List Keysection → Line → Option (List Keysection)
unfolding add_key
add_line malloc chain skipped = some chain
add_line malloc chain (header id) = do made ← make_keysection true malloc (to id) chain; some made.1
add_line malloc chain (entry id value) = add_key malloc chain id value

-- The body of the loop of `load_keyfile`: the sections, and the rest of the file. Behind the line the
-- buffer holds what is at that place in `behind`.
unfoldable pub line_pass :
    Malloc → List ℕ → List Keysection → List ℕ → Option (List Keysection × List ℕ)
unfolding add_line
line_pass malloc behind chain file =
    let (text, rest) = fgets (linebuf_size - 1) file in
    (do
      line ← parse_line (text ++ (0 ∷ drop (length text + 1) behind))
      chain ← add_line malloc chain line
      some (chain, rest))

-- The loop. `stale` is what the buffer holds before a pass, which depends on how much of the file is
-- left. `none` if the fuel runs out.
unfoldable pub load_lines :
    ℕ → Malloc → (List ℕ → List ℕ) → List Keysection → List ℕ → Option (List Keysection)
unfolding line_pass
load_lines fuel malloc stale chain [] = some chain
load_lines zero malloc stale chain (c ∷ file) = none
load_lines (suc fuel) malloc stale chain (c ∷ file) = do
  pass ← line_pass malloc (stale (c ∷ file)) chain (c ∷ file)
  load_lines fuel malloc stale pass.0 pass.1

-- `load_keyfile` of the bytes of a file, or of one that cannot be opened. A pass takes a byte or
-- more.
unfoldable pub load_keyfile : Malloc → (List ℕ → List ℕ) → Ptr (List ℕ) → Option (List Keysection)
unfolding load_lines
load_keyfile malloc stale null = some []
load_keyfile malloc stale (to file) = do
  made ← make_keysection true malloc (to (b'*' ∷ 0 ∷ [])) []
  load_lines (length file) malloc stale made.1 file

-- What `%s` prints.
unfoldable pub print_text : Ptr (List ℕ) → Option (List ℕ)
print_text null = none
print_text (to s) = do len ← strchr s 0; some (take len s)

-- The quotes around a value: double ones where it has a single one.
unfoldable pub quote_for : List ℕ → ℕ
quote_for value = elim (strchr (value ++ (0 ∷ [])) b'\'') [ none ↦ b'\'' | some _ ↦ b'"' ]

unfoldable pub print_key : Keydata → Option (List ℕ)
unfolding print_text quote_for
print_key key = do
  id ← print_text key.id
  value ← print_text key.value
  let quote = quote_for value
  some (id ++ (b'=' ∷ quote ∷ (value ++ (quote ∷ b'\n' ∷ []))))

unfoldable pub print_keys : List Keydata → Option (List ℕ)
unfolding print_key
print_keys [] = some []
print_keys (key ∷ keys) = do line ← print_key key; rest ← print_keys keys; some (line ++ rest)

unfoldable pub print_sections : List Keysection → Option (List ℕ)
unfolding print_keys print_text
print_sections [] = some []
print_sections (section ∷ rest) = do
  id ← print_text section.id
  keys ← print_keys section.keys
  more ← print_sections rest
  some (b'[' ∷ (id ++ (b']' ∷ b'\n' ∷ (keys ++ more))))

-- `save_keyfile`, where the path is not NULL: its result, and the bytes of the file if it opens.
unfoldable pub save_keyfile : Bool → List Keysection → Option (Bool × List ℕ)
unfolding print_sections
save_keyfile opens [] = some (false, [])
save_keyfile false (section ∷ rest) = some (false, [])
save_keyfile true (section ∷ rest) = do file ← print_sections (section ∷ rest); some (true, file)

-- A run of the loop, without any bound on its passes, and what it comes to: it ends with the file, or
-- in a pass that leaves its memory, and every other pass leaves less of the file.
pub data IsRun (malloc : Malloc) (stale : List ℕ → List ℕ)
    : List Keysection → List ℕ → Option (List Keysection) → Type 0 where
  at_end : (chain : List Keysection) → IsRun malloc stale chain [] (some chain)
  stops :
      {chain : List Keysection} {c : ℕ} {file : List ℕ}
      → line_pass malloc (stale (c ∷ file)) chain (c ∷ file) ≡ none
      → IsRun malloc stale chain (c ∷ file) none
  goes_on :
      {chain after : List Keysection} {c : ℕ} {file rest : List ℕ} {r : Option (List Keysection)}
      → line_pass malloc (stale (c ∷ file)) chain (c ∷ file) ≡ some (after, rest)
      → length rest < length (c ∷ file)
      → IsRun malloc stale after rest r
      → IsRun malloc stale chain (c ∷ file) r

-- What a pass leaves of the file.
passed_rest :
    {rest : List ℕ} {p : List Keysection × List ℕ} (malloc : Malloc) (chain : List Keysection)
    (line : Option Line)
    → (do line ← line; chain ← add_line malloc chain line; some (chain, rest)) ≡ some p
    → p.1 ≡ rest
passed_rest malloc chain none e = ground arith
passed_rest malloc chain (some line) e = added (add_line malloc chain line) e
  where
    added :
        {rest : List ℕ} {p : List Keysection × List ℕ} (r : Option (List Keysection))
        → (do chain ← r; some (chain, rest)) ≡ some p
        → p.1 ≡ rest
    added none e = ground arith
    added (some after) e = ground arith

line_pass_shorter :
    {p : List Keysection × List ℕ} (malloc : Malloc) (behind : List ℕ) (chain : List Keysection)
    (c : ℕ) (file : List ℕ)
    → line_pass malloc behind chain (c ∷ file) ≡ some p
    → length p.1 ≤ length file
unfolding line_pass
line_pass_shorter malloc behind chain c file e =
    let text = (fgets 95 (c ∷ file)).0 in
    let left =
      passed_rest malloc chain (parse_line (text ++ (0 ∷ drop (length text + 1) behind))) e in
    rw left (fgets_takes 94 c file)

-- More fuel than the file has bytes gives the same result.
pub load_lines_fuel :
    (n m : ℕ) (malloc : Malloc) (stale : List ℕ → List ℕ) (chain : List Keysection) (file : List ℕ)
    → length file ≤ n
    → length file ≤ m
    → load_lines n malloc stale chain file ≡ load_lines m malloc stale chain file
unfolding load_lines
load_lines_fuel n m malloc stale chain [] h k = ends n m
  where
    ends : (n m : ℕ) → load_lines n malloc stale chain [] ≡ load_lines m malloc stale chain []
    ends zero zero = refl
    ends zero (suc m) = refl
    ends (suc n) zero = refl
    ends (suc n) (suc m) = refl
load_lines_fuel zero m malloc stale chain (c ∷ file) h k = absurd (omega arith)
load_lines_fuel (suc n) zero malloc stale chain (c ∷ file) h k = absurd (omega arith)
load_lines_fuel (suc n) (suc m) malloc stale chain (c ∷ file) h k =
    agree (line_pass malloc (stale (c ∷ file)) chain (c ∷ file)) refl
      (λ after rest h k. load_lines_fuel n m malloc stale after rest h k)
  where
    agree :
        (r : Option (List Keysection × List ℕ))
        → line_pass malloc (stale (c ∷ file)) chain (c ∷ file) ≡ r
        → ((after : List Keysection) (rest : List ℕ)
            → length rest ≤ n
            → length rest ≤ m
            → load_lines n malloc stale after rest ≡ load_lines m malloc stale after rest)
        → (do pass ← r; load_lines n malloc stale pass.0 pass.1)
          ≡ (do pass ← r; load_lines m malloc stale pass.0 pass.1)
    agree none e again = refl
    agree (some (after, rest)) e again =
        let shorter = line_pass_shorter malloc (stale (c ∷ file)) chain c file e in
        again after rest (omega arith) (omega arith)

-- With as many passes as the file has bytes, or more, the loop of `load_keyfile` ends: what
-- `load_lines` gives is what a run without a bound on its passes comes to, in which each pass leaves
-- less of the file. There is no result only if a pass of that run leaves its memory, never as the
-- passes run out.
pub load_lines_lem :
    (fuel : ℕ) (malloc : Malloc) (stale : List ℕ → List ℕ) (chain : List Keysection) (file : List ℕ)
    → length file ≤ fuel
    → IsRun malloc stale chain file (load_lines fuel malloc stale chain file)
unfolding load_lines
load_lines_lem zero malloc stale chain [] h = at_end chain
load_lines_lem (suc fuel) malloc stale chain [] h = at_end chain
load_lines_lem zero malloc stale chain (c ∷ file) h = absurd (omega arith)
load_lines_lem (suc fuel) malloc stale chain (c ∷ file) h =
    run (line_pass malloc (stale (c ∷ file)) chain (c ∷ file)) refl
      (λ after rest h. load_lines_lem fuel malloc stale after rest h)
  where
    run :
        (r : Option (List Keysection × List ℕ))
        → line_pass malloc (stale (c ∷ file)) chain (c ∷ file) ≡ r
        → ((after : List Keysection) (rest : List ℕ)
            → length rest ≤ fuel
            → IsRun malloc stale after rest (load_lines fuel malloc stale after rest))
        → IsRun malloc stale chain
            (c ∷ file)
            (do pass ← r; load_lines fuel malloc stale pass.0 pass.1)
    run none e again = stops e
    run (some (after, rest)) e again =
        let shorter = line_pass_shorter malloc (stale (c ∷ file)) chain c file e in
        goes_on e (omega arith) (again after rest (omega arith))
