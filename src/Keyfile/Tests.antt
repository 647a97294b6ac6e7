-- ===== src/Keyfile/Tests.antt =====
-- Runs of the functions of keyfile.c, and the theorems at concrete inputs.
use libcpr.Base.{
  ℕ, ◌≡◌, ◌≢◌, refl, ◌⊎◌, true, some, List, [], ◌∷◌, ◌++◌, arith, replicate, length-replicate, to,
  strchr, Malloc, fgets, map, ◌<◌,
}
use libcpr.Strchar.{cpr_strlen, cpr_upper, cpr_lower}
use libcpr.Keyfile.{
  Keydata, Keysection, get_keyvalue, make_keydata, make_keysection, find_keysection,
}
use libcpr.Keyfile.Lines.{skipped, header, entry, parse_line}
use libcpr.Keyfile.Lookup.{
  terminated, IsGenerous, key_id, IsFirst, AllNamed, nil, cons, get_keyvalue-make_keydata,
  find_keysection_lem,
}
use libcpr.Keyfile.Files.{load_lines, IsRun, load_lines_lem, load_keyfile, save_keyfile}
use libcpr.Keyfile.Texts.{IsInner}
use libcpr.Keyfile.RoundTrip.{savable}
use libcpr.Keyfile.Reload.{savable_section, turned, load_keyfile-save_keyfile}

abbrev heap : Malloc
heap size = to (replicate size 0xaa)

abbrev stale : List ℕ → List ℕ
stale file = replicate 96 0

-- "[ab ]", and a section name of one character, which is passed over.
header_run :
    parse_line (b'[' ∷ b'a' ∷ b'b' ∷ b' ' ∷ b']' ∷ b'\n' ∷ 0 ∷ [])
    ≡ some (header (b'a' ∷ b'b' ∷ 0 ∷ b']' ∷ 0 ∷ 0 ∷ []))
unfolding parse_line cpr_strlen
header_run = refl

short_header_run : parse_line (b'[' ∷ b'a' ∷ b']' ∷ b'\n' ∷ 0 ∷ []) ≡ some skipped
unfolding parse_line cpr_strlen
short_header_run = refl

-- "ab = 'x y'", and a key of one character, which is passed over.
entry_run :
    parse_line
      (b'a' ∷ b'b' ∷ b' ' ∷ b'=' ∷ b' ' ∷ b'\'' ∷ b'x' ∷ b' ' ∷ b'y' ∷ b'\'' ∷ b'\n' ∷ 0 ∷ [])
    ≡ some (
        entry
          (b'a' ∷ b'b' ∷ 0 ∷ b'=' ∷ b' ' ∷ b'\'' ∷ b'x' ∷ b' ' ∷ b'y' ∷ b'\'' ∷ 0 ∷ 0 ∷ [])
          (b'x' ∷ b' ' ∷ b'y' ∷ 0 ∷ 0 ∷ 0 ∷ []))
unfolding parse_line cpr_strlen
entry_run = refl

short_entry_run : parse_line (b'a' ∷ b'=' ∷ b'1' ∷ b'\n' ∷ 0 ∷ []) ≡ some skipped
unfolding parse_line cpr_strlen
short_entry_run = refl

-- Behind spaces a section is looked for too far on, where the buffer can end.
indented_overrun :
    parse_line (b' ' ∷ b' ' ∷ b'[' ∷ b'a' ∷ b'b' ∷ b']' ∷ b'\n' ∷ 0 ∷ []) ≡ some skipped
unfolding parse_line cpr_strlen
indented_overrun = refl

abbrev key : List ℕ → List ℕ → Keydata
key id value = record { id = to (id ++ (0 ∷ [])); value = to (value ++ (0 ∷ [])) }

abbrev section : List Keydata → Keysection
section keys = record { id = to (b'*' ∷ 0 ∷ []); keys = keys }

-- "[*]\nab='1'\ncd=\"'\"\n" is what is saved, and it is loaded with the keys in the other order.
abbrev saved : List ℕ
saved =
    b'[' ∷ b'*' ∷ b']' ∷ b'\n' ∷ b'a' ∷ b'b' ∷ b'=' ∷ b'\'' ∷ b'1' ∷ b'\'' ∷ b'\n' ∷ b'c' ∷ b'd'
    ∷ b'=' ∷ b'"' ∷ b'\'' ∷ b'"' ∷ b'\n' ∷ []

save_run :
    save_keyfile true
      (section (key (b'a' ∷ b'b' ∷ []) (b'1' ∷ []) ∷ key (b'c' ∷ b'd' ∷ []) (b'\'' ∷ []) ∷ []) ∷ [])
    ≡ some (true, saved)
unfolding save_keyfile strchr
save_run = refl

load_run :
    load_keyfile heap stale (to saved)
    ≡ some (
        section (key (b'c' ∷ b'd' ∷ []) (b'\'' ∷ []) ∷ key (b'a' ∷ b'b' ∷ []) (b'1' ∷ []) ∷ [])
        ∷ [])
unfolding load_keyfile make_keysection make_keydata parse_line fgets cpr_strlen cpr_upper cpr_lower
    strchr
load_run = refl

heap-IsGenerous : IsGenerous heap
heap-IsGenerous size = (replicate size 0xaa, refl, length-replicate size 0xaa)

abbrev one_key : Keysection
one_key = section (key (b'a' ∷ b'b' ∷ []) (b'1' ∷ []) ∷ [])

get_keyvalue-make_keydata_example :
    (after : Keysection) × (make_keydata true heap one_key
        (to (b'A' ∷ b'b' ∷ 0 ∷ []))
        (to (b'2' ∷ 0 ∷ []))
      ≡ some (true, after))
    × (((key_id (b'A' ∷ b'b' ∷ []) ≡ b'a' ∷ b'b' ∷ [])
          × (get_keyvalue after (to (b'a' ∷ b'b' ∷ 0 ∷ [])) ≡ some (to (b'2' ∷ 0 ∷ []))))
        ⊎ ((key_id (b'A' ∷ b'b' ∷ []) ≢ b'a' ∷ b'b' ∷ [])
            × (get_keyvalue after (to (b'a' ∷ b'b' ∷ 0 ∷ []))
                ≡ get_keyvalue one_key (to (b'a' ∷ b'b' ∷ 0 ∷ [])))))
get_keyvalue-make_keydata_example =
    get_keyvalue-make_keydata heap one_key (b'A' ∷ b'b' ∷ []) (b'2' ∷ []) (b'a' ∷ b'b' ∷ []) [] []
      heap-IsGenerous (omega arith) (omega arith) (omega arith)

star_named : AllNamed (one_key ∷ []) ((b'*' ∷ []) ∷ [])
star_named = cons (refl, omega arith) nil

find_keysection_lem_run :
    (found : List Keysection) × (find_keysection (one_key ∷ []) (terminated (b'*' ∷ []))
      ≡ some found)
    × IsFirst (b'*' ∷ []) (one_key ∷ []) ((b'*' ∷ []) ∷ []) found
find_keysection_lem_run = find_keysection_lem (b'*' ∷ []) (omega arith) star_named

load_lines_lem_example :
    IsRun heap stale (one_key ∷ []) saved (load_lines 18 heap stale (one_key ∷ []) saved)
load_lines_lem_example = load_lines_lem 18 heap stale (one_key ∷ []) saved (omega arith)

inner : (c : ℕ) → 61 < c → IsInner c
inner c h = (ground arith, ground arith, ground arith)

-- "ab" and "cd" in the first section, and "ef" in a section "XY".
abbrev two_keys : List Keydata
two_keys = key (b'a' ∷ b'b' ∷ []) (b'1' ∷ []) ∷ key (b'c' ∷ b'd' ∷ []) (b'\'' ∷ []) ∷ []

abbrev other_section : Keysection
other_section = record { id = to (b'X' ∷ b'Y' ∷ 0 ∷ []); keys = key (b'e' ∷ b'f' ∷ []) [] ∷ [] }

load_keyfile-save_keyfile_example :
    (file : List ℕ) × (save_keyfile true (section two_keys ∷ other_section ∷ [])
      ≡ some (true, file))
    × (load_keyfile heap stale (to file)
        ≡ some (map turned (section two_keys ∷ other_section ∷ [])))
load_keyfile-save_keyfile_example =
    load_keyfile-save_keyfile heap stale two_keys (other_section ∷ []) heap-IsGenerous
      (
        savable b'a' b'b' [] (b'1' ∷ []) refl
            (inner b'a' (omega arith), (inner b'b' (omega arith), _)) refl
            ((ground arith, ground arith), _) (omega arith) refl,
        (
          savable b'c' b'd' [] (b'\'' ∷ []) refl
              (inner b'c' (omega arith), (inner b'd' (omega arith), _)) refl
              ((ground arith, ground arith), _) (omega arith) refl,
          _,
        ),
      )
      (
        savable_section b'X' b'Y' [] (key (b'e' ∷ b'f' ∷ []) [] ∷ []) refl refl
            ((ground arith, ground arith), ((ground arith, ground arith), _)) (omega arith) refl
            (
              savable b'e' b'f' [] [] refl (inner b'e' (omega arith), (inner b'f' (omega arith), _))
                  refl _ (omega arith) refl,
              _,
            ),
        _,
      )
