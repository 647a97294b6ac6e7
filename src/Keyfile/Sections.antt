-- ===== src/Keyfile/Sections.antt =====
-- The passes of `load_keyfile` that read the headers of sections.
use libcpr.Base.{
  ℕ, suc, ◌+◌, ◌≤◌, ◌<◌, min, ◌≡◌, refl, true, false, some, List, [], ◌∷◌, ◌++◌, map, arith, length,
  take, drop, length-append, All, to, Malloc,
}
use libcpr.Strchar.{toupper}
use libcpr.Strchar.Length.{IsText}
use libcpr.Strchar.Copy.{cpr_upper_lower}
use libcpr.Keyfile.{Keysection, make_keysection}
use libcpr.Keyfile.Lines.{isspace, skipped}
use libcpr.Keyfile.Lookup.{terminated, IsGenerous}
use libcpr.Keyfile.Files.{add_line, load_lines}
use libcpr.Keyfile.Saved.{named}
use libcpr.Keyfile.Texts.{IsPlain, plain-IsText}
use libcpr.Keyfile.RoundTrip.{load_pass, IsOneLine, plain-IsOneLine, append-IsOneLine}
use libcpr.Keyfile.Header.{parse_header, star_skipped}

-- The name that a section is given: its first 32 characters in upper case.
abbrev pub section_id : List ℕ → List ℕ
section_id text = map toupper (take (min (length text) 32) text)

pub make_keysection_lem :
    (malloc : Malloc) (name rest : List ℕ) (chain : List Keysection)
    → IsGenerous malloc
    → IsText name
    → make_keysection true malloc (to (name ++ (0 ∷ rest))) chain
      ≡ some (true, chain ++ (record { id = terminated (section_id name); keys = [] } ∷ []))
unfolding make_keysection
make_keysection_lem malloc name rest chain g i =
    let n = min (length name) 32 in
    let (block, got, size) = g (n + 1) in
    let upper = (cpr_upper_lower malloc name rest block 32 n i refl (omega arith) got size).0 in
    rw upper refl

-- The header of a section is read, and an empty section added.
pub header_pass :
    (first last : ℕ) (mid : List ℕ) (malloc : Malloc) (stale : List ℕ → List ℕ) (rest : List ℕ)
    (fuel : ℕ) (before : List Keysection)
    → IsGenerous malloc
    → isspace first ≡ false
    → isspace last ≡ false
    → All IsPlain (named first mid last)
    → length mid ≤ 30
    → section_id (named first mid last) ≡ named first mid last
    → load_lines
        (suc fuel)
        malloc
        stale
        before
        ((91 ∷ (named first mid last ++ (93 ∷ []))) ++ (10 ∷ rest))
      ≡ load_lines fuel malloc stale
          (before ++ (record { id = terminated (named first mid last); keys = [] } ∷ []))
          rest
unfolding add_line
header_pass first last mid malloc stale rest fuel before g starts ends plain h upper =
    let name = named first mid last in
    let text = 91 ∷ (name ++ (93 ∷ [])) in
    let i = plain-IsText name plain in
    let one_line : IsOneLine text = (
      ground arith,
      append-IsOneLine name (93 ∷ []) (plain-IsOneLine name plain) (ground arith, _),
    ) in
    let size : length text < 95 =
      omega (arith, length-append name (93 ∷ []), length-append mid (last ∷ [])) in
    let unread = drop (length text + 2) (stale (text ++ (10 ∷ rest))) in
    let parsed = parse_header first last mid unread i starts ends (omega arith) in
    let made = make_keysection_lem malloc name (0 ∷ 0 ∷ unread) before g i in
    load_pass fuel malloc stale before _ text rest _ one_line size parsed (rw (made, upper) refl)

-- The header of the first section is passed over.
pub star_pass :
    (malloc : Malloc) (stale : List ℕ → List ℕ) (rest : List ℕ) (fuel : ℕ) (chain : List Keysection)
    → load_lines (suc fuel) malloc stale chain (91 ∷ 42 ∷ 93 ∷ 10 ∷ rest)
      ≡ load_lines fuel malloc stale chain rest
unfolding add_line
star_pass malloc stale rest fuel chain =
    load_pass fuel malloc stale chain chain (91 ∷ 42 ∷ 93 ∷ []) rest skipped
      (ground arith, (ground arith, (ground arith, _))) (omega arith) (star_skipped _) refl
