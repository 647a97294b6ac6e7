-- ===== src/Keyfile/Reload.antt =====
-- A keyfile that `save_keyfile` writes, and what `load_keyfile` makes of it.
use libcpr.Base.{
  ℕ, suc, ◌≤◌, ◌≡◌, refl, sym, ap, ◌∙◌, true, false, some, List, [], ◌∷◌, ◌++◌, append_assoc,
  append-nil, map, arith, length, length-append, All, to, Malloc,
}
use libcpr.Strchar.Length.{IsText}
use libcpr.Keyfile.{Keydata, Keysection}
use libcpr.Keyfile.Lines.{isspace}
use libcpr.Keyfile.Lookup.{terminated, IsGenerous}
use libcpr.Keyfile.Files.{
  print_keys, print_sections, save_keyfile, load_keyfile, load_lines, load_lines_fuel,
}
use libcpr.Keyfile.Saved.{named}
use libcpr.Keyfile.Texts.{IsPlain, plain-IsText}
use libcpr.Keyfile.RoundTrip.{IsSavable, key_pass, print_text_lem}
use libcpr.Keyfile.Sections.{section_id, make_keysection_lem, header_pass, star_pass}

-- Each key goes in front of those before it.
abbrev pub reversed : List Keydata → List Keydata → List Keydata
reversed [] keys = keys
reversed (key ∷ more) keys = reversed more (key ∷ keys)

-- What `print` prints reads back as the step from `section` to `after`, with enough fuel.
load_keys :
    (keys : List Keydata) (malloc : Malloc) (stale : List ℕ → List ℕ)
    → IsGenerous malloc
    → All IsSavable keys
    → (text : List ℕ) × (print_keys keys ≡ some text)
      × ((fuel : ℕ) (before : List Keysection) (section : Keysection) (rest : List ℕ)
          → length (text ++ rest) ≤ fuel
          → load_lines fuel malloc stale (before ++ (section ∷ [])) (text ++ rest)
            ≡ load_lines
                (length rest)
                malloc
                stale
                (before ++ (record section { keys = reversed keys section.keys } ∷ []))
                rest)
unfolding print_keys
load_keys [] malloc stale g a = (
  [],
  refl,
  λ fuel before section rest h.
      load_lines_fuel fuel (length rest) malloc stale (before ++ (section ∷ [])) rest h
        (omega arith),
)
load_keys (key ∷ keys) malloc stale g a =
    let (line, printed, reads) = key_pass key malloc stale g a.0 in
    let (text, printed', reads') = load_keys keys malloc stale g a.1 in
    (
      (line ++ (10 ∷ [])) ++ text,
      rw (printed, printed') refl,
      λ fuel before section rest h.
          let whole : ((line ++ (10 ∷ [])) ++ text) ++ rest ≡ line ++ (10 ∷ (text ++ rest)) =
            append_assoc (line ++ (10 ∷ [])) text rest
            ∙ append_assoc line (10 ∷ []) (text ++ rest) in
          let h' : length (line ++ (10 ∷ (text ++ rest))) ≤ fuel = rw whole at h in
          let more = suc (length (text ++ rest)) in
          rw whole (
            load_lines_fuel fuel (suc (length (line ++ (10 ∷ (text ++ rest))))) malloc stale
              (before ++ (section ∷ [])) (line ++ (10 ∷ (text ++ rest))) h' (omega arith)
            ∙ reads (length (line ++ (10 ∷ (text ++ rest)))) before section (text ++ rest)
            ∙ reads' (length (line ++ (10 ∷ (text ++ rest)))) before
                (record section { keys = key ∷ section.keys }) rest
                (omega (arith, length-append line (10 ∷ (text ++ rest))))),
    )

-- A section whose header can be loaded again, with its keys. Its name has two characters or more and
-- is one that `make_keysection` leaves as it is.
pub data IsSavableSection : Keysection → Type 0 where
  savable_section :
      (first last : ℕ) (mid : List ℕ) (keys : List Keydata)
      → isspace first ≡ false
      → isspace last ≡ false
      → All IsPlain (named first mid last)
      → length mid ≤ 30
      → section_id (named first mid last) ≡ named first mid last
      → All IsSavable keys
      → IsSavableSection (record { id = terminated (named first mid last); keys = keys })

-- What becomes of a section: its keys come in the opposite order.
abbrev pub turned : Keysection → Keysection
turned section = record { id = section.id; keys = reversed section.keys [] }

no_lines :
    (malloc : Malloc) (stale : List ℕ → List ℕ) (chain : List Keysection)
    → load_lines 0 malloc stale chain [] ≡ some chain
unfolding load_lines
no_lines malloc stale chain = refl

-- What is printed for sections, and the passes that read it.
load_sections :
    (sections : List Keysection) (malloc : Malloc) (stale : List ℕ → List ℕ)
    → IsGenerous malloc
    → All IsSavableSection sections
    → (text : List ℕ) × (print_sections sections ≡ some text)
      × ((fuel : ℕ) (before : List Keysection)
          → length text ≤ fuel
          → load_lines fuel malloc stale before text ≡ some (before ++ map turned sections))
unfolding print_sections
load_sections [] malloc stale g a = (
  [],
  refl,
  λ fuel before h.
      load_lines_fuel fuel 0 malloc stale before [] h (omega arith)
      ∙ rw (append-nil before) (no_lines malloc stale before),
)
load_sections (_ ∷ sections) malloc stale g
      (savable_section first last mid keys starts ends plain h upper saved, a) =
    let name = named first mid last in
    let (lines, printed, reads) = load_keys keys malloc stale g saved in
    let (more, printed', reads') = load_sections sections malloc stale g a in
    let line = 91 ∷ (name ++ (93 ∷ [])) in
    (
      line ++ (10 ∷ (lines ++ more)),
      rw (print_text_lem name (plain-IsText name plain), printed, printed')
          (ap (λ l. some (91 ∷ l)) (sym (append_assoc name (93 ∷ []) (10 ∷ (lines ++ more))))),
      λ fuel before enough.
          let all = line ++ (10 ∷ (lines ++ more)) in
          let size : length (lines ++ more) ≤ length all =
            omega (arith, length-append line (10 ∷ (lines ++ more))) in
          load_lines_fuel fuel (suc (length all)) malloc stale before all enough (omega arith)
          ∙ (header_pass first last mid malloc stale (lines ++ more) (length all) before g starts
                ends plain h upper
              ∙ (reads (length all) before (record { id = terminated name; keys = [] }) more size
                  ∙ (reads' (length more) _ (omega arith)
                      ∙ ap some (
                          append_assoc before
                            (record { id = terminated name; keys = reversed keys [] } ∷ [])
                            (map turned sections))))),
    )

-- Of a chain of sections that starts with the section "*", `save_keyfile` writes a file that
-- `load_keyfile` reads back where no allocation fails: the same sections in the same order, with the
-- keys of each in the opposite order. Each key and each other section has a name of 2 to 32
-- characters, with no newline and with no space at its end. A key's name starts with a letter or a
-- digit, has no "=" and no capital; its value has no newline, and both have 91 characters at most
-- together. A section's name has no small letter and no space at its start.
pub load_keyfile-save_keyfile :
    (malloc : Malloc) (stale : List ℕ → List ℕ) (keys : List Keydata) (sections : List Keysection)
    → IsGenerous malloc
    → All IsSavable keys
    → All IsSavableSection sections
    → (file : List ℕ) × (save_keyfile true
          (record { id = terminated (42 ∷ []); keys = keys } ∷ sections)
        ≡ some (true, file))
      × (load_keyfile malloc stale (to file)
          ≡ some (map turned (record { id = terminated (42 ∷ []); keys = keys } ∷ sections)))
unfolding save_keyfile print_sections load_keyfile
load_keyfile-save_keyfile malloc stale keys sections g a b =
    let (lines, printed, reads) = load_keys keys malloc stale g a in
    let (more, printed', reads') = load_sections sections malloc stale g b in
    let star : IsText (42 ∷ []) = (ground arith, _) in
    let rest = lines ++ more in
    let made = make_keysection_lem malloc (42 ∷ []) [] [] g star in
    (
      91 ∷ 42 ∷ 93 ∷ 10 ∷ rest,
      rw (print_text_lem (42 ∷ []) star, printed, printed') refl,
      rw made (
          star_pass malloc stale rest (suc (suc (suc (length rest)))) _
          ∙ (reads (suc (suc (suc (length rest)))) []
                (record { id = terminated (42 ∷ []); keys = [] }) more (omega arith)
              ∙ reads' (length more) _ (omega arith))),
    )
