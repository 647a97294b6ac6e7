-- ===== src/Keyfile/RoundTrip.antt =====
-- What `save_keyfile` writes for the keys of a section, and what `load_keyfile` makes of it.
use libcpr.Base.{
  ℕ, zero, suc, ◌+◌, ◌≤◌, ◌<◌, ◌≡◌, ◌≢◌, refl, sym, ap, ◌∙◌, inl, inr, true, false, Option, none,
  some, List, [], ◌∷◌, ◌++◌, append_assoc, arith, length, drop, length-append, take_append, All,
  ◌==◌, to, strchr, Malloc, fgets,
}
use libcpr.Strchar.Length.{IsText}
use libcpr.Keyfile.{Keydata, Keysection, make_keydata}
use libcpr.Keyfile.Lines.{Line, isspace, isalnum, parse_line}
use libcpr.Keyfile.Lookup.{terminated, strchr_end, IsGenerous, key_id, make_keydata_lem}
use libcpr.Keyfile.Files.{print_text, quote_for, print_key, add_key, add_line, load_lines}
use libcpr.Keyfile.Saved.{named, key_text, parse_line_lem}
use libcpr.Keyfile.Texts.{IsPlain, IsInner, IsQuote, plain-IsText, inner-IsText}

-- A key whose line can be loaded again. Its name has two characters or more and is one that
-- `make_keydata` leaves as it is.
pub data IsSavable : Keydata → Type 0 where
  savable :
      (first last : ℕ) (mid value : List ℕ)
      → isalnum first ≡ true
      → All IsInner (named first mid last)
      → isspace last ≡ false
      → All IsPlain value
      → length mid + length value ≤ 89
      → key_id (named first mid last) ≡ named first mid last
      → IsSavable (record { id = terminated (named first mid last); value = terminated value })

pub print_text_lem : (text : List ℕ) → IsText text → print_text (terminated text) ≡ some text
unfolding print_text
print_text_lem text i = rw (strchr_end text [] i, take_append text (0 ∷ [])) refl

quote_for_lem : (value : List ℕ) → IsQuote (quote_for value)
unfolding quote_for
quote_for_lem value = quote_cases (strchr (value ++ (0 ∷ [])) 39)
  where
    quote_cases : (found : Option ℕ) → IsQuote (elim found [ none ↦ 39 | some _ ↦ 34 ])
    quote_cases none = inl refl
    quote_cases (some at) = inr refl

-- A text without a newline.
abbrev pub IsOneLine : List ℕ → Type 0
IsOneLine text = All (λ c. c ≢ 10) text

-- A line of a file is read whole.
fgets_line :
    (n : ℕ) (text rest : List ℕ)
    → IsOneLine text
    → length text < n
    → fgets n (text ++ (10 ∷ rest)) ≡ (text ++ (10 ∷ []), rest)
unfolding fgets
fgets_line zero text rest a h = absurd (omega arith)
fgets_line (suc n) [] rest a h = refl
fgets_line (suc n) (c ∷ text) rest a h =
    let other : (c == 10) ≡ false = ground (arith, a.0) in
    rw (other, fgets_line n text rest a.1 (omega arith)) refl

add_key_last :
    (malloc : Malloc) (before : List Keysection) (section after : Keysection) (id value : List ℕ)
    → make_keydata true malloc section (to id) (to value) ≡ some (true, after)
    → add_key malloc (before ++ (section ∷ [])) id value ≡ some (before ++ (after ∷ []))
unfolding add_key
add_key_last malloc [] section after id value e = rw e refl
add_key_last malloc (first ∷ []) section after id value e =
    rw (add_key_last malloc [] section after id value e) refl
add_key_last malloc (first ∷ next ∷ before) section after id value e =
    rw (add_key_last malloc (next ∷ before) section after id value e) refl

quote_not_newline : (q : ℕ) → IsQuote q → q ≢ 10
quote_not_newline q h = ground arith

pub append-IsOneLine : (s t : List ℕ) → IsOneLine s → IsOneLine t → IsOneLine (s ++ t)
append-IsOneLine [] t a b = b
append-IsOneLine (c ∷ s) t a b = (a.0, append-IsOneLine s t a.1 b)

inner-IsOneLine : (s : List ℕ) → All IsInner s → IsOneLine s
inner-IsOneLine [] a = _
inner-IsOneLine (c ∷ s) a = (a.0.1, inner-IsOneLine s a.1)

pub plain-IsOneLine : (s : List ℕ) → All IsPlain s → IsOneLine s
plain-IsOneLine [] a = _
plain-IsOneLine (c ∷ s) a = (a.0.1, plain-IsOneLine s a.1)

-- A pass of the loop of `load_keyfile`.
pub load_pass :
    (fuel : ℕ) (malloc : Malloc) (stale : List ℕ → List ℕ) (chain after : List Keysection)
    (text rest : List ℕ) (line : Line)
    → IsOneLine text
    → length text < 95
    → parse_line (text ++ (10 ∷ 0 ∷ drop (length text + 2) (stale (text ++ (10 ∷ rest)))))
      ≡ some line
    → add_line malloc chain line ≡ some after
    → load_lines (suc fuel) malloc stale chain (text ++ (10 ∷ rest))
      ≡ load_lines fuel malloc stale after rest
unfolding load_lines
load_pass fuel malloc stale chain after [] rest line a h parsed added =
    rw (fgets_line 95 [] rest a h, parsed, added) refl
load_pass fuel malloc stale chain after (c ∷ text) rest line a h parsed added =
    let size : suc (length (text ++ (10 ∷ []))) + 1 ≡ suc (length text) + 2 =
      omega (arith, length-append text (10 ∷ [])) in
    rw
      (
        fgets_line 95 (c ∷ text) rest a h,
        size,
        append_assoc text (10 ∷ [])
            (0 ∷ drop (suc (length text) + 2) (stale (c ∷ (text ++ (10 ∷ rest))))),
        parsed,
        added,
      )
      refl

-- The line of a key, and the pass of `load_lines` that reads it.
pub key_pass :
    (key : Keydata) (malloc : Malloc) (stale : List ℕ → List ℕ)
    → IsGenerous malloc
    → IsSavable key
    → (text : List ℕ) × (print_key key ≡ some (text ++ (10 ∷ [])))
      × ((fuel : ℕ) (before : List Keysection) (section : Keysection) (rest : List ℕ)
          → load_lines (suc fuel) malloc stale (before ++ (section ∷ [])) (text ++ (10 ∷ rest))
            ≡ load_lines fuel malloc stale
                (before ++ (record section { keys = key ∷ section.keys } ∷ []))
                rest)
unfolding print_key load_lines add_line
key_pass _ malloc stale g (savable first last mid value letter a no_space b h lower) =
    let id = named first mid last in
    let q = quote_for value in
    let iq = quote_for_lem value in
    let text = key_text id q value in
    let ivalue = plain-IsText value b in
    let iid = inner-IsText id a in
    (
      text,
      rw (print_text_lem id iid, print_text_lem value ivalue)
          (ap (λ l. some (id ++ (61 ∷ q ∷ l))) (sym (append_assoc value (q ∷ []) (10 ∷ [])))
            ∙ ap some (sym (append_assoc id (61 ∷ q ∷ (value ++ (q ∷ []))) (10 ∷ [])))),
      λ fuel before section rest.
          let one_line : IsOneLine text =
            append-IsOneLine id (61 ∷ q ∷ (value ++ (q ∷ []))) (inner-IsOneLine id a) (
              ground arith,
              (
                quote_not_newline q iq,
                append-IsOneLine value (q ∷ []) (plain-IsOneLine value b)
                    (quote_not_newline q iq, _),
              ),
            ) in
          let size : length text < 95 = omega (
            arith,
            length-append id (61 ∷ q ∷ (value ++ (q ∷ []))),
            length-append value (q ∷ []),
            length-append mid (last ∷ []),
          ) in
          let unread = drop (length text + 2) (stale (text ++ (10 ∷ rest))) in
          let parsed =
            parse_line_lem first last q mid value (unread) letter a no_space iq ivalue h in
          let made =
            make_keydata_lem malloc section id value (q ∷ (value ++ (q ∷ 0 ∷ 0 ∷ unread)))
              (0 ∷ 0 ∷ unread) g iid ivalue in
          load_pass fuel malloc stale _ _ text rest _ one_line size parsed (
            add_key_last malloc before section _ _ _ (
              made
              ∙ ap
                  (λ k. some (
                    true,
                    record section {
                      keys = record { id = terminated k; value = terminated value } ∷ section.keys;
                    },
                  ))
                  lower)),
    )
