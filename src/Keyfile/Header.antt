-- ===== src/Keyfile/Header.antt =====
-- The line of a section's name, as `load_keyfile` takes it.
use libcpr.Base.{
  ℕ, suc, ◌+◌, ◌-◌, ◌^◌, ◌≤◌, ◌≡◌, refl, sym, ap, ap₂, ◌∙◌, false, some, List, [], ◌∷◌, ◌++◌,
  append_assoc, arith, length, length-append, ltb, ◌==◌, to, u64, load, store-append_at,
  load-append,
}
use libcpr.Strchar.{cpr_strlen}
use libcpr.Strchar.Length.{IsText}
use libcpr.Keyfile.Lines.{
  isspace, header, skipped, chop_spaces, skip_spaces, section_end, section_start, section_line,
  parse_line,
}
use libcpr.Keyfile.Saved.{named, chop_newline}
use libcpr.Keyfile.Texts.{snoc-IsText, strlen_snoc, load-append_at}

section_line_lem :
    (first last : ℕ) (mid rest : List ℕ)
    → isspace first ≡ false
    → isspace last ≡ false
    → length mid ≤ 90
    → section_line (91 ∷ (named first mid last ++ (93 ∷ rest))) (length (named first mid last) + 1)
      ≡ some (header (named first mid last ++ (0 ∷ rest)))
unfolding section_line section_end section_start
section_line_lem first last mid rest starts ends h =
    let name = named first mid last in
    let size : length name ≡ suc (suc (length mid)) =
      omega (arith, length-append mid (last ∷ [])) in
    let from : length name + 1 - 1 ≡ suc (suc (length mid)) = omega (arith, size) in
    let is_last : load (91 ∷ (name ++ (93 ∷ rest))) (suc (suc (length mid))) ≡ some last =
      rw (append_assoc mid (last ∷ []) (93 ∷ rest))
        (load-append_at (suc (suc (length mid))) (91 ∷ first ∷ mid) last (93 ∷ rest) refl) in
    let named_enough : ltb (suc (suc (length mid))) 2 ≡ false = ground arith in
    let at : u64 (suc (suc (length mid)) + 2 ^ 64 - 0) ≡ length name = omega (arith, size) in
    let cut = store-append_at (length name) name 93 rest 0 refl in
    rw (from, is_last, ends, named_enough, starts, at, cut) refl

-- A whole line in brackets is taken for a section.
parse_section :
    (buffer lp : List ℕ) (len n k : ℕ)
    → len ≡ suc n
    → cpr_strlen (to buffer) 96 ≡ some len
    → load buffer n ≡ some 10
    → chop_spaces len buffer ≡ some (k, 91 ∷ lp)
    → load (91 ∷ lp) k ≡ some 93
    → parse_line buffer ≡ section_line (91 ∷ lp) k
unfolding parse_line skip_spaces
parse_section buffer lp len n k size known newline chopped bracket =
    let some_len : (len == 0) ≡ false = ground arith in
    let end : len - 1 ≡ n = omega arith in rw (known, some_len, end, newline, chopped, bracket) refl

pub parse_header :
    (first last : ℕ) (mid stale : List ℕ)
    → IsText (named first mid last)
    → isspace first ≡ false
    → isspace last ≡ false
    → length mid ≤ 90
    → parse_line ((91 ∷ (named first mid last ++ (93 ∷ []))) ++ (10 ∷ 0 ∷ stale))
      ≡ some (header (named first mid last ++ (0 ∷ 0 ∷ 0 ∷ stale)))
parse_header first last mid stale i starts ends h =
    let name = named first mid last in
    let pre = 91 ∷ name in
    let size : length name ≡ suc (suc (length mid)) =
      omega (arith, length-append mid (last ∷ [])) in
    let it : IsText (pre ++ (93 ∷ [])) = snoc-IsText pre 93 (ground arith, i) (ground arith) in
    let n : length (pre ++ (93 ∷ [])) ≡ suc (length pre) =
      omega (arith, length-append pre (93 ∷ [])) in
    let known =
      strlen_snoc (pre ++ (93 ∷ [])) stale 10 (suc (suc (length pre))) it (ground arith)
        (omega (arith, n)) (omega (arith, size)) in
    let newline = load-append_at (suc (length pre)) (pre ++ (93 ∷ [])) 10 (0 ∷ stale) (sym n) in
    let chopped = chop_newline pre (0 ∷ stale) 93 (suc (suc (length pre))) refl refl in
    let bracket : load ((pre ++ (93 ∷ [])) ++ (0 ∷ 0 ∷ stale)) (length pre) ≡ some 93 =
      rw (append_assoc pre (93 ∷ []) (0 ∷ 0 ∷ stale)) (load-append pre 93 (0 ∷ 0 ∷ stale)) in
    let parsed =
      parse_section _ _ (suc (suc (length pre))) (suc (length pre)) (length pre) refl known newline
        chopped bracket in
    let more : suc (length name) ≡ length name + 1 = omega arith in
    parsed
    ∙ (ap₂ section_line (ap (λ l. 91 ∷ l) (append_assoc name (93 ∷ []) (0 ∷ 0 ∷ stale))) more
        ∙ section_line_lem first last mid (0 ∷ 0 ∷ stale) starts ends h)

-- The header of a section with a name of one character is passed over.
pub star_skipped : (stale : List ℕ) → parse_line (91 ∷ 42 ∷ 93 ∷ 10 ∷ 0 ∷ stale) ≡ some skipped
unfolding section_line section_end
star_skipped stale =
    let known =
      strlen_snoc (91 ∷ 42 ∷ 93 ∷ []) stale 10 4 (ground arith, (ground arith, (ground arith, _)))
        (ground arith) refl (omega arith) in
    let chopped = chop_newline (91 ∷ 42 ∷ []) (0 ∷ stale) 93 4 refl refl in
    parse_section (91 ∷ 42 ∷ 93 ∷ 10 ∷ 0 ∷ stale) _ 4 3 2 refl known refl chopped refl ∙ refl
