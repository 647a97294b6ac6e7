-- ===== src/Keyfile/Saved.antt =====
-- A key as `save_keyfile` prints it, and the line as `load_keyfile` takes it.
use libcpr.Base.{
  ℕ, suc, ◌+◌, ◌-◌, ◌≤◌, ◌≡◌, ◌≢◌, refl, sym, ap, ◌∙◌, true, false, not, some, List, [], ◌∷◌, ◌++◌,
  append_assoc, arith, length, drop, length-append, All, ◌==◌, ◌&&◌, ◌||◌, to, load,
  store-append_at, load-append,
}
use libcpr.Strchar.{cpr_strlen}
use libcpr.Strchar.Length.{IsText}
use libcpr.Keyfile.Lines.{
  isspace, isalnum, entry, chop_spaces, skip_spaces, find_equals, key_end, value_text, key_line,
  parse_line,
}
use libcpr.Keyfile.Texts.{
  IsInner, IsQuote, inner-IsText, append-IsText, quote_no_space, quote_not_zero, snoc-IsText,
  strlen_snoc, load-append_at, drop_behind,
}

value_text_lem :
    (q : ℕ) (value stale : List ℕ)
    → IsQuote q
    → IsText value
    → length value + 2 ≤ 96
    → value_text (q ∷ (value ++ (q ∷ 0 ∷ stale))) ≡ some (value ++ (0 ∷ 0 ∷ stale))
unfolding value_text
value_text_lem q value stale iq i h =
    let some_q : q ≢ 0 = ground arith in
    let no_space : isspace q ≡ false = ground arith in
    let present : (q == 0) ≡ false = ground arith in
    let quote : (q == 39 || q == 34) ≡ true = ground arith in
    let known =
      strlen_snoc (q ∷ value) stale q (length value + 2) (some_q, i) some_q (omega arith) h in
    let end : length value + 2 - 1 ≡ length (q ∷ value) = omega arith in
    let last = load-append_at (length value + 2 - 1) (q ∷ value) q (0 ∷ stale) end in
    let cut = store-append_at (length value + 2 - 1) (q ∷ value) q (0 ∷ stale) 0 end in
    let same : (q == q) ≡ true = ground arith in
    rw (no_space, present, known, last, quote, same, cut) (rw present refl)

find_equals_lem :
    (id rest : List ℕ) → All IsInner id → find_equals (id ++ (61 ∷ rest)) ≡ some (length id)
unfolding find_equals
find_equals_lem [] rest a = refl
find_equals_lem (c ∷ id) rest a =
    let other : (c == 0 || c == 61) ≡ false = ground (arith, a.0) in
    rw (other, find_equals_lem id rest a.1) refl

-- The name of a key: it starts with a letter or a digit, and does not end in a space.
abbrev pub named : ℕ → List ℕ → ℕ → List ℕ
named first mid last = first ∷ (mid ++ (last ∷ []))

key_line_lem :
    (first last q : ℕ) (mid value stale : List ℕ)
    → All IsInner (named first mid last)
    → isspace last ≡ false
    → IsQuote q
    → IsText value
    → length value + 2 ≤ 96
    → key_line (named first mid last ++ (61 ∷ q ∷ (value ++ (q ∷ 0 ∷ stale))))
      ≡ some (
          entry
            (named first mid last ++ (0 ∷ q ∷ (value ++ (q ∷ 0 ∷ stale))))
            (value ++ (0 ∷ 0 ∷ stale)))
unfolding key_line key_end
key_line_lem first last q mid value stale a no_space iq i h =
    let id = named first mid last in
    let body = q ∷ (value ++ (q ∷ 0 ∷ stale)) in
    let found = find_equals_lem id body a in
    let size : length id ≡ suc (suc (length mid)) = omega (arith, length-append mid (last ∷ [])) in
    let is_equals = load-append id 61 body in
    let before : length id - 1 ≡ suc (length mid) = omega (arith, size) in
    let is_last : load (id ++ (61 ∷ body)) (suc (length mid)) ≡ some last =
      rw (append_assoc mid (last ∷ []) (61 ∷ body))
        (load-append_at (suc (length mid)) (first ∷ mid) last (61 ∷ body) refl) in
    let cut = store-append_at (suc (length mid) + 1) id 61 body 0 (omega (arith, size)) in
    let behind : drop (length id + 1) (id ++ (0 ∷ body)) ≡ body = drop_behind id body 0 in
    let some_id : (length id == 0) ≡ false = ground (arith, size) in
    rw
      (
        found,
        is_equals,
        some_id,
        before,
        is_last,
        no_space,
        cut,
        behind,
        value_text_lem q value stale iq i h,
      )
      (let some_kw : (suc (length mid) == 0) ≡ false = ground arith in rw some_kw refl)

-- The line of a key, without the newline.
abbrev pub key_text : List ℕ → ℕ → List ℕ → List ℕ
key_text id q value = id ++ (61 ∷ q ∷ (value ++ (q ∷ [])))

-- A whole line that starts with a letter or a digit is taken for a key.
parse_key :
    (buffer rest : List ℕ) (len n k first : ℕ)
    → len ≡ suc n
    → cpr_strlen (to buffer) 96 ≡ some len
    → load buffer n ≡ some 10
    → chop_spaces len buffer ≡ some (k, first ∷ rest)
    → isalnum first ≡ true
    → parse_line buffer ≡ key_line (first ∷ rest)
unfolding parse_line skip_spaces
parse_key buffer rest len n k first size known newline chopped letter =
    let starts : (not (first == 0) && isspace first) ≡ false = ground arith in
    let present : (first == 0) ≡ false = ground arith in
    let no_bracket : (first == 91) ≡ false = ground arith in
    let some_len : (len == 0) ≡ false = ground arith in
    let end : len - 1 ≡ n = omega arith in
    rw (known, some_len, end, newline, chopped, starts, present, no_bracket, letter) refl

-- The newline is chopped off, and nothing else.
pub chop_newline :
    (pre stale : List ℕ) (q n : ℕ)
    → isspace q ≡ false
    → n ≡ suc (suc (length pre))
    → chop_spaces n ((pre ++ (q ∷ [])) ++ (10 ∷ stale))
      ≡ some (length pre, (pre ++ (q ∷ [])) ++ (0 ∷ stale))
unfolding chop_spaces
chop_newline pre stale q n no_space e =
    let at : suc (length pre) ≡ length (pre ++ (q ∷ [])) =
      omega (arith, length-append pre (q ∷ [])) in
    let newline = load-append_at (suc (length pre)) (pre ++ (q ∷ [])) 10 stale at in
    let cut = store-append_at (suc (length pre)) (pre ++ (q ∷ [])) 10 stale 0 at in
    let behind : load ((pre ++ (q ∷ [])) ++ (0 ∷ stale)) (length pre) ≡ some q =
      rw (append_assoc pre (q ∷ []) (0 ∷ stale)) (load-append pre q (0 ∷ stale)) in
    rw (e, newline, cut, behind, no_space) refl

pub parse_line_lem :
    (first last q : ℕ) (mid value stale : List ℕ)
    → isalnum first ≡ true
    → All IsInner (named first mid last)
    → isspace last ≡ false
    → IsQuote q
    → IsText value
    → length mid + length value ≤ 89
    → parse_line (key_text (named first mid last) q value ++ (10 ∷ 0 ∷ stale))
      ≡ some (
          entry
            (named first mid last ++ (0 ∷ q ∷ (value ++ (q ∷ 0 ∷ 0 ∷ stale))))
            (value ++ (0 ∷ 0 ∷ 0 ∷ stale)))
parse_line_lem first last q mid value stale letter a no_space iq i h =
    let id = named first mid last in
    let pre = id ++ (61 ∷ q ∷ value) in
    let split : key_text id q value ≡ pre ++ (q ∷ []) =
      sym (append_assoc id (61 ∷ q ∷ value) (q ∷ [])) in
    let size : length pre ≡ length mid + length value + 4 =
      omega (arith, length-append id (61 ∷ q ∷ value), length-append mid (last ∷ [])) in
    let it : IsText (pre ++ (q ∷ [])) =
      snoc-IsText pre q
        (append-IsText id (61 ∷ q ∷ value) (inner-IsText id a)
          (ground arith, (quote_not_zero q iq, i)))
        (quote_not_zero q iq) in
    let n : length (pre ++ (q ∷ [])) ≡ suc (length pre) =
      omega (arith, length-append pre (q ∷ [])) in
    let known =
      strlen_snoc (pre ++ (q ∷ [])) stale 10 (suc (suc (length pre))) it (ground arith)
        (omega (arith, n)) (omega (arith, size)) in
    let newline = load-append_at (suc (length pre)) (pre ++ (q ∷ [])) 10 (0 ∷ stale) (sym n) in
    let chopped =
      chop_newline pre (0 ∷ stale) q (suc (suc (length pre))) (quote_no_space q iq) refl in
    let whole : (pre ++ (q ∷ [])) ++ (0 ∷ 0 ∷ stale)
        ≡ id ++ (61 ∷ q ∷ (value ++ (q ∷ 0 ∷ 0 ∷ stale))) =
      append_assoc pre (q ∷ []) (0 ∷ 0 ∷ stale)
      ∙ append_assoc id (61 ∷ q ∷ value) (q ∷ 0 ∷ 0 ∷ stale) in
    ap (λ t. parse_line (t ++ (10 ∷ 0 ∷ stale))) split
    ∙ (parse_key _ _ (suc (suc (length pre))) (suc (length pre)) (length pre) first refl known
          newline chopped letter
        ∙ ap key_line whole
        ∙ key_line_lem first last q mid value (0 ∷ stale) a no_space iq i (omega arith))
