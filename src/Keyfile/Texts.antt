-- ===== src/Keyfile/Texts.antt =====
-- The characters and texts of a line that `save_keyfile` prints.
use libcpr.Base.{
  ℕ, suc, ◌+◌, ◌≤◌, min, ◌≡◌, ◌≢◌, refl, sym, ap, ◌∙◌, ◌⊎◌, false, some, List, [], ◌∷◌, ◌++◌,
  append_assoc, arith, length, drop, length-append, All, to, load, load-append,
}
use libcpr.Strchar.{cpr_strlen}
use libcpr.Strchar.Length.{IsText, cpr_strlen_lem}
use libcpr.Keyfile.Lines.{isspace}

-- Characters that a line can have in a value, and within a key's name.
abbrev pub IsPlain : ℕ → Type 0
IsPlain c = (c ≢ 0) × (c ≢ 10)

abbrev pub IsInner : ℕ → Type 0
IsInner c = (c ≢ 0) × (c ≢ 10) × (c ≢ 61)

abbrev pub IsQuote : ℕ → Type 0
IsQuote q = (q ≡ 39) ⊎ (q ≡ 34)

pub plain-IsText : (text : List ℕ) → All IsPlain text → IsText text
plain-IsText [] a = _
plain-IsText (c ∷ text) a = (a.0.0, plain-IsText text a.1)

pub inner-IsText : (text : List ℕ) → All IsInner text → IsText text
inner-IsText [] a = _
inner-IsText (c ∷ text) a = (a.0.0, inner-IsText text a.1)

pub append-IsText : (s t : List ℕ) → IsText s → IsText t → IsText (s ++ t)
append-IsText [] t i j = j
append-IsText (c ∷ s) t i j = (i.0, append-IsText s t i.1 j)

pub quote_no_space : (q : ℕ) → IsQuote q → isspace q ≡ false
quote_no_space q h = ground arith

pub quote_not_zero : (q : ℕ) → IsQuote q → q ≢ 0
quote_not_zero q h = ground arith

pub snoc-IsText : (text : List ℕ) (c : ℕ) → IsText text → c ≢ 0 → IsText (text ++ (c ∷ []))
snoc-IsText [] c i h = (h, _)
snoc-IsText (d ∷ text) c i h = (i.0, snoc-IsText text c i.1 h)

-- The length of a text that ends in `c`.
pub strlen_snoc :
    (text rest : List ℕ) (c n : ℕ)
    → IsText text
    → c ≢ 0
    → length text + 1 ≡ n
    → n ≤ 96
    → cpr_strlen (to (text ++ (c ∷ 0 ∷ rest))) 96 ≡ some n
strlen_snoc text rest c n i h e le =
    let whole = text ++ (c ∷ []) in
    let size : min (length whole) 96 ≡ n = omega (arith, length-append text (c ∷ [])) in
    rw (sym (append_assoc text (c ∷ []) (0 ∷ rest)))
      (cpr_strlen_lem whole rest 96 (snoc-IsText text c i h) ∙ ap some size)

pub load-append_at :
    (at : ℕ) (pre : List ℕ) (x : ℕ) (rest : List ℕ)
    → at ≡ length pre
    → load (pre ++ (x ∷ rest)) at ≡ some x
load-append_at at pre x rest e = rw e (load-append pre x rest)

pub drop_behind : (pre rest : List ℕ) (c : ℕ) → drop (length pre + 1) (pre ++ (c ∷ rest)) ≡ rest
drop_behind [] rest c = refl
drop_behind (x ∷ pre) rest c =
    let more : length (x ∷ pre) + 1 ≡ suc (length pre + 1) = omega arith in
    rw more (drop_behind pre rest c)
