-- ===== src/Strtype/Copy.antt =====
-- Copying and appending text to a string of strtype.c.
use libcpr.Base.{
  ℕ, zero, suc, ◌+◌, ◌-◌, ◌%◌, ◌^◌, ◌≤◌, ◌<◌, min, ◌≡◌, refl, ap, ◌∙◌, inl, inr, false, some, List,
  [], ◌∷◌, ◌++◌, append_assoc, arith, length, take, drop, length-append, take-append_of_le,
  length-take, length-drop, ltb, leb, ◌==◌, if◌then◌else◌, Bool-cases, to, u16, u64, store,
  store-append, store-append_at,
}
use libcpr.Memory.Fill.{cpr_memcpy_lem}
use libcpr.Strchar.{cpr_strlen}
use libcpr.Strchar.Length.{IsText, cpr_strlen_lem}
use libcpr.Strtype.{Strtype, outside, copy_outside, string_copy, append_len, string_append}

-- A string that `new_string` has made with room for a character.
pub record IsSized (str : Strtype) : Type 0 where
  pub room : length str.text ≡ str.size
  pub some_room : 2 ≤ str.size
  pub small : str.size < 2 ^ 16

copy_outside_lem :
    (len : ℕ) (pre mid word : List ℕ)
    → len ≤ length word
    → len < length mid
    → copy_outside len (pre ++ mid) (length pre) word
      ≡ some (pre ++ (take len word ++ (0 ∷ drop (suc len) mid)))
unfolding copy_outside
copy_outside_lem zero pre [] word h g = absurd (omega arith)
copy_outside_lem zero pre (x ∷ mid) word h g = store-append pre x mid 0
copy_outside_lem (suc len) pre [] word h g = absurd (omega arith)
copy_outside_lem (suc len) pre (x ∷ mid) [] h g = absurd (omega arith)
copy_outside_lem (suc len) pre (x ∷ mid) (c ∷ word) h g = rw (
  store-append pre x mid c,
  ← append_assoc pre (c ∷ []) mid,
  (let e : length pre + 1 ≡ length (pre ++ (c ∷ [])) = omega (arith, length-append pre (c ∷ [])) in
      e),
  copy_outside_lem len (pre ++ (c ∷ [])) mid word (omega arith) (omega arith),
  append_assoc,
)

-- `string_copy` of a text elsewhere to a string of size 2 or more: as many of its characters as the
-- size has room for beside the terminator arrive, with a terminator behind them and their number as
-- the length; the memory behind is kept.
pub string_copy_lem :
    (str : Strtype) (word rest : List ℕ) (n : ℕ)
    → IsSized str
    → IsText word
    → n ≡ min (length word) (str.size - 1)
    → string_copy str (outside (to (word ++ (0 ∷ rest))))
      ≡ some (record str { used = n; text = take n word ++ (0 ∷ drop (suc n) str.text) })
unfolding string_copy
string_copy_lem str word rest n s i e =
    let below : u64 (str.size + 2 ^ 64 - 1) ≡ str.size - 1 = grind (arith, s.some_room, s.small) in
    let positive : (str.size - 1 == 0) ≡ false = ground (arith, s.some_room) in
    let len : cpr_strlen (to (word ++ (0 ∷ rest))) (str.size - 1) ≡ some n =
      cpr_strlen_lem word rest (str.size - 1) i ∙ ap some (ground (arith, s.some_room)) in
    let fits : n % 2 ^ 16 ≡ n = grind (arith, s.small, s.some_room) in
    let fits_word : n ≤ length (word ++ (0 ∷ rest)) =
      omega (arith, length-append word (0 ∷ rest)) in
    rw
      (
        below,
        len,
        copy_outside_lem n [] str.text (word ++ (0 ∷ rest)) fits_word
            (omega (arith, s.room, s.some_room)),
        take-append_of_le n word (0 ∷ rest) (omega arith),
        fits,
      )
      refl

drop_cons : (n : ℕ) (mid : List ℕ) → n < length mid → (x : ℕ) × (drop n mid ≡ x ∷ drop (suc n) mid)
drop_cons n [] h = absurd (omega arith)
drop_cons zero (x ∷ mid) h = (x, refl)
drop_cons (suc n) (x ∷ mid) h = drop_cons n mid (omega arith)

store_behind :
    (n : ℕ) (word mid : List ℕ) (v : ℕ)
    → n ≡ length word
    → n < length mid
    → store (word ++ drop n mid) n v ≡ some (word ++ (v ∷ drop (suc n) mid))
store_behind n word mid v e h =
    let (x, split) = drop_cons n mid h in rw split (store-append_at n word x (drop (suc n) mid) v e)

append_len_lem :
    (str : Strtype) (word rest : List ℕ) (size n : ℕ)
    → n ≤ length word
    → n ≤ size
    → str.used + size < length str.text
    → append_len str (to (word ++ (0 ∷ rest))) size n
      ≡ some (record str {
        used = u16 (str.used + n);
        text =
            take str.used str.text ++ (take n word ++ (0 ∷ drop (suc n) (drop str.used str.text)));
      })
unfolding append_len
append_len_lem str word rest size zero h g room =
    rw
      (store_behind 0 [] (drop str.used str.text) 0 refl
        (omega (arith, length-drop str.used str.text)))
      refl
append_len_lem str word rest size (suc n) h g room =
    let fits_word : suc n ≤ length (word ++ (0 ∷ rest)) =
      omega (arith, length-append word (0 ∷ rest)) in
    let within : ltb size (suc n) ≡ false = ground arith in
    let some_text : (suc n == 0) ≡ false = ground arith in
    rw
      (
        cpr_memcpy_lem (drop str.used str.text) (word ++ (0 ∷ rest)) size (suc n)
            (omega (arith, length-drop str.used str.text)) fits_word,
        within,
        take-append_of_le (suc n) word (0 ∷ rest) h,
        some_text,
        store_behind (suc n) (take (suc n) word) (drop str.used str.text) 0
            (omega (arith, length-take (suc n) word))
            (omega (arith, length-drop str.used str.text)),
      )
      refl

-- `string_append` of a text elsewhere to a string with room for more: as many characters as there
-- is room for beside the terminator follow what the string held, with a terminator behind them, and
-- their number is added to the length; the memory behind is kept. A full string is returned as it
-- was.
pub string_append_lem :
    (str : Strtype) (word rest : List ℕ) (n : ℕ)
    → IsSized str
    → IsText word
    → n ≡ min (length word) (str.size - str.used - 1)
    → string_append str (to (word ++ (0 ∷ rest)))
      ≡ some (
          if leb str.size (str.used + 1) then str else record str {
            used = str.used + n;
            text =
                take str.used str.text
                ++ (take n word ++ (0 ∷ drop (suc n) (drop str.used str.text)));
          })
unfolding string_append
string_append_lem str word rest n s i e = elim (Bool-cases (leb str.size (str.used + 1))) [
  | inl full ↦ rw full refl
  | inr open_end ↦
      let left : str.used + 1 < str.size = ground arith in
      let size_is : u64 (str.size + 2 ^ 64 - str.used + 2 ^ 64 - 1) ≡ str.size - str.used - 1 =
        grind (arith, s.small) in
      let len : cpr_strlen (to (word ++ (0 ∷ rest))) (str.size - str.used - 1) ≡ some n =
        cpr_strlen_lem word rest (str.size - str.used - 1) i ∙ ap some (ground arith) in
      let fits : (str.used + n) % 2 ^ 16 ≡ str.used + n = grind (arith, s.small) in
      rw
        (
          open_end,
          size_is,
          len,
          append_len_lem str word rest (str.size - str.used - 1) n (omega arith) (omega arith)
              (omega (arith, s.room)),
          fits,
        )
        refl
]
