-- ===== src/Strtype/Print.antt =====
-- `string_printf` writes the terminator where the whole text would end.
use libcpr.Base.{
  ℕ, ◌+◌, ◌-◌, ◌≤◌, ◌<◌, ◌≡◌, refl, ap, true, false, none, some, List, [], ◌∷◌, ◌++◌, append_assoc,
  arith, length, take, drop, length-append, length-take, length-drop, take-eq_self, ltb, leb, ◌==◌,
  to, u16, vsnprintf, pos, store-append,
}
use libcpr.Strtype.{Strtype, string_printf}
use libcpr.Strtype.Copy.{IsSized}

module _ (block text : List ℕ) (size : ℕ) (room : length block ≡ size) (some_room : 2 ≤ size) where
  vsnprintf-fits :
      length text < size
      → vsnprintf block 0 size text ≡ some (text ++ (0 ∷ drop (length text + 1) block))
  vsnprintf-fits fits =
      let whole : take (size - 1) text ≡ text = take-eq_self (size - 1) text (omega arith) in
      let count : 0 + length (text ++ (0 ∷ [])) ≡ length text + 1 =
        omega (arith, length-append text (0 ∷ [])) in
      let inside : leb (length text + 1) (length block) ≡ true = ground arith in
      rw (whole, count, inside)
        (ap some (append_assoc text (0 ∷ []) (drop (length text + 1) block)))

  vsnprintf-cut :
      size ≤ length text
      → (mem : List ℕ) × (vsnprintf block 0 size text ≡ some mem) × (length mem ≡ size)
  vsnprintf-cut over =
      let bytes = take (size - 1) text ++ (0 ∷ []) in
      let count : 0 + length (take (size - 1) text ++ (0 ∷ [])) ≡ size =
        ground
          (arith, length-append (take (size - 1) text) (0 ∷ []), length-take (size - 1) text) in
      let inside : leb size (length block) ≡ true = ground arith in
      (
        bytes ++ drop size block,
        rw (count, inside) refl,
        omega (arith, length-append bytes (drop size block), length-drop size block, count),
      )

-- On a string of size 2 or more, and for a text that is not empty: where the text is shorter than the
-- size, `string_printf` keeps it and its length, with a terminator, and returns the length; where it
-- is not, `string_printf` writes outside of the string's memory.
pub string_printf_lem :
    (str : Strtype) (text : List ℕ)
    → IsSized str
    → 0 < length text
    → (length text < str.size
        → string_printf str (to text)
          ≡ some (
            pos (length text),
            record {
              size = str.size;
              used = length text;
              text = text ++ (0 ∷ drop (length text + 1) str.text);
            },
          ))
      × (str.size ≤ length text → string_printf str (to text) ≡ none)
unfolding string_printf
string_printf_lem str text v h =
    let sized : (str.size == 0) ≡ false = ground (arith, v.some_room) in
    let some_text : (length text == 0) ≡ false = ground arith in
    (
      λ fits.
          let fits_u16 : u16 (length text) ≡ length text = omega (arith, v.small) in
          rw
            (
              sized,
              vsnprintf-fits str.text text str.size v.room v.some_room fits,
              some_text,
              store-append text 0 (drop (length text + 1) str.text) 0,
              fits_u16,
            )
            refl,
      λ over.
          let (mem, e, cut) = vsnprintf-cut str.text text str.size v.room v.some_room over in
          let outside : ltb (length text) (length mem) ≡ false = ground arith in
          rw (sized, e, some_text, outside) refl,
    )
