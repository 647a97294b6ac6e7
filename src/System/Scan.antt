-- ===== src/System/Scan.antt =====
-- `scan_file` visits the lines of a file.
use libcpr.Base.{
  ℕ, zero, suc, ◌+◌, ◌-◌, ◌≤◌, ◌<◌, min, ◌≡◌, ◌≢◌, refl, sym, ap, ◌∙◌, inl, inr, Bool, true, false,
  some, List, [], ◌∷◌, ◌++◌, arith, length, ltb, ◌==◌, if◌then◌else◌, Bool-cases, fgets,
  fgets_takes,
}
use libcpr.System.{Proc, scan_loop, scan_file}

-- No byte but the last may be a newline.
abbrev pub NewlineLast : List ℕ → Type 0
NewlineLast [] = Unit
NewlineLast (c ∷ []) = Unit
NewlineLast (c ∷ d ∷ line) = (c ≢ 10) × NewlineLast (d ∷ line)

abbrev pub ends_newline : List ℕ → Bool
ends_newline [] = false
ends_newline (c ∷ []) = c == 10
ends_newline (c ∷ d ∷ line) = ends_newline (d ∷ line)

-- How a file is cut into lines of at most `n` bytes: one that is shorter and has no newline is the
-- last.
pub data Lines (n : ℕ) : List ℕ → List (List ℕ) → Type 0 where
  no_lines : Lines n [] []
  next_line :
      {file line rest : List ℕ} {lines : List (List ℕ)}
      → line ++ rest ≡ file
      → 0 < length line
      → length line ≤ n
      → NewlineLast line
      → (length line < n → ends_newline line ≡ false → rest ≡ [])
      → Lines n rest lines
      → Lines n file (line ∷ lines)

-- The calls for the lines one after another, up to the first that is refused.
pub visit : {S : Type 0} → Proc S → S → List (List ℕ) → ℕ → ℕ × S
visit proc s [] count = (count, s)
visit proc s (line ∷ lines) count =
    let called = proc s line (count + 1) in
    elim called.0 [ true ↦ visit proc called.1 lines (count + 1) | false ↦ (count + 1, called.1) ]

fgets-append : (n : ℕ) (file : List ℕ) → (fgets n file).0 ++ (fgets n file).1 ≡ file
unfolding fgets
fgets-append zero file = refl
fgets-append (suc n) [] = refl
fgets-append (suc n) (c ∷ file) = elim (Bool-cases (c == 10)) [
  | inl newline ↦ rw newline refl
  | inr other ↦ rw other (ap (λ l. c ∷ l) (fgets-append n file))
]

fgets-length : (n : ℕ) (file : List ℕ) → length (fgets n file).0 ≤ n
unfolding fgets
fgets-length zero file = omega arith
fgets-length (suc n) [] = omega arith
fgets-length (suc n) (c ∷ file) = ground (arith, fgets-length n file)

fgets_some : (n c : ℕ) (file : List ℕ) → 0 < length (fgets (suc n) (c ∷ file)).0
unfolding fgets
fgets_some n c file = ground arith

NewlineLast-cons :
    (c : ℕ) (line : List ℕ) → (c == 10) ≡ false → NewlineLast line → NewlineLast (c ∷ line)
NewlineLast-cons c [] e h = _
NewlineLast-cons c (d ∷ line) e h = (ground arith, h)

fgets-NewlineLast : (n : ℕ) (file : List ℕ) → NewlineLast (fgets n file).0
unfolding fgets
fgets-NewlineLast zero file = _
fgets-NewlineLast (suc n) [] = _
fgets-NewlineLast (suc n) (c ∷ file) = elim (Bool-cases (c == 10)) [
  | inl newline ↦ rw newline _
  | inr other ↦ rw other (NewlineLast-cons c (fgets n file).0 other (fgets-NewlineLast n file))
]

ends_newline-cons :
    (c : ℕ) (line : List ℕ) → (c == 10) ≡ false → ends_newline (c ∷ line) ≡ ends_newline line
ends_newline-cons c [] e = e
ends_newline-cons c (d ∷ line) e = refl

fgets_last :
    (n : ℕ) (file : List ℕ)
    → length (fgets n file).0 < n
    → ends_newline (fgets n file).0 ≡ false
    → (fgets n file).1 ≡ []
unfolding fgets
fgets_last zero file h e = absurd (omega arith)
fgets_last (suc n) [] h e = refl
fgets_last (suc n) (c ∷ file) h e = elim (Bool-cases (c == 10)) [
  | inl newline ↦ absurd (ground (arith, rw newline at e))
  | inr other ↦ rw other (
      fgets_last n file (omega (arith, rw other at h))
        (sym (ends_newline-cons c (fgets n file).0 other) ∙ rw other at e))
]

scan_loop_lem :
    {S : Type 0} (proc : Proc S) (fuel n : ℕ) (s : S) (file : List ℕ) (count : ℕ)
    → length file ≤ fuel
    → (lines : List (List ℕ)) × Lines (suc n) file lines
      × (scan_loop proc fuel s (suc n) file count ≡ some (visit proc s lines count))
unfolding scan_loop visit
scan_loop_lem proc fuel n s [] count h = ([], no_lines, refl)
scan_loop_lem proc zero n s (c ∷ file) count h = absurd (omega arith)
scan_loop_lem proc (suc fuel) n s (c ∷ file) count h =
    let read = fgets (suc n) (c ∷ file) in
    let called = proc s read.0 (count + 1) in
    let (lines, cut, e) =
      scan_loop_lem proc fuel n called.1 read.1 (count + 1) (omega (arith, fgets_takes n c file)) in
    (
      read.0 ∷ lines,
      next_line (fgets-append (suc n) (c ∷ file)) (fgets_some n c file)
          (fgets-length (suc n) (c ∷ file)) (fgets-NewlineLast (suc n) (c ∷ file))
          (fgets_last (suc n) (c ∷ file)) cut,
      elim (Bool-cases called.0) [
        | inl goes_on ↦ rw (scan_loop, visit, goes_on) e
        | inr refused ↦ rw (scan_loop, visit, refused) refl
      ],
    )

-- Where `size` is 2 or more, `scan_file` ends. It cuts the file into lines of fewer bytes than `size`
-- and than 65536, calls the function for each with its number, in order, up to the first call that
-- returns false, and returns how many calls it has made.
pub scan_file_lem :
    {S : Type 0} (proc : Proc S) (s : S) (file : List ℕ) (size : ℕ)
    → 2 ≤ size
    → (lines : List (List ℕ)) × Lines (min size 65536 - 1) file lines
      × (scan_file proc s file size ≡ some (visit proc s lines 0))
unfolding scan_file
scan_file_lem proc s file size h =
    let room : (if ltb 65536 size then 65536 else size) ≡ min size 65536 = ground arith in
    let some_room : min size 65536 - 1 ≡ suc (min size 65536 - 2) = omega arith in
    rw (room, some_room)
      (scan_loop_lem proc (length file) (min size 65536 - 2) s file 0 (omega arith))
