-- ===== src/Socket/Edit.antt =====
-- What `cpr_getline` is to do, on the list of the characters that are typed.
use libcpr.Base.{
  ℕ, suc, ◌+◌, ◌-◌, ◌≤◌, ◌<◌, ◌≡◌, refl, ◌∙◌, inl, inr, Bool, true, false, List, [], ◌∷◌, ◌++◌,
  append_assoc, append-nil, arith, length, take, drop, length-append, All, ltb, leb, ◌==◌, ◌&&◌,
  ◌||◌, if◌then◌else◌, Bool-cases, ltb→lt,
}

-- The kinds of a byte that arrives: `closed` is the one that reads as -1.
pub data Key : Type 0 where
  letter : ℕ → Key
  newline : Key
  enter : Key
  erase : Key
  other : Key
  closed : Key

unfoldable pub key_of : ℕ → Key
key_of b =
    if ltb 31 b && ltb b 127
    then letter b
    else if b == 10
    then newline
    else if b == 13
    then enter
    else if b == 8 || b == 127
    then erase
    else if b == 255
    then closed
    else other

-- The characters typed, the input that is left, and whether the line has ended.
pub record Edited : Type 0 where
  pub typed : List ℕ
  pub rest : List ℕ
  pub ended : Bool

-- A key at a line with room: the characters and whether the last key was `enter`, or how it ends.
pub data Keyed : Type 0 where
  goes_on : List ℕ → Bool → Keyed
  ends : Bool → Keyed

abbrev pub press : Key → Bool → List ℕ → Keyed
press (letter c) cr typed = goes_on (typed ++ (c ∷ [])) false
press newline cr typed = ends true
press enter true typed = ends true
press enter false typed = goes_on typed true
press erase cr typed = goes_on (take (length typed - 1) typed) false
press other cr typed = goes_on typed false
press closed cr typed = ends false

-- An editor for a line of at most `room` characters.
unfoldable pub edit : ℕ → Bool → List ℕ → List ℕ → Edited
edit room cr typed [] = record { typed = typed; rest = []; ended = leb room (length typed) }
edit room cr typed (b ∷ input) =
    if leb room (length typed)
    then record { typed = typed; rest = b ∷ input; ended = true }
    else elim (press (key_of b) cr typed) [
      | goes_on more after_cr ↦ edit room after_cr more input
      | ends ended ↦ record { typed = typed; rest = input; ended = ended }
    ]

-- The characters that a line holds.
abbrev pub IsPrintable : ℕ → Type 0
IsPrintable c = (31 < c) × (c < 127)

key_of-letter : (c : ℕ) → IsPrintable c → key_of c ≡ letter c
unfolding key_of
key_of-letter c h = ground arith

take-suc_of : {n k : ℕ} (c : ℕ) (line : List ℕ) → n ≡ suc k → take n (c ∷ line) ≡ c ∷ take k line
take-suc_of c line e = rw e refl

drop-suc_of : {n k : ℕ} (c : ℕ) (line : List ℕ) → n ≡ suc k → drop n (c ∷ line) ≡ drop k line
drop-suc_of c line e = rw e refl

-- A step of the editor at a letter, where there is room.
edit-letter :
    (room : ℕ) (cr : Bool) (typed : List ℕ) (c : ℕ) (input : List ℕ)
    → IsPrintable c
    → length typed < room
    → edit room cr typed (c ∷ input) ≡ edit room false (typed ++ (c ∷ [])) input
unfolding edit
edit-letter room cr typed c input i h =
    let full : leb room (length typed) ≡ false = ground arith in rw (full, key_of-letter c i) refl

pub edit_full :
    (room : ℕ) (cr : Bool) (typed input : List ℕ)
    → room ≤ length typed
    → edit room cr typed input ≡ record { typed = typed; rest = input; ended = true }
unfolding edit
edit_full room cr typed [] h =
    let full : leb room (length typed) ≡ true = ground arith in rw full refl
edit_full room cr typed (b ∷ input) h =
    let full : leb room (length typed) ≡ true = ground arith in rw full refl

-- A line of printable characters that ends in a newline is typed as it is where it is shorter than
-- the room; of one that is not, the room's characters are typed, and the rest stays unread.
pub edit_line :
    (room : ℕ) (typed line rest : List ℕ)
    → All IsPrintable line
    → length typed ≤ room
    → edit room false typed (line ++ (10 ∷ rest)) ≡ (
        if ltb (length typed + length line) room
        then record { typed = typed ++ line; rest = rest; ended = true }
        else record {
          typed = typed ++ take (room - length typed) line;
          rest = drop (room - length typed) line ++ (10 ∷ rest);
          ended = true;
        })
unfolding edit key_of
edit_line room typed [] rest i h = elim (Bool-cases (ltb (length typed + 0) room)) [
  | inl less ↦
      let room_left : leb room (length typed) ≡ false = ground arith in
      rw (room_left, less, append-nil typed) refl
  | inr full ↦
      let none_left : room - length typed ≡ 0 = ground arith in
      rw (full, none_left, append-nil typed) (edit_full room false typed (10 ∷ rest) (ground arith))
]
edit_line room typed (c ∷ line) rest i h = elim (Bool-cases (ltb (length typed) room)) [
  | inl less ↦
      let longer = length-append typed (c ∷ []) in
      let left : room - length typed ≡ suc (room - length (typed ++ (c ∷ []))) = ground arith in
      let same : length (typed ++ (c ∷ [])) + length line ≡ length typed + suc (length line) =
        omega arith in
      edit-letter room false typed c (line ++ (10 ∷ rest)) i.0 (ltb→lt _ _ less)
      ∙ (edit_line room (typed ++ (c ∷ [])) line rest i.1 (ground arith)
          ∙ rw
              (
                take-suc_of c line left,
                drop-suc_of c line left,
                append_assoc typed (c ∷ []) line,
                append_assoc typed (c ∷ []) (take (room - length (typed ++ (c ∷ []))) line),
                same,
              )
              refl)
  | inr full ↦
      let none_left : room - length typed ≡ 0 = ground arith in
      let over : ltb (length typed + suc (length line)) room ≡ false = ground arith in
      rw (over, none_left, append-nil typed)
        (edit_full room false typed (c ∷ (line ++ (10 ∷ rest))) (ground arith))
]
