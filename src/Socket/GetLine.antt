-- ===== src/Socket/GetLine.antt =====
-- `cpr_getline` keeps the line that the editor of `Edit` makes, in memory.
use libcpr.Base.{
  ℕ, suc, ◌+◌, ◌-◌, ◌≤◌, ◌<◌, min, ◌≡◌, ◌≢◌, refl, ◌∙◌, inl, inr, Bool, true, false, not, Option,
  some, List, [], ◌∷◌, ◌++◌, arith, length, take, drop, length-append, length-take, take-eq_self,
  All, All-append, ltb, leb, ◌==◌, ◌&&◌, if◌then◌else◌, Bool-cases, lt→ltb, le→ltb, IsByte, pos,
  negsuc, ltb_ℤ, ◌>>=◌,
}
use mathlib.Core.Path.{subst}
use libcpr.Socket.{cpr_getch, Line, getline_pass, Got, getline_loop, cpr_getline, char_code}
use libcpr.Socket.Edit.{
  closed, key_of, Keyed, goes_on, ends, press, Edited, edit, edit_full, edit_line, IsPrintable,
}
use libcpr.Socket.Pass.{pass_key, getline_pass-key_of, line_of, Passed, pass_lem}

-- What `cpr_getline` returns, leaves unread, and leaves in its memory of `len` bytes is what the
-- editor has.
pub Holds : ℕ → Edited → Got → Type 0
Holds len ed got =
    (got.result ≡ (if ed.ended then pos (length ed.typed) else negsuc 0))
    × (got.rest ≡ ed.rest)
    × ((behind : List ℕ) × (got.line.text ≡ ed.typed ++ (0 ∷ behind)))
    × (length got.line.text ≡ len)

failed_code :
    (b : ℕ)
    → b < 256
    → (ltb_ℤ (char_code b) (pos 0) && not (ltb_ℤ (char_code b) (negsuc 0))) ≡ (b == 255)
failed_code b h = ground arith

key_of-closed : (b : ℕ) → (b == 255) ≡ false → key_of b ≢ closed
unfolding key_of
key_of-closed b g = ground arith

key_of-failed : (b : ℕ) → (b == 255) ≡ true → key_of b ≡ closed
unfolding key_of
key_of-failed b g = ground arith

-- From a pass to the rest of the loop.
pass_on :
    (echo : Bool) (size len : ℕ) (input typed : List ℕ) (key : Keyed) (r : Option (Bool × Line))
    → Passed len typed key r
    → ((more behind : List ℕ) (cr : Bool) (sent : List (List ℕ))
        → length (more ++ (0 ∷ behind)) ≡ len
        → (got : Got) × (getline_loop echo size input (line_of more behind cr sent) ≡ some got)
          × Holds len (edit (size - 1) cr more input) got)
    → (got : Got) × ((do
      p ← r
      elim p.0 [
        | true ↦ getline_loop echo size input p.1
        | false ↦ some (record { result = pos p.1.pos; rest = input; line = p.1 })
      ])
        ≡ some got)
      × Holds len
          (elim key [
            | goes_on more after_cr ↦ edit (size - 1) after_cr more input
            | ends ended ↦ record { typed = typed; rest = input; ended = ended }
          ])
          got
unfolding Passed Holds
pass_on echo size len input typed (goes_on more cr) r (behind, sent, e, l) ih =
    rw e (ih more behind cr sent l)
pass_on echo size len input typed (ends ended) r (cr, behind, sent, e, l, done) ih = (
  record { result = pos (length typed); rest = input; line = line_of typed behind cr sent },
  rw e refl,
  (rw done refl, refl, (behind, refl), l),
)

loop_full :
    (size len : ℕ) (input typed behind : List ℕ) (cr : Bool) (sent : List (List ℕ))
    → ltb (length typed) (size - 1) ≡ false
    → length (typed ++ (0 ∷ behind)) ≡ len
    → Holds len
        (edit (size - 1) cr typed input)
        (record { result = pos (length typed); rest = input; line = line_of typed behind cr sent })
unfolding Holds
loop_full size len input typed behind cr sent full h =
    rw (edit_full (size - 1) cr typed input (ground arith)) (refl, refl, (behind, refl), h)

getline_loop_lem :
    (echo : Bool) (size len : ℕ) (input typed behind : List ℕ) (cr : Bool) (sent : List (List ℕ))
    → size ≤ len
    → length (typed ++ (0 ∷ behind)) ≡ len
    → All IsByte input
    → (got : Got) × (getline_loop echo size input (line_of typed behind cr sent) ≡ some got)
      × Holds len (edit (size - 1) cr typed input) got
unfolding getline_loop edit Holds cpr_getch
getline_loop_lem echo size len [] typed behind cr sent g h i =
    elim (Bool-cases (ltb (length typed) (size - 1))) [
      | inl less ↦
          let room : leb (size - 1) (length typed) ≡ false = ground arith in
          (
            record { result = negsuc 0; rest = []; line = line_of typed behind cr sent },
            rw less refl,
            (rw room refl, refl, (behind, refl), h),
          )
      | inr full ↦ (
        record { result = pos (length typed); rest = []; line = line_of typed behind cr sent },
        rw full refl,
        loop_full size len [] typed behind cr sent full h,
      )
    ]
getline_loop_lem echo size len (b ∷ input) typed behind cr sent g h i =
    elim (Bool-cases (ltb (length typed) (size - 1))) [
      | inl less ↦
          let room : leb (size - 1) (length typed) ≡ false = ground arith in
          elim (Bool-cases (b == 255)) [
            | inl last ↦
                rw (less, failed_code b i.0, last, room, key_of-failed b last)
                  (
                    record { result = negsuc 0; rest = input; line = line_of typed behind cr sent },
                    refl,
                    (refl, refl, (behind, refl), h),
                  )
            | inr char ↦
                rw (less, failed_code b i.0, char, room)
                  (pass_on echo size len input typed (press (key_of b) cr typed)
                    (getline_pass echo (char_code b) (line_of typed behind cr sent))
                    (rw (getline_pass-key_of echo b (line_of typed behind cr sent) i.0) (
                      subst
                        (λ n.
                          Passed n typed (press (key_of b) cr typed)
                            (pass_key echo (key_of b) (line_of typed behind cr sent)))
                        h
                        (pass_lem echo (key_of b) typed behind cr sent (key_of-closed b char)
                          (ground (arith, length-append typed (0 ∷ behind))))))
                    (λ more behind cr sent l.
                      getline_loop_lem echo size len input more behind cr sent g l i.1))
          ]
      | inr full ↦ (
        record {
          result = pos (length typed);
          rest = b ∷ input;
          line = line_of typed behind cr sent;
        },
        rw full refl,
        loop_full size len (b ∷ input) typed behind cr sent full h,
      )
    ]

-- For a memory of `size` bytes or more, `size` at least 2, `cpr_getline` comes to an end within the
-- memory, whatever bytes arrive until the input ends. It is an editor of a line of at most `size - 1`
-- characters: it returns how many are typed, or -1 where the input ended first or a byte 0xff came;
-- the characters, and a terminator, are at the start of the memory; what follows the line is unread.
pub cpr_getline_lem :
    (echo : Bool) (text : List ℕ) (size : ℕ) (input : List ℕ)
    → 2 ≤ size
    → size ≤ length text
    → All IsByte input
    → (got : Got) × (cpr_getline echo text size input ≡ some got)
      × Holds (length text) (edit (size - 1) false ([]) input) got
unfolding cpr_getline
cpr_getline_lem echo [] size input f g i = absurd (omega arith)
cpr_getline_lem echo (c ∷ text) size input f g i =
    rw (le→ltb size 2 f, lt→ltb 0 (suc (length text)) (omega arith))
      (getline_loop_lem echo size (suc (length text)) input ([]) text false ([]) g refl i)

All-IsByte : (line : List ℕ) → All IsPrintable line → All IsByte line
All-IsByte [] i = i
All-IsByte (c ∷ line) i = (omega arith, All-IsByte line i.1)

-- Where a line of printable characters, a newline and other bytes arrive, and the memory has `size`
-- bytes or more, `size` at least 2: `cpr_getline` gives the line, or as many of its characters as fit
-- before the terminator; what it did not read is left.
pub cpr_getline-line :
    (echo : Bool) (text : List ℕ) (size : ℕ) (line rest : List ℕ)
    → 2 ≤ size
    → size ≤ length text
    → All IsPrintable line
    → All IsByte rest
    → (got : Got) × (cpr_getline echo text size (line ++ (10 ∷ rest)) ≡ some got)
      × (got.result ≡ pos (min (length line) (size - 1)))
      × (got.rest
          ≡ (if ltb (length line) (size - 1) then rest else drop (size - 1) line ++ (10 ∷ rest)))
      × ((behind : List ℕ) × (got.line.text ≡ take (size - 1) line ++ (0 ∷ behind)))
unfolding Holds
cpr_getline-line echo text size line rest f g i j =
    let bytes = All-append IsByte line (10 ∷ rest) (All-IsByte line i) (omega arith, j) in
    let run = cpr_getline_lem echo text size (line ++ (10 ∷ rest)) f g bytes in
    let edited = edit_line (size - 1) ([]) line rest i (omega arith) in
    let whole_line : 0 + length line ≡ length line = omega arith in
    let whole : size - 1 - 0 ≡ size - 1 = omega arith in
    elim (Bool-cases (ltb (length line) (size - 1))) [
      | inl less ↦
          let same : edit (size - 1) false ([]) (line ++ (10 ∷ rest))
              ≡ record { typed = line; rest = rest; ended = true } =
            edited ∙ rw (whole_line, less) refl in
          let held = subst (λ e. Holds (length text) e run.0) same run.2 in
          (
            run.0,
            run.1,
            held.0 ∙ ground (arith),
            rw less held.1,
            (held.2.0, rw (take-eq_self (size - 1) line (ground arith)) held.2.1),
          )
      | inr full ↦
          let same : edit (size - 1) false ([]) (line ++ (10 ∷ rest)) ≡ record {
            typed = take (size - 1) line;
            rest = drop (size - 1) line ++ (10 ∷ rest);
            ended = true;
          } =
            edited ∙ rw (whole_line, full, whole) refl in
          let held = subst (λ e. Holds (length text) e run.0) same run.2 in
          (
            run.0,
            run.1,
            held.0 ∙ ground (arith, length-take (size - 1) line),
            rw full held.1,
            (held.2.0, held.2.1),
          )
    ]
