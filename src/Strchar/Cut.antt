-- ===== src/Strchar/Cut.antt =====
-- Cutting a text in place: `cpr_strhead` and `cpr_strtail`.
use libcpr.Base.{
  ℕ, zero, suc, ◌+◌, ◌≤◌, ◌<◌, max, ◌≡◌, ◌≢◌, sym, ap, ◌∙◌, some, List, [], ◌∷◌, ◌++◌, append_assoc,
  arith, length, set, length-append, All-append, leb, if◌then◌else◌, to, store, load, store-append,
  load-append,
}
use libcpr.Strchar.{cpr_strlen, strhead_loop, cpr_strhead, cpr_strtail}
use libcpr.Strchar.Length.{IsText, cpr_strlen_lem}

-- One character moves over a gap, and the gap moves on.
shift_gap :
    (pre gap : List ℕ) (g c : ℕ) (rest : List ℕ)
    → store (pre ++ (g ∷ gap ++ (c ∷ rest))) (length pre) c
      ≡ some ((pre ++ (c ∷ [])) ++ ((gap ++ (c ∷ [])) ++ rest))
shift_gap pre gap g c rest =
    store-append pre g (gap ++ (c ∷ rest)) c
    ∙ ap some (
        ap (λ l. pre ++ (c ∷ l)) (sym (append_assoc gap (c ∷ []) rest))
        ∙ sym (append_assoc pre (c ∷ []) ((gap ++ (c ∷ [])) ++ rest)))

load_behind :
    (pre gap : List ℕ) (g c : ℕ) (rest : List ℕ) (tmp : ℕ)
    → tmp ≡ length pre + suc (length gap)
    → load (pre ++ (g ∷ gap ++ (c ∷ rest))) tmp ≡ some c
load_behind pre gap g c rest tmp e =
    ap (λ l. load l tmp) (sym (append_assoc pre (g ∷ gap) (c ∷ rest)))
    ∙ ap (load ((pre ++ (g ∷ gap)) ++ (c ∷ rest))) (e ∙ sym (length-append pre (g ∷ gap)))
    ∙ load-append (pre ++ (g ∷ gap)) c rest

first_move :
    (c : ℕ) (text pre gap : List ℕ) (g : ℕ) (rest : List ℕ) (fuel tmp : ℕ)
    → c ≢ 0
    → tmp ≡ length pre + suc (length gap)
    → strhead_loop (suc fuel) (length pre) tmp (pre ++ (g ∷ gap ++ (c ∷ text ++ (0 ∷ rest))))
      ≡ strhead_loop fuel
          (length (pre ++ (c ∷ [])))
          (tmp + 1)
          ((pre ++ (c ∷ [])) ++ ((gap ++ (c ∷ [])) ++ (text ++ (0 ∷ rest))))
unfolding strhead_loop
first_move c text pre gap g rest fuel tmp ne e = ground (
  arith,
  load_behind pre gap g c (text ++ (0 ∷ rest)) tmp e,
  shift_gap pre gap g c (text ++ (0 ∷ rest)),
  length-append pre (c ∷ []),
)

-- The text behind the gap ends up in front of it, followed by a terminator.
strhead_loop_lem :
    (text pre gap : List ℕ) (g : ℕ) (rest : List ℕ) (fuel tmp : ℕ)
    → IsText text
    → tmp ≡ length pre + suc (length gap)
    → length text < fuel
    → (tail : List ℕ) × (strhead_loop fuel
          (length pre)
          tmp
          (pre ++ (g ∷ gap ++ (text ++ (0 ∷ rest))))
        ≡ some (pre ++ (text ++ (0 ∷ tail))))
unfolding strhead_loop
strhead_loop_lem text pre gap g rest zero tmp i e h = absurd (omega arith)
strhead_loop_lem [] pre gap g rest (suc fuel) tmp i e h = (
  gap ++ (0 ∷ rest),
  rw (load_behind pre gap g 0 rest tmp e) (store-append pre g (gap ++ (0 ∷ rest)) 0),
)
strhead_loop_lem (c ∷ text) pre [] g rest (suc fuel) tmp i e h =
    let (tail, ih) =
      strhead_loop_lem text (pre ++ (c ∷ [])) [] c rest fuel (tmp + 1) i.1
        (omega (arith, length-append pre (c ∷ []))) (omega arith) in
    (
      tail,
      first_move c text pre [] g rest fuel tmp i.0 e
          ∙ ih
          ∙ ap some (append_assoc pre (c ∷ []) (text ++ (0 ∷ tail))),
    )
strhead_loop_lem (c ∷ text) pre (g' ∷ gap) g rest (suc fuel) tmp i e h =
    let (tail, ih) =
      strhead_loop_lem text (pre ++ (c ∷ [])) (gap ++ (c ∷ [])) g' rest fuel (tmp + 1) i.1
        (omega (arith, length-append pre (c ∷ []), length-append gap (c ∷ []))) (omega arith) in
    (
      tail,
      first_move c text pre (g' ∷ gap) g rest fuel tmp i.0 e
          ∙ ih
          ∙ ap some (append_assoc pre (c ∷ []) (text ++ (0 ∷ tail))),
    )

strlen_parts :
    (gap text rest : List ℕ) (max : ℕ)
    → IsText gap
    → IsText text
    → 0 < length gap
    → length gap + length text ≤ max
    → cpr_strlen (to (gap ++ (text ++ (0 ∷ rest)))) max ≡ some (length gap + length text)
strlen_parts gap text rest max ig it h l =
    ap (λ s. cpr_strlen (to s) max) (sym (append_assoc gap text (0 ∷ rest)))
    ∙ cpr_strlen_lem (gap ++ text) rest max (All-append (λ c. c ≢ 0) gap text ig it)
    ∙ ap some (ground (arith, length-append gap text))

-- `cpr_strhead` removes the first `count` characters of a text that is at most `max` long, where
-- it has more than that, and returns how many are left: the others stand at its start, before a
-- terminator. Where the text has no more than `count` characters it is emptied, and 0 is returned.
pub cpr_strhead_lem :
    (gap text rest : List ℕ) (max : ℕ)
    → IsText gap
    → IsText text
    → 0 < length gap
    → length gap + length text ≤ max
    → (tail : List ℕ) × (cpr_strhead (to (gap ++ (text ++ (0 ∷ rest)))) max (length gap)
        ≡ some (length text, to (text ++ (0 ∷ tail))))
unfolding cpr_strhead
cpr_strhead_lem [] text rest max ig it h l = absurd (omega arith)
cpr_strhead_lem (g ∷ gap) [] rest max ig it h l =
    (gap ++ (0 ∷ rest), ground (arith, strlen_parts (g ∷ gap) [] rest max ig it h l))
cpr_strhead_lem (g ∷ gap) (c ∷ text) rest max ig it h l =
    let (tail, moved) =
      strhead_loop_lem (c ∷ text) [] gap g rest (length (g ∷ gap ++ (c ∷ text ++ (0 ∷ rest))))
        (length (g ∷ gap)) it (omega arith)
        (omega
          (arith, length-append gap (c ∷ text ++ (0 ∷ rest)), length-append text (0 ∷ rest))) in
    (tail, ground (arith, strlen_parts (g ∷ gap) (c ∷ text) rest max ig it h l, moved))

-- `cpr_strtail` of a text cuts it after `count` characters where it has more than that and `count`
-- is below `max`; where the text has no more than `count` characters it is emptied, although its
-- length is returned; for `count` from `max` on nothing changes, and the result is 0.
pub cpr_strtail_lem :
    (text rest : List ℕ) (max count : ℕ)
    → IsText text
    → 0 < max
    → length text ≤ max
    → cpr_strtail (to (text ++ (0 ∷ rest))) max count
      ≡ some (
          if leb max count
          then (0, to (text ++ (0 ∷ rest)))
          else if leb (length text) count
          then (length text, to (set (text ++ (0 ∷ rest)) 0 0))
          else (count, to (set (text ++ (0 ∷ rest)) count 0)))
unfolding cpr_strtail
cpr_strtail_lem text rest max count i p h =
    ground (arith, cpr_strlen_lem text rest max i, length-append text (0 ∷ rest))
