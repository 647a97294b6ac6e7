-- ===== src/Strchar/Length.antt =====
-- `cpr_strlen`, and the texts that the other functions are about.
use libcpr.Base.{
  ℕ, zero, suc, ◌+◌, ◌<◌, min, max, ◌≡◌, ◌≢◌, ap, ◌∙◌, inl, inr, some, List, [], ◌∷◌, ◌++◌, arith,
  length, All, ltb, ◌==◌, if◌then◌else◌, Bool-cases, ltb→lt, to,
}
use libcpr.Strchar.{strlen_loop, cpr_strlen}

-- A text: no character is the terminator.
abbrev pub IsText : List ℕ → Type 0
IsText text = All (λ c. c ≢ 0) text

strlen_loop_text :
    (text rest : List ℕ) (count max : ℕ)
    → IsText text
    → count < max
    → strlen_loop (text ++ (0 ∷ rest)) count max ≡ some (min (count + length text) max)
unfolding strlen_loop
strlen_loop_text [] rest count max i h = ground arith
strlen_loop_text (c ∷ text) rest count max i h = elim (Bool-cases (ltb (count + 1) max)) [
  | inl more ↦ ground (arith, i.0, strlen_loop_text text rest (count + 1) max i.1 (ltb→lt _ _ more))
  | inr last ↦ ground (arith, i.0)
]

-- For a text that ends with a terminator `cpr_strlen` gives its length, but at most `max`; where
-- `max` is 0 and the text is not empty it gives 1. It reads nothing behind the terminator.
pub cpr_strlen_lem :
    (text rest : List ℕ) (max : ℕ)
    → IsText text
    → cpr_strlen (to (text ++ (0 ∷ rest))) max
      ≡ some (min (length text) (if max == 0 then 1 else max))
unfolding cpr_strlen
cpr_strlen_lem [] rest max i = ground arith
cpr_strlen_lem (c ∷ text) rest zero i = ground (arith, i.0)
cpr_strlen_lem (c ∷ text) rest (suc max) i =
    strlen_loop_text (c ∷ text) rest 0 (suc max) i (omega arith) ∙ ap some (ground arith)
