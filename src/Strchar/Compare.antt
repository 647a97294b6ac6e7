-- ===== src/Strchar/Compare.antt =====
-- Comparing texts: `cpr_equal` and `cpr_match`.
use libcpr.Base.{
  ℕ, ◌≡◌, ◌≢◌, refl, sym, ap, ◌∙◌, ◌⊎◌, inl, inr, Bool, true, false, some, List, [], ◌∷◌, ◌++◌, map,
  arith, ◌==◌, ◌&&◌, Bool-cases, to,
}
use libcpr.Strchar.{tolower, same_text, cpr_equal, cpr_match}
use libcpr.Strchar.Length.{IsText}

-- Equality of two texts, character by character after `f`.
abbrev pub equal_by : (ℕ → ℕ) → List ℕ → List ℕ → Bool
equal_by f [] [] = true
equal_by f [] (d ∷ t) = false
equal_by f (c ∷ s) [] = false
equal_by f (c ∷ s) (d ∷ t) = f c == f d && equal_by f s t

-- `f` takes the terminator, and only it, to 0.
abbrev KeepsEnd : (ℕ → ℕ) → Type 0
KeepsEnd f = (f 0 ≡ 0) × ((c : ℕ) → c ≢ 0 → f c ≢ 0)

same_text_lem :
    (f : ℕ → ℕ) (s t rest rest' : List ℕ)
    → KeepsEnd f
    → IsText s
    → IsText t
    → same_text f (s ++ (0 ∷ rest)) (t ++ (0 ∷ rest')) ≡ some (equal_by f s t)
unfolding same_text
same_text_lem f [] [] rest rest' k is it = ground arith
same_text_lem f [] (d ∷ t) rest rest' k is it = ground (arith, k.0, k.1 d, it.0)
same_text_lem f (c ∷ s) [] rest rest' k is it = ground (arith, k.0, k.1 c, is.0)
same_text_lem f (c ∷ s) (d ∷ t) rest rest' k is it =
    ground (arith, is.0, same_text_lem f s t rest rest' k is.1 it.1)

equal_by_self : (t : List ℕ) → equal_by (λ c. c) t t ≡ true
equal_by_self [] = refl
equal_by_self (c ∷ t) = ground (arith, equal_by_self t)

eq_of_equal_by : (s t : List ℕ) → equal_by (λ c. c) s t ≡ true → s ≡ t
eq_of_equal_by [] [] h = refl
eq_of_equal_by [] (d ∷ t) h = cc
eq_of_equal_by (c ∷ s) [] h = cc
eq_of_equal_by (c ∷ s) (d ∷ t) h = ground (arith, eq_of_equal_by s t)

equal_by-map : (f : ℕ → ℕ) (s t : List ℕ) → equal_by (λ c. c) (map f s) (map f t) ≡ equal_by f s t
equal_by-map f [] [] = refl
equal_by-map f [] (d ∷ t) = refl
equal_by-map f (c ∷ s) [] = refl
equal_by-map f (c ∷ s) (d ∷ t) = rw (equal_by-map f s t) refl

-- `cpr_equal` of two texts returns true where they are the same, and false where they differ,
-- whatever stands behind their terminators.
pub cpr_equal_lem :
    (s t rest rest' : List ℕ)
    → IsText s
    → IsText t
    → ((s ≡ t) × (cpr_equal (to (s ++ (0 ∷ rest))) (to (t ++ (0 ∷ rest'))) ≡ some true))
      ⊎ ((s ≢ t) × (cpr_equal (to (s ++ (0 ∷ rest))) (to (t ++ (0 ∷ rest'))) ≡ some false))
unfolding cpr_equal
cpr_equal_lem s t rest rest' is it = elim (Bool-cases (equal_by (λ c. c) s t)) [
  | inl same ↦ inl (eq_of_equal_by s t same, run ∙ ap some same)
  | inr other ↦ inr ((λ e. differ e other), run ∙ ap some other)
]
  where
    run : same_text (λ c. c) (s ++ (0 ∷ rest)) (t ++ (0 ∷ rest')) ≡ some (equal_by (λ c. c) s t)
    run = same_text_lem (λ c. c) s t rest rest' (refl, λ c ne. ne) is it

    differ : s ≡ t → equal_by (λ c. c) s t ≡ false → ⊥
    differ e other = cc (equal_by_self t, ap (λ l. equal_by (λ c. c) l t) e)

lower_KeepsEnd : KeepsEnd tolower
lower_KeepsEnd = (refl, λ c ne. ground arith)

pub map-IsText : (s : List ℕ) → IsText s → IsText (map tolower s)
map-IsText [] i = i
map-IsText (c ∷ s) i = (lower_KeepsEnd.1 c i.0, map-IsText s i.1)

-- `cpr_match` compares texts as `cpr_equal` does after both are turned to lower case.
pub match-equal :
    (s t rest rest' : List ℕ)
    → IsText s
    → IsText t
    → cpr_match (to (s ++ (0 ∷ rest))) (to (t ++ (0 ∷ rest')))
      ≡ cpr_equal (to (map tolower s ++ (0 ∷ rest))) (to (map tolower t ++ (0 ∷ rest')))
unfolding cpr_match cpr_equal
match-equal s t rest rest' is it =
    same_text_lem tolower s t rest rest' lower_KeepsEnd is it
    ∙ ap some (sym (equal_by-map tolower s t))
    ∙ sym (
        same_text_lem (λ c. c) (map tolower s) (map tolower t) rest rest' (refl, λ c ne. ne)
          (map-IsText s is) (map-IsText t it))
