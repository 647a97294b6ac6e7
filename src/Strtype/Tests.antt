-- ===== src/Strtype/Tests.antt =====
-- Runs of the functions of strtype.c, and the theorems at concrete inputs.
use libcpr.Base.{
  ℕ, ◌≡◌, ◌≢◌, refl, none, some, List, [], ◌∷◌, ◌++◌, arith, All, to, strchr, pos, ◌<◌, ◌≤◌,
}
use libcpr.Strchar.{cpr_strlen, cpr_strtrim, cpr_strchop}
use libcpr.Strtype.{
  Strtype, outside, string_copy, string_append, string_trim, string_chop, string_head, string_upper,
}
use libcpr.Strtype.{string_printf}
use libcpr.Strtype.Print.{string_printf_lem}
use libcpr.Strtype.Copy.{IsSized, string_copy_lem, string_append_lem}

-- "ab" in a string of size 5.
abbrev ab : Strtype
ab = record { size = 5; used = 2; text = b'a' ∷ b'b' ∷ 0 ∷ 7 ∷ 7 ∷ [] }

ab-IsSized : IsSized ab
ab-IsSized = record { room = refl; some_room = omega arith; small = omega arith }

abbrev xyz : List ℕ
xyz = b'x' ∷ b'y' ∷ b'z' ∷ []

xyz-IsText : All (λ c. c ≢ 0) xyz
xyz-IsText = omega arith

trim_run :
    string_trim ab (to (b'a' ∷ 0 ∷ []))
    ≡ some (record ab { used = 1; text = b'b' ∷ 0 ∷ 0 ∷ 7 ∷ 7 ∷ [] })
unfolding string_trim string_copy cpr_strtrim cpr_strlen strchr
trim_run = refl

chop_run :
    string_chop ab (to (b'b' ∷ 0 ∷ []))
    ≡ some (record ab { used = 1; text = b'a' ∷ 0 ∷ 0 ∷ 7 ∷ 7 ∷ [] })
unfolding string_chop string_copy cpr_strchop cpr_strlen strchr
chop_run = refl

head_run : string_head ab 1 ≡ some (record ab { used = 1; text = b'b' ∷ 0 ∷ 0 ∷ 7 ∷ 7 ∷ [] })
unfolding string_head string_copy cpr_strlen
head_run = refl

upper_run : string_upper ab ≡ some (record ab { text = b'A' ∷ b'B' ∷ 0 ∷ 7 ∷ 7 ∷ [] })
unfolding string_upper
upper_run = refl

-- A string of size 1 has no room for the character that is copied to it.
copy_overrun :
    string_copy (record { size = 1; used = 0; text = 0 ∷ [] }) (outside (to (b'x' ∷ 0 ∷ []))) ≡ none
unfolding string_copy cpr_strlen
copy_overrun = refl

string_copy_lem_run :
    string_copy ab (outside (to (xyz ++ (0 ∷ []))))
    ≡ some (record ab { used = 3; text = b'x' ∷ b'y' ∷ b'z' ∷ 0 ∷ 7 ∷ [] })
string_copy_lem_run = string_copy_lem ab xyz [] 3 ab-IsSized xyz-IsText refl

string_append_lem_run :
    string_append ab (to (xyz ++ (0 ∷ [])))
    ≡ some (record ab { used = 4; text = b'a' ∷ b'b' ∷ b'x' ∷ b'y' ∷ 0 ∷ [] })
string_append_lem_run = string_append_lem ab xyz [] 2 ab-IsSized xyz-IsText refl

string_printf_lem_example :
    (3 < 5
      → string_printf ab (to xyz)
        ≡ some (pos 3, record { size = 5; used = 3; text = b'x' ∷ b'y' ∷ b'z' ∷ 0 ∷ 7 ∷ [] }))
    × (5 ≤ 3 → string_printf ab (to xyz) ≡ none)
string_printf_lem_example = string_printf_lem ab xyz ab-IsSized (omega arith)

-- The text of 5 characters does not fit in 5 bytes.
printf_overrun : string_printf ab (to (b'a' ∷ b'b' ∷ xyz)) ≡ none
unfolding string_printf
printf_overrun = refl
