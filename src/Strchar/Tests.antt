-- ===== src/Strchar/Tests.antt =====
-- Runs of the functions of strchar.c, and the theorems at concrete texts.
use libcpr.Base.{
  ℕ, ◌≡◌, ◌≢◌, refl, ◌⊎◌, true, false, some, List, [], ◌∷◌, ◌++◌, arith, replicate, null, to,
  Malloc,
}
use libcpr.Memory.{cpr_memcpy}
use libcpr.Strchar.{
  cpr_strlen, cpr_strcpy, cpr_strcat, cpr_strdup, cpr_upper, cpr_lower, cpr_equal, cpr_match,
  cpr_strhead, cpr_strtail, is_empty,
}
use libcpr.Strchar.Length.{cpr_strlen_lem}
use libcpr.Strchar.Copy.{cpr_strcpy_lem, cpr_upper_lower, cpr_strdup_lem}
use libcpr.Strchar.Cut.{cpr_strhead_lem, cpr_strtail_lem}
use libcpr.Strchar.Compare.{cpr_equal_lem, match-equal}

-- "Key", with its terminator and two more bytes.
abbrev key : List ℕ
key = b'K' ∷ b'e' ∷ b'y' ∷ 0 ∷ 7 ∷ 8 ∷ []

abbrev heap : Malloc
heap size = to (replicate size 0xaa)

strlen_run : (cpr_strlen (to key) 10 ≡ some 3) × (cpr_strlen (to key) 0 ≡ some 1)
unfolding cpr_strlen
strlen_run = (refl, refl)

-- There is room for the whole text, and its last character is lost all the same.
strcpy_run :
    cpr_strcpy (to (replicate 6 1)) (to key) 6 ≡ some (to (b'K' ∷ b'e' ∷ 0 ∷ 1 ∷ 1 ∷ 1 ∷ []))
unfolding cpr_strcpy cpr_strlen cpr_memcpy
strcpy_run = refl

strcat_run :
    cpr_strcat (to (b'a' ∷ 0 ∷ 1 ∷ 1 ∷ 1 ∷ 1 ∷ [])) (to key) 6
    ≡ some (true, to (b'a' ∷ b'K' ∷ b'e' ∷ 0 ∷ 1 ∷ 1 ∷ []))
unfolding cpr_strcat cpr_strcpy cpr_strlen cpr_memcpy
strcat_run = refl

is_empty_run : (is_empty (to key) ≡ some false) × (is_empty null ≡ some true)
unfolding is_empty
is_empty_run = (refl, refl)

cpr_strlen_lem_run : cpr_strlen (to key) 2 ≡ some 2
cpr_strlen_lem_run = cpr_strlen_lem (b'K' ∷ b'e' ∷ b'y' ∷ []) (7 ∷ 8 ∷ []) 2 (omega arith)

cpr_strcpy_lem_run :
    cpr_strcpy (to (replicate 6 1)) (to key) 6 ≡ some (to (b'K' ∷ b'e' ∷ 0 ∷ 1 ∷ 1 ∷ 1 ∷ []))
cpr_strcpy_lem_run =
    cpr_strcpy_lem (b'K' ∷ b'e' ∷ b'y' ∷ []) (7 ∷ 8 ∷ []) (replicate 6 1) 6 (omega arith)
      (omega arith)

cpr_strdup_lem_run : cpr_strdup heap (to key) 2 ≡ some (to (b'K' ∷ b'e' ∷ 0 ∷ []))
cpr_strdup_lem_run =
    cpr_strdup_lem heap (b'K' ∷ b'e' ∷ b'y' ∷ []) (7 ∷ 8 ∷ []) (replicate 3 0xaa) 2 2 (omega arith)
      refl (omega arith) refl refl

cpr_upper_lower_run :
    (cpr_upper heap (to key) 9 ≡ some (to (b'K' ∷ b'E' ∷ b'Y' ∷ 0 ∷ [])))
    × (cpr_lower heap (to key) 9 ≡ some (to (b'k' ∷ b'e' ∷ b'y' ∷ 0 ∷ [])))
cpr_upper_lower_run =
    cpr_upper_lower heap (b'K' ∷ b'e' ∷ b'y' ∷ []) (7 ∷ 8 ∷ []) (replicate 4 0xaa) 9 3 (omega arith)
      refl (omega arith) refl refl

cpr_strhead_lem_run :
    (tail : List ℕ) × (cpr_strhead (to key) 9 1 ≡ some (2, to (b'e' ∷ b'y' ∷ 0 ∷ tail)))
cpr_strhead_lem_run =
    cpr_strhead_lem (b'K' ∷ []) (b'e' ∷ b'y' ∷ []) (7 ∷ 8 ∷ []) 9 (omega arith) (omega arith)
      (omega arith) (omega arith)

cpr_strtail_lem_run : cpr_strtail (to key) 9 1 ≡ some (1, to (b'K' ∷ 0 ∷ b'y' ∷ 0 ∷ 7 ∷ 8 ∷ []))
cpr_strtail_lem_run =
    cpr_strtail_lem (b'K' ∷ b'e' ∷ b'y' ∷ []) (7 ∷ 8 ∷ []) 9 1 (omega arith) (omega arith)
      (omega arith)

abbrev lower_key : List ℕ
lower_key = b'k' ∷ b'e' ∷ b'y' ∷ []

cpr_equal_lem_run :
    ((b'K' ∷ b'e' ∷ b'y' ∷ [] ≡ lower_key)
      × (cpr_equal (to key) (to (lower_key ++ (0 ∷ []))) ≡ some true))
    ⊎ ((b'K' ∷ b'e' ∷ b'y' ∷ [] ≢ lower_key)
        × (cpr_equal (to key) (to (lower_key ++ (0 ∷ []))) ≡ some false))
cpr_equal_lem_run =
    cpr_equal_lem (b'K' ∷ b'e' ∷ b'y' ∷ []) lower_key (7 ∷ 8 ∷ []) [] (omega arith) (omega arith)

match_equal_run :
    cpr_match (to key) (to (lower_key ++ (0 ∷ [])))
    ≡ cpr_equal (to (lower_key ++ (0 ∷ 7 ∷ 8 ∷ []))) (to (lower_key ++ (0 ∷ [])))
match_equal_run =
    match-equal (b'K' ∷ b'e' ∷ b'y' ∷ []) lower_key (7 ∷ 8 ∷ []) [] (omega arith) (omega arith)
