-- ===== src/Mempager/Copies.antt =====
-- `pager_strdup` copies all but the last character.
use libcpr.Base.{
  ℕ, ◌+◌, ◌-◌, ◌^◌, ◌≤◌, ◌<◌, min, ◌≡◌, refl, ap, ◌∙◌, Bool, false, some, List, ◌∷◌, ◌++◌, arith,
  length, take, drop, ◌==◌, if◌then◌else◌, to, u64,
}
use libcpr.Strchar.{cpr_strlen}
use libcpr.Strchar.Length.{IsText, cpr_strlen_lem}
use libcpr.Strchar.Copy.{cpr_strcpy_lem}
use libcpr.Mempager.{Mempager, page_header, pager_alloc, copied_to, pager_strdup}

-- For a text that is not empty and fits in a page, with its terminator, of a pager
-- with pages of less than 2^63 bytes: where the memory is found, `pager_strdup` gives a copy without
-- the last character.
pub pager_strdup_lem :
    (memory : Bool) (pager after : Mempager) (stale text rest : List ℕ) (place : ℕ × ℕ)
    → IsText text
    → 0 < length text
    → pager.size < 2 ^ 63
    → length text + page_header + 1 ≤ pager.size
    → length stale ≡ length text + 1
    → pager_alloc memory pager (length text + 1) ≡ (to place, after)
    → pager_strdup memory pager stale (to (text ++ (0 ∷ rest)))
      ≡ some (to (place, take (length text - 1) text ++ (0 ∷ drop (length text) stale)), after)
unfolding pager_strdup copied_to
pager_strdup_lem memory pager after stale text rest place i h small fits room found =
    let limit : min (length text) (
          if u64 (pager.size + 2 ^ 64 - page_header - 1) == 0
          then 1
          else u64 (pager.size + 2 ^ 64 - page_header - 1))
        ≡ length text =
      ground arith in
    let asked : u64 (length text + 1) ≡ length text + 1 = omega arith in
    let taken : min (length text) (length text + 1) ≡ length text = omega arith in
    let some_text : (length text == 0) ≡ false = ground arith in
    let known : cpr_strlen (to (text ++ (0 ∷ rest))) (u64 (pager.size + 2 ^ 64 - page_header - 1))
        ≡ some (length text) =
      cpr_strlen_lem text rest (u64 (pager.size + 2 ^ 64 - page_header - 1)) i ∙ ap some limit in
    rw
      (
        known,
        asked,
        found,
        cpr_strcpy_lem text rest stale (length text + 1) i (omega arith),
        taken,
        some_text,
      )
      refl
