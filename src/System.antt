-- ===== src/System.antt =====
-- src/system.c, on systems other than Windows: tests of paths, and the scans of files and
-- directories. The calls of the system and the function that a scan calls are parameters; that
-- function takes a state and gives the next one. A NULL file or directory gives 0, and is left out.
mod Getline
mod Scan
mod Tests
use libcpr.Base.{
  ℕ, zero, suc, ◌+◌, ◌-◌, Bool, true, false, not, Option, none, some, List, [], ◌∷◌, length, ltb,
  ◌==◌, if◌then◌else◌, Ptr, to, ℤ, ltb_ℤ, fgets,
}

-- What `stat` tells of a path.
pub data Kind : Type 0 where
  directory : Kind
  regular : Kind
  other_kind : Kind

-- `make_dir`; 493 is 0755.
pub make_dir : (List ℕ → ℕ → ℤ) → List ℕ → ℕ → ℤ
make_dir mkdir path perms = mkdir path (if perms == 0 then 493 else perms)

-- `is_dir` and `is_file`, for what `stat` gives: `null` where it fails.
pub is_dir : Ptr Kind → Bool
is_dir (to directory) = true
is_dir _ = false

pub is_file : Ptr Kind → Bool
is_file (to regular) = true
is_file _ = false

-- The function that is called for a line and its number.
abbrev pub Proc : Type 0 → Type 0
Proc S = S → List ℕ → ℕ → Bool × S

module _ {S : Type 0} (proc : Proc S) where
  -- The loop of `scan_file`, which reads at most `n` bytes at a time: the count, and the state.
  -- `none` if the fuel runs out.
  unfoldable pub scan_loop : ℕ → S → ℕ → List ℕ → ℕ → Option (ℕ × S)
  scan_loop fuel s n [] count = some (count, s)
  scan_loop zero s n (c ∷ file) count = none
  scan_loop (suc fuel) s n (c ∷ file) count =
      let read = fgets n (c ∷ file) in
      let called = proc s read.0 (count + 1) in
      elim called.0 [
        | true ↦ scan_loop fuel called.1 n read.1 (count + 1)
        | false ↦ some (count + 1, called.1)
      ]

  -- `scan_file` with a `size` of 2 or more; a pass takes a byte or more.
  unfoldable pub scan_file : S → List ℕ → ℕ → Option (ℕ × S)
  scan_file s file size =
      scan_loop (length file) s ((if ltb 65536 size then 65536 else size) - 1) file 0

-- `scan_dir`: the count, and the state.
unfoldable pub scan_entries : {S E : Type 0} → (S → E → Bool × S) → S → List E → ℕ → ℕ × S
scan_entries proc s [] count = (count, s)
scan_entries proc s (entry ∷ dir) count =
    let called = proc s entry in
    elim called.0 [
      | true ↦ scan_entries proc called.1 dir (count + 1)
      | false ↦ (count + 1, called.1)
    ]

pub scan_dir : {S E : Type 0} → (S → E → Bool × S) → S → List E → ℕ × S
scan_dir proc s dir = scan_entries proc s dir 0

-- `cpr_debug`, where `cpr_verbose` is `verbose`: whether it prints.
pub cpr_debug : ℤ → ℤ → Bool
cpr_debug verbose level = not (ltb_ℤ verbose level)
