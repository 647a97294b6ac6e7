-- ===== src/System/Tests.antt =====
-- Runs of the functions of system.c, and the theorem at a concrete file.
use libcpr.Base.{
  ℕ, zero, suc, ◌+◌, ◌≤◌, ◌≡◌, refl, ap, ◌⊎◌, true, false, some, List, [], ◌∷◌, ◌++◌, arith, length,
  take, replicate, length-append, length-take, length-replicate, ltb, null, to, ℤ, pos, negsuc,
  Malloc, ◌>>=◌, fgets,
}
use libcpr.System.{
  directory, Proc, make_dir, is_dir, is_file, scan_loop, scan_file, scan_entries, scan_dir,
  cpr_debug,
}
use libcpr.System.Getline.{Realloc, IsRealloc, Read, getline, getline_chars, line_room, end_line}
use libcpr.System.Getline.Line.{Ended, getline_lem}
use libcpr.System.Scan.{Lines, visit, scan_file_lem}

paths_run :
    (is_dir (to directory) ≡ true) × (is_dir null ≡ false) × (is_file (to directory) ≡ false)
unfolding is_dir is_file
paths_run = (refl, refl, refl)

make_run : make_dir (λ path perms. pos perms) (b'd' ∷ 0 ∷ []) 0 ≡ pos 493
unfolding make_dir
make_run = refl

-- Keeps the lines, and refuses the third.
abbrev keeps : Proc (List (List ℕ))
keeps kept line count = (ltb count 3, kept ++ (line ∷ []))

-- "ab", an empty line, "cde" and no newline.
abbrev text : List ℕ
text = b'a' ∷ b'b' ∷ 10 ∷ 10 ∷ b'c' ∷ b'd' ∷ b'e' ∷ []

scan_run :
    scan_file keeps [] text 80
    ≡ some (3, (b'a' ∷ b'b' ∷ 10 ∷ []) ∷ (10 ∷ []) ∷ (b'c' ∷ b'd' ∷ b'e' ∷ []) ∷ [])
unfolding scan_file scan_loop fgets
scan_run = refl

-- With room for two characters the first line is cut, and the third call is for the empty line.
scan_cut : scan_file keeps [] text 3 ≡ some (3, (b'a' ∷ b'b' ∷ []) ∷ (10 ∷ []) ∷ (10 ∷ []) ∷ [])
unfolding scan_file scan_loop fgets
scan_cut = refl

dir_run :
    scan_dir (λ (sum : ℕ). λ (entry : ℕ). (ltb entry 3, sum + entry)) 0 (1 ∷ 4 ∷ 2 ∷ []) ≡ (2, 5)
unfolding scan_dir scan_entries
dir_run = refl

debug_run : (cpr_debug (pos 1) (pos 1) ≡ true) × (cpr_debug (pos 0) (pos 1) ≡ false)
unfolding cpr_debug
debug_run = (refl, refl)

scan_file_lem_example :
    (lines : List (List ℕ)) × Lines 2 text lines
    × (scan_file keeps [] text 3 ≡ some (visit keeps [] lines 0))
scan_file_lem_example = scan_file_lem keeps [] text 3 (omega arith)

-- A `realloc` that fills up with zeros, and a `malloc`.
abbrev reallocs : Realloc
reallocs block size = to (take size (block ++ replicate size 0))

abbrev mallocs : Malloc
mallocs size = to (replicate size 0)

-- A block of three bytes is too small for "ab", a newline and the terminator.
getline_run :
    ◌>>=◌ {B = ℕ × List ℕ × ℤ}
      (getline mallocs reallocs (to (1 ∷ 2 ∷ 3 ∷ [])) 3 text)
      (λ r. some (r.size, r.file, r.result))
    ≡ some (128, 10 ∷ b'c' ∷ b'd' ∷ b'e' ∷ [], pos 3)
unfolding getline getline_chars line_room end_line
getline_run = refl

take-take_filled :
    (k size : ℕ) (block fill : List ℕ)
    → k ≤ size
    → k ≤ length block
    → take k (take size (block ++ fill)) ≡ take k block
take-take_filled zero size block fill h l = refl
take-take_filled (suc k) zero block fill h l = absurd (omega arith)
take-take_filled (suc k) (suc size) [] fill h l = absurd (omega arith)
take-take_filled (suc k) (suc size) (x ∷ block) fill h l =
    ap (λ l. x ∷ l) (take-take_filled k size block fill (omega arith) (omega arith))

resizes_lem : IsRealloc reallocs
resizes_lem block size =
    let fill = replicate size 0 in
    (
      omega (
        arith,
        length-take size (block ++ fill),
        length-append block fill,
        length-replicate {A = ℕ} size 0,
      ),
      λ k h l. take-take_filled k size block fill h l,
    )

getline_lem_example :
    (r : Read) × (getline mallocs reallocs null 0 text ≡ some r)
    × (((mallocs 128 ≡ null) × (r.result ≡ negsuc 0))
        ⊎ Ended reallocs [] (b'a' ∷ b'b' ∷ 10 ∷ []) (10 ∷ b'c' ∷ b'd' ∷ b'e' ∷ []) r)
unfolding fgets
getline_lem_example =
    getline_lem reallocs resizes_lem mallocs null 0 b'a' (b'b' ∷ 10 ∷ 10 ∷ b'c' ∷ b'd' ∷ b'e' ∷ [])
      (λ size. length-replicate {A = ℕ} size 0) _ (omega arith)
