-- ===== src/Strchar.antt =====
-- src/strchar.h and src/strchar.c: operations on C strings. A `char *` is NULL or the memory from
-- the pointer on; the text ends at the first 0. Reading or writing past that memory is `none`. A
-- function that changes a string in place returns the new memory.
pub mod Length
pub mod Copy
mod Cut
pub mod Compare
mod Digits
mod Tests
use libcpr.Base.{
  ℕ, zero, suc, ◌+◌, ◌-◌, ◌^◌, ◌<◌, Bool, true, false, Option, none, some, List, [], ◌∷◌, ◌++◌,
  ◌&&◌, Ptr, null, to, ◌>>=◌, load, store, memcpy, strchr, Malloc, u64, ltb, leb, ◌==◌,
  if◌then◌else◌, take, drop, length,
}
use libcpr.Memory.{cpr_memcpy}

-- The loop of `cpr_strlen`, with `s` at the start of the list.
strlen_loop : List ℕ → ℕ → ℕ → Option ℕ
strlen_loop [] count max = none
strlen_loop (c ∷ s) count max =
    let rest = strlen_loop s (count + 1) max in
    if c == 0 then some count else if ltb (count + 1) max then rest else some (count + 1)

unfoldable pub cpr_strlen : Ptr (List ℕ) → ℕ → Option ℕ
unfolding strlen_loop
cpr_strlen null max = some 0
cpr_strlen (to s) max = strlen_loop s 0 max

pub cpr_strcpy : Ptr (List ℕ) → Ptr (List ℕ) → ℕ → Option (Ptr (List ℕ))
cpr_strcpy null s max = do _ ← cpr_strlen s max; some null
cpr_strcpy (to m) null max = some null
cpr_strcpy (to m) (to s) max = do
  len ← cpr_strlen (to s) max
  let size = if leb max len then max else len
  copied ← cpr_memcpy (to m) max (to s) size
  elim copied.1 [
    | null ↦ some null
    | to out ↦
        (if size == 0 then some (to out) else (do out ← store out (size - 1) 0; some (to out)))
  ]

-- `cpr_strcat`: whether it returns a pointer, and the memory of `m`.
pub cpr_strcat : Ptr (List ℕ) → Ptr (List ℕ) → ℕ → Option (Bool × Ptr (List ℕ))
cpr_strcat null s max = some (false, null)
cpr_strcat (to m) null max = some (false, to m)
cpr_strcat (to m) (to s) max = do
  offset ← cpr_strlen (to m) max
  let copy = (do
    out ← cpr_strcpy (to (drop offset m)) (to s) (max - offset)
    elim out [ null ↦ some (false, to m) | to end ↦ some (true, to (take offset m ++ end)) ])
  if leb max offset then some (false, to m) else copy

pub cpr_strdup : Malloc → Ptr (List ℕ) → ℕ → Option (Ptr (List ℕ))
cpr_strdup malloc null max = some null
cpr_strdup malloc (to str) max = do
  len ← cpr_strlen (to str) max
  elim (malloc (u64 (len + 1))) [
    | null ↦ some null
    | to out ↦ (do
      out ← (if len == 0 then some out else memcpy out str len)
      out ← store out len 0
      some (to out))
  ]

-- `toupper` and `tolower` of the C library, in the C locale.
abbrev pub toupper : ℕ → ℕ
toupper c = if leb b'a' c && leb c b'z' then c - 32 else c

abbrev pub tolower : ℕ → ℕ
tolower c = if leb b'A' c && leb c b'Z' then c + 32 else c

-- The loop of `cpr_upper` and `cpr_lower`, `size` characters from `s`, to index `t`; then the
-- terminator.
convert_loop : (ℕ → ℕ) → ℕ → List ℕ → ℕ → List ℕ → Option (List ℕ)
convert_loop f zero s t out = store out t 0
convert_loop f (suc size) s t out = do
  c ← load s 0
  out ← store out t (f c)
  convert_loop f size (drop 1 s) (t + 1) out

convert : (ℕ → ℕ) → Malloc → Ptr (List ℕ) → ℕ → Option (Ptr (List ℕ))
unfolding convert_loop
convert f malloc null max = some null
convert f malloc (to s) max = do
  size ← cpr_strlen (to s) max
  elim (malloc (u64 (size + 1))) [
    | null ↦ some null
    | to out ↦ (do out ← convert_loop f size s 0 out; some (to out))
  ]

unfoldable pub cpr_upper : Malloc → Ptr (List ℕ) → ℕ → Option (Ptr (List ℕ))
unfolding convert
cpr_upper = convert toupper

unfoldable pub cpr_lower : Malloc → Ptr (List ℕ) → ℕ → Option (Ptr (List ℕ))
unfolding convert
cpr_lower = convert tolower

-- `strcmp` and `strcasecmp` of the C library, as far as the code uses them: whether they give 0.
same_text : (ℕ → ℕ) → List ℕ → List ℕ → Option Bool
same_text f [] s2 = none
same_text f (c ∷ s1) [] = none
same_text f (c ∷ s1) (d ∷ s2) =
    let rest = same_text f s1 s2 in
    if f c == f d then (if c == 0 then some true else rest) else some false

-- Two pointers that are equal point to the same text, or are both NULL.
unfoldable pub cpr_equal : Ptr (List ℕ) → Ptr (List ℕ) → Option Bool
unfolding same_text
cpr_equal null null = some true
cpr_equal null (to s2) = some false
cpr_equal (to s1) null = some false
cpr_equal (to s1) (to s2) = same_text (λ c. c) s1 s2

unfoldable pub cpr_match : Ptr (List ℕ) → Ptr (List ℕ) → Option Bool
unfolding same_text
cpr_match null null = some true
cpr_match null (to s2) = some false
cpr_match (to s1) null = some false
cpr_match (to s1) (to s2) = same_text tolower s1 s2

-- The loop of `cpr_strhead`, moving from index `tmp` to index `str`; `none` if the fuel runs out.
strhead_loop : ℕ → ℕ → ℕ → List ℕ → Option (List ℕ)
strhead_loop zero str tmp block = none
strhead_loop (suc fuel) str tmp block = do
  c ← load block tmp
  let rest = (do block ← store block str c; strhead_loop fuel (str + 1) (tmp + 1) block)
  if c == 0 then store block str 0 else rest

-- `cpr_strhead`: its result, and the memory of `str`.
pub cpr_strhead : Ptr (List ℕ) → ℕ → ℕ → Option (ℕ × Ptr (List ℕ))
unfolding strhead_loop
cpr_strhead null max count = some (0, null)
cpr_strhead (to str) max count = do
  len ← cpr_strlen (to str) max
  let cleared = (do out ← store str 0 0; some (0, to out))
  let moved = (do out ← strhead_loop (length str) 0 count str; some (len - count, to out))
  if leb len count then cleared else moved

pub cpr_strtail : Ptr (List ℕ) → ℕ → ℕ → Option (ℕ × Ptr (List ℕ))
cpr_strtail null max count = some (0, null)
cpr_strtail (to str) max count = do
  len ← cpr_strlen (to str) max
  let cleared = (do out ← store str 0 0; some (len, to out))
  let cut = (do out ← store str count 0; some (count, to out))
  if leb max count then some (0, to str) else if leb len count then cleared else cut

pub is_empty : Ptr (List ℕ) → Option Bool
is_empty null = some true
is_empty (to str) = do c ← load str 0; some (c == 0)

-- The loop of `cpr_strtrim`: how far `str` moves.
trim_loop : List ℕ → ℕ → List ℕ → Option ℕ
trim_loop list len [] = none
trim_loop list zero (c ∷ str) = some 0
trim_loop list (suc len) (c ∷ str) =
    let rest = (do k ← trim_loop list len str; some (suc k)) in
    if c == 0 then some 0 else elim (strchr list c) [ none ↦ some 0 | some _ ↦ rest ]

-- `max - 1` as a `size_t`.
abbrev pub below_max : ℕ → ℕ
below_max max = u64 (max + 2 ^ 64 - 1)

-- `cpr_strtrim`: the offset of the pointer that it returns.
unfoldable pub cpr_strtrim : Ptr (List ℕ) → Ptr (List ℕ) → ℕ → Option (Ptr ℕ)
unfolding trim_loop
cpr_strtrim null list max = some null
cpr_strtrim (to str) null max = some (to 0)
cpr_strtrim (to str) (to list) max = do
  first ← load list 0
  let trim = do len ← cpr_strlen (to str) (below_max max); k ← trim_loop list len str; some (to k)
  if first == 0 then some (to 0) else trim

-- The loop of `cpr_strchop`, with `end` at the index.
chop_loop : List ℕ → ℕ → List ℕ → Option (List ℕ)
chop_loop list zero str = some str
chop_loop list (suc end) str = do
  c ← load str end
  elim (strchr list c) [
    | none ↦ some str
    | some _ ↦ (do str ← store str end 0; chop_loop list end str)
  ]

unfoldable pub cpr_strchop : Ptr (List ℕ) → Ptr (List ℕ) → ℕ → Option (Ptr (List ℕ))
unfolding chop_loop
cpr_strchop null list max = some null
cpr_strchop (to str) null max = some (to str)
cpr_strchop (to str) (to list) max = do
  first ← load list 0
  let chop = do
    len ← cpr_strlen (to str) (below_max max)
    out ← chop_loop list len str
    some (to out)
  if first == 0 then some (to str) else chop
