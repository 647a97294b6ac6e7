-- ===== src/Strtype.antt =====
-- src/strtype.h and src/strtype.c: strings that carry their size and their length in front. The
-- memory behind the header is `text`. A NULL string is returned as it is, or counts 0, and is left
-- out; `free_string` only frees.
mod Copy
mod Print
mod Tests
use libcpr.Base.{
  ℕ, zero, suc, ◌+◌, ◌-◌, ◌^◌, max, false, Option, none, some, List, [], ◌∷◌, ◌++◌, length, take,
  drop, ltb, leb, ◌==◌, if◌then◌else◌, Ptr, null, to, u8, u16, u64, memcpy, store, load, Malloc,
  ◌>>=◌, ℤ, pos, negsuc, vsnprintf,
}
use libcpr.Memory.{cpr_memcpy}
use libcpr.Strchar.{cpr_strlen, cpr_strtrim, cpr_strchop, toupper, tolower}

-- `struct _string`, with the memory behind it.
pub record Strtype : Type 0 where
  pub size : ℕ
  pub used : ℕ
  pub text : List ℕ

pub new_string : Malloc → ℕ → Ptr Strtype
new_string malloc size = elim (malloc size) [
  | null ↦ null
  | to text ↦ to (record { size = u16 size; used = 0; text = text })
]

-- `str->size - 1` as a `size_t`.
abbrev pub below_size : Strtype → ℕ
below_size str = u64 (str.size + 2 ^ 64 - 1)

pub string_size : Strtype → ℕ
string_size str = str.size

pub string_commit : Strtype → Option (ℕ × Strtype)
string_commit str = do
  len ← cpr_strlen (to str.text) (below_size str)
  some (u16 len, record str { used = u16 len })

pub string_count : Strtype → ℕ
string_count str = str.used

pub string_clear : Strtype → Option Strtype
string_clear str = do text ← store str.text 0 0; some (record str { used = 0; text = text })

pub string_clone : Malloc → Strtype → Option (Ptr Strtype)
string_clone malloc str = elim (malloc str.size) [
  | null ↦ some null
  | to block ↦ (do text ← memcpy block str.text str.size; some (to (record str { text = text })))
]

-- What `string_copy` copies: memory elsewhere, or the string's own from an offset on.
pub data Source : Type 0 where
  outside : Ptr (List ℕ) → Source
  inside : ℕ → Source

-- The loop of `string_copy`, with `mem` at `at` and `val` elsewhere; then the terminator.
copy_outside : ℕ → List ℕ → ℕ → List ℕ → Option (List ℕ)
copy_outside zero text at val = store text at 0
copy_outside (suc len) text at val = do
  c ← load val 0
  text ← store text at c
  copy_outside len text (at + 1) (drop 1 val)

-- The same with `val` in the string itself, at `from`.
copy_inside : ℕ → List ℕ → ℕ → ℕ → Option (List ℕ)
copy_inside zero text at from = store text at 0
copy_inside (suc len) text at from = do
  c ← load text from
  text ← store text at c
  copy_inside len text (at + 1) (from + 1)

pub string_copy : Strtype → Source → Option Strtype
unfolding copy_outside copy_inside
string_copy str (outside null) = do
  text ← copy_outside 0 str.text 0 []
  some (record str { used = 0; text = text })
string_copy str (outside (to val)) = do
  len ← cpr_strlen (to val) (below_size str)
  text ← copy_outside len str.text 0 val
  some (record str { used = u16 len; text = text })
string_copy str (inside from) = do
  len ← cpr_strlen (to (drop from str.text)) (below_size str)
  text ← if from == 0 then store str.text len 0 else copy_inside len str.text 0 from
  some (record str { used = u16 len; text = text })

-- What `string_append` does with the text found at `mem`.
append_len : Strtype → Ptr (List ℕ) → ℕ → ℕ → Option Strtype
append_len str val size len = do
  copied ←
      if len == 0
      then some (false, to (drop str.used str.text))
      else cpr_memcpy (to (drop str.used str.text)) size val len
  elim copied.1 [
    | null ↦ none
    | to end ↦ (do
      end ← store end len 0
      some (record str { used = u16 (str.used + len); text = take str.used str.text ++ end }))
  ]

-- `string_append`. The first test compares numbers of type `int`, so `size` 0 is full.
pub string_append : Strtype → Ptr (List ℕ) → Option Strtype
unfolding append_len
string_append str val =
    let size = u64 (str.size + 2 ^ 64 - str.used + 2 ^ 64 - 1) in
    let append = (do len ← cpr_strlen val size; append_len str val size len) in
    if leb str.size (str.used + 1) then some str else append

pub make_string : Malloc → Ptr (List ℕ) → ℕ → Option (Ptr Strtype)
make_string malloc val max = do
  len ← cpr_strlen val max
  elim (new_string malloc (u64 (len + 1))) [
    | null ↦ some null
    | to str ↦ (do str ← string_copy str (outside val); some (to str))
  ]

-- The loop of `string_upper` and `string_lower`.
change_loop : (ℕ → ℕ) → List ℕ → Option (List ℕ)
change_loop change [] = none
change_loop change (c ∷ text) =
    let rest = (do out ← change_loop change text; some (u8 (change c) ∷ out)) in
    if c == 0 then some (c ∷ text) else rest

pub string_upper : Strtype → Option Strtype
unfolding change_loop
string_upper str = do text ← change_loop toupper str.text; some (record str { text = text })

pub string_lower : Strtype → Option Strtype
unfolding change_loop
string_lower str = do text ← change_loop tolower str.text; some (record str { text = text })

pub string_trim : Strtype → Ptr (List ℕ) → Option Strtype
string_trim str trim = do
  start ← cpr_strtrim (to str.text) trim str.size
  elim start [ null ↦ string_copy str (outside null) | to k ↦ string_copy str (inside k) ]

-- `cpr_strchop` changes the string's own memory, and returns it.
pub string_chop : Strtype → Ptr (List ℕ) → Option Strtype
string_chop str chop = do
  chopped ← cpr_strchop (to str.text) chop str.size
  elim chopped [
    | null ↦ string_copy str (outside null)
    | to text ↦ string_copy (record str { text = text }) (inside 0)
  ]

pub string_tail : Strtype → ℕ → Option Strtype
string_tail str size =
    let cut = if ltb str.used size then str.used else size in
    (do text ← store str.text cut 0; some (record str { used = u16 cut; text = text }))

pub string_head : Strtype → ℕ → Option Strtype
string_head str size =
    let kept = if ltb str.used size then str.used else size in
    string_copy str (inside (str.used - kept))

-- `string_printf`, where `text` is what the format makes, or `null` if `vsnprintf` fails: its
-- result, and the string.
unfoldable pub string_printf : Strtype → Ptr (List ℕ) → Option (ℤ × Strtype)
string_printf str null = do str ← string_clear str; some (negsuc 0, str)
string_printf str (to text) = do
  mem ← if str.size == 0 then some str.text else vsnprintf str.text 0 str.size text
  let printed = record str { text = mem }
  let ended = (do
    mem ← store mem (length text) 0
    some (pos (length text), record { size = str.size; used = u16 (length text); text = mem }))
  if length text == 0 then (do str ← string_clear printed; some (pos 0, str)) else ended
