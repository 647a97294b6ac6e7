-- ===== src/Keyfile/Lines.antt =====
-- What `load_keyfile` does with a line: `line` is its buffer, and pointers into it are indices.
use libcpr.Base.{
  ℕ, zero, suc, ◌+◌, ◌-◌, ◌^◌, Bool, not, Option, none, some, List, [], ◌∷◌, drop, ltb, leb, ◌==◌,
  ◌&&◌, ◌||◌, if◌then◌else◌, to, u64, store, load, ◌>>=◌,
}
use libcpr.Strchar.{cpr_strlen}

-- `sizeof(linebuf)`.
abbrev pub linebuf_size : ℕ
linebuf_size = 96

-- `isspace` and `isalnum` of the C library, in the C locale.
abbrev pub isspace : ℕ → Bool
isspace c = c == b' ' || (leb 9 c && leb c 13)

abbrev pub isalnum : ℕ → Bool
isalnum c = leb b'0' c && leb c b'9' || (leb b'a' c && leb c b'z') || (leb b'A' c && leb c b'Z')

-- What a line comes to: it is passed over; it starts a section; or it gives a key a value. The texts
-- are parts of the buffer, each with its terminator.
pub data Line : Type 0 where
  skipped : Line
  header : (id : List ℕ) → Line
  entry : (id value : List ℕ) → Line

-- `while (len > 0 && isspace(lp[--len])) lp[len] = 0;`: `len` after the loop, and the buffer.
unfoldable pub chop_spaces : ℕ → List ℕ → Option (ℕ × List ℕ)
chop_spaces zero line = some (0, line)
chop_spaces (suc len) line = do
  c ← load line len
  if isspace c then (do line ← store line len 0; chop_spaces len line) else some (len, line)

-- `while (*lp && isspace(*lp)) ++lp;`, where `line` begins at `lp`.
unfoldable pub skip_spaces : List ℕ → Option ℕ
skip_spaces [] = none
skip_spaces (c ∷ line) =
    if not (c == 0) && isspace c then (do n ← skip_spaces line; some (suc n)) else some 0

-- `while (len > 1 && isspace(lp[--len]));`, with `len - 1` for `len`.
unfoldable pub section_end : ℕ → List ℕ → Option ℕ
section_end zero lp = some 1
section_end (suc len) lp = do
  c ← load lp (suc len)
  if isspace c then section_end len lp else some (suc len)

-- `while (isspace(*(++lp))) --len;`, where `lp` begins one further: how often it goes round.
unfoldable pub section_start : List ℕ → Option ℕ
section_start [] = none
section_start (c ∷ lp) = if isspace c then (do n ← section_start lp; some (suc n)) else some 0

-- The branch of a section, from `lp` on. `len` loses what `section_start` goes round.
unfoldable pub section_line : List ℕ → ℕ → Option Line
unfolding section_end section_start
section_line lp len = do
  len ← section_end (len - 1) lp
  let named = (do
    spaces ← section_start (drop 1 lp)
    let lp = drop (spaces + 1) lp
    lp ← store lp (u64 (len + 2 ^ 64 - spaces)) 0
    some (header lp))
  if ltb len 2 then some skipped else named

-- `while (*kw && *kw != '=') ++kw;`.
unfoldable pub find_equals : List ℕ → Option ℕ
find_equals [] = none
find_equals (c ∷ lp) = if c == 0 || c == b'=' then some 0 else (do n ← find_equals lp; some (suc n))

-- `while (kw > lp && isspace(*kw)) --kw;`.
unfoldable pub key_end : ℕ → List ℕ → Option ℕ
key_end zero lp = some 0
key_end (suc kw) lp = do c ← load lp (suc kw); if isspace c then key_end kw lp else some (suc kw)

-- The value: one space before it is passed over, and quotes around it.
unfoldable pub value_text : List ℕ → Option (List ℕ)
value_text body = do
  c ← load body 0
  let body = if not (c == 0) && isspace c then drop 1 body else body
  len ← cpr_strlen (to body) linebuf_size
  first ← load body 0
  let unquoted = (do
    last ← load body (len - 1)
    let strip = (do
      body ← store body (len - 1) 0
      c ← load body 0
      some (if c == 0 then body else drop 1 body))
    if last == first then strip else some body)
  if first == b'\'' || first == b'"' then unquoted else some body

-- The branch of a key, from `lp` on.
unfoldable pub key_line : List ℕ → Option Line
unfolding find_equals key_end value_text
key_line lp = do
  equals ← find_equals lp
  c ← load lp equals
  let key = (do
    kw ← key_end (equals - 1) lp
    let named = (do
      lp ← store lp (kw + 1) 0
      value ← value_text (drop (equals + 1) lp)
      some (entry lp value))
    if kw == 0 then some skipped else named)
  if equals == 0 || c == 0 then some skipped else key

-- The body of the loop of `load_keyfile` up to the lists. `len` is counted from the start of the
-- buffer, also where `lp` has gone past spaces.
unfoldable pub parse_line : List ℕ → Option Line
unfolding chop_spaces skip_spaces section_line key_line
parse_line line = do
  len ← cpr_strlen (to line) linebuf_size
  let complete = (do
    (len, line) ← chop_spaces len line
    spaces ← skip_spaces line
    let lp = drop spaces line
    c ← load lp 0
    let keyed = if isalnum c then key_line lp else some skipped
    let bracket = (do end ← load lp len; if end == b']' then section_line lp len else keyed)
    if c == 0 then some skipped else if c == b'[' then bracket else keyed)
  if len == 0
      then some skipped
      else (do last ← load line (len - 1); if last == b'\n' then complete else some skipped)
