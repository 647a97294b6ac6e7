-- ===== src/Socket.antt =====
-- src/socket.c: single characters and lines over a socket, where `char` is signed. The bytes that
-- arrive until the peer or the network ends the input are a list, so `recv` of one byte gives the
-- next one, or none. What is handed to `send` is kept; `send` itself is a parameter.
mod Edit
mod Pass
mod GetLine
mod Tests
use libcpr.Base.{
  ℕ, ◌+◌, ◌-◌, max, Bool, true, false, not, Option, some, List, [], ◌∷◌, ◌++◌, length, take, ltb,
  ◌==◌, ◌&&◌, ◌||◌, if◌then◌else◌, Ptr, null, to, store, ℤ, pos, negsuc, pos_part, ltb_ℤ, ◌>>=◌,
}
use libcpr.Strchar.{cpr_strlen}

-- `sa_family`, `cpr_socklen`: the sizes of `struct sockaddr_in` and `struct sockaddr_in6` are those of
-- the system.
pub data Family : Type 0 where
  unspec : Family
  inet : Family
  inet6 : Family
  other_family : ℕ → Family

unfoldable pub cpr_socklen : ℕ → ℕ → Ptr Family → ℕ
cpr_socklen in_size in6_size null = 0
cpr_socklen in_size in6_size (to inet) = in_size
cpr_socklen in_size in6_size (to inet6) = in6_size
cpr_socklen in_size in6_size (to unspec) = 0
cpr_socklen in_size in6_size (to (other_family n)) = 0

-- A `char` as an `int`.
abbrev pub char_code : ℕ → ℤ
char_code b = if ltb b 128 then pos b else negsuc (255 - b)

-- `cpr_getch`, and the input that is left.
unfoldable pub cpr_getch : List ℕ → ℤ × List ℕ
cpr_getch [] = (negsuc 0, [])
cpr_getch (b ∷ input) = (char_code b, input)

abbrev pub Send : Type 0
Send = List ℕ → ℤ

pub cpr_putch : Send → ℕ → Bool
cpr_putch send code =
    let rtn = send (code ∷ []) in not (ltb_ℤ rtn (pos 1)) && not (ltb_ℤ (pos 1) rtn)

-- What `cpr_putline` hands to `send`; nothing is handed over where it is empty.
unfoldable pub line_sent : Ptr (List ℕ) → ℕ → Option (List ℕ)
line_sent text max = do
  size ← cpr_strlen text (if max == 0 then 0 else 256)
  elim text [ null ↦ some [] | to s ↦ some (take size s) ]

pub cpr_putline : Send → Ptr (List ℕ) → ℕ → Option ℤ
unfolding line_sent
cpr_putline send text max = do
  line ← line_sent text max
  if length line == 0 then some (pos 0) else some (send line)

abbrev is_code : ℤ → ℕ → Bool
is_code code c = not (ltb_ℤ code (pos c)) && not (ltb_ℤ (pos c) code)

-- The variables of `cpr_getline`, and what it has handed to `send`.
pub record Line : Type 0 where
  pub text : List ℕ
  pub pos : ℕ
  pub cr : Bool
  pub sent : List (List ℕ)

-- The pass of its loop for a character other than -1: whether it goes on.
unfoldable pub getline_pass : Bool → ℤ → Line → Option (Bool × Line)
getline_pass echo code line =
    let say : List ℕ → List (List ℕ) = λ bytes. line.sent ++ (bytes ∷ []) in
    if ltb_ℤ (pos 31) code && ltb_ℤ code (pos 127)
    then (do
      text ← store line.text line.pos (pos_part code)
      text ← store text (line.pos + 1) 0
      some (
        true,
        record {
          text = text;
          pos = line.pos + 1;
          cr = false;
          sent = if echo then say (pos_part code ∷ []) else line.sent;
        },
      ))
    else if is_code code b'\n'
    then some (
      false,
      record line {
        sent = (if echo && line.cr then say (b'\r' ∷ []) else line.sent) ++ ((b'\n' ∷ []) ∷ []);
      },
    )
    else if is_code code 13 && line.cr
    then some (false, line)
    else if is_code code 13
    then some (true, record line { cr = true })
    else if is_code code 8 || is_code code 127
    then (if line.pos == 0 then some (true, record line { cr = false }) else (do
      text ← store line.text (line.pos - 1) 0
      erased ← line_sent (to (8 ∷ b' ' ∷ 8 ∷ 0 ∷ [])) 0
      some (
        true,
        record {
          text = text;
          pos = line.pos - 1;
          cr = false;
          sent = if echo then say erased else line.sent;
        },
      )))
    else some (true, record line { cr = false })

-- What `cpr_getline` returns, the input that it leaves, and the variables at its end.
pub record Got : Type 0 where
  pub result : ℤ
  pub rest : List ℕ
  pub line : Line

unfoldable pub getline_loop : Bool → ℕ → List ℕ → Line → Option Got
getline_loop echo max [] line =
    if ltb line.pos (max - 1)
    then some (record { result = negsuc 0; rest = []; line = line })
    else some (record { result = pos line.pos; rest = []; line = line })
getline_loop echo max (b ∷ input) line =
    let ch = cpr_getch (b ∷ input) in
    let next : Option Got = (do
      r ← getline_pass echo ch.0 line
      elim r.0 [
        | true ↦ getline_loop echo max input r.1
        | false ↦ some (record { result = pos r.1.pos; rest = input; line = r.1 })
      ]) in
    if ltb line.pos (max - 1)
    then (if ltb_ℤ ch.0 (pos 0) && not (ltb_ℤ ch.0 (negsuc 0))
        then some (record { result = negsuc 0; rest = ch.1; line = line })
        else next)
    else some (record { result = pos line.pos; rest = b ∷ input; line = line })

-- `cpr_getline` of a text that is not NULL; a NULL one gives 0 and leaves the input.
unfoldable pub cpr_getline : Bool → List ℕ → ℕ → List ℕ → Option Got
cpr_getline echo text max input =
    if ltb max 2
    then some (record {
      result = pos 0;
      rest = input;
      line = record { text = text; pos = 0; cr = false; sent = [] };
    })
    else (do
      text ← store text 0 0
      getline_loop echo max input (record { text = text; pos = 0; cr = false; sent = [] }))
