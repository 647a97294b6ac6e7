-- ===== src/Socket/Tests.antt =====
-- Runs of the functions of socket.c, and the theorems at concrete inputs.
use libcpr.Base.{
  ℕ, ◌≡◌, refl, true, false, some, List, [], ◌∷◌, arith, length, replicate, All, to, IsByte, ℤ, pos,
  negsuc,
}
use libcpr.Strchar.{cpr_strlen}
use libcpr.Socket.{
  cpr_getch, cpr_putch, cpr_putline, line_sent, getline_pass, Got, getline_loop, cpr_getline,
}
use libcpr.Socket.Edit.{edit}
use libcpr.Socket.GetLine.{Holds, cpr_getline_lem, cpr_getline-line}

abbrev memory : List ℕ
memory = replicate 6 0xaa

-- A device that takes all that it is given.
abbrev takes_all : List ℕ → ℤ
takes_all bytes = pos (length bytes)

putch_run : (cpr_putch takes_all b'a' ≡ true) × (cpr_putch (λ bytes. negsuc 0) b'a' ≡ false)
unfolding cpr_putch
putch_run = (refl, refl)

-- `max` has no effect on a text of fewer than 256 characters, but for 0, where one is sent.
putline_run :
    (cpr_putline takes_all (to (b'a' ∷ b'b' ∷ b'c' ∷ 0 ∷ [])) 2 ≡ some (pos 3))
    × (cpr_putline takes_all (to (b'a' ∷ b'b' ∷ b'c' ∷ 0 ∷ [])) 0 ≡ some (pos 1))
unfolding cpr_putline line_sent cpr_strlen
putline_run = (refl, refl)

-- "ab", a backspace, "c" and a newline, with echo. Of "\b \b" only the first character is sent.
abbrev typing : List ℕ
typing = b'a' ∷ b'b' ∷ 8 ∷ b'c' ∷ b'\n' ∷ b'z' ∷ []

getline_run :
    cpr_getline true memory 6 typing
    ≡ some (record {
      result = pos 2;
      rest = b'z' ∷ [];
      line = record {
        text = b'a' ∷ b'c' ∷ 0 ∷ 0xaa ∷ 0xaa ∷ 0xaa ∷ [];
        pos = 2;
        cr = false;
        sent = (b'a' ∷ []) ∷ (b'b' ∷ []) ∷ (8 ∷ []) ∷ (b'c' ∷ []) ∷ (b'\n' ∷ []) ∷ [];
      };
    })
unfolding cpr_getline cpr_getch getline_pass getline_loop line_sent cpr_strlen
getline_run = refl

-- The byte 0xff reads as -1, and ends the line as an error does.
getline_closed :
    cpr_getline false memory 6 (b'a' ∷ 0xff ∷ b'b' ∷ b'\n' ∷ [])
    ≡ some (record {
      result = negsuc 0;
      rest = b'b' ∷ b'\n' ∷ [];
      line = record {
        text = b'a' ∷ 0 ∷ 0xaa ∷ 0xaa ∷ 0xaa ∷ 0xaa ∷ [];
        pos = 1;
        cr = false;
        sent = [];
      };
    })
unfolding cpr_getline cpr_getch getline_pass getline_loop line_sent cpr_strlen
getline_closed = refl

typing-IsByte : All IsByte typing
typing-IsByte = ground arith

cpr_getline_lem_example :
    (got : Got) × (cpr_getline true memory 6 typing ≡ some got)
    × Holds 6 (edit 5 false ([]) typing) got
cpr_getline_lem_example =
    cpr_getline_lem true memory 6 typing (omega arith) (omega arith) typing-IsByte

-- A line of three characters, for which there is room for two.
cpr_getline-line_example :
    (got : Got) × (cpr_getline false memory 3 (b'a' ∷ b'b' ∷ b'c' ∷ 10 ∷ []) ≡ some got)
    × (got.result ≡ pos 2)
    × (got.rest ≡ b'c' ∷ 10 ∷ [])
    × ((behind : List ℕ) × (got.line.text ≡ b'a' ∷ b'b' ∷ 0 ∷ behind))
cpr_getline-line_example =
    cpr_getline-line false memory 3 (b'a' ∷ b'b' ∷ b'c' ∷ []) ([]) (omega arith) (omega arith)
      (ground arith) _
