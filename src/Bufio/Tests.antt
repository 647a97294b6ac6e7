-- ===== src/Bufio/Tests.antt =====
-- Runs of the functions of bufio.c, and the theorems at concrete inputs.
use libcpr.Base.{
  ℕ, zero, suc, ◌+◌, ◌≤◌, ◌≡◌, ◌≢◌, refl, ap, Bool, true, false, none, some, List, [], ◌∷◌, ◌++◌,
  arith, length, take, drop, get_or, if◌then◌else◌, Ptr, null, to, pos, negsuc, ◌>>=◌,
}
use libcpr.Memory.{cpr_memcpy}
use libcpr.Memio.{find_delim}
use libcpr.Strchar.{cpr_strlen}
use libcpr.Bufio.{
  Bufio, cpr_makebuf, cpr_fillbuf, cpr_xgetbuf, cpr_cgetbuf, cpr_resetbuf, cpr_lgetbuf, lget_loop,
}
use libcpr.Bufio.Valid.{IsValid, Arrives}
use libcpr.Bufio.Get.{IsDelivery, IsDrained, cpr_xgetbuf_lem, cpr_xgetbuf-IsDrained}
use libcpr.Bufio.Line.{Stands, IsLine, IsClogged, cpr_lgetbuf_lem, cpr_lgetbuf_spins}
use libcpr.Bufio.Writer.{
  cpr_flushbuf, cpr_xputbuf, cpr_sputbuf, cpr_fmtbuf, event, interrupted, cpr_waitbuf,
}
use libcpr.Bufio.Writer.Put.{IsWritable, queued, IsSent, IsTaken, cpr_xputbuf_lem, cpr_xputbuf_lost}

-- A device that holds bytes and gives as many of them as it is asked for.
abbrev read : List ℕ → ℕ → Ptr (List ℕ) × List ℕ
read held n = (to (take n held), drop n held)

length-take_le : (n : ℕ) (xs : List ℕ) → length (take n xs) ≤ n
length-take_le zero xs = omega arith
length-take_le (suc n) [] = omega arith
length-take_le (suc n) (x ∷ xs) = omega (arith, length-take_le n xs)

-- A device that takes at most two bytes of each write, and one that fails.
abbrev write : List ℕ → List ℕ → Ptr ℕ × List ℕ
write dev bytes = (to (length (take 2 bytes)), dev ++ take 2 bytes)

abbrev broken_write : List ℕ → List ℕ → Ptr ℕ × List ℕ
broken_write dev bytes = (null, dev)

-- "ab;c" in a buffer of size 6, of which "ab;" is pending, and two bytes are queued.
abbrev half : Bufio
half = record {
  bufsize = 6;
  start = 0;
  end = 3;
  put = 2;
  buf = b'a' ∷ b'b' ∷ b';' ∷ 0 ∷ 0 ∷ 0 ∷ 0 ∷ 0 ∷ [];
  out = b'x' ∷ b'y' ∷ 0 ∷ 0 ∷ 0 ∷ 0 ∷ [];
}

half-IsValid : IsValid half
half-IsValid = omega arith

half-IsWritable : IsWritable half
half-IsWritable = omega arith

abbrev semicolon : List ℕ
semicolon = b';' ∷ 0 ∷ []

semicolon_length : cpr_strlen (to semicolon) 16 ≡ some 1
unfolding cpr_strlen
semicolon_length = refl

lgetbuf_run :
    cpr_lgetbuf read 2 half [] false (to semicolon)
    ≡ some
        (to (0, 2), record half { start = 3; buf = b'a' ∷ b'b' ∷ 0 ∷ 0 ∷ 0 ∷ 0 ∷ 0 ∷ 0 ∷ [] }, [])
unfolding cpr_lgetbuf cpr_strlen find_delim
lgetbuf_run = refl

-- The pending bytes move when the buffer is filled, and the search goes on where it was: it misses
-- the delimiter that has arrived, and does not end.
abbrev late : Bufio
late = record half { start = 3; end = 6; buf = 1 ∷ 1 ∷ 1 ∷ b'a' ∷ b'b' ∷ b'c' ∷ 0 ∷ 0 ∷ [] }

lgetbuf_missed : cpr_lgetbuf read 9 late (b';' ∷ b'd' ∷ b'e' ∷ []) true (to semicolon) ≡ none
unfolding cpr_lgetbuf cpr_fillbuf cpr_strlen find_delim
lgetbuf_missed = refl

resetbuf_run :
    cpr_resetbuf read half (9 ∷ []) 2
    ≡ some (false, record half { end = 2; buf = b';' ∷ 9 ∷ 0 ∷ 0 ∷ 0 ∷ 0 ∷ 0 ∷ 0 ∷ [] }, [])
unfolding cpr_resetbuf cpr_fillbuf
resetbuf_run = refl

cgetbuf_run : (cpr_cgetbuf read half [] >>= λ r. some r.0) ≡ some b'a'
unfolding cpr_cgetbuf cpr_xgetbuf cpr_fillbuf
cgetbuf_run = refl

sputbuf_run :
    cpr_sputbuf write half [] (to (b'l' ∷ b'o' ∷ b'n' ∷ b'g' ∷ 0 ∷ []))
    ≡ some (true, record half { put = 6; out = b'x' ∷ b'y' ∷ b'l' ∷ b'o' ∷ b'n' ∷ b'g' ∷ [] }, [])
unfolding cpr_sputbuf cpr_xputbuf cpr_strlen cpr_memcpy
sputbuf_run = refl

flushbuf_run :
    cpr_flushbuf write (record half { put = 3 }) []
    ≡ some (false, record half { put = 1; out = 0 ∷ b'y' ∷ 0 ∷ 0 ∷ 0 ∷ 0 ∷ [] }, b'x' ∷ b'y' ∷ [])
unfolding cpr_flushbuf
flushbuf_run = refl

fmtbuf_run :
    cpr_fmtbuf write half [] 3 (to (b'4' ∷ b'2' ∷ []))
    ≡ some (true, record half { put = 4; out = b'x' ∷ b'y' ∷ b'4' ∷ b'2' ∷ 0 ∷ 0 ∷ [] }, [])
unfolding cpr_fmtbuf
fmtbuf_run = refl

waitbuf_run : cpr_waitbuf (pos 3) (interrupted ∷ event false true ∷ []) ≡ some (negsuc 1)
unfolding cpr_waitbuf
waitbuf_run = refl

-- The offset of what is to be written is the one that the memory happens to hold.
makebuf_run :
    cpr_makebuf
      (record { isatty = false; tcgetattr_ok = true; tcsetattr_ok = true })
      (to (record half { bufsize = 0; put = 77 }))
      (pos 3)
      6
    ≡ to (record half { end = 0; put = 77 })
unfolding cpr_makebuf
makebuf_run = refl

cpr_xgetbuf_lem_example :
    (arrived : List ℕ) × (at : Ptr ℕ) × (after : Bufio) × (dev' : List ℕ) × (cpr_xgetbuf read half
        (b'c' ∷ b'd' ∷ [])
        5
      ≡ some (at, after, dev'))
    × Arrives read (b'c' ∷ b'd' ∷ []) arrived dev'
    × IsDelivery half 5 arrived at after
    × IsValid after
cpr_xgetbuf_lem_example =
    cpr_xgetbuf_lem read (λ dev n. length-take_le n dev) half (b'c' ∷ b'd' ∷ []) 5 half-IsValid
      (omega arith)

abbrev used_up : Bufio
used_up = record half { start = 6; end = 6 }

used_up-IsDrained : IsDrained used_up
used_up-IsDrained = record { valid = omega arith; at_end = refl; empty = refl }

cpr_xgetbuf-IsDrained_example :
    (after : Bufio) × (cpr_xgetbuf read used_up (7 ∷ 8 ∷ []) 1 ≡ some (null, after, 7 ∷ 8 ∷ []))
    × IsDrained after
cpr_xgetbuf-IsDrained_example =
    cpr_xgetbuf-IsDrained read (λ dev. refl) used_up used_up-IsDrained (7 ∷ 8 ∷ []) 1 (omega arith)

half-Stands : Stands half semicolon 1 2
half-Stands = record { from_start = omega arith; inside = omega arith; at = refl }

cpr_lgetbuf_lem_example :
    (at len : ℕ) × (after : Bufio) × (cpr_lgetbuf read 4 half [] true (to semicolon)
      ≡ some (to (at, len), after, []))
    × IsLine half semicolon 1 at len after
cpr_lgetbuf_lem_example =
    cpr_lgetbuf_lem read semicolon 1 3 2 half [] half-IsValid semicolon_length (omega arith)
      half-Stands

abbrev clogged : Bufio
clogged = record half { end = 6; buf = 1 ∷ 1 ∷ 1 ∷ 1 ∷ 1 ∷ 1 ∷ 0 ∷ 0 ∷ [] }

no_semicolon : (j : ℕ) → 0 ≤ j → j + 1 ≤ 6 → take 1 (drop j clogged.buf) ≢ take 1 semicolon
no_semicolon zero lo hi h = absurd (omega (arith, ap (λ (l : List ℕ). get_or l 0 0) h))
no_semicolon (suc zero) lo hi h = absurd (omega (arith, ap (λ (l : List ℕ). get_or l 0 0) h))
no_semicolon (suc (suc zero)) lo hi h = absurd (omega (arith, ap (λ (l : List ℕ). get_or l 0 0) h))
no_semicolon (suc (suc (suc zero))) lo hi h =
    absurd (omega (arith, ap (λ (l : List ℕ). get_or l 0 0) h))
no_semicolon (suc (suc (suc (suc zero)))) lo hi h =
    absurd (omega (arith, ap (λ (l : List ℕ). get_or l 0 0) h))
no_semicolon (suc (suc (suc (suc (suc zero))))) lo hi h =
    absurd (omega (arith, ap (λ (l : List ℕ). get_or l 0 0) h))
no_semicolon (suc (suc (suc (suc (suc (suc j)))))) lo hi h = absurd (omega arith)

clogged-IsClogged : IsClogged clogged semicolon 1 0
clogged-IsClogged = record {
  valid = omega arith;
  at_start = refl;
  full = refl;
  scan_in = omega arith;
  free = no_semicolon;
}

cpr_lgetbuf_spins_run :
    (cpr_lgetbuf read 5 clogged [] true (to semicolon) ≡ none)
    × ((after : Bufio) × (scan : ℕ) × (cpr_lgetbuf read 6 clogged [] true (to semicolon)
          ≡ lget_loop read 5 after [] true semicolon 1 scan)
        × IsClogged after semicolon 1 scan)
cpr_lgetbuf_spins_run =
    cpr_lgetbuf_spins read semicolon 1 (omega arith) 5 clogged [] true semicolon_length
      clogged-IsClogged

cpr_xputbuf_lem_example :
    (ok : Bool) × (sent : List ℕ) × (after : Bufio) × (dev' : List ℕ) × (cpr_xputbuf write half []
        (to (1 ∷ 2 ∷ 3 ∷ 4 ∷ 5 ∷ []))
        5
      ≡ some (ok, after, dev'))
    × IsSent half sent (if ok then take 5 (1 ∷ 2 ∷ 3 ∷ 4 ∷ 5 ∷ []) else []) after
    × IsTaken write half [] 2 5 sent dev'
cpr_xputbuf_lem_example =
    cpr_xputbuf_lem write half [] half-IsWritable (1 ∷ 2 ∷ 3 ∷ 4 ∷ 5 ∷ []) 2 5 (omega arith)
      (omega arith) refl (omega arith)

cpr_xputbuf_lost_example :
    (after : Bufio) × (cpr_xputbuf broken_write half [] (to (1 ∷ 2 ∷ 3 ∷ 4 ∷ 5 ∷ [])) 5
      ≡ some (true, after, []))
    × (queued after ≡ 1 ∷ 2 ∷ 3 ∷ 4 ∷ 5 ∷ [])
cpr_xputbuf_lost_example =
    cpr_xputbuf_lost broken_write half [] half-IsWritable (1 ∷ 2 ∷ 3 ∷ 4 ∷ 5 ∷ []) 5 (omega arith)
      (omega arith) (omega arith) refl
