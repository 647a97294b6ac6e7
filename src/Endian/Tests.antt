-- ===== src/Endian/Tests.antt =====
-- Runs of the functions of endian.h, and the theorems at concrete inputs.
use libcpr.Base.{ℕ, ◌≡◌, refl, none, some, List, [], ◌∷◌, ◌>>=◌, arith}
use libcpr.Endian.{be_get16, be_get32, le_get32, be_set32, le_set16}
use libcpr.Endian.RoundTrip.{
  w16, w32, w64, be_get, le_get, be_set, le_set, get_lem, set_lem, get-set,
}

abbrev packet : List ℕ
packet = 0x12 ∷ 0x34 ∷ 0x56 ∷ 0x78 ∷ 0x9a ∷ 0xbc ∷ 0xde ∷ 0xf0 ∷ 7 ∷ []

be_get32_run : be_get32 packet ≡ some 0x12345678
unfolding be_get32
be_get32_run = refl

le_get32_run : le_get32 packet ≡ some 0x78563412
unfolding le_get32
le_get32_run = refl

be_set32_run :
    be_set32 packet 0xdeadbeef
    ≡ some (0xde ∷ 0xad ∷ 0xbe ∷ 0xef ∷ 0x9a ∷ 0xbc ∷ 0xde ∷ 0xf0 ∷ 7 ∷ [])
unfolding be_set32
be_set32_run = refl

-- A block that is too short is read out of bounds.
be_get16_short : be_get16 (1 ∷ []) ≡ none
unfolding be_get16
be_get16_short = refl

le_set16_run : le_set16 (0 ∷ 0 ∷ []) 0xf522 ≡ some (0x22 ∷ 0xf5 ∷ [])
unfolding le_set16
le_set16_run = refl

get_lem_run :
    (le_get w64 packet ≡ some 0xf0debc9a78563412) × (be_get w64 packet ≡ some 0x123456789abcdef0)
get_lem_run = get_lem w64 packet (omega arith) (omega arith)

set_lem_run :
    (le_set w16 packet 0xf522
      ≡ some (0x22 ∷ 0xf5 ∷ 0x56 ∷ 0x78 ∷ 0x9a ∷ 0xbc ∷ 0xde ∷ 0xf0 ∷ 7 ∷ []))
    × (be_set w16 packet 0xf522
        ≡ some (0xf5 ∷ 0x22 ∷ 0x56 ∷ 0x78 ∷ 0x9a ∷ 0xbc ∷ 0xde ∷ 0xf0 ∷ 7 ∷ []))
set_lem_run = set_lem w16 packet 0xf522 (omega arith) (omega arith)

get-set_example :
    ((le_set w32 packet 0xdeadbeef >>= le_get w32) ≡ some 0xdeadbeef)
    × ((be_set w32 packet 0xdeadbeef >>= be_get w32) ≡ some 0xdeadbeef)
get-set_example = get-set w32 packet 0xdeadbeef (omega arith) (omega arith)
