-- ===== src/Memio/Tests.antt =====
-- Runs of the functions of memio.c, and the theorems at concrete inputs.
use libcpr.Base.{ℕ, ◌≡◌, refl, true, false, some, List, [], ◌∷◌, arith, Ptr, to, ◌>>=◌}
use libcpr.Memory.{cpr_memcpy}
use libcpr.Strchar.{cpr_strlen}
use libcpr.Memio.{cpr_fmtmem}
use libcpr.Memio.{
  Memio, cpr_initmem, cpr_cgetmem, cpr_cputmem, cpr_xputmem, cpr_sputmem, cpr_lgetmem,
}
use libcpr.Memio.Bytes.{IsValid, written, cpr_xputmem_lem}
use libcpr.Memio.Lines.{IsLine, cpr_lgetmem_lem}

-- "a,b" and some zeros, three bytes of it written.
abbrev mem : Memio
mem = record { bytes = b'a' ∷ b',' ∷ b'b' ∷ 0 ∷ 0 ∷ []; get = 0; put = 3; size = 5; alloc = false }

mem-IsValid : IsValid mem
mem-IsValid = record {
  fits = omega arith;
  get_in = omega arith;
  put_in = omega arith;
  small = omega arith;
}

cputmem_run :
    cpr_cputmem (to mem) 0x141
    ≡ some (true, to (record mem { bytes = b'a' ∷ b',' ∷ b'b' ∷ 0x41 ∷ 0 ∷ []; put = 4 }))
unfolding cpr_cputmem
cputmem_run = refl

cgetmem_run : cpr_cgetmem (to mem) ≡ some (b'a', to (record mem { get = 1 }))
unfolding cpr_cgetmem
cgetmem_run = refl

abbrev comma : List ℕ
comma = b',' ∷ 0 ∷ []

lgetmem_run :
    cpr_lgetmem mem false (to comma)
    ≡ some (to (0, 1), record mem { bytes = b'a' ∷ 0 ∷ b'b' ∷ 0 ∷ 0 ∷ []; get = 2 })
unfolding cpr_lgetmem cpr_strlen
lgetmem_run = refl

-- A text that is longer than the stream is cut and accepted.
sputmem_run :
    (cpr_sputmem (to (cpr_initmem (1 ∷ 2 ∷ []) 2)) (to (b'l' ∷ b'o' ∷ b'n' ∷ b'g' ∷ 0 ∷ []))
      >>= λ r. some r.0)
    ≡ some true
unfolding cpr_sputmem cpr_initmem cpr_xputmem cpr_strlen cpr_memcpy
sputmem_run = refl

cpr_xputmem_lem_run :
    (after : Memio) × (cpr_xputmem (to mem) (to (7 ∷ 8 ∷ [])) 2 ≡ some (true, to after))
    × IsValid after
    × (after.get ≡ 0)
    × (written after ≡ b'a' ∷ b',' ∷ b'b' ∷ 7 ∷ 8 ∷ [])
cpr_xputmem_lem_run = cpr_xputmem_lem mem (7 ∷ 8 ∷ []) 2 mem-IsValid (omega arith)

comma_length : cpr_strlen (to comma) 16 ≡ some 1
unfolding cpr_strlen
comma_length = refl

cpr_lgetmem_lem_example :
    (r : Ptr (ℕ × ℕ) × Memio) × (cpr_lgetmem mem true (to comma) ≡ some r) × IsLine mem comma 1 r
cpr_lgetmem_lem_example =
    cpr_lgetmem_lem mem comma 1 (omega arith) (omega arith) comma_length (omega arith)

-- A text that is as long as the estimate is cut, and refused.
fmtmem_run : (cpr_fmtmem mem 2 (to (7 ∷ [])) >>= λ r. some r.0) ≡ some true
unfolding cpr_fmtmem
fmtmem_run = refl

fmtmem_cut : (cpr_fmtmem mem 2 (to (7 ∷ 8 ∷ [])) >>= λ r. some r.0) ≡ some false
unfolding cpr_fmtmem
fmtmem_cut = refl
