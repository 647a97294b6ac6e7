-- ===== src/Mempager/Tests.antt =====
-- Runs of the functions of mempager.c, and the theorem at concrete inputs.
use libcpr.Base.{◌≡◌, refl, true, [], ◌∷◌, arith, null, to, replicate, some}
use libcpr.Mempager.{Mempager, pager_create, pager_request, pager_alloc}
use libcpr.Mempager.{pager_strdup}
use libcpr.Mempager.Copies.{pager_strdup_lem}
use libcpr.Mempager.Grants.{IsValid, IsGrant, pager_alloc-IsGrant}

-- Two pages of size 64, the first with 4 bytes left.
abbrev two_pages : Mempager
two_pages = record { pages = 60 ∷ 40 ∷ []; free = []; size = 64; limit = 2; count = 2 }

two_pages-IsValid : IsValid two_pages
two_pages-IsValid = record { within = omega arith; small = omega arith }

alloc_run : pager_alloc true two_pages 8 ≡ (to (1, 40), record two_pages { pages = 60 ∷ 48 ∷ [] })
unfolding pager_alloc
alloc_run = refl

-- The limit is reached.
limit_run : pager_alloc true two_pages 30 ≡ (null, two_pages)
unfolding pager_alloc pager_request
limit_run = refl

create_run : (pager_alloc true (pager_create 64 0) 8).0 ≡ to (0, 24)
unfolding pager_create pager_alloc pager_request
create_run = refl

pager_alloc-IsGrant_example : IsGrant two_pages 8 (pager_alloc true two_pages 8)
pager_alloc-IsGrant_example = pager_alloc-IsGrant true two_pages 8 two_pages-IsValid (omega arith)

-- "abc" is copied as "ab".
pager_strdup_lem_example :
    pager_strdup true two_pages (replicate 4 0xaa) (to (b'a' ∷ b'b' ∷ b'c' ∷ 0 ∷ []))
    ≡ some (to ((0, 60), b'a' ∷ b'b' ∷ 0 ∷ 0xaa ∷ []), record two_pages { pages = 64 ∷ 40 ∷ [] })
unfolding pager_alloc
pager_strdup_lem_example =
    pager_strdup_lem true two_pages (record two_pages { pages = 64 ∷ 40 ∷ [] }) (replicate 4 0xaa)
      (b'a' ∷ b'b' ∷ b'c' ∷ []) [] (0, 60) (ground arith) (omega arith) (omega arith) (omega arith)
      refl refl
