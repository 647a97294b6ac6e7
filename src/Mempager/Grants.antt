-- ===== src/Mempager/Grants.antt =====
-- The memory that `pager_alloc` hands out.
use libcpr.Base.{
  ℕ, zero, suc, ◌+◌, ◌^◌, ◌≤◌, ◌<◌, ◌≡◌, ◌≢◌, refl, ap, ◌⊎◌, inl, inr, Bool, false, not, List, [],
  ◌∷◌, ◌++◌, arith, length, get_or, All, ltb, leb, ◌==◌, ◌&&◌, Bool-cases, leb→le, Ptr, null, to,
  u32, u64, set-append,
}
use libcpr.Mempager.{
  Mempager, page_header, pager_request, first_fit, use_page, alloc_from, pager_alloc,
}

-- The pages are used within their size, and the numbers are far from wrapping.
pub record IsValid (pager : Mempager) : Type 0 where
  pub within : All (λ used. used ≤ pager.size) pager.pages
  pub small : pager.size < 2 ^ 63

-- Memory is cut off behind what its page had used, within the page, and no other page changes; a
-- page that is new has used its header. Otherwise nothing changes.
pub IsGrant : Mempager → ℕ → Ptr (ℕ × ℕ) × Mempager → Type 0
IsGrant pager size (null, after) = after ≡ pager
IsGrant pager size (to (i, offset), after) =
    (offset ≡ get_or pager.pages i page_header)
    × (get_or after.pages i page_header ≡ offset + size)
    × (offset + size ≤ pager.size)
    × ((j : ℕ) → j ≢ i → get_or after.pages j page_header ≡ get_or pager.pages j page_header)

data IsFit (pages : List ℕ) (size page_size : ℕ) : Ptr (ℕ × ℕ × List ℕ) → Type 0 where
  full : IsFit pages size page_size null
  fits :
      (i offset : ℕ) (after : List ℕ)
      → offset ≡ get_or pages i page_header
      → get_or after i page_header ≡ offset + size
      → offset + size ≤ page_size
      → ((j : ℕ) → j ≢ i → get_or after j page_header ≡ get_or pages j page_header)
      → IsFit pages size page_size (to (i, offset, after))

-- A fit behind the first page.
fit_behind :
    (used : ℕ) (pages : List ℕ) (size page_size : ℕ) (r : Ptr (ℕ × ℕ × List ℕ))
    → leb (u64 (used + size)) page_size ≡ false
    → first_fit pages size page_size ≡ r
    → IsFit pages size page_size r
    → (s : Ptr (ℕ × ℕ × List ℕ)) × (first_fit (used ∷ pages) size page_size ≡ s)
      × IsFit (used ∷ pages) size page_size s
unfolding first_fit
fit_behind used pages size page_size r over e full = (null, rw (over, e) refl, full)
fit_behind used pages size page_size r over e (fits i offset after at end inside others) = (
  to (suc i, offset, used ∷ after),
  rw (over, e) refl,
  fits (suc i) offset (used ∷ after) at end inside shifted,
)
  where
    shifted :
        (j : ℕ)
        → j ≢ suc i
        → get_or (used ∷ after) j page_header ≡ get_or (used ∷ pages) j page_header
    shifted zero ne = refl
    shifted (suc j) ne = others j (λ h. ne (ap suc h))

first_fit_lem :
    (pages : List ℕ) (size page_size : ℕ)
    → All (λ used. used ≤ page_size) pages
    → size ≤ page_size
    → page_size < 2 ^ 63
    → (r : Ptr (ℕ × ℕ × List ℕ)) × (first_fit pages size page_size ≡ r)
      × IsFit pages size page_size r
unfolding first_fit
first_fit_lem [] size page_size w h small = (null, refl, full)
first_fit_lem (used ∷ pages) size page_size w h small =
    let sum : u64 (used + size) ≡ used + size = grind (arith, w.0) in
    elim (Bool-cases (leb (used + size) page_size)) [
      | inl room ↦ (
        to (0, used, (used + size) ∷ pages),
        rw (sum, room) refl,
        fits 0 used ((used + size) ∷ pages) refl refl (leb→le _ _ room)
            (λ j ne. other used size pages j ne),
      )
      | inr none_left ↦
          let (r, e, fit) = first_fit_lem pages size page_size w.1 h small in
          fit_behind used pages size page_size r (rw sum none_left) e fit
    ]
  where
    other :
        (used size : ℕ) (pages : List ℕ) (j : ℕ)
        → j ≢ 0
        → get_or ((used + size) ∷ pages) j page_header ≡ get_or (used ∷ pages) j page_header
    other used size pages zero ne = absurd (ne refl)
    other used size pages (suc j) ne = refl

get_or-append_ne :
    (pages : List ℕ) (size j : ℕ)
    → j ≢ length pages
    → get_or (pages ++ ((page_header + size) ∷ [])) j page_header ≡ get_or pages j page_header
get_or-append_ne [] size zero ne = absurd (ne refl)
get_or-append_ne [] size (suc j) ne = refl
get_or-append_ne (x ∷ pages) size zero ne = refl
get_or-append_ne (x ∷ pages) size (suc j) ne = get_or-append_ne pages size j (λ h. ne (ap suc h))

get_or-append_end :
    (pages : List ℕ) (v : ℕ)
    → (get_or (pages ++ (v ∷ [])) (length pages) page_header ≡ v)
      × (get_or (pages ++ (v ∷ [])) (length pages) 0 ≡ v)
get_or-append_end [] v = (refl, refl)
get_or-append_end (x ∷ pages) v = get_or-append_end pages v

get_or_past : (pages : List ℕ) → page_header ≡ get_or pages (length pages) page_header
get_or_past [] = refl
get_or_past (x ∷ pages) = get_or_past pages

-- A request gives NULL and changes nothing, or adds a page at the end.
IsAnswer : Bool → Mempager → Type 0
IsAnswer memory pager =
    (pager_request memory pager ≡ (null, pager))
    ⊎ ((after : Mempager) × (pager_request memory pager ≡ (to (length pager.pages), after))
        × (after.pages ≡ pager.pages ++ (page_header ∷ [])))

pager_request-IsAnswer :
    (memory : Bool) (pages free : List ℕ) (size limit count : ℕ)
    → IsAnswer memory
        (record { pages = pages; free = free; size = size; limit = limit; count = count })
unfolding IsAnswer pager_request
pager_request-IsAnswer memory pages (page ∷ rest) size limit count = inr (_, refl, refl)
pager_request-IsAnswer memory pages [] size limit count =
    elim (Bool-cases (not (limit == 0) && leb limit count)) [
      | inl reached ↦ inl (rw reached refl)
      | inr below ↦ elim (Bool-cases memory) [
        | inl given ↦ inr (
          record {
            pages = pages ++ (page_header ∷ []);
            free = [];
            size = size;
            limit = limit;
            count = u32 (count + 1);
          },
          rw (below, given) refl,
          refl,
        )
        | inr refused ↦ inl (rw (below, refused) refl)
      ]
    ]

use_page-IsGrant :
    (pager after : Mempager) (size : ℕ)
    → after.pages ≡ pager.pages ++ (page_header ∷ [])
    → size + page_header ≤ pager.size
    → pager.size < 2 ^ 63
    → IsGrant pager size (use_page size (to (length pager.pages), after))
unfolding use_page IsGrant
use_page-IsGrant pager after size e h small =
    let sum : u64 (page_header + size) ≡ page_header + size = grind arith in
    rw
      (
        e,
        (get_or-append_end pager.pages page_header).1,
        sum,
        set-append pager.pages page_header [] (page_header + size),
      )
      (
        get_or_past pager.pages,
        (get_or-append_end pager.pages (page_header + size)).0,
        omega arith,
        λ j ne. get_or-append_ne pager.pages size j ne,
      )

alloc_from-IsGrant :
    (memory : Bool) (pager : Mempager) (size : ℕ) {r : Ptr (ℕ × ℕ × List ℕ)}
    → IsValid pager
    → size + page_header ≤ pager.size
    → IsFit pager.pages size pager.size r
    → IsGrant pager size (alloc_from memory pager size r)
unfolding alloc_from IsGrant IsAnswer
alloc_from-IsGrant memory pager size v h (fits i offset after at end inside others) =
    (at, end, inside, others)
alloc_from-IsGrant memory pager size v h full =
    elim (pager_request-IsAnswer memory pager.pages pager.free pager.size pager.limit pager.count) [
      | inl none_given ↦ rw none_given (unfold use_page in refl)
      | inr (after, given, e) ↦ rw given (use_page-IsGrant pager after size e h v.small)
    ]

-- What `pager_alloc` hands out on a pager with all pages used within their size: memory of the size
-- asked for that begins where its page had been used up to, or behind the header of a new page, and
-- ends within the page, which is then used up to there; no other page changes, so memory that was
-- handed out before is not handed out again. Where it returns NULL nothing changes. The size asked
-- for is one that does not wrap when the header is added.
pub pager_alloc-IsGrant :
    (memory : Bool) (pager : Mempager) (size : ℕ)
    → IsValid pager
    → size + page_header < 2 ^ 64
    → IsGrant pager size (pager_alloc memory pager size)
unfolding pager_alloc IsGrant
pager_alloc-IsGrant memory pager size v h =
    let sum : u64 (size + page_header) ≡ size + page_header = grind arith in
    elim (Bool-cases (ltb pager.size (size + page_header))) [
      | inl large ↦ rw (sum, large) refl
      | inr room ↦
          let (r, e, fit) =
            first_fit_lem pager.pages size pager.size v.within (ground arith) v.small in
          rw (sum, room, e) (alloc_from-IsGrant memory pager size v (ground arith) fit)
    ]
