-- ===== src/Mempager.antt =====
-- src/mempager.h and src/mempager.c: an allocator that cuts memory off pages. Pages are counted from
-- the head of the list, each with the bytes `used` of it, its header of 24 bytes included; memory
-- that is handed out is a page and an offset. Whether `malloc` succeeds is an argument.
mod Grants
mod Copies
mod Tests
use libcpr.Base.{
  ℕ, suc, ◌+◌, ◌-◌, ◌^◌, max, Bool, not, Option, some, List, [], ◌∷◌, ◌++◌, length, set, get_or,
  ltb, leb, ◌==◌, ◌&&◌, if◌then◌else◌, Ptr, null, to, u32, u64, ◌>>=◌,
}
use libcpr.Strchar.{cpr_strlen, cpr_strcpy}

-- `struct _mempager`: the pages from `head` to `tail`, and the list `free`.
pub record Mempager : Type 0 where
  pub pages : List ℕ
  pub free : List ℕ
  pub size : ℕ
  pub limit : ℕ
  pub count : ℕ

-- `sizeof(struct _mempage)`: two pointers and a `size_t`.
abbrev pub page_header : ℕ
page_header = 24

-- `pager_create`, when the allocation succeeds.
pub pager_create : ℕ → ℕ → Mempager
pager_create pagesize max = record {
  pages = [];
  free = [];
  size = pagesize;
  limit = max;
  count = 0;
}

pub pager_reset : Mempager → Mempager
pager_reset pager = record pager { pages = []; free = []; count = 0 }

-- `pager_request`: the new page at the tail, or NULL.
pub pager_request : Bool → Mempager → Ptr ℕ × Mempager
pager_request memory pager = elim pager.free [
  | page ∷ rest ↦ (
    to (length pager.pages),
    record pager { free = rest; pages = pager.pages ++ (page_header ∷ []) },
  )
  | [] ↦
      if not (pager.limit == 0) && leb pager.limit pager.count
      then (null, pager)
      else if memory
      then (
        to (length pager.pages),
        record pager { pages = pager.pages ++ (page_header ∷ []); count = u32 (pager.count + 1) },
      )
      else (null, pager)
]

-- The loop of `pager_alloc`: the first page with room, the offset in it, and the pages after.
first_fit : List ℕ → ℕ → ℕ → Ptr (ℕ × ℕ × List ℕ)
first_fit [] size page_size = null
first_fit (used ∷ pages) size page_size =
    if leb (u64 (used + size)) page_size
    then to (0, used, u64 (used + size) ∷ pages)
    else elim (first_fit pages size page_size) [
      | null ↦ null
      | to (i, offset, after) ↦ to (suc i, offset, used ∷ after)
    ]

-- What `pager_alloc` does with the page that it has requested.
use_page : ℕ → Ptr ℕ × Mempager → Ptr (ℕ × ℕ) × Mempager
use_page size (null, pager) = (null, pager)
use_page size (to i, pager) = (
  to (i, page_header),
  record pager { pages = set pager.pages i (u64 (get_or pager.pages i 0 + size)) },
)

alloc_from : Bool → Mempager → ℕ → Ptr (ℕ × ℕ × List ℕ) → Ptr (ℕ × ℕ) × Mempager
unfolding use_page
alloc_from memory pager size null = use_page size (pager_request memory pager)
alloc_from memory pager size (to (i, offset, pages)) =
    (to (i, offset), record pager { pages = pages })

pub pager_alloc : Bool → Mempager → ℕ → Ptr (ℕ × ℕ) × Mempager
unfolding first_fit alloc_from
pager_alloc memory pager size =
    if ltb pager.size (u64 (size + page_header))
    then (null, pager)
    else alloc_from memory pager size (first_fit pager.pages size pager.size)

-- What `pager_strdup` does with the memory that it gets.
copied_to :
    List ℕ → Ptr (List ℕ) → ℕ → Ptr (ℕ × ℕ) × Mempager → Option (Ptr ((ℕ × ℕ) × List ℕ) × Mempager)
copied_to stale str size (null, pager) = some (null, pager)
copied_to stale str size (to place, pager) = do
  copied ← cpr_strcpy (to stale) str size
  some (elim copied [ null ↦ null | to bytes ↦ to (place, bytes) ], pager)

-- `pager_strdup`, where `stale` is what the memory for the copy holds: where that memory is, and what
-- it holds then.
unfoldable pub pager_strdup :
    Bool → Mempager → List ℕ → Ptr (List ℕ) → Option (Ptr ((ℕ × ℕ) × List ℕ) × Mempager)
unfolding copied_to
pager_strdup memory pager stale str = do
  size ← cpr_strlen str (u64 (pager.size + 2 ^ 64 - page_header - 1))
  copied_to stale str (u64 (size + 1)) (pager_alloc memory pager (u64 (size + 1)))
