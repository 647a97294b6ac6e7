-- ===== src/Memory/Owned.antt =====
-- The owned pointers of src/memory.c: `cpr_new` and `cpr_free` on one pointer, and the blocks that
-- they hold. A block is its address, and a new one has an address that was never used before.
use libcpr.Base.{
  ℕ, ◌+◌, ◌≡◌, refl, Bool, true, false, Option, none, some, List, [], ◌∷◌, arith, ◌==◌,
  if◌then◌else◌, Ptr, null, to, ◌>>=◌,
}

-- The blocks that are allocated, and the next address.
pub record Heap : Type 0 where
  pub live : List ℕ
  pub next : ℕ

-- `free` of the C library; `none` for a block that is not allocated.
unfoldable pub free_block : List ℕ → ℕ → Option (List ℕ)
free_block [] p = none
free_block (q ∷ live) p =
    if p == q then some live else (do left ← free_block live p; some (q ∷ left))

-- `malloc` of the C library, where there is memory.
abbrev pub malloc_block : Heap → Heap × Ptr ℕ
malloc_block heap = (record { live = heap.next ∷ heap.live; next = heap.next + 1 }, to heap.next)

-- `free` of a pointer that may be NULL.
unfoldable pub freed_owner : Heap → Ptr ℕ → Option Heap
freed_owner heap null = some heap
freed_owner heap (to p) = do
  live ← free_block heap.live p
  some (record { live = live; next = heap.next })

-- `cpr_new`: the heap, and `*ptr`, which is also the result. `room` says whether there is memory.
unfoldable pub cpr_new : Bool → Heap → Ptr ℕ → Option (Heap × Ptr ℕ)
cpr_new room heap ptr = do
  heap ← freed_owner heap ptr
  some (if room then malloc_block heap else (heap, null))

-- `cpr_free`.
unfoldable pub cpr_free : Heap → Ptr ℕ → Option (Heap × Ptr ℕ)
cpr_free heap ptr = do heap ← freed_owner heap ptr; some (heap, null)

-- A call with the address of the pointer.
pub data OwnerCall : Type 0 where
  makes_new : Bool → OwnerCall
  frees : OwnerCall

unfoldable pub owner_calls : List OwnerCall → Heap → Ptr ℕ → Option (Heap × Ptr ℕ)
owner_calls [] heap ptr = some (heap, ptr)
owner_calls (makes_new room ∷ calls) heap ptr = do
  (heap, ptr) ← cpr_new room heap ptr
  owner_calls calls heap ptr
owner_calls (frees ∷ calls) heap ptr = do
  (heap, ptr) ← cpr_free heap ptr
  owner_calls calls heap ptr

-- The block that a pointer holds, with the others of the heap.
abbrev pub holds : Ptr ℕ → List ℕ → List ℕ
holds null others = others
holds (to p) others = p ∷ others

freed_owner_lem :
    (live : List ℕ) (next : ℕ) (ptr : Ptr ℕ)
    → freed_owner (record { live = holds ptr live; next = next }) ptr
      ≡ some (record { live = live; next = next })
unfolding freed_owner free_block
freed_owner_lem live next null = refl
freed_owner_lem live next (to p) = let same : (p == p) ≡ true = ground arith in rw same refl

-- Where a pointer is NULL or holds a block, and any blocks of others are in the heap besides, every
-- sequence of calls of `cpr_new` and `cpr_free` with it frees allocated blocks only, leaves those of
-- others, and keeps at most the one block that the pointer holds: none is lost.
pub owner_calls-holds :
    (calls : List OwnerCall) (others : List ℕ) (next : ℕ) (ptr : Ptr ℕ)
    → (heap : Heap) × (after : Ptr ℕ) × (owner_calls calls
          (record { live = holds ptr others; next = next })
          ptr
        ≡ some (heap, after))
      × (heap.live ≡ holds after others)
unfolding owner_calls cpr_new cpr_free
owner_calls-holds [] others next ptr =
    (record { live = holds ptr others; next = next }, ptr, refl, refl)
owner_calls-holds (makes_new true ∷ calls) others next ptr =
    rw (freed_owner_lem others next ptr) (owner_calls-holds calls others (next + 1) (to next))
owner_calls-holds (makes_new false ∷ calls) others next ptr =
    rw (freed_owner_lem others next ptr) (owner_calls-holds calls others next null)
owner_calls-holds (frees ∷ calls) others next ptr =
    rw (freed_owner_lem others next ptr) (owner_calls-holds calls others next null)
