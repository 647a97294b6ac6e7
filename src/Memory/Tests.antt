-- ===== src/Memory/Tests.antt =====
-- Runs of the functions of memory.c, and the theorems at concrete inputs.
use libcpr.Base.{
  Ptr, false, ℕ, ◌≡◌, refl, true, none, some, List, [], ◌∷◌, arith, replicate, to, length-replicate,
  Malloc, IsMalloc, ◌>>=◌,
}
use libcpr.Memory.{cpr_memset, cpr_memcpy, cpr_hexload, cpr_hexdup, cpr_makeref, freed}
use libcpr.Memory.Fill.{cpr_memcpy_lem, cpr_memset_lem}
use libcpr.Memory.Hex.{cpr_hexdup_lem, hexload-hexdup, hexload_odd_overrun}
use libcpr.Memory.Owned.{
  Heap, free_block, freed_owner, cpr_new, cpr_free, makes_new, frees, OwnerCall, owner_calls, holds,
  owner_calls-holds,
}
use libcpr.Memory.Share.{Op, retain, release, run, run-makeref}

-- A `malloc` that always succeeds.
abbrev heap : Malloc
heap size = to (replicate size 0xaa)

heap-IsMalloc : IsMalloc heap
heap-IsMalloc size = length-replicate size 0xaa

abbrev key : List ℕ
key = 0x0f ∷ 0xa5 ∷ []

hexdup_run : cpr_hexdup heap (to key) 2 ≡ some (to (b'0' ∷ b'f' ∷ b'a' ∷ b'5' ∷ 0 ∷ []))
unfolding cpr_hexdup
hexdup_run = refl

-- Upper case digits are read, and the first other character ends the text.
hexload_run :
    cpr_hexload (to (1 ∷ 2 ∷ 3 ∷ [])) (to (b'F' ∷ b'0' ∷ b'-' ∷ b'1' ∷ 0 ∷ [])) 3
    ≡ some (1, to (0xf0 ∷ 2 ∷ 3 ∷ []))
unfolding cpr_hexload
hexload_run = refl

memset_run : cpr_memset (to (1 ∷ 2 ∷ 3 ∷ [])) 0x120 2 ≡ some (to (0x20 ∷ 0x20 ∷ 3 ∷ []))
memset_run = cpr_memset_lem (1 ∷ 2 ∷ 3 ∷ []) 0x120 2

cpr_memcpy_lem_run :
    cpr_memcpy (to (1 ∷ 2 ∷ 3 ∷ [])) 3 (to (7 ∷ 8 ∷ [])) 2 ≡ some (true, to (7 ∷ 8 ∷ 3 ∷ []))
cpr_memcpy_lem_run = cpr_memcpy_lem (1 ∷ 2 ∷ 3 ∷ []) (7 ∷ 8 ∷ []) 3 2 (omega arith) (omega arith)

cpr_hexdup_lem_run : cpr_hexdup heap (to key) 2 ≡ some (to (b'0' ∷ b'f' ∷ b'a' ∷ b'5' ∷ 0 ∷ []))
cpr_hexdup_lem_run = cpr_hexdup_lem heap heap-IsMalloc key (omega arith) (omega arith)

hexload-hexdup_example :
    (cpr_hexdup heap (to key) 2 >>= λ text. cpr_hexload (to (1 ∷ 2 ∷ 3 ∷ [])) text 2)
    ≡ some (2, to (0x0f ∷ 0xa5 ∷ 3 ∷ []))
hexload-hexdup_example =
    hexload-hexdup heap key (1 ∷ 2 ∷ 3 ∷ []) heap-IsMalloc (omega arith) (omega arith) (omega arith)

hexload_odd_overrun_run :
    cpr_hexload (to (1 ∷ 2 ∷ 3 ∷ [])) (to (b'0' ∷ b'f' ∷ b'7' ∷ 0 ∷ [])) 3 ≡ none
hexload_odd_overrun_run =
    hexload_odd_overrun (0x0f ∷ []) (1 ∷ 2 ∷ 3 ∷ []) 7 3 (omega arith) (omega arith) (omega arith)
      (omega arith)

abbrev calls : List Op
calls = retain ∷ release ∷ release ∷ []

run-makeref_example : run calls cpr_makeref ≡ some freed
run-makeref_example = run-makeref calls (omega arith)

-- The blocks 1 and 2, of which the pointer holds 2; what is freed twice stops.
abbrev two_blocks : Heap
two_blocks = record { live = 2 ∷ 1 ∷ []; next = 3 }

new_run : cpr_new true two_blocks (to 2) ≡ some (record { live = 3 ∷ 1 ∷ []; next = 4 }, to 3)
unfolding cpr_new freed_owner free_block
new_run = refl

free_run : (cpr_free two_blocks (to 1) >>= λ r. cpr_free r.0 (to 1)) ≡ none
unfolding cpr_free freed_owner free_block
free_run = refl

abbrev owner_session : List OwnerCall
owner_session =
    makes_new true ∷ frees ∷ frees ∷ makes_new true ∷ makes_new false ∷ makes_new true ∷ []

session_run :
    owner_calls owner_session two_blocks (to 2)
    ≡ some (record { live = 5 ∷ 1 ∷ []; next = 6 }, to 5)
unfolding owner_calls cpr_new cpr_free freed_owner free_block
session_run = refl

owner_calls-holds_example :
    (left : Heap) × (after : Ptr ℕ) × (owner_calls owner_session two_blocks (to 2)
      ≡ some (left, after))
    × (left.live ≡ holds after (1 ∷ []))
owner_calls-holds_example = owner_calls-holds owner_session (1 ∷ []) 3 (to 2)
