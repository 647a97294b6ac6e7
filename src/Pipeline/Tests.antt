-- ===== src/Pipeline/Tests.antt =====
-- Runs of the functions of pipeline.c, and the theorems at concrete states.
use libcpr.Base.{
  ℕ, ◌≡◌, refl, ◌⊎◌, true, false, none, some, List, [], ◌∷◌, ◌++◌, arith, length, ◌+◌, ◌^◌, to,
  replicate, length-replicate, Malloc, IsMalloc,
}
use libcpr.Pipeline.{
  Policy, wait, drop, Pipeline, make_pipeline, PutRound, put_round, GetRound, get_round, drain,
  returns, blocked, put_pipeline,
}
use libcpr.Pipeline.Ring.{IsValid, contents}
use libcpr.Pipeline.Rounds.{IsPut, IsGet, put_round_lem, get_round_lem}
use libcpr.Pipeline.Calls.{drain_lem, put_pipeline_dropping, put_pipeline_wait}
use libcpr.Pipeline.System.{World, put, get, delivered, Reach, begin, later, Inv, Reach-Inv}

-- 8, then 9, round the end of the buffer.
abbrev full : Policy → Pipeline
full policy = record {
  policy = policy;
  head = 1;
  tail = 1;
  count = 2;
  size = 2;
  closed = false;
  buf = 9 ∷ 8 ∷ [];
}

full-IsValid : (policy : Policy) → IsValid (full policy)
full-IsValid policy = omega arith

contents-full : contents (full wait) ≡ 8 ∷ 9 ∷ []
contents-full = refl

put_pipeline_run :
    put_pipeline 2 (full drop) 7
    ≡ some (8 ∷ [], returns true (record (full drop) { head = 0; tail = 0; buf = 9 ∷ 7 ∷ [] }))
unfolding put_pipeline
put_pipeline_run = refl

abbrev heap : Malloc
heap size = to (replicate size 0xaa)

heap-IsMalloc : IsMalloc heap
heap-IsMalloc size = length-replicate size 0xaa

-- A new pipeline, with a header of 16 bytes.
abbrev fresh : ℕ → List ℕ → Policy → Pipeline
fresh size buf policy = record {
  policy = policy;
  head = 0;
  tail = 0;
  count = 0;
  size = size;
  closed = false;
  buf = buf;
}

make_run : make_pipeline heap 16 2 wait ≡ some (to (fresh 2 (0 ∷ 0 ∷ []) wait))
unfolding make_pipeline
make_run = refl

-- Without a slot there is nothing to drop either.
no_slots : put_round (fresh 0 [] drop) 7 ≡ none
unfolding put_round
no_slots = refl

-- A size for which the size of the block wraps: there is one slot.
wrapped_run : make_pipeline heap 16 (2 ^ 61 + 1) wait ≡ some (to (fresh (2 ^ 61 + 1) (0 ∷ []) wait))
unfolding make_pipeline
wrapped_run = refl

put_round_lem_run : (r : PutRound) × (put_round (full drop) 7 ≡ some r) × IsPut (full drop) 7 r
put_round_lem_run = put_round_lem (full drop) (full-IsValid drop) 7

get_round_lem_run : (r : GetRound) × (get_round (full wait) ≡ some r) × IsGet (full wait) r
get_round_lem_run = get_round_lem (full wait) (full-IsValid wait)

drain_lem_example :
    (after : Pipeline) × (drain 3 (full wait) ≡ some (8 ∷ 9 ∷ [], after))
    × IsValid after
    × (contents after ≡ [])
drain_lem_example = drain_lem (full wait) 3 (full-IsValid wait) (omega arith)

put_pipeline_dropping_example :
    (gone : List ℕ) × (after : Pipeline) × (put_pipeline 2 (full drop) 7
      ≡ some (gone, returns true after))
    × IsValid after
    × (8 ∷ 9 ∷ 7 ∷ [] ≡ gone ++ contents after)
    × (length gone ≡ 1)
put_pipeline_dropping_example = put_pipeline_dropping (full drop) 7 (full-IsValid drop) refl refl

put_pipeline_wait_run :
    ((after : Pipeline) × (put_pipeline 1 (full wait) 7 ≡ some ([], returns true after))
      × IsValid after
      × (contents after ≡ 8 ∷ 9 ∷ 7 ∷ []))
    ⊎ ((put_pipeline 1 (full wait) 7 ≡ some ([], blocked (full wait)))
        × ((full wait).count ≡ (full wait).size))
put_pipeline_wait_run = put_pipeline_wait (full wait) 7 (full-IsValid wait) refl refl

-- One pointer, put and got.
abbrev passed : World
passed = record {
  pl = record (fresh 2 (0 ∷ 0 ∷ []) wait) { head = 1; tail = 1 };
  taken = 7 ∷ [];
  exits = delivered 7 ∷ [];
}

passed-Reach : Reach heap 16 2 wait passed
unfolding put_round get_round
passed-Reach = later (later (begin make_run) (put 7 refl)) (get refl)

Reach-Inv_example : Inv passed
Reach-Inv_example = Reach-Inv heap 16 2 wait heap-IsMalloc (omega arith) (omega arith) passed-Reach
