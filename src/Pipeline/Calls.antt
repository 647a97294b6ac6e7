-- ===== src/Pipeline/Calls.antt =====
-- Whole calls: `put_pipeline` while no other thread interferes, and the draining of
-- `close_pipeline`. Both loops end.
use libcpr.Base.{
  ℕ, zero, suc, ◌<◌, ◌≡◌, refl, sym, ◌∙◌, ◌⊎◌, inl, inr, true, false, some, List, [], ◌∷◌, ◌++◌,
  arith, length, ltb, if◌then◌else◌, ◌>>=◌,
}
use libcpr.Pipeline.{
  wait, drop, Pipeline, PutRound, accepted, refused, dropped, put_round, drain_round, drain,
  returns, blocked, put_pipeline,
}
use libcpr.Pipeline.Ring.{IsValid, contents}
use libcpr.Pipeline.Rounds.{IsPut, put_round_lem, drain_round_lem}

drained :
    (k : ℕ) (fuel : ℕ) (pl : Pipeline)
    → IsValid pl
    → pl.count ≡ k
    → k < fuel
    → (after : Pipeline) × (drain fuel pl ≡ some (contents pl, after))
      × IsValid after
      × (contents after ≡ [])
unfolding drain
drained k zero pl v e h = absurd (omega arith)
drained zero (suc fuel) pl v e h = (pl, (unfold drain_round in ground arith), v, rw e refl)
drained (suc k) (suc fuel) pl v e h =
    let (out, next, round, v', less, split) = drain_round_lem pl v (omega arith) in
    let (after, rest, va, empty) = drained k fuel next v' (omega arith) (omega arith) in
    (after, rw (round, rest, split) refl, va, empty)

-- Draining a well-formed pipeline of `count` pointers ends within `count` passes, takes all of them
-- out, the oldest first, and leaves it empty and well formed.
pub drain_lem :
    (pl : Pipeline) (fuel : ℕ)
    → IsValid pl
    → pl.count < fuel
    → (after : Pipeline) × (drain fuel pl ≡ some (contents pl, after))
      × IsValid after
      × (contents after ≡ [])
drain_lem pl fuel v h = drained pl.count fuel pl v refl h

-- A put that finds a free slot returns in its first pass.
put_space :
    (fuel : ℕ) (pl : Pipeline) (ptr : ℕ)
    → IsValid pl
    → pl.closed ≡ false
    → pl.count < pl.size
    → (after : Pipeline) × (put_pipeline (suc fuel) pl ptr ≡ some ([], returns true after))
      × IsValid after
      × (contents after ≡ contents pl ++ (ptr ∷ []))
put_space fuel pl ptr v is_open space =
    let (r, round, outcome) = put_round_lem pl v ptr in by_outcome r round outcome
  where
    by_outcome :
        (r : PutRound)
        → put_round pl ptr ≡ some r
        → IsPut pl ptr r
        → (after : Pipeline) × (put_pipeline (suc fuel) pl ptr ≡ some ([], returns true after))
          × IsValid after
          × (contents after ≡ contents pl ++ (ptr ∷ []))
    by_outcome (accepted s after) round (_, _, va, _, added, _) =
        (after, (unfold put_pipeline in rw round), va, added)
    by_outcome refused round shut = absurd (ground (arith, shut))
    by_outcome PutRound.waits round (_, full, _) = absurd (omega arith)
    by_outcome (dropped oldest after) round (_, full, _, _, _, _, _) = absurd (omega arith)

put_dropped :
    (fuel : ℕ) (pl : Pipeline) (ptr oldest : ℕ) (next : Pipeline)
    → put_round pl ptr ≡ some (dropped oldest next)
    → put_pipeline (suc fuel) pl ptr
      ≡ (put_pipeline fuel next ptr >>= λ done. some (oldest ∷ done.0, done.1))
unfolding put_pipeline
put_dropped fuel pl ptr oldest next round = rw round refl

-- Under the drop policy a put on an open, well-formed pipeline returns true within two passes. In
-- order, what it dropped and what the pipeline then holds are what it held and the new pointer;
-- it drops one pointer where the pipeline was full and none otherwise.
pub put_pipeline_dropping :
    (pl : Pipeline) (ptr : ℕ)
    → IsValid pl
    → pl.closed ≡ false
    → pl.policy ≡ drop
    → (gone : List ℕ) × (after : Pipeline) × (put_pipeline 2 pl ptr
        ≡ some (gone, returns true after))
      × IsValid after
      × (contents pl ++ (ptr ∷ []) ≡ gone ++ contents after)
      × (length gone ≡ (if ltb pl.count pl.size then 0 else 1))
put_pipeline_dropping pl ptr v is_open drops =
    let (r, round, outcome) = put_round_lem pl v ptr in by_outcome r round outcome
  where
    by_outcome :
        (r : PutRound)
        → put_round pl ptr ≡ some r
        → IsPut pl ptr r
        → (gone : List ℕ) × (after : Pipeline) × (put_pipeline 2 pl ptr
            ≡ some (gone, returns true after))
          × IsValid after
          × (contents pl ++ (ptr ∷ []) ≡ gone ++ contents after)
          × (length gone ≡ (if ltb pl.count pl.size then 0 else 1))
    by_outcome (accepted s after) round (_, space, va, _, added, _) =
        ([], after, (unfold put_pipeline in rw round), va, sym added, ground arith)
    by_outcome refused round shut = absurd (ground (arith, shut))
    by_outcome PutRound.waits round (_, _, waiting) = absurd (ground (arith, waiting))
    by_outcome (dropped oldest next) round (_, full, _, vn, setup, space, split) =
        let (after, returned, va, added) = put_space 0 next ptr vn (setup.2 ∙ is_open) space in
        (
          oldest ∷ [],
          after,
          put_dropped 1 pl ptr oldest next round ∙ rw returned refl,
          va,
          rw (split, added) refl,
          ground arith,
        )

-- Under the wait policy a put on an open, well-formed pipeline either returns true with the new
-- pointer behind the others, or waits because the pipeline is full, which it leaves as it was.
pub put_pipeline_wait :
    (pl : Pipeline) (ptr : ℕ)
    → IsValid pl
    → pl.closed ≡ false
    → pl.policy ≡ wait
    → ((after : Pipeline) × (put_pipeline 1 pl ptr ≡ some ([], returns true after))
        × IsValid after
        × (contents after ≡ contents pl ++ (ptr ∷ [])))
      ⊎ ((put_pipeline 1 pl ptr ≡ some ([], blocked pl)) × (pl.count ≡ pl.size))
put_pipeline_wait pl ptr v is_open waiting =
    let (r, round, outcome) = put_round_lem pl v ptr in by_outcome r round outcome
  where
    by_outcome :
        (r : PutRound)
        → put_round pl ptr ≡ some r
        → IsPut pl ptr r
        → ((after : Pipeline) × (put_pipeline 1 pl ptr ≡ some ([], returns true after))
            × IsValid after
            × (contents after ≡ contents pl ++ (ptr ∷ [])))
          ⊎ ((put_pipeline 1 pl ptr ≡ some ([], blocked pl)) × (pl.count ≡ pl.size))
    by_outcome (accepted s after) round (_, _, va, _, added, _) =
        inl (after, (unfold put_pipeline in rw round), va, added)
    by_outcome refused round shut = absurd (ground (arith, shut))
    by_outcome PutRound.waits round (_, full, _) = inr ((unfold put_pipeline in rw round), full)
    by_outcome (dropped oldest after) round (_, _, drops, _, _, _, _) =
        absurd (ground (arith, drops))
