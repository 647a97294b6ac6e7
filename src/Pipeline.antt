-- ===== src/Pipeline.antt =====
-- src/pipeline.h and src/pipeline.c: a bounded channel of pointers between threads. Each pass of
-- a loop under the lock is one function from the state; a pointer is an address, and 0 is NULL.
-- A pass that would access the buffer out of bounds is `none`.
mod Slots
mod Ring
mod Rounds
mod Calls
mod System
mod Tests
use libcpr.Base.{
  ℕ, zero, suc, ◌+◌, ◌-◌, ◌*◌, ◌/◌, ◌%◌, ◌^◌, u64, length, Malloc, Bool, true, false, Option, none,
  some, List, [], ◌∷◌, ◌>>=◌, load, store, ltb, ◌==◌, if◌then◌else◌, replicate, Ptr, null, to,
}

pub data Policy : Type 0 where
  wait drop : Policy

-- `pipeline_t`. The lock and the condition variables are in the order of the passes.
pub record Pipeline : Type 0 where
  pub policy : Policy
  pub head : ℕ
  pub tail : ℕ
  pub count : ℕ
  pub size : ℕ
  pub closed : Bool
  pub buf : List ℕ

-- `make_pipeline`, where `header` is `sizeof(pipeline_t)`: NULL if the allocation fails, and
-- otherwise a pipeline with the slots that the block has room for behind the header. The size of the
-- block wraps as a `size_t`; `none` if not even the header fits.
pub make_pipeline : Malloc → ℕ → ℕ → Policy → Option (Ptr Pipeline)
make_pipeline malloc header size policy = elim (malloc (u64 (header + size * 8))) [
  | null ↦ some null
  | to block ↦
      if ltb (length block) header
      then none
      else some (
          to (record {
            policy = policy;
            head = 0;
            tail = 0;
            count = 0;
            size = size;
            closed = false;
            buf = replicate ((length block - header) / 8) 0;
          }))
]

pub is_pipeline : Ptr Pipeline → Bool
is_pipeline null = false
is_pipeline (to pl) = if pl.closed then false else true

-- How a pass of the loop of `put_pipeline` ends: it returns true and may signal `output`; it
-- returns false; it waits for `input`; or it has dropped the oldest pointer, and goes on.
pub data PutRound : Type 0 where
  accepted : (signals : Bool) → Pipeline → PutRound
  refused : PutRound
  waits : PutRound
  dropped : (oldest : ℕ) → Pipeline → PutRound

pub put_round : Pipeline → ℕ → Option PutRound
put_round pl ptr =
    if closed
    then some refused
    else if ltb count size
    then (do
      buf ← store buf tail ptr
      some (
          accepted (count == 0)
            (record pl { buf = buf; tail = (tail + 1) % size; count = count + 1 })))
    else elim policy [
      | wait ↦ some waits
      | drop ↦ (do
        oldest ← load buf head
        some (dropped oldest (record pl { head = (head + 1) % size; count = count - 1 })))
    ]
  where
    open pl use {policy, head, tail, count, size, closed, buf}

-- How a pass of the loop of `get_pipeline` ends: with a pointer, and perhaps a signal on `input`;
-- with NULL; or waiting for `output`.
pub data GetRound : Type 0 where
  got : (out : ℕ) → (signals : Bool) → Pipeline → GetRound
  ended : GetRound
  waits : GetRound

pub get_round : Pipeline → Option GetRound
get_round pl =
    if closed
    then some ended
    else if ltb 0 count
    then (do
      out ← load buf head
      buf ← store buf head 0
      some (
          got out (count == size)
            (record pl { buf = buf; head = (head + 1) % size; count = count - 1 })))
    else some waits
  where
    open pl use {head, count, size, closed, buf}

-- The `atomic_exchange` of `close_pipeline`, which goes on only if the pipeline was open.
pub close_flag : Pipeline → Bool × Pipeline
close_flag pl = (pl.closed, record pl { closed = true })

-- A pass of the loop of `close_pipeline`: the pointer that leaves (freed if it is not NULL), or the
-- end of the loop.
pub drain_round : Pipeline → Option (Ptr (ℕ × Pipeline))
drain_round pl = if count == 0 then some null else (do
  out ← load buf head
  some (to (out, record pl { head = (head + 1) % size; count = count - 1 })))
  where
    open pl use {head, count, size, buf}

-- The loop of `close_pipeline`: the pointers that leave, in order. `none` if the fuel runs out.
pub drain : ℕ → Pipeline → Option (List ℕ × Pipeline)
drain zero pl = none
drain (suc fuel) pl = do
  round ← drain_round pl
  elim round [
    | null ↦ some ([], pl)
    | to (out, rest) ↦ (do done ← drain fuel rest; some (out ∷ done.0, done.1))
  ]

-- What a call of `put_pipeline` comes to while no other thread interferes.
pub data PutResult : Type 0 where
  returns : Bool → Pipeline → PutResult
  blocked : Pipeline → PutResult

-- The loop of `put_pipeline`: the dropped pointers, and how it ends. `none` if the fuel runs out.
pub put_pipeline : ℕ → Pipeline → ℕ → Option (List ℕ × PutResult)
unfolding put_round
put_pipeline zero pl ptr = none
put_pipeline (suc fuel) pl ptr = do
  round ← put_round pl ptr
  elim round [
    | accepted s after ↦ some ([], returns true after)
    | refused ↦ some ([], returns false pl)
    | waits ↦ some ([], blocked pl)
    | dropped oldest after ↦ (do done ← put_pipeline fuel after ptr; some (oldest ∷ done.0, done.1))
  ]
