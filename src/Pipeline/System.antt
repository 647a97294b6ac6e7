-- ===== src/Pipeline/System.antt =====
-- Any number of producers and consumers on one pipeline: each pass runs under the lock, so a run
-- of the program is a sequence of passes of any threads. Passes of different threads may follow
-- one another in any order here, also where the code still holds the lock.
use mathlib.Core.Path.{subst}
use mathlib.Core.List.{map-append}
use libcpr.Base.{
  ℕ, ◌<◌, ◌≡◌, refl, sym, ap, ap₂, ◌∙◌, Bool, true, some, List, [], ◌∷◌, ◌++◌, append_assoc, map,
  arith, length-replicate, to, null, false, ◌+◌, ◌-◌, ◌*◌, ◌/◌, ◌^◌, u64, length, ltb, Ptr, Malloc,
  IsMalloc, IsBlock, replicate,
}
use libcpr.Pipeline.{
  Policy, Pipeline, make_pipeline, PutRound, accepted, dropped, put_round, GetRound, got, get_round,
  drain_round, close_flag,
}
use libcpr.Pipeline.Ring.{IsValid, contents}
use libcpr.Pipeline.Rounds.{IsPut, IsGet, put_round_lem, get_round_lem, drain_round_lem}

-- How a pointer has left the pipeline: to a consumer, or freed by a drop or by the closing.
pub data Exit : Type 0 where
  delivered dropped_out drained_out : ℕ → Exit

abbrev pub pointer : Exit → ℕ
pointer (delivered p) = p
pointer (dropped_out p) = p
pointer (drained_out p) = p

-- The pipeline, what producers were told that it took, and what has left it, each in order.
pub record World : Type 0 where
  pub pl : Pipeline
  pub taken : List ℕ
  pub exits : List Exit

pub data Step (w : World) : World → Type 0 where
  put :
      (ptr : ℕ) {signals : Bool} {after : Pipeline}
      → put_round w.pl ptr ≡ some (accepted signals after)
      → Step w (record w { pl = after; taken = w.taken ++ (ptr ∷ []) })
  drop_oldest :
      (ptr : ℕ) {oldest : ℕ} {after : Pipeline}
      → put_round w.pl ptr ≡ some (dropped oldest after)
      → Step w (record w { pl = after; exits = w.exits ++ (dropped_out oldest ∷ []) })
  get :
      {out : ℕ} {signals : Bool} {after : Pipeline}
      → get_round w.pl ≡ some (got out signals after)
      → Step w (record w { pl = after; exits = w.exits ++ (delivered out ∷ []) })
  close : Step w (record w { pl = (close_flag w.pl).1 })
  drain_oldest :
      {out : ℕ} {after : Pipeline}
      → w.pl.closed ≡ true
      → drain_round w.pl ≡ some (to (out, after))
      → Step w (record w { pl = after; exits = w.exits ++ (drained_out out ∷ []) })

abbrev pub start : Pipeline → World
start pl = record { pl = pl; taken = []; exits = [] }

pub data Reach (malloc : Malloc) (header size : ℕ) (policy : Policy) : World → Type 0 where
  begin :
      {pl : Pipeline}
      → make_pipeline malloc header size policy ≡ some (to pl)
      → Reach malloc header size policy (start pl)
  later :
      {w u : World}
      → Reach malloc header size policy w
      → Step w u
      → Reach malloc header size policy u

-- Nothing is lost, doubled or reordered.
pub record Inv (w : World) : Type 0 where
  pub ring : IsValid w.pl
  pub fifo : w.taken ≡ map pointer w.exits ++ contents w.pl

abbrev empty_pipeline : ℕ → Policy → Pipeline
empty_pipeline size policy = record {
  policy = policy;
  head = 0;
  tail = 0;
  count = 0;
  size = size;
  closed = false;
  buf = replicate size 0;
}

empty-IsValid : (size : ℕ) (policy : Policy) → 0 < size → IsValid (empty_pipeline size policy)
empty-IsValid size policy h = record {
  room = omega (arith, length-replicate size (let z : ℕ = 0 in z));
  some_size = h;
  head_in = h;
  count_in = omega arith;
  tail_at = grind arith;
}

-- A new pipeline: the block has as many slots as were asked for, if its size does not wrap.
make_pipeline-IsValid :
    (malloc : Malloc) (header size : ℕ) (policy : Policy) (found : Ptr (List ℕ)) {pl : Pipeline}
    → malloc (u64 (header + size * 8)) ≡ found
    → IsBlock (u64 (header + size * 8)) found
    → 0 < size
    → header + size * 8 < 2 ^ 64
    → make_pipeline malloc header size policy ≡ some (to pl)
    → IsValid pl × (contents pl ≡ [])
unfolding make_pipeline
make_pipeline-IsValid malloc header size policy null e b h fits made =
    let stops = rw (make_pipeline, e) at made in ground arith
make_pipeline-IsValid malloc header size policy (to block) {pl} e b h fits made =
    let alloc : length block ≡ header + size * 8 = omega (arith, b) in
    let enough : ltb (length block) header ≡ false = ground (arith, alloc) in
    let slots : (length block - header) / 8 ≡ size = omega (arith, alloc) in
    let same : empty_pipeline size policy ≡ pl =
      ground (arith, rw (make_pipeline, e, enough, slots) at made) in
    subst (λ pl. IsValid pl × (contents pl ≡ [])) same (empty-IsValid size policy h, refl)

IsPut-outcome :
    {pl : Pipeline} (v : IsValid pl) (ptr : ℕ) {r : PutRound}
    → put_round pl ptr ≡ some r
    → IsPut pl ptr r
IsPut-outcome {pl} v ptr {r} e =
    let (r', e', outcome) = put_round_lem pl v ptr in
    let same : r' ≡ r = cc in subst (IsPut pl ptr) same outcome

IsGet-outcome : {pl : Pipeline} (v : IsValid pl) {r : GetRound} → get_round pl ≡ some r → IsGet pl r
IsGet-outcome {pl} v {r} e =
    let (r', e', outcome) = get_round_lem pl v in
    let same : r' ≡ r = cc in subst (IsGet pl) same outcome

-- A pointer goes from the front of the queue to the end of the exits.
fifo_exit :
    (taken : List ℕ) (exits : List Exit) (x : Exit) (before after : List ℕ)
    → taken ≡ map pointer exits ++ before
    → before ≡ pointer x ∷ after
    → taken ≡ map pointer (exits ++ (x ∷ [])) ++ after
fifo_exit taken exits x before after e split =
    e ∙ rw (split, map-append) (sym (append_assoc (map pointer exits) (pointer x ∷ []) after))

drained_some : (pl : Pipeline) {r : ℕ × Pipeline} → drain_round pl ≡ some (to r) → 0 < pl.count
unfolding drain_round
drained_some pl e = ground arith

drain_outcome :
    {pl : Pipeline} (v : IsValid pl) {out : ℕ} {after : Pipeline}
    → drain_round pl ≡ some (to (out, after))
    → IsValid after × (contents pl ≡ out ∷ contents after)
drain_outcome {pl} v {out} {after} e =
    let (out', after', e', v', _, split) = drain_round_lem pl v (drained_some pl e) in
    let same_out : out' ≡ out = cc in
    let same_after : after' ≡ after = cc in
    (subst IsValid same_after v', split ∙ ap₂ (λ x p. x ∷ contents p) same_out same_after)

Step-Inv : {w u : World} → Step w u → Inv w → Inv u
unfolding close_flag
Step-Inv {w} (put ptr {after = after} e) i =
    let (_, _, v, _, added, _) = IsPut-outcome i.ring ptr e in
    record {
      ring = v;
      fifo =
          ap (λ l. l ++ (ptr ∷ [])) i.fifo
          ∙ append_assoc (map pointer w.exits) (contents w.pl) (ptr ∷ [])
          ∙ ap (λ l. map pointer w.exits ++ l) (sym added);
    }
Step-Inv {w} (drop_oldest ptr {oldest = oldest} {after = after} e) i =
    let (_, _, _, v, _, _, split) = IsPut-outcome i.ring ptr e in
    record {
      ring = v;
      fifo =
          fifo_exit w.taken w.exits (dropped_out oldest) (contents w.pl) (contents after) i.fifo
            split;
    }
Step-Inv {w} (get {out = out} {after = after} e) i =
    let (_, v, _, split, _) = IsGet-outcome i.ring e in
    record {
      ring = v;
      fifo =
          fifo_exit w.taken w.exits (delivered out) (contents w.pl) (contents after) i.fifo split;
    }
Step-Inv close i = record {
  ring = record {
    room = i.ring.room;
    some_size = i.ring.some_size;
    head_in = i.ring.head_in;
    count_in = i.ring.count_in;
    tail_at = i.ring.tail_at;
  };
  fifo = i.fifo;
}
Step-Inv {w} (drain_oldest {out = out} {after = after} shut e) i =
    let (v, split) = drain_outcome i.ring e in
    record {
      ring = v;
      fifo =
          fifo_exit w.taken w.exits (drained_out out) (contents w.pl) (contents after) i.fifo split;
    }

-- In every state that producers, consumers and a closing thread can reach, in any order of their
-- passes, from a pipeline that was made with a positive size, where the size of its block in bytes is
-- below 2 ^ 64: its ring is well formed, and the pointers that were accepted are, in order, those
-- that have been delivered or freed and those still in it: none is lost, doubled or overtaken.
pub Reach-Inv :
    (malloc : Malloc) (header size : ℕ) (policy : Policy) {w : World}
    → IsMalloc malloc
    → 0 < size
    → header + size * 8 < 2 ^ 64
    → Reach malloc header size policy w
    → Inv w
Reach-Inv malloc header size policy m h fits (begin made) =
    let (ring, empty) =
      make_pipeline-IsValid malloc header size policy (malloc (u64 (header + size * 8))) refl
        (m (u64 (header + size * 8))) h fits made in
    record { ring = ring; fifo = sym empty }
Reach-Inv malloc header size policy m h fits (later r st) =
    Step-Inv st (Reach-Inv malloc header size policy m h fits r)
