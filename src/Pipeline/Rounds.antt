-- ===== src/Pipeline/Rounds.antt =====
-- What each pass of a loop does, on every branch.
use libcpr.Base.{
  ℕ, ◌+◌, ◌%◌, ◌<◌, ◌≡◌, refl, sym, ap, ◌∙◌, inl, inr, true, false, some, [], ◌∷◌, ◌++◌, arith,
  length, set, get_or, length-set, ltb, ◌==◌, Bool-cases, ltb→lt, lt→ltb, to, store,
}
use libcpr.Pipeline.{
  Policy, wait, drop, Pipeline, PutRound, accepted, refused, dropped, put_round, GetRound, got,
  ended, get_round, drain_round,
}
use libcpr.Pipeline.Ring.{
  IsValid, contents, SameSetup, advance, pushed, tail_in, head_slot, advance-IsValid,
  contents-advance, contents-clear, pushed-IsValid, contents-pushed,
}

-- A pass of `put_pipeline`: a closed pipeline refuses; one with a free slot takes the pointer behind
-- the others and signals if it was empty; a full one waits, or drops its oldest pointer.
abbrev pub IsPut : Pipeline → ℕ → PutRound → Type 0
IsPut pl ptr (accepted signals after) =
    (pl.closed ≡ false)
    × (pl.count < pl.size)
    × IsValid after
    × SameSetup pl after
    × (contents after ≡ contents pl ++ (ptr ∷ []))
    × (signals ≡ (pl.count == 0))
IsPut pl ptr refused = pl.closed ≡ true
IsPut pl ptr PutRound.waits = (pl.closed ≡ false) × (pl.count ≡ pl.size) × (pl.policy ≡ wait)
IsPut pl ptr (dropped oldest after) =
    (pl.closed ≡ false)
    × (pl.count ≡ pl.size)
    × (pl.policy ≡ drop)
    × IsValid after
    × SameSetup pl after
    × (after.count < after.size)
    × (contents pl ≡ oldest ∷ contents after)

-- A pass of `get_pipeline`: a closed pipeline gives NULL; one with pointers gives the oldest, and
-- signals if it was full; an empty one waits.
abbrev pub IsGet : Pipeline → GetRound → Type 0
IsGet pl (got out signals after) =
    (pl.closed ≡ false)
    × IsValid after
    × SameSetup pl after
    × (contents pl ≡ out ∷ contents after)
    × (signals ≡ (pl.count == pl.size))
IsGet pl ended = pl.closed ≡ true
IsGet pl GetRound.waits = (pl.closed ≡ false) × (contents pl ≡ [])

module _ (pl : Pipeline) (v : IsValid pl) where
  open pl use {policy, head, tail, count, size, closed, buf}

  store_tail : (ptr : ℕ) → store buf tail ptr ≡ some (set buf tail ptr)
  store_tail ptr = rw (lt→ltb tail (length buf) (omega (arith, v.room, tail_in pl v))) refl

  store_head : store buf head 0 ≡ some (set buf head 0)
  store_head = rw (lt→ltb head (length buf) (omega (arith, v.room, v.head_in))) refl

  IsPut-open :
      (ptr : ℕ) → closed ≡ false → (r : PutRound) × (put_round pl ptr ≡ some r) × IsPut pl ptr r
  IsPut-open ptr is_open = elim (Bool-cases (ltb count size)) [
    | inl space ↦
        let lt : count < size = ltb→lt count size space in
        (
          accepted (count == 0) (pushed pl ptr),
          (unfold put_round in rw (is_open, space, store_tail ptr)),
          (
            is_open,
            lt,
            pushed-IsValid pl v ptr lt,
            (refl, refl, refl),
            contents-pushed pl v ptr lt,
            refl,
          ),
        )
    | inr full ↦ put_full policy refl (ground arith)
  ]
    where
      put_full :
          (p : Policy)
          → policy ≡ p
          → count ≡ size
          → (r : PutRound) × (put_round pl ptr ≡ some r) × IsPut pl ptr r
      put_full wait e full =
          (PutRound.waits, (unfold put_round in ground arith), (is_open, full, e))
      put_full drop e full = (
        dropped (get_or buf (head % size) 0) (advance pl buf),
        (unfold put_round in ground (arith, head_slot pl v)),
        (
          is_open,
          full,
          e,
          advance-IsValid pl v buf refl (omega (arith, v.some_size)),
          (refl, refl, refl),
          omega (arith, v.some_size),
          contents-advance pl v (omega (arith, v.some_size)),
        ),
      )

  -- Every pass of `put_pipeline` on a well-formed pipeline ends in one of the four ways that
  -- `IsPut` describes, and stays inside the buffer.
  pub put_round_lem : (ptr : ℕ) → (r : PutRound) × (put_round pl ptr ≡ some r) × IsPut pl ptr r
  put_round_lem ptr = elim (Bool-cases closed) [
    | inl shut ↦ (refused, (unfold put_round in rw shut), shut)
    | inr is_open ↦ IsPut-open ptr is_open
  ]

  -- Every pass of `get_pipeline` on a well-formed pipeline ends in one of the three ways that
  -- `IsGet` describes, and stays inside the buffer.
  pub get_round_lem : (r : GetRound) × (get_round pl ≡ some r) × IsGet pl r
  get_round_lem = elim (Bool-cases closed) [
    | inl shut ↦ (ended, (unfold get_round in rw shut), shut)
    | inr is_open ↦ elim (Bool-cases (ltb 0 count)) [
      | inl some_left ↦
          let lt : 0 < count = ltb→lt 0 count some_left in
          (
            got (get_or buf (head % size) 0) (count == size) (advance pl (set buf head 0)),
            (unfold get_round in rw (is_open, some_left, head_slot pl v, store_head)),
            (
              is_open,
              advance-IsValid pl v (set buf head 0) (length-set buf head 0) lt,
              (refl, refl, refl),
              contents-advance pl v lt
                  ∙ ap (λ l. get_or buf (head % size) 0 ∷ l) (sym (contents-clear pl v lt)),
              refl,
            ),
          )
      | inr empty ↦
          let none_left : count ≡ 0 = ground arith in
          (GetRound.waits, (unfold get_round in rw (is_open, empty)), (is_open, rw none_left refl))
    ]
  ]

  -- A pass of the loop of `close_pipeline` takes the oldest pointer, if there is one.
  pub drain_round_lem :
      0 < count
      → (out : ℕ) × (after : Pipeline) × (drain_round pl ≡ some (to (out, after)))
        × IsValid after
        × (after.count + 1 ≡ count)
        × (contents pl ≡ out ∷ contents after)
  drain_round_lem some_left = (
    get_or buf (head % size) 0,
    advance pl buf,
    (unfold drain_round in ground (arith, head_slot pl v)),
    advance-IsValid pl v buf refl some_left,
    omega arith,
    contents-advance pl v some_left,
  )
