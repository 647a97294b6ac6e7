-- ===== src/Bufio/Fill.antt =====
-- What the functions that read deliver: the bytes of the device, each once and in order.
use libcpr.Base.{
  ℕ, ◌+◌, ◌-◌, ◌^◌, ◌≤◌, ◌≡◌, refl, ap, ◌∙◌, inl, inr, Bool, true, false, some, List, [], ◌∷◌, ◌++◌,
  append-nil, arith, length, take, drop, length-append, length-take, length-drop, ltb, leb, ◌==◌,
  if◌then◌else◌, Bool-cases, leb→le, Ptr, null, to, u64, window-write,
}
use libcpr.Bufio.{Bufio, Read, remains, filled, read_more, cpr_fillbuf}
use libcpr.Bufio.Valid.{
  IsValid, pending, bytes_of, IsRead, Arrives, untouched, one_read, sub_u64, compact_lem,
  terminated,
}

-- How `r` has become `after` when `arrived` has been read: nothing else changes in what is pending,
-- and where `ok` is true outside of the refill mode there are at least `want` bytes.
pub record IsFilled (r : Bufio) (want : ℕ) (refill : Bool) (arrived : List ℕ) (ok : Bool)
    (after : Bufio) : Type 0 where
  pub valid : IsValid after
  pub same_size : after.bufsize ≡ r.bufsize
  pub held : pending after ≡ pending r ++ arrived
  pub enough : ok ≡ true → refill ≡ false → want ≤ after.end - after.start

-- The bytes that a read has left behind the others.
module _ (r : Bufio) (got : List ℕ) (v : IsValid r) (h : length got ≤ r.bufsize - r.end) where
  abbrev written : Bufio
  written = record r {
    buf = take r.end r.buf ++ (got ++ drop (r.end + length got) r.buf);
    end = r.end + length got;
  }

  written-IsValid : IsValid written
  written-IsValid = record {
    room = omega (
      arith,
      length-append (take r.end r.buf) (got ++ drop (r.end + length got) r.buf),
      length-append got (drop (r.end + length got) r.buf),
      length-take r.end r.buf,
      length-drop (r.end + length got) r.buf,
      v.room,
      v.end_in,
    );
    start_in = omega (arith, v.start_in);
    end_in = omega (arith, v.end_in);
    some_size = v.some_size;
    small = v.small;
  }

  written_pending : pending written ≡ pending r ++ got
  written_pending =
      let more : r.end + length got - r.start ≡ (r.end - r.start) + length got =
        omega (arith, v.start_in) in
      rw more (
        window-write r.buf got (drop (r.end + length got) r.buf) r.start (r.end - r.start) r.end
          (omega (arith, v.start_in)) (omega (arith, v.room, v.end_in)))

filled_lem :
    (r : Bufio) (want : ℕ) (refill : Bool) (got : Ptr (List ℕ))
    → IsValid r
    → length (bytes_of got) ≤ r.bufsize - r.end
    → (ok : Bool) × (after : Bufio) × (filled r want refill got ≡ some (ok, after))
      × IsFilled r want refill (bytes_of got) ok after
unfolding filled
filled_lem r want refill null v h =
    let (buf, e, valid, same) = terminated r v in
    (
      refill,
      record r { buf = buf },
      rw e refl,
      record {
        valid = valid;
        same_size = refl;
        held = rw append-nil same;
        enough = λ p q. absurd (ground arith);
      },
    )
filled_lem r want refill (to []) v h =
    let (buf, e, valid, same) = terminated r v in
    (
      false,
      record r { buf = buf },
      rw e refl,
      record {
        valid = valid;
        same_size = refl;
        held = rw append-nil same;
        enough = λ p q. absurd (ground arith);
      },
    )
filled_lem r want refill (to (b ∷ bytes)) v h =
    let got = b ∷ bytes in
    let end = r.end + length got in
    let fits : leb end (length r.buf) ≡ true = ground (arith, v.room, v.end_in) in
    let written = take r.end r.buf ++ (got ++ drop end r.buf) in
    let (buf, e, valid, same) =
      terminated (record r { buf = written; end = end }) (written-IsValid r got v h) in
    (
      leb want (u64 (end + 2 ^ 64 - r.start)),
      record r { buf = buf; end = end },
      rw (fits, e) refl,
      record {
        valid = valid;
        same_size = refl;
        held = same ∙ written_pending r got v h;
        enough = λ p q.
            (let sum : u64 (end + 2 ^ 64 - r.start) ≡ end - r.start =
                sub_u64 end r.start (omega (arith, v.start_in))
                  (omega (arith, v.end_in, v.small)) in
              leb→le want (end - r.start) (rw sum at p));
      },
    )

-- What a request of 0 asks for.
abbrev pub wanted : Bufio → ℕ → ℕ
wanted r request = if request == 0 then r.bufsize else request

IsFilled-kept :
    (r : Bufio) (want : ℕ) (refill : Bool) (buf : List ℕ) (ok : Bool)
    → IsValid (record r { buf = buf })
    → pending (record r { buf = buf }) ≡ pending r
    → (ok ≡ true → want ≤ r.end - r.start)
    → IsFilled r want refill [] ok (record r { buf = buf })
IsFilled-kept r want refill buf ok v same enough = record {
  valid = v;
  same_size = refl;
  held = rw append-nil same;
  enough = λ p q. enough p;
}

module _ {Dev : Type 0} (read : Read Dev) (bounded : IsRead read) where
  read_more_lem :
      (r : Bufio) (dev : Dev) (want : ℕ) (refill : Bool)
      → IsValid r
      → (arrived : List ℕ) × (ok : Bool) × (after : Bufio) × (dev' : Dev) × (read_more read r dev
            want refill
          ≡ some (ok, after, dev'))
        × Arrives read dev arrived dev'
        × IsFilled r want refill arrived ok after
  unfolding read_more
  read_more_lem r dev want refill v =
      let (moved, e, vm, same, size, left) = compact_lem r want v in
      let n = u64 (moved.bufsize + 2 ^ 64 - moved.end) in
      let room : n ≡ moved.bufsize - moved.end =
        sub_u64 moved.bufsize moved.end vm.end_in vm.small in
      let fits : length (bytes_of (read dev n).0) ≤ moved.bufsize - moved.end =
        omega (arith, bounded dev n, room) in
      let (ok, after, e', done) = filled_lem moved want refill (read dev n).0 vm fits in
      (
        bytes_of (read dev n).0,
        ok,
        after,
        (read dev n).1,
        rw (e, e') refl,
        one_read n,
        record {
          valid = done.valid;
          same_size = done.same_size ∙ size;
          held = done.held ∙ ap (λ l. l ++ bytes_of (read dev n).0) same;
          enough = done.enough;
        },
      )

  -- `cpr_fillbuf` on a valid buffer makes at most one call of `read`, appends the bytes that it
  -- gives to those that are pending, and keeps the buffer valid; where it returns true for a request
  -- that is not 0, as many bytes are pending.
  pub cpr_fillbuf_lem :
      (r : Bufio) (dev : Dev) (request : ℕ)
      → IsValid r
      → (arrived : List ℕ) × (ok : Bool) × (after : Bufio) × (dev' : Dev) × (cpr_fillbuf read r dev
            request
          ≡ some (ok, after, dev'))
        × Arrives read dev arrived dev'
        × IsFilled r (wanted r request) (request == 0) arrived ok after
  unfolding cpr_fillbuf
  cpr_fillbuf_lem r dev request v = elim (Bool-cases (ltb r.bufsize request)) [
    | inl over ↦ (
      [],
      false,
      r,
      dev,
      rw over refl,
      untouched,
      IsFilled-kept r (wanted r request) (request == 0) r.buf false v refl
          (λ p. absurd (ground arith)),
    )
    | inr within ↦ elim (Bool-cases (ltb (remains r) (wanted r request))) [
      | inl short ↦
          let (arrived, ok, after, dev', e, a, f) =
            read_more_lem r dev (wanted r request) (request == 0) v in
          (arrived, ok, after, dev', rw (within, short) e, a, f)
      | inr enough ↦
          let (buf, e, valid, same) = terminated r v in
          (
            [],
            true,
            record r { buf = buf },
            dev,
            rw (within, enough, e) refl,
            untouched,
            IsFilled-kept r (wanted r request) (request == 0) buf true valid same (λ p.
                (let left : remains r ≡ r.end - r.start =
                    sub_u64 r.end r.start v.start_in (omega (arith, v.end_in, v.small)) in
                  ground arith)),
          )
    ]
  ]
