-- ===== src/Bufio/Writer/Put.antt =====
-- What the functions that write hand over: the bytes that are put, each once and in order, as long
-- as `write` does not fail.
use libcpr.Base.{
  ℕ, zero, suc, ◌<◌, ◌∷◌, ltb→lt, ◌+◌, ◌-◌, ◌^◌, ◌≤◌, ◌<◌, ◌≡◌, refl, sym, ap, ◌∙◌, inl, inr, Bool,
  true, false, some, List, [], ◌++◌, append_assoc, append-nil, arith, length, take, drop,
  length-append, length-take, length-drop, ltb, ltb→lt, leb, ◌==◌, if◌then◌else◌, Bool-cases, null,
  to, u64, window, length-window, take_all, window_split,
}
use libcpr.Memory.Fill.{cpr_memcpy_lem}
use libcpr.Bufio.{Bufio, Write}
use libcpr.Bufio.Writer.{flushed, put_copied, cpr_flushbuf, make_room, cpr_xputbuf}

-- The output buffer has its size, and `put` is inside.
pub record IsWritable (w : Bufio) : Type 0 where
  pub room : length w.out ≡ w.bufsize
  pub put_in : w.put ≤ w.bufsize
  pub small : w.bufsize < 2 ^ 62

-- The bytes that have been put and not yet written.
abbrev pub queued : Bufio → List ℕ
queued w = take w.put w.out

-- How `w` has become `after` when the device has taken `sent`, and `added` has been put.
pub record IsSent (w : Bufio) (sent added : List ℕ) (after : Bufio) : Type 0 where
  pub valid : IsWritable after
  pub same_size : after.bufsize ≡ w.bufsize
  pub fifo : sent ++ queued after ≡ queued w ++ added

flushed_lem :
    (w : Bufio) (n : ℕ)
    → IsWritable w
    → n ≤ w.put
    → (after : Bufio) × (flushed w (to n) ≡ some (leb w.put n, after))
      × IsSent w (take n w.out) [] after
      × (leb w.put n ≡ true → after.put ≡ 0)
unfolding flushed
flushed_lem w n v h = elim (Bool-cases (ltb n w.put)) [
  | inl part ↦
      let rest : ltb w.put n ≡ false = ground arith in
      let some_left : leb w.put n ≡ false = ground arith in
      let inside : leb (n + (w.put - n)) (length w.out) ≡ true = ground (arith, v.room, v.put_in) in
      let left = window w.out n (w.put - n) in
      let behind = drop (w.put - n) w.out in
      let kept : length left ≡ w.put - n =
        length-window w.out n (w.put - n) (omega (arith, v.room, v.put_in)) in
      (
        record w { put = w.put - n; out = left ++ behind },
        rw (part, inside, some_left) refl,
        record {
          valid = record {
            room = omega (
              arith,
              length-append left behind,
              length-drop (w.put - n) w.out,
              kept,
              v.room,
              v.put_in,
            );
            put_in = omega (arith, v.put_in);
            small = v.small;
          };
          same_size = refl;
          fifo =
              ap (λ l. take n w.out ++ l) (take_all (w.put - n) left behind (sym kept))
              ∙ sym (window_split w.out 0 n (w.put - n) w.put n (omega arith) (omega arith))
              ∙ sym (append-nil (queued w));
        },
        λ p. absurd (ground arith),
      )
  | inr all ↦
      let whole : n ≡ w.put = ground arith in
      let none_left : leb w.put n ≡ true = ground arith in
      (
        record w { put = 0 },
        rw (all, none_left) refl,
        record {
          valid = record { room = v.room; put_in = omega arith; small = v.small };
          same_size = refl;
          fifo = ap (λ k. take k w.out ++ []) whole;
        },
        λ p. refl,
      )
]

module _ (w : Bufio) (bytes : List ℕ) (request : ℕ) (v : IsWritable w) where
  put_copied_lem :
      request ≤ length bytes
      → request + w.put ≤ w.bufsize
      → (after : Bufio) × (put_copied w bytes request ≡ some (true, after))
        × IsSent w [] (take request bytes) after
  unfolding put_copied
  put_copied_lem h room =
      let size : u64 (w.bufsize + 2 ^ 64 - w.put) ≡ w.bufsize - w.put =
        grind (arith, v.put_in, v.small) in
      let fits : ltb (w.bufsize - w.put) request ≡ false = ground arith in
      let rest = drop request (drop w.put w.out) in
      let start_length : length (queued w) ≡ w.put =
        omega (arith, length-take w.put w.out, v.room, v.put_in) in
      let added : length (take request bytes) ≡ request =
        omega (arith, length-take request bytes) in
      let both : length (queued w ++ take request bytes) ≡ w.put + request =
        omega (arith, length-append (queued w) (take request bytes)) in
      (
        record w { put = w.put + request; out = queued w ++ (take request bytes ++ rest) },
        rw
            (
              size,
              cpr_memcpy_lem (drop w.put w.out) bytes (w.bufsize - w.put) request
                  (omega (arith, length-drop w.put w.out, v.room)) h,
              fits,
            )
            refl,
        record {
          valid = record {
            room = omega (
              arith,
              length-append (queued w) (take request bytes ++ rest),
              length-append (take request bytes) rest,
              length-drop request (drop w.put w.out),
              length-drop w.put w.out,
              v.room,
            );
            put_in = omega arith;
            small = v.small;
          };
          same_size = refl;
          fifo =
              rw (← append_assoc (queued w) (take request bytes) rest)
                (take_all (w.put + request) (queued w ++ take request bytes) rest (sym both));
        },
      )

IsSent-untouched : (w : Bufio) → IsWritable w → IsSent w [] [] w
IsSent-untouched w v = record { valid = v; same_size = refl; fifo = sym (append-nil (queued w)) }

-- A put behind a flush.
IsSent-both :
    (w middle after : Bufio) (sent added : List ℕ)
    → IsSent w sent [] middle
    → IsSent middle [] added after
    → IsSent w sent added after
IsSent-both w middle after sent added first second = record {
  valid = second.valid;
  same_size = second.same_size ∙ first.same_size;
  fifo =
      ap (λ l. sent ++ l) second.fifo
      ∙ sym (append_assoc sent (queued middle) added)
      ∙ ap (λ l. l ++ added) (first.fifo ∙ append-nil (queued w));
}

-- What the device, `dev'` then, has taken: nothing, without a call, where the bytes fit; and
-- otherwise the first `n` of the bytes that are queued, in one call of `write` with all of them.
pub data IsTaken {Dev : Type 0} (write : Write Dev) (w : Bufio) (dev : Dev) (n request : ℕ)
    (sent : List ℕ) (dev' : Dev) : Type 0 where
  not_called :
      request + w.put ≤ w.bufsize → sent ≡ [] → dev' ≡ dev → IsTaken write w dev n request sent dev'
  called :
      w.bufsize < request + w.put
      → sent ≡ take n (queued w)
      → dev' ≡ (write dev (queued w)).1
      → IsTaken write w dev n request sent dev'

take-take : (n m : ℕ) (xs : List ℕ) → n ≤ m → take n xs ≡ take n (take m xs)
take-take zero m xs h = refl
take-take (suc n) zero xs h = absurd (omega arith)
take-take (suc n) (suc m) [] h = refl
take-take (suc n) (suc m) (x ∷ xs) h = ap (λ l. x ∷ l) (take-take n m xs (omega arith))

module _ {Dev : Type 0} (write : Write Dev) (w : Bufio) (dev : Dev) (v : IsWritable w) where
  make_room_lem :
      (n request : ℕ)
      → request ≤ w.bufsize
      → (write dev (queued w)).0 ≡ to n
      → n ≤ w.put
      → (ok : Bool) × (sent : List ℕ) × (after : Bufio) × (dev' : Dev) × (make_room write w dev
            request
          ≡ some (ok, after, dev'))
        × IsSent w sent [] after
        × IsTaken write w dev n request sent dev'
        × (ok ≡ true → request + after.put ≤ w.bufsize)
  unfolding make_room cpr_flushbuf
  make_room_lem n request h e le = elim (Bool-cases (ltb w.bufsize (request + w.put))) [
    | inr fits ↦ (
      true,
      [],
      w,
      dev,
      rw fits refl,
      IsSent-untouched w v,
      not_called (ground arith) refl refl,
      λ p. ground arith,
    )
    | inl full ↦
        let some_put : (w.put == 0) ≡ false = ground arith in
        let (after, e', s, emptied) = flushed_lem w n v le in
        (
          leb w.put n,
          take n w.out,
          after,
          (write dev (queued w)).1,
          rw (full, some_put, e, e') refl,
          s,
          called (ltb→lt _ _ full) (take-take n w.put w.out le) refl,
          λ p. omega (arith, emptied p),
        )
  ]

  -- `cpr_xputbuf` of bytes that fit the buffer, where a call of `write` takes `n` of the bytes that
  -- are queued: what the device takes and what is then queued are, in order, what was queued and, if
  -- the result is true, the bytes that are put. The device takes nothing, and is not called, where
  -- there is room behind the queued bytes; otherwise `write` is called once with all that is queued,
  -- and takes its first `n` bytes. The buffer stays valid.
  pub cpr_xputbuf_lem :
      (bytes : List ℕ) (n request : ℕ)
      → request ≤ length bytes
      → request ≤ w.bufsize
      → (write dev (queued w)).0 ≡ to n
      → n ≤ w.put
      → (ok : Bool) × (sent : List ℕ) × (after : Bufio) × (dev' : Dev) × (cpr_xputbuf write w dev
            (to bytes)
            request
          ≡ some (ok, after, dev'))
        × IsSent w sent (if ok then take request bytes else []) after
        × IsTaken write w dev n request sent dev'
  unfolding cpr_xputbuf
  cpr_xputbuf_lem bytes n request h within e le =
      let (ok, sent, middle, dev', e', s, which, room) = make_room_lem n request within e le in
      let small_enough : ltb w.bufsize request ≡ false = ground arith in
      elim (Bool-cases ok) [
        | inr bad ↦ (false, sent, middle, dev', rw (small_enough, e', bad) refl, s, which)
        | inl good ↦
            let (after, e'', s') =
              put_copied_lem middle bytes request s.valid h
                (omega (arith, room good, s.same_size)) in
            (
              true,
              sent,
              after,
              dev',
              rw (small_enough, e', good, e'') refl,
              IsSent-both w middle after sent (take request bytes) s s',
              which,
            )
      ]

  -- Where `write` fails when `cpr_xputbuf` has to make room, the bytes that were queued are gone, and
  -- yet the result is true: only the new bytes are queued.
  pub cpr_xputbuf_lost :
      (bytes : List ℕ) (request : ℕ)
      → request ≤ length bytes
      → request ≤ w.bufsize
      → w.bufsize < request + w.put
      → (write dev (queued w)).0 ≡ null
      → (after : Bufio) × (cpr_xputbuf write w dev (to bytes) request
          ≡ some (true, after, (write dev (queued w)).1))
        × (queued after ≡ take request bytes)
  unfolding cpr_xputbuf make_room cpr_flushbuf flushed
  cpr_xputbuf_lost bytes request h within over e =
      let small_enough : ltb w.bufsize request ≡ false = ground arith in
      let full : ltb w.bufsize (request + w.put) ≡ true = ground arith in
      let some_put : (w.put == 0) ≡ false = ground arith in
      let cleared = record w { put = 0 } in
      let (after, e', s) =
        put_copied_lem cleared bytes request
          (record { room = v.room; put_in = omega arith; small = v.small }) h (omega arith) in
      (after, rw (small_enough, full, some_put, e, e') refl, s.fifo)
