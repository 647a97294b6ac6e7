-- ===== src/Bufio/Get.antt =====
-- What `cpr_xgetbuf` delivers: the bytes of the device, each once and in order; and a buffer that
-- delivers nothing more.
use libcpr.Base.{
  ℕ, ◌+◌, ◌-◌, ◌^◌, ◌≤◌, ◌<◌, ◌≡◌, refl, sym, ◌∙◌, inl, inr, true, false, some, List, [], ◌++◌,
  append-nil, arith, length, set, length-set, ltb, ◌==◌, ◌&&◌, Bool-cases, lt→ltb, Ptr, null, to,
  u64, window, length-window, window_split,
}
use libcpr.Bufio.{Bufio, Read, remains, compact, filled, read_more, cpr_fillbuf, cpr_xgetbuf}
use libcpr.Bufio.Valid.{IsValid, pending, IsRead, Arrives, untouched}
use libcpr.Bufio.Fill.{wanted, cpr_fillbuf_lem}

-- What `cpr_xgetbuf` comes to.
pub data IsDelivery (r : Bufio) (request : ℕ) (arrived : List ℕ) : Ptr ℕ → Bufio → Type 0 where
  delivery :
      {at : ℕ} {after : Bufio}
      → length (window after.buf at request) ≡ request
      → pending r ++ arrived ≡ window after.buf at request ++ pending after
      → IsDelivery r request arrived (to at) after
  nothing :
      {after : Bufio}
      → pending r ++ arrived ≡ pending after
      → IsDelivery r request arrived null after

module _ {Dev : Type 0} (read : Read Dev) (bounded : IsRead read) where
  -- `cpr_xgetbuf` of a positive request on a valid buffer delivers the bytes of the device once and
  -- in order: what was pending and what arrives, with at most one call of `read`, are the bytes that
  -- it points to, as many as requested, and what is then pending; or it returns NULL and all of them
  -- are pending. The buffer stays valid.
  pub cpr_xgetbuf_lem :
      (r : Bufio) (dev : Dev) (request : ℕ)
      → IsValid r
      → 0 < request
      → (arrived : List ℕ) × (at : Ptr ℕ) × (after : Bufio) × (dev' : Dev) × (cpr_xgetbuf read r dev
            request
          ≡ some (at, after, dev'))
        × Arrives read dev arrived dev'
        × IsDelivery r request arrived at after
        × IsValid after
  unfolding cpr_xgetbuf
  cpr_xgetbuf_lem r dev request v h = elim (Bool-cases (ltb r.bufsize request)) [
    | inl over ↦ ([], null, r, dev, rw over refl, untouched, nothing (append-nil (pending r)), v)
    | inr within ↦
        let (arrived, ok, after, dev', e, a, f) = cpr_fillbuf_lem read bounded r dev request v in
        elim (Bool-cases ok) [
          | inl good ↦
              let want : wanted r request ≡ request = ground arith in
              let some_request : (request == 0) ≡ false = ground arith in
              let enough : request ≤ after.end - after.start =
                omega (arith, f.enough good some_request, want) in
              (
                arrived,
                to after.start,
                record after { start = after.start + request },
                dev',
                rw (within, e, good) refl,
                a,
                delivery
                    (length-window after.buf after.start request
                      (omega (arith, f.valid.room, f.valid.start_in, f.valid.end_in, enough)))
                    (sym f.held
                      ∙ window_split after.buf after.start request
                          (after.end - (after.start + request)) (after.end - after.start)
                          (after.start + request) (omega arith) refl),
                record {
                  room = f.valid.room;
                  start_in = omega (arith, enough, f.valid.start_in);
                  end_in = f.valid.end_in;
                  some_size = f.valid.some_size;
                  small = f.valid.small;
                },
              )
          | inr bad ↦ (
            arrived,
            null,
            after,
            dev',
            rw (within, e, bad) refl,
            a,
            nothing (sym f.held),
            f.valid,
          )
        ]
  ]

-- The buffer is filled to its end, and all of it has been delivered.
pub record IsDrained (r : Bufio) : Type 0 where
  pub valid : IsValid r
  pub at_end : r.end ≡ r.bufsize
  pub empty : r.start ≡ r.end

module _ {Dev : Type 0} (read : Read Dev) (zero_read : (dev : Dev) → read dev 0 ≡ (to [], dev))
    (r : Bufio) (s : IsDrained r) where
  abbrev refused : Bufio
  refused = record r { buf = set r.buf r.end 0 }

  refused-IsDrained : IsDrained refused
  refused-IsDrained = record {
    valid = record {
      room = omega (arith, length-set r.buf r.end (let z : ℕ = 0 in z), s.valid.room);
      start_in = s.valid.start_in;
      end_in = s.valid.end_in;
      some_size = s.valid.some_size;
      small = s.valid.small;
    };
    at_end = s.at_end;
    empty = s.empty;
  }

  read_more_drained :
      (dev : Dev) (want : ℕ) → read_more read r dev want false ≡ some (false, refused, dev)
  unfolding read_more compact filled
  read_more_drained dev want =
      let stays : (ltb (u64 (r.bufsize + 2 ^ 64 - r.start)) want && ltb r.start r.end) ≡ false =
        ground (arith, s.empty) in
      let none_asked : u64 (r.bufsize + 2 ^ 64 - r.end) ≡ 0 = omega (arith, s.at_end) in
      let inside : ltb r.end (length r.buf) ≡ true =
        lt→ltb r.end (length r.buf) (omega (arith, s.valid.room, s.at_end)) in
      rw (stays, none_asked, zero_read dev, inside) refl

  -- Once all of a buffer that was filled to its end has been delivered, every request is refused,
  -- whatever the device still holds, and the buffer stays drained: `read` is asked for 0 bytes,
  -- gives none, and that is taken for the end of the input.
  pub cpr_xgetbuf-IsDrained :
      (dev : Dev) (request : ℕ)
      → 0 < request
      → (after : Bufio) × (cpr_xgetbuf read r dev request ≡ some (null, after, dev))
        × IsDrained after
  unfolding cpr_xgetbuf cpr_fillbuf
  cpr_xgetbuf-IsDrained dev request h = elim (Bool-cases (ltb r.bufsize request)) [
    | inl over ↦ (r, rw over refl, s)
    | inr within ↦
        let some_request : (request == 0) ≡ false = ground arith in
        let short : ltb (remains r) request ≡ true = ground (arith, s.empty) in
        (
          refused,
          rw (within, some_request, short, read_more_drained dev request) refl,
          refused-IsDrained,
        )
  ]
