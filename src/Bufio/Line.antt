-- ===== src/Bufio/Line.antt =====
-- `cpr_lgetbuf`: the line that it delivers, and a buffer on which it never ends.
use libcpr.Base.{
  ℕ, zero, suc, ◌+◌, ◌-◌, ◌≤◌, ◌≡◌, refl, sym, ap, ◌∙◌, Bool, true, false, none, some, List, ◌++◌,
  arith, length, take, set, length-set, ltb, lt→ltb, Ptr, null, to, window, window-set,
  window_split,
}
use libcpr.Memio.{find_delim}
use libcpr.Memio.Lines.{IsDelim, IsFree, IsFound, absent, first, find_delim_lem}
use libcpr.Strchar.{cpr_strlen}
use libcpr.Bufio.{Bufio, Read, remains, cpr_fillbuf, take_line, scan_end, lget_loop, cpr_lgetbuf}
use libcpr.Bufio.Valid.{IsValid, pending}

-- There is a delimiter of `n` characters at `k` among the pending bytes.
pub record Stands (r : Bufio) (delim : List ℕ) (n k : ℕ) : Type 0 where
  pub from_start : r.start ≤ k
  pub inside : k + n ≤ r.end
  pub at : IsDelim r.buf delim n k

-- What is delivered of the pending bytes: those before the first delimiter, which stand in the buffer
-- after the call; those behind it stay.
pub record IsLine (r : Bufio) (delim : List ℕ) (n at len : ℕ) (after : Bufio) : Type 0 where
  pub valid : IsValid after
  pub starts : at ≡ r.start
  pub split : pending r ≡ window after.buf at len ++ (take n delim ++ pending after)
  pub is_first : IsFree r.buf delim n r.end r.start (at + len)

found-IsLine :
    (r : Bufio) (delim : List ℕ) (n k : ℕ)
    → IsValid r
    → Stands r delim n k
    → IsFree r.buf delim n r.end r.start k
    → IsLine r delim n r.start (k - r.start) (record r { start = k + n })
found-IsLine r delim n k v s free = record {
  valid = record {
    room = v.room;
    start_in = s.inside;
    end_in = v.end_in;
    some_size = v.some_size;
    small = v.small;
  };
  starts = refl;
  split =
      window_split r.buf r.start (k - r.start) (r.end - k) (r.end - r.start) k
        (omega (arith, s.from_start, s.inside)) (omega (arith, s.from_start))
      ∙ ap (λ l. window r.buf r.start (k - r.start) ++ l)
          (window_split r.buf k n (r.end - (k + n)) (r.end - k) (k + n) (omega (arith, s.inside))
              refl
            ∙ ap (λ l. l ++ window r.buf (k + n) (r.end - (k + n))) s.at);
  is_first = let place : r.start + (k - r.start) ≡ k = omega (arith, s.from_start) in rw place free;
}

module _ {Dev : Type 0} (read : Read Dev) (delim : List ℕ) (n : ℕ) where
  IsLine-found :
      (fuel k : ℕ) (r : Bufio) (dev : Dev) {found : Ptr ℕ}
      → IsValid r
      → Stands r delim n k
      → find_delim (r.end + 2) r.buf delim n r.end r.start ≡ some found
      → IsFound r.buf delim n r.end r.start found
      → (at len : ℕ) × (after : Bufio) × (lget_loop read (suc fuel) r dev true delim n r.start
          ≡ some (to (at, len), after, dev))
        × IsLine r delim n at len after
  unfolding lget_loop take_line
  IsLine-found fuel k r dev v s e (absent free) = absurd (free k s.from_start s.inside s.at)
  IsLine-found fuel k r dev v s e (first j lo hi here free) = (
    r.start,
    j - r.start,
    record r { start = j + n },
    rw e refl,
    found-IsLine r delim n j v (record { from_start = lo; inside = hi; at = here }) free,
  )

  -- With a pointer for the length, `cpr_lgetbuf` on a valid buffer with the delimiter among the
  -- pending bytes delivers those before the first one, which stand where its result points in the
  -- buffer that it leaves, and keeps those behind it, without a call of `read`.
  pub cpr_lgetbuf_lem :
      (fuel k : ℕ) (r : Bufio) (dev : Dev)
      → IsValid r
      → cpr_strlen (to delim) 16 ≡ some n
      → n ≤ length delim
      → Stands r delim n k
      → (at len : ℕ) × (after : Bufio) × (cpr_lgetbuf read (suc fuel) r dev true (to delim)
          ≡ some (to (at, len), after, dev))
        × IsLine r delim n at len after
  unfolding cpr_lgetbuf
  cpr_lgetbuf_lem fuel k r dev v len hd s =
      let (found, e, is_found) =
        find_delim_lem (r.end + 2) r.buf delim n r.end r.start (omega (arith, v.room, v.end_in)) hd
          (omega (arith, v.start_in)) (omega arith) in
      rw len (IsLine-found fuel k r dev v s e is_found)

-- The buffer is full, and no delimiter is in it from `scan` on.
pub record IsClogged (r : Bufio) (delim : List ℕ) (n scan : ℕ) : Type 0 where
  pub valid : IsValid r
  pub at_start : r.start ≡ 0
  pub full : r.end ≡ r.bufsize
  pub scan_in : scan ≤ r.end + 1
  pub free : (j : ℕ) → scan ≤ j → j + n ≤ r.end → ¬ IsDelim r.buf delim n j

refill : Bufio → Bufio
refill r = record r { buf = set r.buf r.end 0 }

refill-IsClogged :
    (r : Bufio) (delim : List ℕ) (n scan : ℕ)
    → IsClogged r delim n scan
    → IsClogged (refill r) delim n (scan_end r n scan)
unfolding refill
refill-IsClogged r delim n scan c = record {
  valid = record {
    room = omega (arith, length-set r.buf r.end (let z : ℕ = 0 in z), c.valid.room);
    start_in = c.valid.start_in;
    end_in = c.valid.end_in;
    some_size = c.valid.some_size;
    small = c.valid.small;
  };
  at_start = c.at_start;
  full = c.full;
  scan_in = ground (arith, c.scan_in);
  free = λ j lo inside here.
      c.free j (ground arith) inside (sym (window-set r.buf j n r.end 0 inside) ∙ here);
}

module _ {Dev : Type 0} (read : Read Dev) (delim : List ℕ) (n : ℕ) (hd : n ≤ length delim) where
  refill_lem :
      (r : Bufio) (dev : Dev) (scan : ℕ)
      → IsClogged r delim n scan
      → cpr_fillbuf read r dev 0 ≡ some (true, refill r, dev)
  unfolding cpr_fillbuf refill
  refill_lem r dev scan c =
      let within : ltb r.bufsize 0 ≡ false = ground arith in
      let left : remains r ≡ r.end = grind (arith, c.at_start, c.full, c.valid.small) in
      let enough : ltb r.end r.bufsize ≡ false = ground (arith, c.full) in
      let inside : ltb r.end (length r.buf) ≡ true =
        lt→ltb r.end (length r.buf) (omega (arith, c.valid.room, c.full)) in
      rw (within, left, enough, inside) refl

  not_found :
      {r : Bufio} {scan : ℕ} {found : Ptr ℕ}
      → IsFound r.buf delim n r.end scan found
      → IsClogged r delim n scan
      → found ≡ null
  not_found (absent _) c = refl
  not_found (first k lo hi here _) c = absurd (c.free k lo hi here)

  lget_loop_pass :
      (fuel : ℕ) (r : Bufio) (dev : Dev) (outlen : Bool) (scan : ℕ)
      → IsClogged r delim n scan
      → lget_loop read (suc fuel) r dev outlen delim n scan
        ≡ lget_loop read fuel (refill r) dev outlen delim n (scan_end r n scan)
  unfolding lget_loop
  lget_loop_pass fuel r dev outlen scan c =
      let (found, e, is_found) =
        find_delim_lem (r.end + 2) r.buf delim n r.end scan (omega (arith, c.valid.room, c.full)) hd
          c.scan_in (omega arith) in
      rw (e, not_found is_found c, refill_lem r dev scan c) refl

  lget_loop_clogged :
      (fuel : ℕ) (r : Bufio) (dev : Dev) (outlen : Bool) (scan : ℕ)
      → IsClogged r delim n scan
      → lget_loop read fuel r dev outlen delim n scan ≡ none
  unfolding lget_loop
  lget_loop_clogged zero r dev outlen scan c = refl
  lget_loop_clogged (suc fuel) r dev outlen scan c =
      lget_loop_pass fuel r dev outlen scan c
      ∙ lget_loop_clogged fuel (refill r) dev outlen (scan_end r n scan)
          (refill-IsClogged r delim n scan c)

  -- `cpr_lgetbuf` never ends on a full buffer without the delimiter: a pass of its loop only leads to
  -- another one, with the device as it was and the buffer full and without the delimiter still, and
  -- no number of passes gives a result.
  pub cpr_lgetbuf_spins :
      (fuel : ℕ) (r : Bufio) (dev : Dev) (outlen : Bool)
      → cpr_strlen (to delim) 16 ≡ some n
      → IsClogged r delim n r.start
      → (cpr_lgetbuf read fuel r dev outlen (to delim) ≡ none)
        × ((after : Bufio) × (scan : ℕ) × (cpr_lgetbuf read (suc fuel) r dev outlen (to delim)
              ≡ lget_loop read fuel after dev outlen delim n scan)
            × IsClogged after delim n scan)
  unfolding cpr_lgetbuf
  cpr_lgetbuf_spins fuel r dev outlen len c = (
    rw len (lget_loop_clogged fuel r dev outlen r.start c),
    (
      refill r,
      scan_end r n r.start,
      rw len (lget_loop_pass fuel r dev outlen r.start c),
      refill-IsClogged r delim n r.start c,
    ),
  )
