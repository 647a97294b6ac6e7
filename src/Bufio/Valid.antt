-- ===== src/Bufio/Valid.antt =====
-- The buffer that reads fill: what is pending in it, and the steps that keep that as it is.
use libcpr.Base.{
  ℕ, ◌+◌, ◌-◌, ◌^◌, ◌≤◌, ◌<◌, ◌≡◌, refl, inl, inr, true, some, List, [], ◌++◌, arith, length, drop,
  set, length-set, length-append, length-drop, ltb, leb, ◌&&◌, Bool-cases, lt→ltb, Ptr, null, to,
  u64, store, window, length-window, window-set, take_all,
}
use libcpr.Bufio.{Bufio, Read, compact}

-- The offsets are in order inside the buffer.
pub record IsValid (r : Bufio) : Type 0 where
  pub room : length r.buf ≡ r.bufsize + 2
  pub start_in : r.start ≤ r.end
  pub end_in : r.end ≤ r.bufsize
  pub some_size : 0 < r.bufsize
  pub small : r.bufsize < 2 ^ 62

-- The bytes that have been read and not delivered.
abbrev pub pending : Bufio → List ℕ
pending r = window r.buf r.start (r.end - r.start)

abbrev pub bytes_of : Ptr (List ℕ) → List ℕ
bytes_of null = []
bytes_of (to bytes) = bytes

-- `read` gives no more bytes than it is asked for.
abbrev pub IsRead : {Dev : Type 0} → Read Dev → Type 0
IsRead {Dev} read = (dev : Dev) (n : ℕ) → length (bytes_of (read dev n).0) ≤ n

-- The bytes that arrive between two states of the device: none without a call, or those of one.
pub data Arrives {Dev : Type 0} (read : Read Dev) (dev : Dev) : List ℕ → Dev → Type 0 where
  untouched : Arrives read dev [] dev
  one_read : (n : ℕ) → Arrives read dev (bytes_of (read dev n).0) (read dev n).1

pub sub_u64 : (a b : ℕ) → b ≤ a → a < 2 ^ 62 → u64 (a + 2 ^ 64 - b) ≡ a - b
sub_u64 a b h small = grind arith

pub compact_lem :
    (r : Bufio) (want : ℕ)
    → IsValid r
    → (after : Bufio) × (compact r want ≡ some after)
      × IsValid after
      × (pending after ≡ pending r)
      × (after.bufsize ≡ r.bufsize)
      × (after.end - after.start ≡ r.end - r.start)
unfolding compact
compact_lem r want v =
    elim (Bool-cases (ltb (u64 (r.bufsize + 2 ^ 64 - r.start)) want && ltb r.start r.end)) [
      | inl moves ↦
          let inside : leb (r.start + (r.end - r.start)) (length r.buf) ≡ true =
            ground (arith, v.room, v.end_in, v.start_in) in
          let kept : length (pending r) ≡ r.end - r.start =
            length-window r.buf r.start (r.end - r.start)
              (omega (arith, v.room, v.end_in, v.start_in)) in
          let rest = drop (r.end - r.start) r.buf in
          (
            record r { buf = pending r ++ rest; start = 0; end = r.end - r.start },
            rw (moves, inside) refl,
            record {
              room = omega (
                arith,
                length-append (pending r) rest,
                length-drop (r.end - r.start) r.buf,
                kept,
                v.room,
                v.end_in,
              );
              start_in = omega arith;
              end_in = omega (arith, v.end_in);
              some_size = v.some_size;
              small = v.small;
            },
            take_all (r.end - r.start - 0) (pending r) rest (omega (arith, kept)),
            refl,
            omega arith,
          )
      | inr stays ↦ (r, rw stays refl, v, refl, refl, refl)
    ]

-- A terminator stored behind the bytes changes none of them.
pub terminated :
    (r : Bufio)
    → IsValid r
    → (buf : List ℕ) × (store r.buf r.end 0 ≡ some buf)
      × IsValid (record r { buf = buf })
      × (pending (record r { buf = buf }) ≡ pending r)
terminated r v = (
  set r.buf r.end 0,
  rw (lt→ltb r.end (length r.buf) (omega (arith, v.room, v.end_in))) refl,
  record {
    room = omega (arith, length-set r.buf r.end (let z : ℕ = 0 in z), v.room);
    start_in = v.start_in;
    end_in = v.end_in;
    some_size = v.some_size;
    small = v.small;
  },
  window-set r.buf r.start (r.end - r.start) r.end 0 (omega (arith, v.start_in)),
)
