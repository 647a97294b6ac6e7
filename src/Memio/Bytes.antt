-- ===== src/Memio/Bytes.antt =====
-- What the stream holds after bytes are put to it, and what is read from it.
use libcpr.Base.{
  ℕ, ◌+◌, ◌-◌, ◌^◌, ◌≤◌, ◌<◌, ◌≡◌, refl, inl, inr, true, false, some, List, ◌++◌, append_assoc,
  arith, length, take, drop, length-append, length-take, length-drop, take_append, ltb, leb,
  if◌then◌else◌, Bool-cases, leb→le, to, u64,
}
use libcpr.Memory.Fill.{cpr_memcpy_lem}
use libcpr.Memio.{Memio, cpr_xputmem, put_copied}

-- The offsets are inside the memory of the stream.
pub record IsValid (mem : Memio) : Type 0 where
  pub fits : mem.size ≤ length mem.bytes
  pub get_in : mem.get ≤ mem.size
  pub put_in : mem.put ≤ mem.size
  pub small : mem.size < 2 ^ 64

-- The bytes that have been put since the start.
abbrev pub written : Memio → List ℕ
written mem = take mem.put mem.bytes

-- A put of `size` bytes to a valid stream appends them to what has been written if there is room,
-- and then returns true; otherwise it returns false and changes nothing. It stays inside the memory
-- of the stream.
pub cpr_xputmem_lem :
    (mem : Memio) (from : List ℕ) (size : ℕ)
    → IsValid mem
    → size ≤ length from
    → (after : Memio) × (cpr_xputmem (to mem) (to from) size
        ≡ some (leb (mem.put + size) mem.size, to after))
      × IsValid after
      × (after.get ≡ mem.get)
      × (written after
          ≡ (if leb (mem.put + size) mem.size then written mem ++ take size from else written mem))
unfolding cpr_xputmem put_copied
cpr_xputmem_lem mem from size v h =
    let room : u64 (mem.size + 2 ^ 64 - mem.put) ≡ mem.size - mem.put =
      grind (arith, v.put_in, v.small) in
    let end = drop size (drop mem.put mem.bytes) in
    let start_length : length (take mem.put mem.bytes) ≡ mem.put =
      omega (arith, length-take mem.put mem.bytes, v.put_in, v.fits) in
    let end_length : length end ≡ length mem.bytes - mem.put - size =
      omega (arith, length-drop size (drop mem.put mem.bytes), length-drop mem.put mem.bytes) in
    let added : length (take size from) ≡ size = omega (arith, length-take size from) in
    let both : length (written mem ++ take size from) ≡ mem.put + size =
      omega (arith, length-append (written mem) (take size from)) in
    elim (Bool-cases (leb (mem.put + size) mem.size)) [
      | inl fits ↦
          let enough : ltb (mem.size - mem.put) size ≡ false = ground arith in
          (
            record mem {
              bytes =
                  take mem.put mem.bytes ++ (take size from ++ drop size (drop mem.put mem.bytes));
              put = mem.put + size;
            },
            rw
                (
                  room,
                  enough,
                  cpr_memcpy_lem (drop mem.put mem.bytes) from (mem.size - mem.put) size
                      (omega (arith, length-drop mem.put mem.bytes, v.fits, v.put_in)) h,
                  enough,
                  fits,
                )
                refl,
            record {
              fits = ground (
                arith,
                length-append (written mem) (take size from ++ end),
                length-append (take size from) end,
                v.fits,
              );
              get_in = v.get_in;
              put_in = leb→le _ _ fits;
              small = v.small;
            },
            refl,
            rw (fits, ← append_assoc (written mem) (take size from) end, ← both)
                (take_append (written mem ++ take size from) end),
          )
      | inr full ↦
          let short : ltb (mem.size - mem.put) size ≡ true = ground arith in
          (mem, rw (room, short, full) refl, v, refl, rw full refl)
    ]
