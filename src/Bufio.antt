-- ===== src/Bufio.antt =====
-- src/bufio.h and src/bufio.c: a file descriptor with a buffer for each direction, on systems other
-- than Windows. `buf` is the memory up to the output buffer, of `bufsize` bytes and 2 more, and `out`
-- the output buffer. A NULL buffer makes each function return false or NULL, and is left out. The
-- descriptor's device is a parameter: `read` and `write` take its state and give the next one.
mod Valid
mod Fill
mod Get
mod Line
mod Writer
mod Tests
use libcpr.Base.{
  ℕ, zero, suc, ◌+◌, ◌-◌, ◌^◌, Bool, true, false, not, Option, none, some, List, [], ◌∷◌, length,
  ltb, leb, ◌==◌, ◌&&◌, ◌||◌, if◌then◌else◌, Ptr, null, to, u64, store, load, memmove, store_bytes,
  ℤ, pos, ltb_ℤ, ◌>>=◌,
}
use libcpr.Memory.{cpr_memcpy}
use libcpr.Memio.{find_delim}
use libcpr.Strchar.{cpr_strlen}

-- `bufio_t`.
pub record Bufio : Type 0 where
  pub bufsize : ℕ
  pub start : ℕ
  pub end : ℕ
  pub put : ℕ
  pub buf : List ℕ
  pub out : List ℕ

-- `read` of at most so many bytes: -1 is `null`, the end of the input is no byte.
abbrev pub Read : Type 0 → Type 0
Read Dev = Dev → ℕ → Ptr (List ℕ) × Dev

-- `write`: -1 is `null`, else how many bytes the device took.
abbrev pub Write : Type 0 → Type 0
Write Dev = Dev → List ℕ → Ptr ℕ × Dev

-- What the terminal functions of the system answer for a descriptor.
pub record Terminal : Type 0 where
  pub isatty : Bool
  pub tcgetattr_ok : Bool
  pub tcsetattr_ok : Bool

-- `cpr_makebuf`; `memory` is what `malloc` gives, read as a `bufio_t`: what is not set keeps what
-- was there.
pub cpr_makebuf : Terminal → Ptr Bufio → ℤ → ℕ → Ptr Bufio
cpr_makebuf term memory fd bufsize = elim memory [
  | null ↦ null
  | to r ↦
      if ltb_ℤ fd (pos 0) || bufsize == 0
      then null
      else if term.isatty && not (term.tcgetattr_ok && term.tcsetattr_ok)
      then null
      else to (record r { bufsize = bufsize; start = 0; end = 0 })
]

-- `end - start`, as a `size_t`.
abbrev pub remains : Bufio → ℕ
remains r = u64 (r.end + 2 ^ 64 - r.start)

-- The move to the start of the buffer in `cpr_fillbuf`.
pub compact : Bufio → ℕ → Option Bufio
compact r want =
    if ltb (u64 (r.bufsize + 2 ^ 64 - r.start)) want && ltb r.start r.end
    then (do
      buf ← memmove r.buf r.start (r.end - r.start)
      some (record r { buf = buf; start = 0; end = r.end - r.start }))
    else some r

-- What `cpr_fillbuf` does with the result of `read`.
filled : Bufio → ℕ → Bool → Ptr (List ℕ) → Option (Bool × Bufio)
filled r want refill null = do buf ← store r.buf r.end 0; some (refill, record r { buf = buf })
filled r want refill (to []) = do buf ← store r.buf r.end 0; some (false, record r { buf = buf })
filled r want refill (to (b ∷ bytes)) = do
  buf ← store_bytes r.buf r.end (b ∷ bytes)
  let end = r.end + length (b ∷ bytes)
  buf ← store buf end 0
  some (leb want (u64 (end + 2 ^ 64 - r.start)), record r { buf = buf; end = end })

module _ {Dev : Type 0} (read : Read Dev) where
  read_more : Bufio → Dev → ℕ → Bool → Option (Bool × Bufio × Dev)
  unfolding compact filled
  read_more r dev want refill = do
    r ← compact r want
    let got = read dev (u64 (r.bufsize + 2 ^ 64 - r.end))
    done ← filled r want refill got.0
    some (done.0, done.1, got.1)

  -- `cpr_fillbuf`. A request of 0 is one of a full buffer, with what there is.
  unfoldable pub cpr_fillbuf : Bufio → Dev → ℕ → Option (Bool × Bufio × Dev)
  unfolding read_more
  cpr_fillbuf r dev request =
      let want = if request == 0 then r.bufsize else request in
      if ltb r.bufsize request
      then some (false, r, dev)
      else if ltb (remains r) want
      then read_more r dev want (request == 0)
      else (do buf ← store r.buf r.end 0; some (true, record r { buf = buf }, dev))

  -- `cpr_xgetbuf`: the offset of the bytes in the buffer, or NULL.
  pub cpr_xgetbuf : Bufio → Dev → ℕ → Option (Ptr ℕ × Bufio × Dev)
  cpr_xgetbuf r dev request = if ltb r.bufsize request then some (null, r, dev) else (do
    (ok, r, dev) ← cpr_fillbuf r dev request
    some (if ok then (to r.start, record r { start = r.start + request }, dev) else (null, r, dev)))

  pub cpr_cgetbuf : Bufio → Dev → Option (ℕ × Bufio × Dev)
  cpr_cgetbuf r dev = do
    (at, r, dev) ← cpr_xgetbuf r dev 1
    elim at [ null ↦ some (0, r, dev) | to i ↦ (do c ← load r.buf i; some (c, r, dev)) ]

  pub cpr_resetbuf : Bufio → Dev → ℕ → Option (Bool × Bufio × Dev)
  cpr_resetbuf r dev consume =
      let start = r.start + consume in
      let left = r.end - start in
      let reset = (do
        buf ← if ltb 0 start && ltb 0 left then memmove r.buf start left else some r.buf
        let r = record r { buf = buf; start = 0; end = left }
        if ltb left r.bufsize then cpr_fillbuf r dev (r.bufsize - left) else some (true, r, dev)) in
      if ltb r.bufsize consume
      then some (false, r, dev)
      else if leb start r.end
      then reset
      else some (false, r, dev)

-- The inner loop of `cpr_lgetbuf` ends with `scan` here when it has found nothing.
abbrev pub scan_end : Bufio → ℕ → ℕ → ℕ
scan_end r n scan = if ltb r.end (scan + n) then scan else r.end - n + 1

-- What `cpr_lgetbuf` does with a delimiter of `n` characters at `i`: the offset of the line and its
-- length, which is part of the result with `outlen` and without.
take_line : Bufio → Bool → ℕ → ℕ → Option (Ptr (ℕ × ℕ) × Bufio)
take_line r outlen n i = do
  buf ← if not outlen && ltb i r.bufsize then store r.buf i 0 else some r.buf
  some (to (r.start, i - r.start), record r { buf = buf; start = i + n })

module _ {Dev : Type 0} (read : Read Dev) where
  -- The outer loop of `cpr_lgetbuf`. `none` if the fuel runs out.
  pub lget_loop : ℕ → Bufio → Dev → Bool → List ℕ → ℕ → ℕ → Option (Ptr (ℕ × ℕ) × Bufio × Dev)
  unfolding take_line
  lget_loop zero r dev outlen delim n scan = none
  lget_loop (suc fuel) r dev outlen delim n scan = do
    found ← find_delim (r.end + 2) r.buf delim n r.end scan
    elim found [
      | to i ↦ (do line ← take_line r outlen n i; some (line.0, line.1, dev))
      | null ↦ (do
        filled ← cpr_fillbuf read r dev 0
        elim filled.0 [
          | true ↦ lget_loop fuel filled.1 filled.2 outlen delim n (scan_end r n scan)
          | false ↦ some (null, filled.1, filled.2)
        ])
    ]

  pub cpr_lgetbuf : ℕ → Bufio → Dev → Bool → Ptr (List ℕ) → Option (Ptr (ℕ × ℕ) × Bufio × Dev)
  unfolding lget_loop
  cpr_lgetbuf fuel r dev outlen null = lget_loop fuel r dev outlen (b'\n' ∷ 0 ∷ []) 1 r.start
  cpr_lgetbuf fuel r dev outlen (to delim) = do
    n ← cpr_strlen (to delim) 16
    lget_loop fuel r dev outlen delim n r.start
