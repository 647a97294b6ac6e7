-- ===== src/Bufio/Writer.antt =====
-- The functions of src/bufio.c that write, and `cpr_waitbuf`.
pub mod Put
use libcpr.Base.{
  ℕ, ◌+◌, ◌-◌, ◌^◌, Bool, true, false, not, Option, none, some, List, [], ◌∷◌, ◌++◌, length, take,
  drop, ltb, leb, ◌==◌, ◌||◌, if◌then◌else◌, Ptr, null, to, u64, memmove, vsnprintf, ℤ, pos, negsuc,
  ltb_ℤ, ◌>>=◌,
}
use libcpr.Memory.{cpr_memcpy}
use libcpr.Strchar.{cpr_strlen}
use libcpr.Bufio.{Bufio, Write}

-- What `cpr_flushbuf` does with the result of `write`. Compared with `put` it is a `size_t`, so -1
-- is more than `put`.
flushed : Bufio → Ptr ℕ → Option (Bool × Bufio)
flushed w null = some (true, record w { put = 0 })
flushed w (to n) =
    if ltb n w.put
    then (do
      out ← memmove w.out n (w.put - n)
      some (false, record w { put = w.put - n; out = out }))
    else some (true, record w { put = 0 })

-- What `cpr_xputbuf` does when there is room. The result of `cpr_memcpy` is not used.
put_copied : Bufio → List ℕ → ℕ → Option (Bool × Bufio)
put_copied w bytes request = do
  copied ← cpr_memcpy (to (drop w.put w.out)) (u64 (w.bufsize + 2 ^ 64 - w.put)) (to bytes) request
  elim copied.1 [
    | null ↦ none
    | to rest ↦ some (true, record w { put = w.put + request; out = take w.put w.out ++ rest })
  ]

module _ {Dev : Type 0} (write : Write Dev) where
  unfoldable pub cpr_flushbuf : Bufio → Dev → Option (Bool × Bufio × Dev)
  unfolding flushed
  cpr_flushbuf w dev =
      let sent = write dev (take w.put w.out) in
      let flush = (do done ← flushed w sent.0; some (done.0, done.1, sent.1)) in
      if w.put == 0 then some (false, w, dev) else flush

  -- The flush that makes room for `request` bytes where they do not fit; true if there is room.
  make_room : Bufio → Dev → ℕ → Option (Bool × Bufio × Dev)
  unfolding cpr_flushbuf
  make_room w dev request =
      if ltb w.bufsize (request + w.put) then cpr_flushbuf w dev else some (true, w, dev)

  unfoldable pub cpr_xputbuf : Bufio → Dev → Ptr (List ℕ) → ℕ → Option (Bool × Bufio × Dev)
  unfolding make_room put_copied
  cpr_xputbuf w dev null request = some (false, w, dev)
  cpr_xputbuf w dev (to bytes) request =
      let put = (do
        ready ← make_room w dev request
        elim ready.0 [
          | false ↦ some ready
          | true ↦ (do done ← put_copied ready.1 bytes request; some (done.0, done.1, ready.2))
        ]) in
      if ltb w.bufsize request then some (false, w, dev) else put

  unfoldable pub cpr_sputbuf : Bufio → Dev → Ptr (List ℕ) → Option (Bool × Bufio × Dev)
  cpr_sputbuf w dev null = some (false, w, dev)
  cpr_sputbuf w dev (to text) = do
    len ← cpr_strlen (to text) (w.bufsize + 1)
    cpr_xputbuf w dev (to text) len

  unfoldable pub cpr_cputbuf : Bufio → Dev → ℕ → Option (Bool × Bufio × Dev)
  cpr_cputbuf w dev ch = cpr_xputbuf w dev (to (ch ∷ [])) 1

  -- `cpr_fmtbuf`, where `text` is what the format makes, or `null` if `vsnprintf` fails.
  unfoldable pub cpr_fmtbuf : Bufio → Dev → ℕ → Ptr (List ℕ) → Option (Bool × Bufio × Dev)
  unfolding make_room
  cpr_fmtbuf w dev estimated null =
      if estimated == 0 || ltb w.bufsize estimated
      then some (false, w, dev)
      else (do ready ← make_room w dev estimated; some (false, ready.1, ready.2))
  cpr_fmtbuf w dev estimated (to text) =
      let print = (do
        ready ← make_room w dev estimated
        elim ready.0 [
          | false ↦ some ready
          | true ↦ (do
            out ← vsnprintf ready.1.out ready.1.put estimated text
            let w = record ready.1 { out = out }
            some (
                if leb estimated (length text)
                then (false, w, ready.2)
                else (true, record w { put = w.put + length text }, ready.2)))
        ]) in
      if estimated == 0 || ltb w.bufsize estimated then some (false, w, dev) else print

-- What `poll` answers for the descriptor: an event, with `POLLIN` and with one of the errors or not;
-- a timeout; an interruption by a signal; or another error.
pub data Poll : Type 0 where
  event : (pollin failed : Bool) → Poll
  timeout interrupted broken : Poll

-- `cpr_waitbuf`, on the answers that its calls of `poll` get. `none` if they run out.
unfoldable pub cpr_waitbuf : ℤ → List Poll → Option ℤ
cpr_waitbuf fd [] = if ltb_ℤ fd (pos 0) then some (negsuc 0) else none
cpr_waitbuf fd (answer ∷ answers) = if ltb_ℤ fd (pos 0) then some (negsuc 0) else elim answer [
  | event pollin failed ↦ some (if pollin then pos 1 else if failed then negsuc 1 else negsuc 2)
  | timeout ↦ some (pos 0)
  | interrupted ↦ cpr_waitbuf fd answers
  | broken ↦ some (negsuc 3)
]
