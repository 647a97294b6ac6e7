-- ===== src/Events.antt =====
-- src/events.h and src/events.c: an event that threads signal and wait for, on one descriptor of
-- `eventfd`, or on the two of a pipe. What the system holds open is a list of descriptors, and -1 is
-- `null`. The results of `eventfd`, `pipe`, `write`, `read` and `poll` are parameters. A NULL event
-- makes each function return false, and is left out.
mod Owned
mod Tests
use libcpr.Base.{
  ℕ, Bool, true, false, Option, none, some, List, [], ◌∷◌, ◌==◌, if◌then◌else◌, Ptr, null, to, ℤ,
  pos, ltb_ℤ, ◌>>=◌,
}

-- `event_t`: `fds[0]` and `fds[1]`.
pub record Event : Type 0 where
  pub fd0 : Ptr ℕ
  pub fd1 : Ptr ℕ

-- What `eventfd` or `pipe` gives.
pub data Made : Type 0 where
  by_eventfd : Ptr ℕ → Made
  by_pipe : Ptr (ℕ × ℕ) → Made

-- `cpr_initevt`: its result, the event, and what is open.
unfoldable pub cpr_initevt : Event → List ℕ → Made → Bool × Event × List ℕ
cpr_initevt evt files (by_eventfd null) = (false, record evt { fd0 = null }, files)
cpr_initevt evt files (by_eventfd (to fd)) = (true, record { fd0 = to fd; fd1 = to fd }, fd ∷ files)
cpr_initevt evt files (by_pipe null) = (false, evt, files)
cpr_initevt evt files (by_pipe (to (fd, put))) =
    (true, record { fd0 = to fd; fd1 = to put }, fd ∷ put ∷ files)

-- `close` of the system; `none` for a descriptor that is not open.
unfoldable pub close : ℕ → List ℕ → Option (List ℕ)
close fd [] = none
close fd (x ∷ files) =
    let rest = (do files ← close fd files; some (x ∷ files)) in if x == fd then some files else rest

abbrev pub same_fd : Ptr ℕ → Ptr ℕ → Bool
same_fd null null = true
same_fd (to a) (to b) = a == b
same_fd _ _ = false

-- `close` of `fds[1]`.
abbrev pub close_fd1 : Ptr ℕ → List ℕ → Option (List ℕ)
close_fd1 null files = none
close_fd1 (to fd) files = close fd files

-- `cpr_freeevt`: the event, and what is still open.
unfoldable pub cpr_freeevt : Event → List ℕ → Option (Event × List ℕ)
cpr_freeevt evt files = elim evt.fd0 [
  | null ↦ some (evt, files)
  | to fd ↦ (do
    files ← if same_fd evt.fd0 evt.fd1 then some files else close_fd1 evt.fd1 files
    files ← close fd files
    some (record { fd0 = null; fd1 = null }, files))
]

-- What `write`, `read` or `poll` returns for a descriptor.
abbrev pub Call : Type 0
Call = Ptr ℕ → ℤ

-- What the functions do with a result, in this order: close on an error, or tell if it is positive.
unfoldable pub after_call : Event → List ℕ → ℤ → Option (Bool × Event × List ℕ)
after_call evt files rtn =
    if ltb_ℤ rtn (pos 0)
    then (do freed ← cpr_freeevt evt files; some (false, freed.0, freed.1))
    else some (ltb_ℤ (pos 0) rtn, evt, files)

unfoldable pub cpr_setevt : Call → Event → List ℕ → Option (Bool × Event × List ℕ)
cpr_setevt write evt files = elim evt.fd0 [
  | null ↦ some (false, evt, files)
  | to fd ↦ after_call evt files (write evt.fd1)
]

unfoldable pub cpr_clearevt : Call → Event → List ℕ → Option (Bool × Event × List ℕ)
cpr_clearevt read evt files = elim evt.fd0 [
  | null ↦ some (false, evt, files)
  | to fd ↦ after_call evt files (read evt.fd0)
]

unfoldable pub cpr_waitevt : Call → Event → List ℕ → Option (Bool × Event × List ℕ)
cpr_waitevt poll evt files = elim evt.fd0 [
  | null ↦ some (false, evt, files)
  | to fd ↦ after_call evt files (poll evt.fd0)
]
