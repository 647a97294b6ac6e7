-- ===== src/Events/Owned.antt =====
-- The descriptors of an event through any sequence of calls.
use libcpr.Base.{
  ℕ, ◌≡◌, ◌≢◌, refl, inl, inr, Bool, true, false, Option, some, List, [], ◌∷◌, arith, Bool-cases,
  null, to, ℤ, pos, ltb_ℤ, ◌>>=◌,
}
use libcpr.Events.{
  Event, Made, by_eventfd, by_pipe, cpr_initevt, close, cpr_freeevt, Call, after_call, cpr_setevt,
  cpr_clearevt, cpr_waitevt,
}

-- The calls on an event, with what the system returns in them.
pub data Op : Type 0 where
  sets : Call → Op
  clears : Call → Op
  waits : Call → Op
  frees : Op

abbrev pub call : Op → Event → List ℕ → Option (Bool × Event × List ℕ)
call (sets write) evt files = cpr_setevt write evt files
call (clears read) evt files = cpr_clearevt read evt files
call (waits poll) evt files = cpr_waitevt poll evt files
call frees evt files = do freed ← cpr_freeevt evt files; some (true, freed.0, freed.1)

unfoldable pub run : List Op → Event → List ℕ → Option (Event × List ℕ)
run [] evt files = some (evt, files)
run (op ∷ ops) evt files = do r ← call op evt files; run ops r.1 r.2

-- The event holds its one or two descriptors besides those in `base`, or it is closed.
pub data Owns (base : List ℕ) : Event → List ℕ → Type 0 where
  single : (fd : ℕ) → Owns base (record { fd0 = to fd; fd1 = to fd }) (fd ∷ base)
  double :
      (fd put : ℕ) → fd ≢ put → Owns base (record { fd0 = to fd; fd1 = to put }) (fd ∷ put ∷ base)
  closed : Owns base (record { fd0 = null; fd1 = null }) base

freed :
    (base : List ℕ) (evt : Event) (files : List ℕ)
    → Owns base evt files
    → cpr_freeevt evt files ≡ some (record { fd0 = null; fd1 = null }, base)
unfolding cpr_freeevt close
freed base _ _ (single fd) = ground arith
freed base _ _ (double fd put apart) = ground (arith, apart)
freed base _ _ closed = refl

after_call-Owns :
    (base : List ℕ) (evt : Event) (files : List ℕ) (rtn : ℤ)
    → Owns base evt files
    → (r : Bool × Event × List ℕ) × (after_call evt files rtn ≡ some r) × Owns base r.1 r.2
unfolding after_call
after_call-Owns base evt files rtn h = elim (Bool-cases (ltb_ℤ rtn (pos 0))) [
  | inl failed ↦ (
    (false, record { fd0 = null; fd1 = null }, base),
    rw (failed, freed base evt files h) refl,
    closed,
  )
  | inr fine ↦ ((ltb_ℤ (pos 0) rtn, evt, files), rw fine refl, h)
]

call-Owns :
    (base : List ℕ) (op : Op) (evt : Event) (files : List ℕ)
    → Owns base evt files
    → (r : Bool × Event × List ℕ) × (call op evt files ≡ some r) × Owns base r.1 r.2
unfolding cpr_setevt cpr_clearevt cpr_waitevt
call-Owns base frees evt files h =
    ((true, record { fd0 = null; fd1 = null }, base), rw (freed base evt files h) refl, closed)
call-Owns base (sets write) _ _ (single fd) = after_call-Owns base _ _ (write (to fd)) (single fd)
call-Owns base (sets write) _ _ (double fd put apart) =
    after_call-Owns base _ _ (write (to put)) (double fd put apart)
call-Owns base (sets write) _ _ closed = (_, refl, closed)
call-Owns base (clears read) _ _ (single fd) = after_call-Owns base _ _ (read (to fd)) (single fd)
call-Owns base (clears read) _ _ (double fd put apart) =
    after_call-Owns base _ _ (read (to fd)) (double fd put apart)
call-Owns base (clears read) _ _ closed = (_, refl, closed)
call-Owns base (waits poll) _ _ (single fd) = after_call-Owns base _ _ (poll (to fd)) (single fd)
call-Owns base (waits poll) _ _ (double fd put apart) =
    after_call-Owns base _ _ (poll (to fd)) (double fd put apart)
call-Owns base (waits poll) _ _ closed = (_, refl, closed)

run-Owns :
    (base : List ℕ) (ops : List Op) (evt : Event) (files : List ℕ)
    → Owns base evt files
    → (r : Event × List ℕ) × (run ops evt files ≡ some r) × Owns base r.0 r.1
unfolding run
run-Owns base [] evt files h = ((evt, files), refl, h)
run-Owns base (op ∷ ops) evt files h =
    let (r, e, owned) = call-Owns base op evt files h in
    let (after, ended, owns) = run-Owns base ops r.1 r.2 owned in (after, rw e ended, owns)

-- The two ends of a pipe are two descriptors.
abbrev pub IsMade : Made → Type 0
IsMade (by_eventfd fd) = Unit
IsMade (by_pipe null) = Unit
IsMade (by_pipe (to (fd, put))) = fd ≢ put

-- Once `cpr_initevt` has succeeded, any sequence of calls, whatever the system returns in them,
-- closes no descriptor that is not open, and leaves the event either open with its descriptors or
-- closed with all of them closed, and the others as they were.
pub run-initevt :
    (evt : Event) (base : List ℕ) (made : Made) (ops : List Op)
    → IsMade made
    → (cpr_initevt evt base made).0 ≡ true
    → (r : Event × List ℕ) × (run ops (cpr_initevt evt base made).1 (cpr_initevt evt base made).2
        ≡ some r)
      × Owns base r.0 r.1
unfolding cpr_initevt
run-initevt evt base (by_eventfd null) ops d h = ground arith
run-initevt evt base (by_eventfd (to fd)) ops d h = run-Owns base ops _ _ (single fd)
run-initevt evt base (by_pipe null) ops d h = ground arith
run-initevt evt base (by_pipe (to (fd, put))) ops d h = run-Owns base ops _ _ (double fd put d)
