-- ===== src/Events/Tests.antt =====
-- Runs of the functions of events.c, and the theorem at a concrete sequence of calls.
use libcpr.Base.{ℕ, ◌≡◌, refl, true, some, List, [], ◌∷◌, arith, null, to, pos, negsuc}
use libcpr.Events.{
  Event, by_pipe, cpr_initevt, close, cpr_freeevt, after_call, cpr_setevt, cpr_clearevt,
  cpr_waitevt,
}
use libcpr.Events.Owned.{Op, sets, clears, waits, frees, run, Owns, run-initevt}

abbrev fresh : Event
fresh = record { fd0 = null; fd1 = null }

abbrev pipe_event : Event
pipe_event = record { fd0 = to 3; fd1 = to 4 }

init_run :
    cpr_initevt fresh (0 ∷ 1 ∷ []) (by_pipe (to (3, 4))) ≡ (true, pipe_event, 3 ∷ 4 ∷ 0 ∷ 1 ∷ [])
unfolding cpr_initevt
init_run = refl

-- A signal, and a read that fails, which closes both ends.
abbrev calls : List Op
calls = sets (λ fd. pos 1) ∷ clears (λ fd. negsuc 0) ∷ waits (λ fd. pos 1) ∷ frees ∷ []

wait_closed : run calls pipe_event (3 ∷ 4 ∷ 0 ∷ 1 ∷ []) ≡ some (fresh, 0 ∷ 1 ∷ [])
unfolding run cpr_setevt cpr_clearevt cpr_waitevt after_call cpr_freeevt close
wait_closed = refl

run-initevt_example :
    (r : Event × List ℕ) × (run calls
        (cpr_initevt fresh (0 ∷ 1 ∷ []) (by_pipe (to (3, 4)))).1
        (cpr_initevt fresh (0 ∷ 1 ∷ []) (by_pipe (to (3, 4)))).2
      ≡ some r)
    × Owns (0 ∷ 1 ∷ []) r.0 r.1
unfolding cpr_initevt
run-initevt_example =
    run-initevt fresh (0 ∷ 1 ∷ []) (by_pipe (to (3, 4))) calls (λ e. ground arith) refl
