-- ===== src/Service/Shutdown.antt =====
-- A program that was shut down does not run again.
use libcpr.Base.{
  ℕ, ◌≡◌, refl, Bool, true, false, List, [], ◌∷◌, arith, All, if◌then◌else◌, Ptr, null, to, ℤ,
  ltb_ℤ,
}
use libcpr.Service.{
  Args, Service, does, cpr_syslog, cpr_closelog, cpr_openlog, cpr_shutdown, cpr_sysexit, cpr_crit,
  logger_prints, logger_enters, logger_priority, cpr_logger, set_running, set_logger, is_running,
  consumed, passed,
}
use libcpr.Service.Calls.{
  Call, starts, logs, closes_log, opens_log, shuts_down, sys_exits, is_critical, reports,
  is_verbose, call, run,
}

-- Whether a call starts the program again.
abbrev pub is_start : Call → Bool
is_start (starts uid pid ppid) = true
is_start _ = false

IsDown : Service → Type 0
IsDown s = s.running ≡ false

if-IsDown : (b : Bool) (s t : Service) → IsDown s → IsDown t → IsDown (if b then s else t)
if-IsDown true s t h g = h
if-IsDown false s t h g = g

logger_prints-IsDown :
    (s : Service) (out : ℕ) (level : ℤ) (fmt : List ℕ) (args : Args)
    → IsDown s
    → IsDown (logger_prints s out level fmt args)
unfolding logger_prints does IsDown
logger_prints-IsDown s out level fmt args h = if-IsDown (ltb_ℤ level s.verbose) s _ h h

logger_enters-IsDown :
    (s : Service) (priority : Ptr ℕ) (out : ℕ) (level : ℤ) (fmt : List ℕ) (args : Args)
    → IsDown s
    → IsDown (logger_enters s priority out level fmt args)
unfolding logger_enters does IsDown
logger_enters-IsDown s null out level fmt args h = logger_prints-IsDown s out level fmt args h
logger_enters-IsDown s (to priority) out level fmt args h =
    if-IsDown s.logger _ _ (logger_prints-IsDown _ out level fmt (consumed args) h)
      (logger_prints-IsDown s out level fmt args h)

cpr_syslog-IsDown :
    (s : Service) (priority : ℕ) (fmt : List ℕ) (args : Args)
    → IsDown s
    → IsDown (cpr_syslog s priority fmt args)
unfolding cpr_syslog does IsDown
cpr_syslog-IsDown s priority fmt args h = if-IsDown s.logger _ s h h

cpr_sysexit-IsDown :
    (s : Service) (code : ℤ) (fmt : List ℕ) (args : Args) → IsDown (cpr_sysexit s code fmt args)
unfolding cpr_sysexit cpr_shutdown does set_running IsDown
cpr_sysexit-IsDown s code fmt args = if-IsDown s.logger _ _ refl refl

call-IsDown :
    (debug : Bool) (s : Service) (c : Call)
    → is_start c ≡ false
    → IsDown s
    → IsDown (call debug s c)
unfolding call cpr_closelog cpr_openlog cpr_shutdown cpr_crit cpr_logger does set_running set_logger
    IsDown
call-IsDown debug s (starts uid pid ppid) e h = absurd (ground arith)
call-IsDown debug s (logs priority fmt args) e h = cpr_syslog-IsDown s priority fmt args h
call-IsDown debug s closes_log e h = h
call-IsDown debug s (opens_log null facility flags) e h = h
call-IsDown debug s (opens_log (to id) facility flags) e h = h
call-IsDown debug s (shuts_down code) e h = refl
call-IsDown debug s (sys_exits code fmt args) e h = cpr_sysexit-IsDown s code fmt args
call-IsDown debug s (is_critical code fmt args) e h = h
call-IsDown debug s (reports out level fmt args) e h =
    logger_enters-IsDown _ (logger_priority debug level) out level fmt args
      (if-IsDown _ _ s (cpr_syslog-IsDown s 5 fmt (passed args) h) h)
call-IsDown debug s (is_verbose v) e h = h

run-IsDown :
    (debug : Bool) (s : Service) (calls : List Call)
    → All (λ c. is_start c ≡ false) calls
    → IsDown s
    → IsDown (run debug s calls)
unfolding run
run-IsDown debug s [] a h = h
run-IsDown debug s (c ∷ calls) a h =
    run-IsDown debug (call debug s c) calls a.1 (call-IsDown debug s c a.0 h)

-- After `cpr_shutdown` and after `cpr_sysexit`, whatever is called then, `is_running` gives false as
-- long as `is_service` is not called.
pub shutdown_lasts :
    (debug : Bool) (s : Service) (code : ℤ) (fmt : List ℕ) (args : Args) (calls : List Call)
    → All (λ c. is_start c ≡ false) calls
    → (is_running (run debug (cpr_shutdown s code) calls) ≡ false)
      × (is_running (run debug (cpr_sysexit s code fmt args) calls) ≡ false)
unfolding IsDown cpr_shutdown does set_running
shutdown_lasts debug s code fmt args calls a = (
  run-IsDown debug _ calls a refl,
  run-IsDown debug _ calls a (cpr_sysexit-IsDown s code fmt args),
)
