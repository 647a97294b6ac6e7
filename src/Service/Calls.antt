-- ===== src/Service/Calls.antt =====
-- Sequences of calls of the functions of src/service.c: the entries of the log stand between a call
-- that opens it and the next that closes it.
use libcpr.Base.{
  ℕ, ◌≡◌, refl, Bool, true, false, Option, none, some, List, [], ◌∷◌, ◌++◌, if◌then◌else◌, Ptr,
  null, to, ℤ, ltb_ℤ, ◌>>=◌,
}
use libcpr.Service.{
  Args, Act, opens, masks, closes, enters, prints, exits, consumed, passed, Service, does,
  is_service, cpr_syslog, cpr_closelog, cpr_openlog, cpr_shutdown, cpr_sysexit, cpr_crit,
  logger_prints, logger_enters, logger_priority, cpr_logger, set_running, set_logger,
}

-- A call, or a new value of `cpr_verbose`, which the program sets.
pub data Call : Type 0 where
  starts : ℕ → ℕ → ℕ → Call
  logs : ℕ → List ℕ → Args → Call
  closes_log : Call
  opens_log : Ptr (List ℕ) → ℕ → ℕ → Call
  shuts_down : ℤ → Call
  sys_exits : ℤ → List ℕ → Args → Call
  is_critical : ℤ → List ℕ → Args → Call
  reports : ℕ → ℤ → List ℕ → Args → Call
  is_verbose : ℤ → Call

unfoldable pub call : Bool → Service → Call → Service
call debug s (starts uid pid ppid) = (is_service s uid pid ppid).1
call debug s (logs priority fmt args) = cpr_syslog s priority fmt args
call debug s closes_log = cpr_closelog s
call debug s (opens_log id facility flags) = cpr_openlog s id facility flags
call debug s (shuts_down code) = cpr_shutdown s code
call debug s (sys_exits code fmt args) = cpr_sysexit s code fmt args
call debug s (is_critical code fmt args) = cpr_crit s code fmt args
call debug s (reports out level fmt args) = cpr_logger debug s out level fmt args
call debug s (is_verbose v) = record {
  running = s.running;
  logger = s.logger;
  verbose = v;
  acts = s.acts;
}

unfoldable pub run : Bool → Service → List Call → Service
run debug s [] = s
run debug s (c ∷ calls) = run debug (call debug s c) calls

-- Whether the log is open after the acts, where each entry finds it open; `none` otherwise.
unfoldable pub log_open : Bool → List Act → Option Bool
log_open b [] = some b
log_open b (opens id flags facility ∷ acts) = log_open true acts
log_open b (masks mask ∷ acts) = log_open b acts
log_open b (closes ∷ acts) = log_open false acts
log_open true (enters priority fmt args ∷ acts) = log_open true acts
log_open false (enters priority fmt args ∷ acts) = none
log_open b (prints out kind fmt args ∷ acts) = log_open b acts
log_open b (exits code ∷ acts) = log_open b acts

log_open-append :
    (b : Bool) (xs ys : List Act) → log_open b (xs ++ ys) ≡ (log_open b xs >>= λ c. log_open c ys)
unfolding log_open
log_open-append b [] ys = refl
log_open-append b (opens id flags facility ∷ xs) ys = log_open-append true xs ys
log_open-append b (masks mask ∷ xs) ys = log_open-append b xs ys
log_open-append b (closes ∷ xs) ys = log_open-append false xs ys
log_open-append true (enters priority fmt args ∷ xs) ys = log_open-append true xs ys
log_open-append false (enters priority fmt args ∷ xs) ys = refl
log_open-append b (prints out kind fmt args ∷ xs) ys = log_open-append b xs ys
log_open-append b (exits code ∷ xs) ys = log_open-append b xs ys

-- The flag `logger` tells whether the log is open.
IsLogged : Service → Type 0
IsLogged s = log_open false s.acts ≡ some s.logger

does-IsLogged :
    (s : Service) (acts : List Act) (logger : Bool)
    → IsLogged s
    → log_open s.logger acts ≡ some logger
    → IsLogged (does (set_logger s logger) acts)
unfolding IsLogged does set_logger
does-IsLogged s acts logger h e = rw (log_open-append false s.acts acts, h) e

quiet-IsLogged :
    (s : Service) (acts : List Act)
    → IsLogged s
    → log_open s.logger acts ≡ some s.logger
    → IsLogged (does s acts)
unfolding IsLogged does
quiet-IsLogged s acts h e = rw (log_open-append false s.acts acts, h) e

if-IsLogged :
    (b : Bool) (s t : Service)
    → (b ≡ true → IsLogged s)
    → (b ≡ false → IsLogged t)
    → IsLogged (if b then s else t)
if-IsLogged true s t h g = h refl
if-IsLogged false s t h g = g refl

enters-IsLogged :
    (s : Service) (priority : ℕ) (fmt : List ℕ) (args : Args)
    → IsLogged s
    → s.logger ≡ true
    → IsLogged (does s (enters priority fmt args ∷ []))
unfolding log_open
enters-IsLogged s priority fmt args h e = quiet-IsLogged s _ h (rw e refl)

cpr_syslog-IsLogged :
    (s : Service) (priority : ℕ) (fmt : List ℕ) (args : Args)
    → IsLogged s
    → IsLogged (cpr_syslog s priority fmt args)
unfolding cpr_syslog
cpr_syslog-IsLogged s priority fmt args h =
    if-IsLogged s.logger _ s (λ e. enters-IsLogged s priority fmt args h e) (λ _. h)

cpr_openlog-IsLogged :
    (s : Service) (id : Ptr (List ℕ)) (facility flags : ℕ)
    → IsLogged s
    → IsLogged (cpr_openlog s id facility flags)
unfolding cpr_openlog log_open
cpr_openlog-IsLogged s null facility flags h = h
cpr_openlog-IsLogged s (to id) facility flags h = does-IsLogged s _ true h refl

cpr_sysexit-IsLogged :
    (s : Service) (code : ℤ) (fmt : List ℕ) (args : Args)
    → IsLogged s
    → IsLogged (cpr_sysexit s code fmt args)
unfolding cpr_sysexit cpr_shutdown set_running log_open IsLogged
cpr_sysexit-IsLogged s code fmt args h =
    if-IsLogged s.logger _ _ (λ e. shut (does s _) (quiet-IsLogged s _ h (rw e refl)))
      (λ _. shut (does s _) (quiet-IsLogged s _ h refl))
  where
    shut : (t : Service) → IsLogged t → IsLogged (cpr_shutdown t code)
    shut t g = quiet-IsLogged (set_running t false) (exits code ∷ []) g refl

logger_prints-IsLogged :
    (s : Service) (out : ℕ) (level : ℤ) (fmt : List ℕ) (args : Args)
    → IsLogged s
    → IsLogged (logger_prints s out level fmt args)
unfolding logger_prints log_open
logger_prints-IsLogged s out level fmt args h =
    if-IsLogged (ltb_ℤ level s.verbose) s _ (λ _. h) (λ _. quiet-IsLogged s _ h refl)

logger_enters-IsLogged :
    (s : Service) (priority : Ptr ℕ) (out : ℕ) (level : ℤ) (fmt : List ℕ) (args : Args)
    → IsLogged s
    → IsLogged (logger_enters s priority out level fmt args)
unfolding logger_enters
logger_enters-IsLogged s null out level fmt args h = logger_prints-IsLogged s out level fmt args h
logger_enters-IsLogged s (to priority) out level fmt args h =
    if-IsLogged s.logger _ _
      (λ e.
        logger_prints-IsLogged _ out level fmt (consumed args)
          (enters-IsLogged s priority fmt args h e))
      (λ _. logger_prints-IsLogged s out level fmt args h)

cpr_logger-IsLogged :
    (debug : Bool) (s : Service) (out : ℕ) (level : ℤ) (fmt : List ℕ) (args : Args)
    → IsLogged s
    → IsLogged (cpr_logger debug s out level fmt args)
unfolding cpr_logger
cpr_logger-IsLogged debug s out level fmt args h =
    logger_enters-IsLogged _ (logger_priority debug level) out level fmt args
      (if-IsLogged _ _ s (λ _. cpr_syslog-IsLogged s 5 fmt (passed args) h) (λ _. h))

call-IsLogged : (debug : Bool) (s : Service) (c : Call) → IsLogged s → IsLogged (call debug s c)
unfolding call is_service set_running cpr_closelog cpr_shutdown cpr_crit log_open IsLogged
call-IsLogged debug s (starts uid pid ppid) h = h
call-IsLogged debug s (logs priority fmt args) h = cpr_syslog-IsLogged s priority fmt args h
call-IsLogged debug s closes_log h = does-IsLogged s (closes ∷ []) false h refl
call-IsLogged debug s (opens_log id facility flags) h = cpr_openlog-IsLogged s id facility flags h
call-IsLogged debug s (shuts_down code) h =
    quiet-IsLogged (set_running s false) (exits code ∷ []) h refl
call-IsLogged debug s (sys_exits code fmt args) h = cpr_sysexit-IsLogged s code fmt args h
call-IsLogged debug s (is_critical code fmt args) h = quiet-IsLogged s _ h refl
call-IsLogged debug s (reports out level fmt args) h =
    cpr_logger-IsLogged debug s out level fmt args h
call-IsLogged debug s (is_verbose v) h = h

run_calls :
    (debug : Bool) (s : Service) (calls : List Call) → IsLogged s → IsLogged (run debug s calls)
unfolding run
run_calls debug s [] h = h
run_calls debug s (c ∷ calls) h = run_calls debug (call debug s c) calls (call-IsLogged debug s c h)

-- From a state whose log is closed and in which nothing was called yet, after any calls: every entry
-- was made where a call of `openlog` stood before it with no `closelog` since, and `logger` is true
-- exactly while the log is open.
pub run-log_open :
    (debug : Bool) (s : Service) (calls : List Call)
    → s.logger ≡ false
    → s.acts ≡ []
    → log_open false (run debug s calls).acts ≡ some (run debug s calls).logger
unfolding IsLogged log_open
run-log_open debug s calls e f = run_calls debug s calls (rw (e, f) refl)
