-- ===== src/Service.antt =====
-- src/service.c, on systems other than Windows, and `cpr_crit` of src/system.c: the flag that a
-- program runs, and its log. The calls of the system that a function makes are a list, the last one
-- at the end. A message is its format and its arguments, which are not formatted here.
mod Calls
mod Level
mod Shutdown
mod Tests
use libcpr.Base.{
  ℕ, ◌+◌, ◌-◌, ◌^◌, Bool, true, false, List, [], ◌∷◌, ◌++◌, ◌==◌, ◌||◌, if◌then◌else◌, Ptr, null,
  to, ℤ, pos, negsuc, ltb_ℤ, ◌>>=◌,
}

-- The priorities of `syslog.h`, and its `LOG_UPTO`.
abbrev log_crit : ℕ
log_crit = 2

abbrev log_err : ℕ
log_err = 3

abbrev log_warning : ℕ
log_warning = 4

abbrev log_notice : ℕ
log_notice = 5

abbrev log_info : ℕ
log_info = 6

abbrev log_debug : ℕ
log_debug = 7

abbrev log_upto : ℕ → ℕ
log_upto priority = 2 ^ (priority + 1) - 1

-- The arguments of a message: those of the caller, a `va_list` that is passed on as one argument,
-- and a `va_list` that a function has gone through already.
pub data Args : Type 0 where
  given : List ℕ → Args
  passed : Args → Args
  consumed : Args → Args

-- `vsyslog`, a line on a stream with a type in front, and the other calls.
pub data Act : Type 0 where
  opens : List ℕ → ℕ → ℕ → Act
  masks : ℕ → Act
  closes : Act
  enters : ℕ → List ℕ → Args → Act
  prints : ℕ → List ℕ → List ℕ → Args → Act
  exits : ℤ → Act

-- `running`, `logger` and `cpr_verbose`, and the calls so far.
pub record Service : Type 0 where
  pub running : Bool
  pub logger : Bool
  pub verbose : ℤ
  pub acts : List Act

-- Further calls.
unfoldable pub does : Service → List Act → Service
does s acts = record {
  running = s.running;
  logger = s.logger;
  verbose = s.verbose;
  acts = s.acts ++ acts;
}

unfoldable pub set_running : Service → Bool → Service
set_running s running = record {
  running = running;
  logger = s.logger;
  verbose = s.verbose;
  acts = s.acts;
}

unfoldable pub set_logger : Service → Bool → Service
set_logger s logger = record {
  running = s.running;
  logger = logger;
  verbose = s.verbose;
  acts = s.acts;
}

abbrev stderr : ℕ
stderr = 2

-- `is_service`, for what `getuid`, `getpid` and `getppid` give.
unfoldable pub is_service : Service → ℕ → ℕ → ℕ → Bool × Service
is_service s uid pid ppid = (uid == 0 || pid == 1 || ppid == 1, set_running s true)

-- `is_running`, where the thread is not cancelled.
abbrev pub is_running : Service → Bool
is_running s = s.running

unfoldable pub cpr_syslog : Service → ℕ → List ℕ → Args → Service
cpr_syslog s priority fmt args = if s.logger then does s (enters priority fmt args ∷ []) else s

unfoldable pub cpr_closelog : Service → Service
cpr_closelog s = does (set_logger s false) (closes ∷ [])

-- The cases of a `switch`.
abbrev is_case : ℤ → ℕ → Bool
is_case (pos n) k = n == k
is_case (negsuc n) k = false

-- The least urgent priority that `cpr_openlog` lets pass.
abbrev pub openlog_level : ℤ → ℕ
openlog_level verbose =
    if is_case verbose 0
    then log_err
    else if is_case verbose 1
    then log_info
    else if is_case verbose 2
    then log_notice
    else log_debug

unfoldable pub cpr_openlog : Service → Ptr (List ℕ) → ℕ → ℕ → Service
cpr_openlog s null facility flags = s
cpr_openlog s (to id) facility flags =
    does (set_logger s true)
      (opens id flags facility ∷ masks (log_upto (openlog_level s.verbose)) ∷ [])

unfoldable pub cpr_shutdown : Service → ℤ → Service
cpr_shutdown s excode = does (set_running s false) (exits excode ∷ [])

-- Arguments that go to two functions are consumed in the second.
unfoldable pub cpr_sysexit : Service → ℤ → List ℕ → Args → Service
cpr_sysexit s code fmt args =
    if s.logger
    then cpr_shutdown
        (does s (enters log_crit fmt args ∷ prints stderr [] fmt (consumed args) ∷ [])) code
    else cpr_shutdown (does s (prints stderr [] fmt args ∷ [])) code

-- `cpr_crit`.
unfoldable pub cpr_crit : Service → ℤ → List ℕ → Args → Service
cpr_crit s code fmt args = does s (prints stderr [] fmt args ∷ exits code ∷ [])

-- The type of a message, and its priority, with `null` for -1; `debug` says that `NDEBUG` is not
-- defined.
abbrev pub logger_type : ℤ → List ℕ
logger_type level =
    if is_case level 0
    then b'f' ∷ b'a' ∷ b'i' ∷ b'l' ∷ []
    else if is_case level 1
    then b'w' ∷ b'a' ∷ b'r' ∷ b'n' ∷ []
    else if is_case level 2
    then b'i' ∷ b'n' ∷ b'f' ∷ b'o' ∷ []
    else b'n' ∷ b'o' ∷ b't' ∷ b'e' ∷ []

abbrev pub logger_priority : Bool → ℤ → Ptr ℕ
logger_priority debug level =
    if is_case level 0
    then to log_err
    else if is_case level 1
    then to log_warning
    else if is_case level 2
    then to log_info
    else if is_case level 3
    then to log_notice
    else if debug
    then to log_debug
    else null

-- The part of `cpr_logger` from `vsyslog` on, and its last part.
unfoldable pub logger_prints : Service → ℕ → ℤ → List ℕ → Args → Service
logger_prints s out level fmt args =
    if ltb_ℤ level s.verbose then s else does s (prints out (logger_type level) fmt args ∷ [])

unfoldable pub logger_enters : Service → Ptr ℕ → ℕ → ℤ → List ℕ → Args → Service
logger_enters s null out level fmt args = logger_prints s out level fmt args
logger_enters s (to priority) out level fmt args =
    if s.logger
    then logger_prints (does s (enters priority fmt args ∷ [])) out level fmt (consumed args)
    else logger_prints s out level fmt args

-- `cpr_logger`.
unfoldable pub cpr_logger : Bool → Service → ℕ → ℤ → List ℕ → Args → Service
cpr_logger debug s out level fmt args =
    let s = if is_case level 3 then cpr_syslog s log_notice fmt (passed args) else s in
    logger_enters s (logger_priority debug level) out level fmt args
