-- ===== src/Service/Tests.antt =====
-- Runs of the functions of service.c, and the theorems at concrete calls.
use libcpr.Base.{ℕ, ◌≡◌, refl, true, false, some, List, [], ◌∷◌, arith, to, ℤ, pos}
use libcpr.Service.{
  given, passed, consumed, opens, masks, enters, prints, Service, does, set_running, set_logger,
  is_service, is_running, cpr_syslog, cpr_openlog, cpr_shutdown, cpr_sysexit, cpr_crit,
  logger_prints, logger_enters, cpr_logger,
}
use libcpr.Service.Calls.{
  Call, logs, closes_log, opens_log, reports, is_verbose, run, log_open, run-log_open,
}
use libcpr.Service.Level.{reaches, openlog-logged}
use libcpr.Service.Shutdown.{shutdown_lasts}

-- Before anything is called.
abbrev at_start : ℤ → Service
at_start verbose = record { running = true; logger = false; verbose = verbose; acts = [] }

abbrev hello : List ℕ
hello = b'h' ∷ b'i' ∷ []

abbrev note : List ℕ
note = b'n' ∷ b'o' ∷ b't' ∷ b'e' ∷ []

is_service_run :
    ((is_service (at_start (pos 0)) 0 7 8).0 ≡ true)
    × ((is_service (at_start (pos 0)) 5 7 8).0 ≡ false)
unfolding is_service
is_service_run = (refl, refl)

-- With the log shut there is a line only, and with the log open the level 3 makes two entries before
-- the line, whose arguments have been gone through then.
logger_run :
    (cpr_logger true (at_start (pos 1)) 1 (pos 3) hello (given [])).acts
    ≡ prints 1 note hello (given []) ∷ []
unfolding cpr_logger cpr_syslog logger_enters logger_prints does
logger_run = refl

logger_open_run :
    (cpr_logger true
      (cpr_openlog (at_start (pos 1)) (to hello) 0 0)
      1
      (pos 3)
      hello
      (given [])).acts
    ≡ opens hello 0 0
      ∷ masks 127
      ∷ enters 5 hello (passed (given []))
      ∷ enters 5 hello (given [])
      ∷ prints 1 note hello (consumed (given []))
      ∷ []
unfolding cpr_logger cpr_openlog cpr_syslog logger_enters logger_prints does set_logger
logger_open_run = refl

-- What a message of level 2 is worth: an entry with a verbosity of 1, none with 2.
verbose_run :
    (reaches 255
        (cpr_logger true
          (cpr_openlog (at_start (pos 1)) (to hello) 0 0)
          1
          (pos 2)
          hello
          (given [])).acts
      ≡ 1)
    × (reaches 255
          (cpr_logger true
            (cpr_openlog (at_start (pos 2)) (to hello) 0 0)
            1
            (pos 2)
            hello
            (given [])).acts
        ≡ 0)
unfolding cpr_logger cpr_openlog cpr_syslog logger_enters logger_prints does set_logger reaches
verbose_run = (refl, refl)

exit_run :
    (cpr_sysexit (at_start (pos 0)) (pos 3) hello (given [])).acts
    ≡ (cpr_crit (at_start (pos 0)) (pos 3) hello (given [])).acts
unfolding cpr_sysexit cpr_crit cpr_shutdown does set_running
exit_run = refl

abbrev session : List Call
session =
    logs 3 hello (given [])
    ∷ opens_log (to hello) 0 0
    ∷ reports 1 (pos 1) hello (given [])
    ∷ closes_log
    ∷ is_verbose (pos 2)
    ∷ reports 1 (pos 1) hello (given [])
    ∷ []

run-log_open_example :
    log_open false (run true (at_start (pos 1)) session).acts
    ≡ some (run true (at_start (pos 1)) session).logger
run-log_open_example = run-log_open true (at_start (pos 1)) session refl refl

openlog-logged_example :
    reaches 255
      (cpr_logger true
        (cpr_openlog (at_start (pos 5)) (to hello) 0 0)
        1
        (pos 3)
        hello
        (given [])).acts
    ≡ 2
openlog-logged_example =
    openlog-logged true (at_start (pos 5)) hello 0 0 1 3 hello (given []) (omega arith) refl

shutdown_lasts_example :
    (is_running (run true (cpr_shutdown (at_start (pos 1)) (pos 0)) session) ≡ false)
    × (is_running (run true (cpr_sysexit (at_start (pos 1)) (pos 0) hello (given [])) session)
        ≡ false)
shutdown_lasts_example =
    shutdown_lasts true (at_start (pos 1)) (pos 0) hello (given []) session
      (refl, (refl, (refl, (refl, (refl, (refl, _))))))
