-- ===== src/Service/Level.antt =====
-- Which messages reach the log and which are printed.
use libcpr.Base.{
  ℕ, zero, suc, ◌+◌, ◌≤◌, ◌≡◌, refl, ap, ◌∙◌, inl, inr, Bool, List, [], ◌∷◌, ◌++◌, arith, ◌==◌,
  if◌then◌else◌, Bool-cases, to, ℤ, pos, negsuc, ltb_ℤ, test_bit,
}
use libcpr.Service.{
  Args, Act, opens, masks, closes, enters, prints, exits, consumed, Service, does, set_logger,
  cpr_syslog, cpr_openlog, openlog_level, logger_prints, logger_enters, logger_type, cpr_logger,
  log_upto,
}

-- How many entries get to the system's log: the mask, which `setlogmask` sets, has the bit of their
-- priority.
unfoldable pub reaches : ℕ → List Act → ℕ
reaches mask [] = 0
reaches mask (enters priority fmt args ∷ acts) = test_bit mask priority + reaches mask acts
reaches mask (masks mask' ∷ acts) = reaches mask' acts
reaches mask (_ ∷ acts) = reaches mask acts

-- How many entries a message of a level makes.
abbrev pub level_entries : ℕ → ℕ
level_entries level = if level == 3 then 2 else 1

abbrev pub logged : ℤ → ℕ → ℕ
logged (pos zero) level = if level == 0 then 1 else 0
logged (pos (suc (suc zero))) level = if level == 2 then 0 else level_entries level
logged _ level = level_entries level

reaches-prints :
    (mask : ℕ) (acts : List Act) (out : ℕ) (kind fmt : List ℕ) (args : Args)
    → reaches mask (acts ++ (prints out kind fmt args ∷ [])) ≡ reaches mask acts
unfolding reaches
reaches-prints mask [] out kind fmt args = refl
reaches-prints mask (enters priority fmt' args' ∷ acts) out kind fmt args =
    ap (λ n. test_bit mask priority + n) (reaches-prints mask acts out kind fmt args)
reaches-prints mask (masks mask' ∷ acts) out kind fmt args =
    reaches-prints mask' acts out kind fmt args
reaches-prints mask (opens id flags facility ∷ acts) out kind fmt args =
    reaches-prints mask acts out kind fmt args
reaches-prints mask (closes ∷ acts) out kind fmt args = reaches-prints mask acts out kind fmt args
reaches-prints mask (prints out' kind' fmt' args' ∷ acts) out kind fmt args =
    reaches-prints mask acts out kind fmt args
reaches-prints mask (exits code ∷ acts) out kind fmt args =
    reaches-prints mask acts out kind fmt args

reaches-logger_prints :
    (s : Service) (mask out : ℕ) (level : ℤ) (fmt : List ℕ) (args : Args)
    → reaches mask (logger_prints s out level fmt args).acts ≡ reaches mask s.acts
unfolding logger_prints does
reaches-logger_prints s mask out level fmt args = elim (Bool-cases (ltb_ℤ level s.verbose)) [
  | inl silent ↦ rw silent refl
  | inr printed ↦ rw printed (reaches-prints mask s.acts out (logger_type level) fmt args)
]

-- What `cpr_openlog` lets pass.
openlog_level-many : (n : ℕ) → openlog_level (pos (suc (suc (suc n)))) ≡ 7
openlog_level-many n = ground arith

-- The bit of a priority in the mask that `cpr_openlog` sets.
passes : (verbose : ℤ) (priority : ℕ) → ℕ
passes verbose priority = test_bit (log_upto (openlog_level verbose)) priority

IsTable : ℤ → Type 0
IsTable verbose =
    (passes verbose 3 + 0 ≡ logged verbose 0)
    × (passes verbose 4 + 0 ≡ logged verbose 1)
    × (passes verbose 6 + 0 ≡ logged verbose 2)
    × (passes verbose 5 + (passes verbose 5 + 0) ≡ logged verbose 3)

table : (verbose : ℤ) → IsTable verbose
unfolding IsTable passes
table (pos zero) = (refl, refl, refl, refl)
table (pos (suc zero)) = (refl, refl, refl, refl)
table (pos (suc (suc zero))) = (refl, refl, refl, refl)
table (pos (suc (suc (suc n)))) = rw (openlog_level-many n) (refl, refl, refl, refl)
table (negsuc n) = (refl, refl, refl, refl)

logged_from :
    (debug running logger : Bool) (verbose : ℤ) (id : List ℕ) (facility flags out level : ℕ)
    (fmt : List ℕ) (args : Args)
    → level ≤ 3
    → reaches 255
        (cpr_logger debug
          (cpr_openlog
            (record { running = running; logger = logger; verbose = verbose; acts = [] })
            (to id)
            facility
            flags)
          out
          (pos level)
          fmt
          args).acts
      ≡ logged verbose level
unfolding cpr_logger cpr_openlog logger_enters does set_logger cpr_syslog reaches IsTable passes
logged_from debug running logger verbose id facility flags out zero fmt args h =
    reaches-logger_prints _ 255 out (pos 0) fmt (consumed args) ∙ (table verbose).0
logged_from debug running logger verbose id facility flags out (suc zero) fmt args h =
    reaches-logger_prints _ 255 out (pos 1) fmt (consumed args) ∙ (table verbose).1
logged_from debug running logger verbose id facility flags out (suc (suc zero)) fmt args h =
    reaches-logger_prints _ 255 out (pos 2) fmt (consumed args) ∙ (table verbose).2
logged_from debug running logger verbose id facility flags out (suc (suc (suc zero))) fmt args h =
    reaches-logger_prints _ 255 out (pos 3) fmt (consumed args) ∙ (table verbose).3
logged_from debug running logger verbose id facility flags out (suc (suc (suc (suc n)))) fmt args
      h =
    absurd (omega arith)

-- Once `cpr_openlog` has been called with an identity, a call of `cpr_logger` with a level from 0 to
-- 3 gives the system's log as many entries as follows: with a verbosity of 0 one for the level 0 and
-- none for others; with 2 one for the levels 0 and 1, none for 2, two for 3; and with any other
-- verbosity one for the levels 0, 1 and 2, and two for 3.
pub openlog-logged :
    (debug : Bool) (s : Service) (id : List ℕ) (facility flags out level : ℕ) (fmt : List ℕ)
    (args : Args)
    → level ≤ 3
    → s.acts ≡ []
    → reaches 255
        (cpr_logger debug (cpr_openlog s (to id) facility flags) out (pos level) fmt args).acts
      ≡ logged s.verbose level
openlog-logged debug s id facility flags out level fmt args h e =
    rw e (logged_from debug s.running s.logger s.verbose id facility flags out level fmt args h)
