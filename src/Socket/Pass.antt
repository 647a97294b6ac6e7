-- ===== src/Socket/Pass.antt =====
-- A pass of the loop of `cpr_getline` does to the memory what the key does to the line of `Edit`.
use libcpr.Base.{
  ℕ, suc, ◌+◌, ◌-◌, ◌<◌, ◌≡◌, ◌≢◌, refl, sym, ◌∙◌, Bool, true, false, Option, some, List, [], ◌∷◌,
  ◌++◌, append_assoc, arith, length, take, get_or, length-append, take_snoc, take-eq_self, ◌==◌,
  ◌&&◌, if◌then◌else◌, to, store, store-append, ◌>>=◌, store-append_next,
}
use mathlib.Core.Path.{subst}
use libcpr.Strchar.{cpr_strlen}
use libcpr.Socket.{line_sent, Line, getline_pass, char_code}
use libcpr.Socket.Edit.{
  Key, letter, newline, enter, erase, other, closed, key_of, Keyed, goes_on, ends, press,
}

-- What a pass does for a key.
pub pass_key : Bool → Key → Line → Option (Bool × Line)
pass_key echo (letter c) line = do
  text ← store line.text line.pos c
  text ← store text (line.pos + 1) 0
  some (
    true,
    record {
      text = text;
      pos = line.pos + 1;
      cr = false;
      sent = if echo then line.sent ++ ((c ∷ []) ∷ []) else line.sent;
    },
  )
pass_key echo newline line = some (
  false,
  record line {
    sent =
        (if echo && line.cr then line.sent ++ ((13 ∷ []) ∷ []) else line.sent) ++ ((10 ∷ []) ∷ []);
  },
)
pass_key echo enter line =
    if line.cr then some (false, line) else some (true, record line { cr = true })
pass_key echo erase line = if line.pos == 0 then some (true, record line { cr = false }) else (do
  text ← store line.text (line.pos - 1) 0
  some (
    true,
    record {
      text = text;
      pos = line.pos - 1;
      cr = false;
      sent = if echo then line.sent ++ ((8 ∷ []) ∷ []) else line.sent;
    },
  ))
pass_key echo other line = some (true, record line { cr = false })
pass_key echo closed line = some (true, record line { cr = false })

erased_lem : line_sent (to (8 ∷ b' ' ∷ 8 ∷ 0 ∷ [])) 0 ≡ some (8 ∷ [])
unfolding line_sent cpr_strlen
erased_lem = refl

pub getline_pass-key_of :
    (echo : Bool) (b : ℕ) (line : Line)
    → b < 256
    → getline_pass echo (char_code b) line ≡ pass_key echo (key_of b) line
unfolding getline_pass pass_key key_of
getline_pass-key_of echo b line h = ground (arith, erased_lem)

-- A line whose memory holds `typed`, its terminator, and what is left behind it.
abbrev pub line_of : List ℕ → List ℕ → Bool → List (List ℕ) → Line
line_of typed behind cr sent = record {
  text = typed ++ (0 ∷ behind);
  pos = length typed;
  cr = cr;
  sent = sent;
}

-- What a pass makes of a line, as the editor has it.
unfoldable pub Passed : ℕ → List ℕ → Keyed → Option (Bool × Line) → Type 0
Passed len typed (goes_on more cr) r =
    (behind : List ℕ) × (sent : List (List ℕ)) × (r ≡ some (true, line_of more behind cr sent))
    × (length (more ++ (0 ∷ behind)) ≡ len)
Passed len typed (ends ended) r =
    (cr : Bool) × (behind : List ℕ) × (sent : List (List ℕ)) × (r
      ≡ some (false, line_of typed behind cr sent))
    × (length (typed ++ (0 ∷ behind)) ≡ len)
    × (ended ≡ true)

letter_lem :
    (echo : Bool) (c : ℕ) (typed behind : List ℕ) (cr : Bool) (sent : List (List ℕ))
    → 0 < length behind
    → Passed
        (length (typed ++ (0 ∷ behind)))
        typed
        (press (letter c) cr typed)
        (pass_key echo (letter c) (line_of typed behind cr sent))
unfolding Passed pass_key
letter_lem echo c typed [] cr sent h = absurd (omega arith)
letter_lem echo c typed (y ∷ behind) cr sent h =
    let count : length (typed ++ (c ∷ [])) ≡ length typed + 1 = length-append typed (c ∷ []) in
    (
      behind,
      (if echo then sent ++ ((c ∷ []) ∷ []) else sent),
      rw
          (
            store-append typed 0 (y ∷ behind) c,
            store-append_next typed c y behind 0,
            append_assoc typed (c ∷ []) (0 ∷ behind),
            count,
          )
          refl,
      rw (append_assoc typed (c ∷ []) (0 ∷ behind)) (
          omega
            (arith, length-append typed (c ∷ 0 ∷ behind), length-append typed (0 ∷ y ∷ behind))),
    )

erase_lem :
    (echo : Bool) (init : List ℕ) (x : ℕ) (behind : List ℕ) (cr : Bool) (sent : List (List ℕ))
    → Passed
        (length ((init ++ (x ∷ [])) ++ (0 ∷ behind)))
        (init ++ (x ∷ []))
        (goes_on init false)
        (pass_key echo erase (line_of (init ++ (x ∷ [])) behind cr sent))
unfolding Passed pass_key
erase_lem echo init x behind cr sent =
    let count : length (init ++ (x ∷ [])) ≡ length init + 1 = length-append init (x ∷ []) in
    let some_typed : (length init + 1 == 0) ≡ false = ground arith in
    let back : length init + 1 - 1 ≡ length init = omega arith in
    (
      0 ∷ behind,
      (if echo then sent ++ ((8 ∷ []) ∷ []) else sent),
      rw
          (
            count,
            some_typed,
            back,
            append_assoc init (x ∷ []) (0 ∷ behind),
            store-append init x (0 ∷ behind) 0,
          )
          refl,
      rw (append_assoc init (x ∷ []) (0 ∷ behind))
          (omega (arith, length-append init (0 ∷ 0 ∷ behind), length-append init (x ∷ 0 ∷ behind))),
    )

erase_last :
    (echo : Bool) (typed init : List ℕ) (x : ℕ) (behind : List ℕ) (cr : Bool) (sent : List (List ℕ))
    → typed ≡ init ++ (x ∷ [])
    → Passed
        (length (typed ++ (0 ∷ behind)))
        typed
        (goes_on init false)
        (pass_key echo erase (line_of typed behind cr sent))
erase_last echo typed init x behind cr sent e =
    subst
      (λ t.
        Passed (length (t ++ (0 ∷ behind))) t (goes_on init false)
          (pass_key echo erase (line_of t behind cr sent)))
      (sym e) (erase_lem echo init x behind cr sent)

pub pass_lem :
    (echo : Bool) (k : Key) (typed behind : List ℕ) (cr : Bool) (sent : List (List ℕ))
    → k ≢ closed
    → 0 < length behind
    → Passed
        (length (typed ++ (0 ∷ behind)))
        typed
        (press k cr typed)
        (pass_key echo k (line_of typed behind cr sent))
unfolding Passed pass_key
pass_lem echo (letter c) typed behind cr sent g h = letter_lem echo c typed behind cr sent h
pass_lem echo newline typed behind cr sent g h = (cr, behind, _, refl, refl, refl)
pass_lem echo enter typed behind true sent g h = (true, behind, sent, refl, refl, refl)
pass_lem echo enter typed behind false sent g h = (behind, sent, refl, refl)
pass_lem echo erase [] behind cr sent g h = (behind, sent, refl, refl)
pass_lem echo erase (x ∷ typed) behind cr sent g h =
    let drop_last : suc (length typed) - 1 ≡ length typed = omega arith in
    erase_last echo (x ∷ typed) (take (suc (length typed) - 1) (x ∷ typed))
      (get_or (x ∷ typed) (length typed) 0) behind cr sent
      (sym (take-eq_self (suc (length typed)) (x ∷ typed) (omega arith))
        ∙ rw drop_last (take_snoc (length typed) (x ∷ typed) 0 (omega arith)))
pass_lem echo other typed behind cr sent g h = (behind, sent, refl, refl)
pass_lem echo closed typed behind cr sent g h = absurd (g refl)
