-- ===== src/Strchar/Digits.antt =====
-- `cpr_reverse` and `cpr_strlong` of src/strchar.c: the digits of a number, last first, and turned
-- round. `strlen` of the C library is the place of the first 0.
use libcpr.Base.{
  ℕ, zero, suc, ◌+◌, ◌-◌, ◌/◌, ◌%◌, ◌^◌, bit_xor, ◌≡◌, refl, Bool, true, false, Option, none, some,
  List, [], ◌∷◌, ◌++◌, take, drop, replicate, ltb, ◌==◌, ◌&&◌, if◌then◌else◌, Ptr, null, to, store,
  load, strchr, ◌>>=◌,
}

-- The loop of `cpr_reverse`, which swaps two characters by `^`. `none` if the fuel runs out.
reverse_loop : ℕ → ℕ → ℕ → List ℕ → Option (List ℕ)
reverse_loop zero p1 p2 str = none
reverse_loop (suc fuel) p1 p2 str =
    let swap = (do
      a ← load str p1
      b ← load str p2
      str ← store str p1 (bit_xor a b)
      a ← load str p1
      str ← store str p2 (bit_xor b a)
      b ← load str p2
      str ← store str p1 (bit_xor a b)
      reverse_loop fuel (p1 + 1) (p2 - 1) str) in
    if ltb p1 p2 then swap else some str

pub cpr_reverse : Ptr (List ℕ) → Option (Ptr (List ℕ))
unfolding reverse_loop
cpr_reverse null = some null
cpr_reverse (to str) = do
  first ← load str 0
  let reverse = do len ← strchr str 0; out ← reverse_loop (len + 1) 0 (len - 1) str; some (to out)
  if first == 0 then some (to str) else reverse

-- The loop of `cpr_strlong`: the memory and where `r` ends. `none` if the fuel runs out.
long_digits : ℕ → ℕ → ℕ → ℕ → List ℕ → Option (ℕ × List ℕ)
long_digits zero v r e p = none
long_digits (suc fuel) v r e p =
    let put = (do p ← store p r (v % 10 + b'0'); long_digits fuel (v / 10) (r + 1) e p) in
    if ltb 0 v && ltb r e then put else some (r, p)

-- What `cpr_strlong` does with the digits of `v` from `r` on, below `e`: it fails if they reach
-- `e`, and else ends them and turns them round.
long_from : ℕ → ℕ → ℕ → List ℕ → Option (Ptr (List ℕ))
unfolding long_digits cpr_reverse
long_from v start e p = do
  (r, p) ← long_digits (e + 1) v start e p
  let finish = do
    p ← store p r 0
    turned ← cpr_reverse (to (drop start p))
    elim turned [ null ↦ some null | to rest ↦ some (to (take start p ++ rest)) ]
  if r == e then some null else finish

-- `cpr_strlong` of `v`, or of `-v` where `negative`: NULL, or the memory at `p`. The negation of the
-- least `long` is undefined.
pub cpr_strlong : Bool → ℕ → List ℕ → ℕ → Option (Ptr (List ℕ))
unfolding long_from
cpr_strlong negative v p s =
    let e = s - 1 in
    let null_digit = (do p ← store p 0 b'0'; p ← store p 1 0; some (to p)) in
    let signed = (do p ← store p 0 b'-'; long_from v 1 e p) in
    if ltb s 2
    then some null
    else if v == 0
    then null_digit
    else if negative
    then (if v == 2 ^ 63 then none else signed)
    else long_from v 0 e p

reverse_run :
    cpr_reverse (to (b'a' ∷ b'b' ∷ b'c' ∷ 0 ∷ 9 ∷ [])) ≡ some (to (b'c' ∷ b'b' ∷ b'a' ∷ 0 ∷ 9 ∷ []))
unfolding cpr_reverse strchr
reverse_run = refl

strlong_run :
    cpr_strlong true 42 (replicate 6 1) 6 ≡ some (to (b'-' ∷ b'4' ∷ b'2' ∷ 0 ∷ 1 ∷ 1 ∷ []))
unfolding cpr_strlong strchr
strlong_run = refl

-- One byte more than the digits and the terminator need is asked for.
strlong_short : cpr_strlong false 42 (replicate 3 1) 3 ≡ some null
unfolding cpr_strlong strchr
strlong_short = refl
