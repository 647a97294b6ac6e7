-- ===== src/Memio/Lines.antt =====
-- The search of `cpr_lgetmem` for a delimiter.
use libcpr.Base.{
  ℕ, zero, suc, ◌+◌, ◌-◌, ◌≤◌, ◌<◌, ◌≡◌, ◌≢◌, refl, ap, ap₂, ◌⊎◌, inl, inr, Bool, true, false, some,
  List, [], ◌∷◌, arith, length, take, drop, get_or, length-drop, ltb, leb, ◌==◌, ◌&&◌, Bool-cases,
  ==_iff, Ptr, null, to, dec_lt,
}
use libcpr.Strchar.{cpr_strlen}
use libcpr.Memio.{Memio, line_until, memcmp, find_delim, line_at, cpr_lgetmem}

and_false : (b : Bool) → (b && false) ≡ false
and_false true = refl
and_false false = refl

memcmp_lem :
    (a b : List ℕ) (n : ℕ)
    → n ≤ length a
    → n ≤ length b
    → ((memcmp a b n ≡ some true) × (take n a ≡ take n b))
      ⊎ ((memcmp a b n ≡ some false) × (take n a ≢ take n b))
unfolding memcmp
memcmp_lem a b zero p q = inl (refl, refl)
memcmp_lem [] b (suc n) p q = absurd (omega arith)
memcmp_lem (x ∷ a) [] (suc n) p q = absurd (omega arith)
memcmp_lem (x ∷ a) (y ∷ b) (suc n) p q = elim (memcmp_lem a b n (omega arith) (omega arith)) [
  | inl (e, same) ↦ elim (Bool-cases (x == y)) [
    | inl eq ↦
        (let alike : x ≡ y = (==_iff x y).0 eq in
          inl (rw (e, eq) refl, ap₂ (λ c l. c ∷ l) alike same))
    | inr ne ↦ inr (
      rw (e, ne) refl,
      λ h. (let alike : x ≡ y = ap (λ l. get_or l 0 0) h in absurd (ground arith)),
    )
  ]
  | inr (e, differ) ↦ inr (rw e (ap some (and_false (x == y))), λ h. differ (ap (drop 1) h))
]

-- The delimiter stands at `i`.
abbrev pub IsDelim : List ℕ → List ℕ → ℕ → ℕ → Type 0
IsDelim bytes delim delim_len i = take delim_len (drop i bytes) ≡ take delim_len delim

-- There is no delimiter from `first` on, before `last` and inside the memory.
abbrev pub IsFree : List ℕ → List ℕ → ℕ → ℕ → ℕ → ℕ → Type 0
IsFree bytes delim delim_len size first last =
    (j : ℕ) → first ≤ j → j < last → j + delim_len ≤ size → ¬ IsDelim bytes delim delim_len j

-- What the search finds: the first delimiter, or none if there is none.
pub data IsFound (bytes delim : List ℕ) (delim_len size i : ℕ) : Ptr ℕ → Type 0 where
  absent :
      ((j : ℕ) → i ≤ j → j + delim_len ≤ size → ¬ IsDelim bytes delim delim_len j)
      → IsFound bytes delim delim_len size i null
  first :
      (k : ℕ)
      → i ≤ k
      → k + delim_len ≤ size
      → IsDelim bytes delim delim_len k
      → IsFree bytes delim delim_len size i k
      → IsFound bytes delim delim_len size i (to k)

not_at_or_later :
    (bytes delim : List ℕ) (delim_len i j : ℕ)
    → ¬ IsDelim bytes delim delim_len i
    → (i + 1 ≤ j → ¬ IsDelim bytes delim delim_len j)
    → i ≤ j
    → ¬ IsDelim bytes delim delim_len j
not_at_or_later bytes delim delim_len i j differ later lo here = elim (dec_lt i j) [
  | yes lt ↦ later (omega arith) here
  | no ge ↦ (let same : j ≡ i = omega arith in differ (rw same at here))
]

IsFound-later :
    (bytes delim : List ℕ) (delim_len size i : ℕ) {r : Ptr ℕ}
    → ¬ IsDelim bytes delim delim_len i
    → IsFound bytes delim delim_len size (i + 1) r
    → IsFound bytes delim delim_len size i r
IsFound-later bytes delim delim_len size i differ (absent f) =
    absent (λ j lo inside.
      not_at_or_later bytes delim delim_len i j differ (λ later. f j later inside) lo)
IsFound-later bytes delim delim_len size i differ (first k lo hi here f) =
    first k (omega arith) hi here (λ j lo' lt inside.
      not_at_or_later bytes delim delim_len i j differ (λ later. f j later lt inside) lo')

pub find_delim_lem :
    (fuel : ℕ) (bytes delim : List ℕ) (delim_len size i : ℕ)
    → size ≤ length bytes
    → delim_len ≤ length delim
    → i ≤ size + 1
    → size + 1 < i + fuel
    → (r : Ptr ℕ) × (find_delim fuel bytes delim delim_len size i ≡ some r)
      × IsFound bytes delim delim_len size i r
unfolding find_delim
find_delim_lem zero bytes delim delim_len size i hb hd near enough = absurd (omega arith)
find_delim_lem (suc fuel) bytes delim delim_len size i hb hd near enough =
    elim (Bool-cases (ltb size (i + delim_len))) [
      | inl over ↦ (null, rw over refl, absent (λ j lo inside. absurd (ground arith)))
      | inr inside ↦
          let within : i + delim_len ≤ size = ground arith in
          let (r, e, found) =
            find_delim_lem fuel bytes delim delim_len size (i + 1) hb hd (omega arith)
              (omega arith) in
          elim (memcmp_lem (drop i bytes) delim delim_len (omega (arith, length-drop i bytes)) hd) [
            | inl (m, same) ↦ (
              to i,
              rw (inside, m) refl,
              first i (omega arith) within same (λ j lo lt. absurd (omega arith)),
            )
            | inr (m, differ) ↦
                (r, rw (inside, m, e) refl, IsFound-later bytes delim delim_len size i differ found)
          ]
    ]

-- What `cpr_lgetmem` reads up to, among the bytes from `get` on.
pub IsLine : Memio → List ℕ → ℕ → Ptr (ℕ × ℕ) × Memio → Type 0
IsLine mem delim n (null, after) =
    (after ≡ mem) × ((j : ℕ) → mem.get ≤ j → j + n ≤ mem.size → ¬ IsDelim mem.bytes delim n j)
IsLine mem delim n (to (at, len), after) =
    (at ≡ mem.get)
    × (after ≡ record mem { get = mem.get + len + n })
    × (mem.get + len + n ≤ mem.size)
    × IsDelim mem.bytes delim n (mem.get + len)
    × IsFree mem.bytes delim n mem.size mem.get (mem.get + len)

IsLine-of_found :
    (mem : Memio) (delim : List ℕ) (n : ℕ) {r : Ptr ℕ}
    → leb mem.size mem.get ≡ false
    → cpr_strlen (to delim) 16 ≡ some n
    → find_delim (mem.size + 2) mem.bytes delim n mem.size mem.get ≡ some r
    → IsFound mem.bytes delim n mem.size mem.get r
    → (l : Ptr (ℕ × ℕ) × Memio) × (cpr_lgetmem mem true (to delim) ≡ some l) × IsLine mem delim n l
unfolding cpr_lgetmem line_until line_at IsLine
IsLine-of_found mem delim n left len e (absent f) = ((null, mem), rw (left, len, e) refl, (refl, f))
IsLine-of_found mem delim n left len e (first k lo hi here f) =
    let where_at : mem.get + (k - mem.get) ≡ k = omega arith in
    (
      (to (mem.get, k - mem.get), record mem { get = k + n }),
      rw (left, len, e) refl,
      (rw where_at (refl, refl, hi, here, f)),
    )

-- With a pointer for the length, `cpr_lgetmem` with a delimiter of `n` characters, at most 16, on a
-- stream with bytes left to read returns the bytes up to the first delimiter that lies wholly in
-- the memory, and goes on behind it; with no such delimiter it returns NULL and changes nothing. It
-- stays inside the memory of the stream.
pub cpr_lgetmem_lem :
    (mem : Memio) (delim : List ℕ) (n : ℕ)
    → mem.get < mem.size
    → mem.size ≤ length mem.bytes
    → cpr_strlen (to delim) 16 ≡ some n
    → n ≤ length delim
    → (r : Ptr (ℕ × ℕ) × Memio) × (cpr_lgetmem mem true (to delim) ≡ some r) × IsLine mem delim n r
cpr_lgetmem_lem mem delim n left fits len hd =
    let (r, e, found) =
      find_delim_lem (mem.size + 2) mem.bytes delim n mem.size mem.get fits hd (omega arith)
        (omega arith) in
    IsLine-of_found mem delim n (ground arith) len e found
