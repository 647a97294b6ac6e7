-- ===== src/Address/Text.antt =====
-- An address that is read from a text prints as that text.
use libcpr.Base.{
  ℕ, ◌+◌, ◌≤◌, ◌<◌, ◌≡◌, refl, ap, ◌∙◌, true, false, Option, some, List, [], ◌∷◌, ◌++◌, arith,
  length, take-eq_self, ◌==◌, if◌then◌else◌, to, store, load, Malloc, ◌>>=◌,
}
use libcpr.Strchar.{cpr_strdup}
use libcpr.Strchar.Length.{IsText}
use libcpr.Strchar.Copy.{cpr_strdup_lem}
use libcpr.Socket.{Family, inet, inet6}
use libcpr.Address.{Sockaddr, zero_addr, Pton, Ntop, has_char, cpr_setaddr, cpr_getaddr}

-- What tells the texts of the two families apart.
pub data IsMarked (s : List ℕ) : Family → Type 0 where
  dotted : has_char s b'.' ≡ some true → IsMarked s inet
  with_colon : has_char s b'.' ≡ some false → has_char s b':' ≡ some true → IsMarked s inet6

begins :
    {A : Type 0} (text : List ℕ) (none_given given : Option A)
    → IsText text
    → 0 < length text
    → (do c ← load (text ++ (0 ∷ [])) 0; if c == 0 then none_given else given) ≡ given
begins [] none_given given i h = absurd (omega arith)
begins (c ∷ text) none_given given i h = ground (arith, i.0)

module _ (malloc : Malloc) (pton : Pton) (ntop : Ntop) (text bytes block : List ℕ) (port : ℕ)
    (i : IsText text) (some_text : 0 < length text) (short : length text ≤ 47)
    (got : malloc (length text + 1) ≡ to block) (size : length block ≡ length text + 1) where
  copied : cpr_strdup malloc (to (text ++ (0 ∷ []))) 47 ≡ some (to (text ++ (0 ∷ [])))
  copied =
      cpr_strdup_lem malloc text [] block 47 (length text) i (ground arith) (omega arith) got size
      ∙ ap (λ t. some (to (t ++ (0 ∷ [])))) (take-eq_self (length text) text (omega arith))

  -- For a text of at most 47 characters that `inet_pton` reads as an address of IPv4, with a dot, or
  -- of IPv6, with a colon and no dot, and that `inet_ntop` prints for that address: `cpr_setaddr`
  -- sets the family and the port, and `cpr_getaddr` gives the text back, where the allocation
  -- succeeds.
  pub cpr_getaddr-setaddr :
      (family : Family) (store : Sockaddr)
      → IsMarked (text ++ (0 ∷ [])) family
      → pton family (text ++ (0 ∷ [])) ≡ to bytes
      → ntop family bytes ≡ to (text ++ (0 ∷ []))
      → (after : Sockaddr) × (cpr_setaddr pton (to store) (to (text ++ (0 ∷ []))) port
          ≡ some (family, to after))
        × (after.port ≡ port)
        × (cpr_getaddr malloc ntop (to after) ≡ some (to (text ++ (0 ∷ []))))
  unfolding cpr_setaddr cpr_getaddr
  cpr_getaddr-setaddr family store (dotted dot) reads prints = (
    record zero_addr { family = inet; port = port; sin_addr = bytes },
    begins text _ _ i some_text ∙ rw (dot, reads) refl,
    refl,
    rw prints copied,
  )
  cpr_getaddr-setaddr family store (with_colon dot colon) reads prints = (
    record zero_addr { family = inet6; port = port; sin6_addr = bytes },
    begins text _ _ i some_text ∙ rw (dot, colon, reads) refl,
    refl,
    rw prints copied,
  )
