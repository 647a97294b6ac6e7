-- ===== src/Multicast/Find.antt =====
-- `find_multicast` finds the first interface that serves.
use libcpr.Base.{
  ℕ, ◌≡◌, ◌≢◌, refl, sym, ap, ap₂, ◌∙◌, ◌⊎◌, inl, inr, true, false, some, List, [], ◌∷◌, ◌++◌,
  arith, All, ◌==◌, Bool-cases, Ptr, null, to,
}
use libcpr.Strchar.Length.{IsText}
use libcpr.Strchar.Compare.{cpr_equal_lem}
use libcpr.Strchar.{cpr_equal}
use libcpr.Socket.{Family, unspec, inet, inet6, other_family}
use libcpr.Address.{Sockaddr, same_family}
use libcpr.Multicast.{Interface, serves, find_multicast}

-- The interface has a text for a name.
pub record IsNamed (node : Interface) : Type 0 where
  pub text : List ℕ
  pub rest : List ℕ
  pub is_name : node.name ≡ text ++ (0 ∷ rest)
  pub is_text : IsText text

-- The interface has this name, multicast, and an address of the family.
pub record IsServing (node : Interface) (text : List ℕ) (family : Family) : Type 0 where
  pub rest : List ℕ
  pub named : node.name ≡ text ++ (0 ∷ rest)
  pub multicasts : node.multicast ≡ true
  pub address : Sockaddr
  pub addressed : node.addr ≡ to address
  pub of_family : address.family ≡ family

-- The interfaces of a list from the first that serves.
pub data IsFirst (text : List ℕ) (family : Family) : List Interface → List Interface → Type 0 where
  missing : IsFirst text family [] []
  here :
      {node : Interface} {list : List Interface}
      → IsServing node text family
      → IsFirst text family (node ∷ list) (node ∷ list)
  further :
      {node : Interface} {list found : List Interface}
      → ¬ IsServing node text family
      → IsFirst text family list found
      → IsFirst text family (node ∷ list) found

text_unique :
    (s t rest rest' : List ℕ) → IsText s → IsText t → s ++ (0 ∷ rest) ≡ t ++ (0 ∷ rest') → s ≡ t
text_unique [] [] rest rest' i j e = refl
text_unique [] (d ∷ t) rest rest' i j e = absurd (j.0 (ground arith))
text_unique (c ∷ s) [] rest rest' i j e = absurd (i.0 (ground arith))
text_unique (c ∷ s) (d ∷ t) rest rest' i j e =
    let same : c ≡ d = ground arith in
    let left : s ++ (0 ∷ rest) ≡ t ++ (0 ∷ rest') = ground arith in
    ap₂ (λ x l. x ∷ l) same (text_unique s t rest rest' i.1 j.1 left)

same_family-cases :
    (f g : Family) → ((same_family f g ≡ true) × (f ≡ g)) ⊎ ((same_family f g ≡ false) × (f ≢ g))
same_family-cases unspec unspec = inl (refl, refl)
same_family-cases unspec inet = inr (refl, λ e. ground arith)
same_family-cases unspec inet6 = inr (refl, λ e. ground arith)
same_family-cases unspec (other_family n) = inr (refl, λ e. ground arith)
same_family-cases inet unspec = inr (refl, λ e. ground arith)
same_family-cases inet inet = inl (refl, refl)
same_family-cases inet inet6 = inr (refl, λ e. ground arith)
same_family-cases inet (other_family n) = inr (refl, λ e. ground arith)
same_family-cases inet6 unspec = inr (refl, λ e. ground arith)
same_family-cases inet6 inet = inr (refl, λ e. ground arith)
same_family-cases inet6 inet6 = inl (refl, refl)
same_family-cases inet6 (other_family n) = inr (refl, λ e. ground arith)
same_family-cases (other_family m) unspec = inr (refl, λ e. ground arith)
same_family-cases (other_family m) inet = inr (refl, λ e. ground arith)
same_family-cases (other_family m) inet6 = inr (refl, λ e. ground arith)
same_family-cases (other_family m) (other_family n) = elim (Bool-cases (m == n)) [
  | inl same ↦ inl (same, ap other_family (ground arith))
  | inr other ↦ inr (other, λ e. ground arith)
]

serves_lem :
    (node : Interface) (text : List ℕ) (family : Family)
    → IsNamed node
    → IsText text
    → ((serves node (text ++ (0 ∷ [])) family ≡ some true) × IsServing node text family)
      ⊎ ((serves node (text ++ (0 ∷ [])) family ≡ some false) × (¬ IsServing node text family))
unfolding serves
serves_lem node text family n i = elim (cpr_equal_lem n.text text n.rest [] n.is_text i) [
  | inr (differ, e) ↦ inr (
    rw (serves, n.is_name, e) refl,
    λ s. differ (text_unique n.text text n.rest s.rest n.is_text i (sym n.is_name ∙ s.named)),
  )
  | inl (same, e) ↦ elim (Bool-cases node.multicast) [
    | inr off ↦ inr (
      rw (serves, n.is_name, e, off) refl,
      λ s. let stops = sym off ∙ s.multicasts in ground arith,
    )
    | inl on ↦ address_cases node.addr refl same e on
  ]
]
  where
    address_cases :
        (addr : Ptr Sockaddr)
        → node.addr ≡ addr
        → n.text ≡ text
        → cpr_equal (to (n.text ++ (0 ∷ n.rest))) (to (text ++ (0 ∷ []))) ≡ some true
        → node.multicast ≡ true
        → ((serves node (text ++ (0 ∷ [])) family ≡ some true) × IsServing node text family)
          ⊎ ((serves node (text ++ (0 ∷ [])) family ≡ some false) × (¬ IsServing node text family))
    address_cases null at same e on = inr (
      rw (serves, n.is_name, e, on, at) refl,
      λ s. let stops = sym at ∙ s.addressed in ground arith,
    )
    address_cases (to a) at same e on = elim (same_family-cases a.family family) [
      | inl (fits, eq) ↦ inl (
        rw (serves, n.is_name, e, on, at, fits) refl,
        record {
          rest = n.rest;
          named = n.is_name ∙ ap (λ t. t ++ (0 ∷ n.rest)) same;
          multicasts = on;
          address = a;
          addressed = at;
          of_family = eq;
        },
      )
      | inr (other, ne) ↦ inr (
        rw (serves, n.is_name, e, on, at, other) refl,
        λ s.
            let same_address : a ≡ s.address = ground (arith, sym at ∙ s.addressed) in
            ne (ap (λ x. x.family) same_address ∙ s.of_family),
      )
    ]

pub find_multicast_lem :
    (list : List Interface) (text : List ℕ) (family : Family)
    → All IsNamed list
    → IsText text
    → (found : List Interface) × (find_multicast list (text ++ (0 ∷ [])) family ≡ some found)
      × IsFirst text family list found
unfolding find_multicast
find_multicast_lem [] text family n i = ([], refl, missing)
find_multicast_lem (node ∷ list) text family n i =
    let (found, e, first) = find_multicast_lem list text family n.1 i in
    elim (serves_lem node text family n.0 i) [
      | inl (serving, s) ↦ (node ∷ list, rw (find_multicast, serving) refl, here s)
      | inr (other, not_it) ↦ (found, rw (find_multicast, other) e, further not_it first)
    ]

pub first-IsServing :
    (text : List ℕ) (family : Family) {list others : List Interface} {iface : Interface}
    → IsFirst text family list (iface ∷ others)
    → IsServing iface text family
first-IsServing text family (here s) = s
first-IsServing text family (further _ f) = first-IsServing text family f

pub first-All :
    (P : Interface → Type 0) (text : List ℕ) (family : Family) {list others : List Interface}
    {iface : Interface}
    → All P list
    → IsFirst text family list (iface ∷ others)
    → P iface
first-All P text family a (here s) = a.0
first-All P text family a (further _ f) = first-All P text family a.1 f
