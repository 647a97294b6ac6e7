-- ===== src/Multicast/Member.antt =====
-- The requests that `join_multicast` and `drop_multicast` make, with what `make_multicast` has kept.
use libcpr.Base.{
  ap, ◌∙◌, ℕ, ◌+◌, ◌≡◌, refl, sym, inl, inr, true, false, some, List, [], ◌∷◌, ◌++◌, append_assoc,
  arith, length, take, drop, length-append, length-take, drop_append, ltb, leb, Bool-cases, leb→le,
  to, take_all, store_bytes, pos,
}
use libcpr.Socket.{Family, unspec, inet, inet6, other_family}
use libcpr.Address.{Sockaddr}
use libcpr.Strchar.Length.{IsText}
use libcpr.Multicast.{
  Interface, Os, Creation, makes, cleared, Change, outcome_of, make_multicast, change_multicast,
}
use libcpr.Multicast.Find.{first-All}
use libcpr.Multicast.Ways.{
  IsListed, AllListed, Sized, IsIp, Names, by_address, by_index, request_for, IsChosen, IsOutcome,
  no_list, no_interface, no_socket, not_reused, not_bound, not_set, is_made, is_other,
}
use libcpr.Multicast.Make.{store_address, store_index, make_multicast_lem}

-- The bytes of the group and of the interface that stand in a request.
abbrev pub group_of : Family → Sockaddr → List ℕ
group_of inet member = member.sin_addr
group_of _ member = member.sin6_addr

abbrev pub group_size : Family → ℕ
group_size inet = 4
group_size _ = 16

-- Bytes `a` at `p`, and then `g` in front of them.
two_parts :
    (block g a m : List ℕ) (p whole : ℕ)
    → length g ≡ p
    → whole ≡ p + length a
    → store_bytes block p a ≡ some m
    → (after : List ℕ) × (store_bytes m 0 g ≡ some after) × (take whole after ≡ g ++ a)
two_parts block g a m p whole h w e = elim (Bool-cases (leb (p + length a) (length block))) [
  | inl inside ↦
      let rest = drop (p + length a) block in
      let kept : take p block ++ (a ++ rest) ≡ m = ground (arith, rw inside at e) in
      let front : length (take p block) ≡ p =
        omega (arith, length-take p block, leb→le _ _ inside) in
      let room : leb (0 + length g) (length (take p block ++ (a ++ rest))) ≡ true =
        ground (arith, length-append (take p block) (a ++ rest), front) in
      let behind : drop (0 + length g) (take p block ++ (a ++ rest)) ≡ a ++ rest =
        let count : 0 + length g ≡ length (take p block) = omega (arith, front) in
        rw count (drop_append (take p block) (a ++ rest)) in
      rw (sym kept) (
        g ++ (a ++ rest),
        rw (room, behind) refl,
        rw (sym (append_assoc g a rest))
            (take_all whole (g ++ a) rest (omega (arith, length-append g a))),
      )
  | inr outside ↦ let stops = rw outside at e in ground arith
]

request_inet :
    (change : Change) (os : Os) (so : ℕ) (member : Sockaddr) (a m : List ℕ)
    → member.family ≡ inet
    → length member.sin_addr ≡ 4
    → length a ≡ 4
    → store_bytes cleared 4 a ≡ some m
    → change_multicast change os m (pos so) member
      ≡ some (
        outcome_of (os.membership so change inet (member.sin_addr ++ a)),
        to (inet, member.sin_addr ++ a),
      )
unfolding change_multicast
request_inet change os so member a m f g h e =
    let (after, stored, bytes) = two_parts cleared member.sin_addr a m 4 8 g (omega arith) e in
    let known : ltb (so + 0) 0 ≡ false = ground arith in rw (known, f, stored, bytes) refl

request_inet6 :
    (change : Change) (os : Os) (so : ℕ) (member : Sockaddr) (a m : List ℕ)
    → member.family ≡ inet6
    → length member.sin6_addr ≡ 16
    → length a ≡ 4
    → store_bytes cleared 16 a ≡ some m
    → change_multicast change os m (pos so) member
      ≡ some (
        outcome_of (os.membership so change inet6 (member.sin6_addr ++ a)),
        to (inet6, member.sin6_addr ++ a),
      )
unfolding change_multicast
request_inet6 change os so member a m f g h e =
    let (after, stored, bytes) = two_parts cleared member.sin6_addr a m 16 20 g (omega arith) e in
    let known : ltb (so + 0) 0 ≡ false = ground arith in rw (known, f, stored, bytes) refl

-- The request that a call makes, and the interface in it: the first that serves.
pub record IsRequested (change : Change) (os : Os) (text : List ℕ) (family : Family) (m : List ℕ)
    (so : ℕ) (member : Sockaddr) : Type 0 where
  pub iface : Interface
  pub bytes : List ℕ
  pub chosen : IsChosen os text family iface
  pub named : Names os iface (text ++ (0 ∷ [])) family bytes
  pub requested :
      change_multicast change os m (pos so) member
      ≡ some (
        outcome_of (os.membership so change family (group_of family member ++ bytes)),
        to (family, group_of family member ++ bytes),
      )

chosen-Sized :
    (os : Os) (text : List ℕ) (family : Family) (iface : Interface)
    → AllListed os.getifaddrs
    → IsChosen os text family iface
    → Sized iface.addr
chosen-Sized os text family iface a c =
    (first-All IsListed text family (rw c.listed at a) c.is_first).1

-- What a socket of IPv4 or IPv6 says of `if_multicast`.
record IsKept (os : Os) (text : List ℕ) (family : Family) (m : List ℕ) : Type 0 where
  iface : Interface
  bytes : List ℕ
  chosen : IsChosen os text family iface
  named : Names os iface (text ++ (0 ∷ [])) family bytes
  kept : m ≡ request_for family bytes

kept_lem :
    (os : Os) (text : List ℕ) (family : Family) (port fd : ℕ) {o : Creation} {m : List ℕ}
    → IsIp family
    → IsOutcome os text family port o m
    → o ≡ makes fd
    → IsKept os text family m
kept_lem os text family port fd ip (is_made {iface} {sock} {bytes} f e g bound named set) h =
    record { iface = iface; bytes = bytes; chosen = f; named = named; kept = refl }
kept_lem os text family port fd ip (is_other f e g other) h = absurd (other ip)
kept_lem os text family port fd ip (no_list e) h = ground arith
kept_lem os text family port fd ip (no_interface e f) h = ground arith
kept_lem os text family port fd ip (no_socket f e) h = ground arith
kept_lem os text family port fd ip (not_reused f e g) h = ground arith
kept_lem os text family port fd ip (not_bound f e g i b) h = ground arith
kept_lem os text family port fd ip (not_set f e g b n s) h = ground arith

request_lem :
    (change : Change) (os : Os) (text : List ℕ) (family : Family) (so : ℕ) (member : Sockaddr)
    (iface : Interface) (bytes : List ℕ)
    → Names os iface (text ++ (0 ∷ [])) family bytes
    → Sized iface.addr
    → length (os.if_nametoindex (text ++ (0 ∷ []))) ≡ 4
    → member.family ≡ family
    → length (group_of family member) ≡ group_size family
    → change_multicast change os (request_for family bytes) (pos so) member
      ≡ some (
        outcome_of (os.membership so change family (group_of family member ++ bytes)),
        to (family, group_of family member ++ bytes),
      )
request_lem change os text inet so member iface bytes (by_address a at) sized index f g =
    let four : length a.sin_addr ≡ 4 = rw at at sized in
    request_inet change os so member a.sin_addr _ f g four (store_address a.sin_addr four)
request_lem change os text inet6 so member iface bytes by_index sized index f g =
    request_inet6 change os so member _ _ f g index (store_index _ index)
request_lem change os text unspec so member iface bytes n sized index f g = elim n [ ]
request_lem change os text (other_family _) so member iface bytes n sized index f g = elim n [ ]

-- After a `make_multicast` that has returned a socket, where the names of the system's interfaces are
-- texts, their IPv4 addresses have 4 bytes and an index has 4: for IPv4 and IPv6 `join_multicast` and
-- `drop_multicast` of a group of that family make one and the same request, with the group's bytes
-- and those of the first interface that has the name, multicast and an address of the family: its
-- address for IPv4, the index of the name for IPv6. They return 0 or the error of the request.
pub change_multicast_lem :
    (change : Change) (os : Os) (text : List ℕ) (family : Family) (port sock : ℕ) (m : List ℕ)
    (so : ℕ) (member : Sockaddr)
    → IsIp family
    → IsText text
    → AllListed os.getifaddrs
    → length (os.if_nametoindex (text ++ (0 ∷ []))) ≡ 4
    → make_multicast os (text ++ (0 ∷ [])) family port ≡ some (makes sock, m)
    → member.family ≡ family
    → length (group_of family member) ≡ group_size family
    → IsRequested change os text family m so member
change_multicast_lem change os text family port sock m so member ip i listed index h f g =
    let (o, m', run, outcome) = make_multicast_lem os text family port i listed index in
    let same : o ≡ makes sock = ground (arith, sym run ∙ h) in
    let same_m : m' ≡ m = ground (arith, sym run ∙ h) in
    let k = kept_lem os text family port sock ip outcome same in
    let sized = chosen-Sized os text family k.iface listed k.chosen in
    record {
      iface = k.iface;
      bytes = k.bytes;
      chosen = k.chosen;
      named = k.named;
      requested =
          ap (λ l. change_multicast change os l (pos so) member) (sym same_m ∙ k.kept)
          ∙ request_lem change os text family so member k.iface k.bytes k.named sized index f g;
    }
