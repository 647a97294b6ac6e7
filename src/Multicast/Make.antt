-- ===== src/Multicast/Make.antt =====
-- `make_multicast` ends, in one of these ways.
use libcpr.Base.{
  ℕ, ◌≡◌, refl, inl, inr, true, Option, some, List, [], ◌∷◌, ◌++◌, append-nil, length, All,
  Bool-cases, Ptr, null, to, store_bytes,
}
use libcpr.Socket.{Family, unspec, inet, inet6, other_family}
use libcpr.Strchar.Length.{IsText}
use libcpr.Multicast.{
  Interface, Os, find_multicast, Creation, makes, exits, cleared, bind_multicast, open_multicast,
  make_multicast,
}
use libcpr.Multicast.Find.{IsNamed, IsFirst, find_multicast_lem, first-IsServing, first-All}
use libcpr.Multicast.Ways.{
  IsListed, AllListed, Sized, ip4, ip6, by_address, by_index, request_for, IsChosen, IsOutcome,
  no_list, no_interface, no_socket, not_reused, not_bound, not_set, is_made, is_other,
}

pub store_address :
    (bytes : List ℕ)
    → length bytes ≡ 4
    → store_bytes cleared 4 bytes ≡ some (request_for inet bytes)
store_address bytes h = rw h refl

pub store_index :
    (bytes : List ℕ)
    → length bytes ≡ 4
    → store_bytes cleared 16 bytes ≡ some (request_for inet6 bytes)
store_index bytes h = rw (h, append-nil bytes) refl

Ends : Os → List ℕ → Family → ℕ → Option (Creation × List ℕ) → Type 0
Ends os text family port r =
    (o : Creation) × (m : List ℕ) × (r ≡ some (o, m)) × IsOutcome os text family port o m

module _ (os : Os) (text : List ℕ) (port : ℕ) where
  bind_lem :
      (family : Family) (iface : Interface) (sock : ℕ)
      → IsChosen os text family iface
      → os.socket family ≡ to sock
      → os.reuse sock ≡ true
      → Sized iface.addr
      → length (os.if_nametoindex (text ++ (0 ∷ []))) ≡ 4
      → Ends os text family port (bind_multicast os sock iface (text ++ (0 ∷ [])) family port)
  unfolding bind_multicast Ends
  bind_lem inet iface sock f e g sized index = elim (Bool-cases (os.bind sock inet port)) [
    | inr failed ↦ (exits 5, cleared, rw failed refl, not_bound f e g ip4 failed)
    | inl bound ↦
        let s = first-IsServing text inet f.is_first in
        let four : length s.address.sin_addr ≡ 4 = rw s.addressed at sized in
        let stored = store_address s.address.sin_addr four in
        let named = by_address s.address s.addressed in
        elim (Bool-cases (os.multicast_if sock inet s.address.sin_addr)) [
          | inl done ↦ (
            makes sock,
            request_for inet s.address.sin_addr,
            rw (bound, s.addressed, stored, done) refl,
            is_made f e g bound named done,
          )
          | inr failed ↦ (
            exits 6,
            request_for inet s.address.sin_addr,
            rw (bound, s.addressed, stored, failed) refl,
            not_set f e g bound named failed,
          )
        ]
  ]
  bind_lem inet6 iface sock f e g sized index = elim (Bool-cases (os.bind sock inet6 port)) [
    | inr failed ↦ (exits 5, cleared, rw failed refl, not_bound f e g ip6 failed)
    | inl bound ↦
        let bytes = os.if_nametoindex (text ++ (0 ∷ [])) in
        let stored = store_index bytes index in
        elim (Bool-cases (os.multicast_if sock inet6 bytes)) [
          | inl done ↦ (
            makes sock,
            request_for inet6 bytes,
            rw (bound, stored, done) refl,
            is_made f e g bound by_index done,
          )
          | inr failed ↦ (
            exits 6,
            request_for inet6 bytes,
            rw (bound, stored, failed) refl,
            not_set f e g bound by_index failed,
          )
        ]
  ]
  bind_lem unspec iface sock f e g sized index =
      (makes sock, cleared, refl, is_other f e g (λ ip. elim ip [ ]))
  bind_lem (other_family n) iface sock f e g sized index =
      (makes sock, cleared, refl, is_other f e g (λ ip. elim ip [ ]))

  open_lem :
      (family : Family) (iface : Interface) (fd : Ptr ℕ)
      → os.socket family ≡ fd
      → IsChosen os text family iface
      → Sized iface.addr
      → length (os.if_nametoindex (text ++ (0 ∷ []))) ≡ 4
      → Ends os text family port (open_multicast os iface (text ++ (0 ∷ [])) family port)
  unfolding open_multicast Ends
  open_lem family iface null e f sized index =
      (exits 3, cleared, rw (open_multicast, e) refl, no_socket f e)
  open_lem family iface (to sock) e f sized index = elim (Bool-cases (os.reuse sock)) [
    | inr failed ↦ (exits 4, cleared, rw (open_multicast, e, failed) refl, not_reused f e failed)
    | inl reused ↦
        let (o, m, run, outcome) = bind_lem family iface sock f e reused sized index in
        (o, m, rw (open_multicast, e, reused) run, outcome)
  ]

pub make_multicast_lem :
    (os : Os) (text : List ℕ) (family : Family) (port : ℕ)
    → IsText text
    → AllListed os.getifaddrs
    → length (os.if_nametoindex (text ++ (0 ∷ []))) ≡ 4
    → (o : Creation) × (m : List ℕ) × (make_multicast os (text ++ (0 ∷ [])) family port
        ≡ some (o, m))
      × IsOutcome os text family port o m
unfolding make_multicast Ends
make_multicast_lem os text family port i listed index = from_list os.getifaddrs refl listed
  where
    from_first :
        (list found : List Interface)
        → os.getifaddrs ≡ to list
        → All IsListed list
        → find_multicast list (text ++ (0 ∷ [])) family ≡ some found
        → IsFirst text family list found
        → Ends os text family port (make_multicast os (text ++ (0 ∷ [])) family port)
    from_first list [] e a run first =
        (exits 2, cleared, rw (make_multicast, e, run) refl, no_interface e first)
    from_first list (iface ∷ others) e a run first =
        let chosen : IsChosen os text family iface = record {
          list = list;
          others = others;
          listed = e;
          is_first = first;
        } in
        let listed = first-All IsListed text family a first in
        let (o, m, ends, outcome) =
          open_lem os text port family iface (os.socket family) refl chosen listed.1 index in
        (o, m, rw (make_multicast, e, run) ends, outcome)

    names : (list : List Interface) → All IsListed list → All IsNamed list
    names [] a = _
    names (node ∷ list) a = (a.0.0, names list a.1)

    from_list :
        (r : Ptr (List Interface))
        → os.getifaddrs ≡ r
        → AllListed r
        → Ends os text family port (make_multicast os (text ++ (0 ∷ [])) family port)
    from_list null e a = (exits 1, cleared, rw (make_multicast, e) refl, no_list e)
    from_list (to list) e a =
        let (found, run, first) = find_multicast_lem list text family (names list a) i in
        from_first list found e a run first
