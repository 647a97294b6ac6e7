-- ===== src/Multicast.antt =====
-- src/multicast.h and src/multicast.c, on systems other than Windows: sockets for multicast groups.
-- The calls of the system are the fields of `Os`, and an address is an opaque list of bytes in
-- network order. `if_multicast` is the 20 bytes of its union, in the layout of Linux: of a request
-- for IPv4 the group has the first 4 bytes and the interface the next 4; for IPv6 the group has the
-- first 16 and the index of the interface the last 4. A process that calls `exit` does nothing more.
mod Find
mod Make
mod Member
mod Tests
mod Ways
use libcpr.Base.{
  ℕ, Bool, true, false, Option, none, some, List, [], ◌∷◌, take, replicate, ◌&&◌, if◌then◌else◌,
  Ptr, null, to, store_bytes, ℤ, pos, pos_part, ltb_ℤ, ◌>>=◌,
}
use libcpr.Strchar.{cpr_equal}
use libcpr.Socket.{Family, unspec, inet, inet6, other_family}
use libcpr.Address.{Sockaddr, same_family}

-- `struct ifaddrs`, and whether its flags have `IFF_MULTICAST`.
pub record Interface : Type 0 where
  pub name : List ℕ
  pub multicast : Bool
  pub addr : Ptr Sockaddr

-- `IP_ADD_MEMBERSHIP` and `IP_DROP_MEMBERSHIP`, and those of IPv6.
pub data Change : Type 0 where
  add : Change
  leave : Change

-- The calls of the system: `getifaddrs`, `socket`, `setsockopt` of `SO_REUSEADDR`, `bind` to every
-- address of a family, the options of an outgoing interface and of a membership, and the bytes of
-- what `if_nametoindex` gives. A membership that fails has an error number.
pub record Os : Type 0 where
  pub getifaddrs : Ptr (List Interface)
  pub socket : Family → Ptr ℕ
  pub reuse : ℕ → Bool
  pub bind : ℕ → Family → ℕ → Bool
  pub multicast_if : ℕ → Family → List ℕ → Bool
  pub membership : ℕ → Change → Family → List ℕ → Ptr ℕ
  pub if_nametoindex : List ℕ → List ℕ

-- Whether an interface has the name, multicast, and an address of the family.
unfoldable pub serves : Interface → List ℕ → Family → Option Bool
serves node iface family = do
  same ← cpr_equal (to node.name) (to iface)
  let addr = if same && node.multicast then node.addr else null
  some (elim addr [ null ↦ false | to a ↦ same_family a.family family ])

-- `find_multicast`: the interfaces from the first that serves, for NULL none.
unfoldable pub find_multicast : List Interface → List ℕ → Family → Option (List Interface)
find_multicast [] iface family = some []
find_multicast (node ∷ list) iface family = do
  found ← serves node iface family
  elim found [ true ↦ some (node ∷ list) | false ↦ find_multicast list iface family ]

-- How `make_multicast` ends: with a socket, or in `exit` of minus so much.
pub data Creation : Type 0 where
  makes : ℕ → Creation
  exits : ℕ → Creation

-- `if_multicast` after it is set to zeros.
abbrev pub cleared : List ℕ
cleared = replicate 20 0

-- The end of `make_multicast` where `if_multicast` is set, by whether the option is set.
abbrev pub interface_set : Bool → ℕ → List ℕ → Creation × List ℕ
interface_set ok sock request = (if ok then makes sock else exits 6, request)

-- The part for a family, with its socket: how it ends, and `if_multicast`.
unfoldable pub bind_multicast :
    Os → ℕ → Interface → List ℕ → Family → ℕ → Option (Creation × List ℕ)
bind_multicast os sock iface mcast inet port =
    if os.bind sock inet port
    then elim iface.addr [
      | null ↦ none
      | to target ↦ (do
        request ← store_bytes cleared 4 target.sin_addr
        some (interface_set (os.multicast_if sock inet target.sin_addr) sock request))
    ]
    else some (exits 5, cleared)
bind_multicast os sock iface mcast inet6 port =
    if os.bind sock inet6 port
    then (do
      let if_index = os.if_nametoindex mcast
      request ← store_bytes cleared 16 if_index
      some (interface_set (os.multicast_if sock inet6 if_index) sock request))
    else some (exits 5, cleared)
bind_multicast os sock iface mcast unspec port = some (makes sock, cleared)
bind_multicast os sock iface mcast (other_family _) port = some (makes sock, cleared)

-- The part from the socket on.
unfoldable pub open_multicast : Os → Interface → List ℕ → Family → ℕ → Option (Creation × List ℕ)
open_multicast os iface mcast family port = elim (os.socket family) [
  | null ↦ some (exits 3, cleared)
  | to sock ↦
      if os.reuse sock
      then bind_multicast os sock iface mcast family port
      else some (exits 4, cleared)
]

-- `make_multicast`: how it ends, and `if_multicast`.
unfoldable pub make_multicast : Os → List ℕ → Family → ℕ → Option (Creation × List ℕ)
make_multicast os mcast family port = elim os.getifaddrs [
  | null ↦ some (exits 1, cleared)
  | to list ↦ (do
    found ← find_multicast list mcast family
    elim found [
      | [] ↦ some (exits 2, cleared)
      | iface ∷ rest ↦ open_multicast os iface mcast family port
    ])
]

-- What `join_multicast` and `drop_multicast` return.
pub data Outcome : Type 0 where
  fine : Outcome
  ebadf : Outcome
  eai_family : Outcome
  errno : ℕ → Outcome

abbrev pub outcome_of : Ptr ℕ → Outcome
outcome_of null = fine
outcome_of (to e) = errno e

-- `join_multicast` and `drop_multicast` but for the option that they set: the result, and the
-- family and the bytes of the request that they hand to the system, if any.
unfoldable pub change_multicast :
    Change → Os → List ℕ → ℤ → Sockaddr → Option (Outcome × Ptr (Family × List ℕ))
change_multicast change os if_multicast so member =
    if ltb_ℤ so (pos 0) then some (ebadf, null) else elim member.family [
      | inet ↦ (do
        multicast ← store_bytes if_multicast 0 member.sin_addr
        let request = take 8 multicast
        some (outcome_of (os.membership (pos_part so) change inet request), to (inet, request)))
      | inet6 ↦ (do
        multicast ← store_bytes if_multicast 0 member.sin6_addr
        let request = take 20 multicast
        some (outcome_of (os.membership (pos_part so) change inet6 request), to (inet6, request)))
      | unspec ↦ some (eai_family, null)
      | other_family _ ↦ some (eai_family, null)
    ]

abbrev pub join_multicast : Os → List ℕ → ℤ → Sockaddr → Option (Outcome × Ptr (Family × List ℕ))
join_multicast = change_multicast add

abbrev pub drop_multicast : Os → List ℕ → ℤ → Sockaddr → Option (Outcome × Ptr (Family × List ℕ))
drop_multicast = change_multicast leave
