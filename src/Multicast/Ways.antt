-- ===== src/Multicast/Ways.antt =====
-- The ways in which `make_multicast` can end, and what it leaves in `if_multicast`.
use libcpr.Base.{ℕ, ◌≡◌, true, false, List, [], ◌∷◌, ◌++◌, length, replicate, All, Ptr, null, to}
use libcpr.Socket.{Family, inet, inet6}
use libcpr.Address.{Sockaddr}
use libcpr.Multicast.{Interface, Os, Creation, makes, exits, cleared}
use libcpr.Multicast.Find.{IsNamed, IsFirst}

-- An interface as the system lists it: its name is a text, and its address has the four bytes of
-- one for IPv4.
abbrev pub Sized : Ptr Sockaddr → Type 0
Sized null = Unit
Sized (to a) = length a.sin_addr ≡ 4

abbrev pub IsListed : Interface → Type 0
IsListed node = IsNamed node × Sized node.addr

abbrev pub AllListed : Ptr (List Interface) → Type 0
AllListed null = Unit
AllListed (to list) = All IsListed list

-- The families that have groups.
pub data IsIp : Family → Type 0 where
  ip4 : IsIp inet
  ip6 : IsIp inet6

-- The bytes that stand for an interface: its address for IPv4, the index for IPv6.
pub data Names (os : Os) (iface : Interface) (mcast : List ℕ) : Family → List ℕ → Type 0 where
  by_address : (a : Sockaddr) → iface.addr ≡ to a → Names os iface mcast inet a.sin_addr
  by_index : Names os iface mcast inet6 (os.if_nametoindex mcast)

-- `if_multicast` with those bytes, and zeros for the group.
abbrev pub request_for : Family → List ℕ → List ℕ
request_for inet bytes = replicate 4 0 ++ (bytes ++ replicate 12 0)
request_for _ bytes = replicate 16 0 ++ bytes

-- The interface is the first of the system's that serves.
pub record IsChosen (os : Os) (text : List ℕ) (family : Family) (iface : Interface) : Type 0 where
  pub list : List Interface
  pub others : List Interface
  pub listed : os.getifaddrs ≡ to list
  pub is_first : IsFirst text family list (iface ∷ others)

-- How `make_multicast` ends, and what it leaves in `if_multicast`.
pub data IsOutcome (os : Os) (text : List ℕ) (family : Family) (port : ℕ)
    : Creation → List ℕ → Type 0 where
  no_list : os.getifaddrs ≡ null → IsOutcome os text family port (exits 1) cleared
  no_interface :
      {list : List Interface}
      → os.getifaddrs ≡ to list
      → IsFirst text family list []
      → IsOutcome os text family port (exits 2) cleared
  no_socket :
      {iface : Interface}
      → IsChosen os text family iface
      → os.socket family ≡ null
      → IsOutcome os text family port (exits 3) cleared
  not_reused :
      {iface : Interface} {sock : ℕ}
      → IsChosen os text family iface
      → os.socket family ≡ to sock
      → os.reuse sock ≡ false
      → IsOutcome os text family port (exits 4) cleared
  not_bound :
      {iface : Interface} {sock : ℕ}
      → IsChosen os text family iface
      → os.socket family ≡ to sock
      → os.reuse sock ≡ true
      → IsIp family
      → os.bind sock family port ≡ false
      → IsOutcome os text family port (exits 5) cleared
  not_set :
      {iface : Interface} {sock : ℕ} {bytes : List ℕ}
      → IsChosen os text family iface
      → os.socket family ≡ to sock
      → os.reuse sock ≡ true
      → os.bind sock family port ≡ true
      → Names os iface (text ++ (0 ∷ [])) family bytes
      → os.multicast_if sock family bytes ≡ false
      → IsOutcome os text family port (exits 6) (request_for family bytes)
  is_made :
      {iface : Interface} {sock : ℕ} {bytes : List ℕ}
      → IsChosen os text family iface
      → os.socket family ≡ to sock
      → os.reuse sock ≡ true
      → os.bind sock family port ≡ true
      → Names os iface (text ++ (0 ∷ [])) family bytes
      → os.multicast_if sock family bytes ≡ true
      → IsOutcome os text family port (makes sock) (request_for family bytes)
  is_other :
      {iface : Interface} {sock : ℕ}
      → IsChosen os text family iface
      → os.socket family ≡ to sock
      → os.reuse sock ≡ true
      → ¬ IsIp family
      → IsOutcome os text family port (makes sock) cleared
