-- ===== src/Address.antt =====
-- src/address.c, on systems other than Windows: socket addresses. `inet_pton`, `inet_ntop`,
-- `getifaddrs` and `getaddrinfo` are parameters. A `sockaddr_t` has the layout of Linux, where
-- `sin_port` and `sin6_port` are the same two bytes, and `sin_addr` and `sin6_addr` share none.
mod Port
mod Text
mod Tests
use libcpr.Base.{
  ℕ, Bool, true, false, Option, none, some, List, [], ◌∷◌, replicate, set, ◌==◌, ◌||◌,
  if◌then◌else◌, Ptr, null, to, store, load, Malloc, ◌>>=◌,
}
use libcpr.Strchar.{cpr_strdup, cpr_equal}
use libcpr.Socket.{Family, unspec, inet, inet6, other_family}

-- `sockaddr_t`; `port` is the number whose bytes in network order stand there.
pub record Sockaddr : Type 0 where
  pub family : Family
  pub port : ℕ
  pub sin_addr : List ℕ
  pub sin6_addr : List ℕ

abbrev pub zero_addr : Sockaddr
zero_addr = record {
  family = unspec;
  port = 0;
  sin_addr = replicate 4 0;
  sin6_addr = replicate 16 0;
}

-- The bytes of an address, where the text is one of the family.
abbrev pub Pton : Type 0
Pton = Family → List ℕ → Ptr (List ℕ)

-- The text of an address, with its terminator, where it fits.
abbrev pub Ntop : Type 0
Ntop = Family → List ℕ → Ptr (List ℕ)

-- Whether `strchr` of the C library finds a character other than the terminator.
unfoldable pub has_char : List ℕ → ℕ → Option Bool
has_char [] c = none
has_char (x ∷ s) c =
    let rest = has_char s c in if x == c then some true else if x == 0 then some false else rest

-- `cpr_addport`. The second test of the code is the first one again.
unfoldable pub cpr_addport : Ptr Sockaddr → ℕ → Bool × Ptr Sockaddr
cpr_addport null port = (false, null)
cpr_addport (to addr) port = elim addr.family [
  | inet ↦ (true, to (record addr { port = port }))
  | inet6 ↦ (false, to addr)
  | unspec ↦ (false, to addr)
  | other_family _ ↦ (false, to addr)
]

-- An IPv4 and an IPv6 address that `inet_pton` gives.
abbrev pub set_inet : Sockaddr → ℕ → Ptr (List ℕ) → Sockaddr
set_inet store port null = store
set_inet store port (to bytes) = record store { family = inet; port = port; sin_addr = bytes }

abbrev pub set_inet6 : Sockaddr → ℕ → Ptr (List ℕ) → Sockaddr
set_inet6 store port null = store
set_inet6 store port (to bytes) = record store { family = inet6; port = port; sin6_addr = bytes }

-- `cpr_setaddr`: its result, and the address.
unfoldable pub cpr_setaddr : Pton → Ptr Sockaddr → Ptr (List ℕ) → ℕ → Option (Family × Ptr Sockaddr)
cpr_setaddr pton null addr port = some (unspec, null)
cpr_setaddr pton (to store) null port = some (unspec, to zero_addr)
cpr_setaddr pton (to store) (to addr) port = do
  first ← load addr 0
  let named = (do
    dot ← has_char addr b'.'
    let colon = (do
      found ← has_char addr b':'
      some (if found then set_inet6 zero_addr port (pton inet6 addr) else zero_addr))
    set ← if dot then some (set_inet zero_addr port (pton inet addr)) else colon
    some (set.family, to set))
  if first == 0 then some (unspec, to zero_addr) else named

-- `cpr_getaddr`, which copies at most `INET6_ADDRSTRLEN + 1` characters.
unfoldable pub cpr_getaddr : Malloc → Ntop → Ptr Sockaddr → Option (Ptr (List ℕ))
cpr_getaddr malloc ntop null = some null
cpr_getaddr malloc ntop (to store) = elim store.family [
  | unspec ↦ cpr_strdup malloc (to (b'*' ∷ 0 ∷ [])) 2
  | inet ↦ text_copy (ntop inet store.sin_addr)
  | inet6 ↦ text_copy (ntop inet6 store.sin6_addr)
  | other_family _ ↦ some null
]
  where
    text_copy : Ptr (List ℕ) → Option (Ptr (List ℕ))
    text_copy null = some null
    text_copy (to out) = cpr_strdup malloc (to out) 47

-- `struct ifaddrs`.
pub record Iface : Type 0 where
  pub name : List ℕ
  pub addr : Ptr Sockaddr

abbrev pub same_family : Family → Family → Bool
same_family unspec unspec = true
same_family inet inet = true
same_family inet6 inet6 = true
same_family (other_family m) (other_family n) = m == n
same_family _ _ = false

-- The loop of `cpr_getbind` over the interfaces: the address of the first that serves.
unfoldable pub find_iface : List Iface → Family → List ℕ → Option (Ptr Sockaddr)
find_iface [] family name = some null
find_iface (node ∷ list) family name = elim node.addr [
  | null ↦ find_iface list family name
  | to a ↦
      if same_family a.family family
      then (do
        same ← cpr_equal (to node.name) (to name)
        if same then some (to a) else find_iface list family name)
      else find_iface list family name
]

-- The copy of an interface's address by its length, `cpr_socklen`, over what `store` holds.
copy_addr : Sockaddr → Sockaddr → Sockaddr
copy_addr store a = elim a.family [
  | inet ↦ record store { family = a.family; port = a.port; sin_addr = a.sin_addr }
  | inet6 ↦ record store { family = a.family; port = a.port; sin6_addr = a.sin6_addr }
  | unspec ↦ store
  | other_family _ ↦ store
]

-- `cpr_addport` where its result is not used.
abbrev pub with_port : Sockaddr → ℕ → Sockaddr
with_port s port = elim (cpr_addport (to s) port).1 [ null ↦ s | to after ↦ after ]

-- The address of a text with a character `mark` that only the family's texts have, in `cpr_getbind`.
try_text : Pton → Family → ℕ → List ℕ → ℕ → Option (Bool × Sockaddr)
try_text pton family mark name port = do
  found ← has_char name mark
  let store = with_port (record zero_addr { family = family }) port
  some (
      if found
      then elim (pton family name) [
        | null ↦ (false, store)
        | to bytes ↦ (
          true,
          (if same_family family inet
              then record store { sin_addr = bytes }
              else record store { sin6_addr = bytes }),
        )
      ]
      else (false, zero_addr))

-- The address of an interface, in `cpr_getbind`, over what `store` holds.
try_iface : Ptr (List Iface) → Family → List ℕ → ℕ → Sockaddr → Option (Bool × Sockaddr)
unfolding copy_addr
try_iface null family name port store = some (false, store)
try_iface (to list) family name port store = do
  found ← find_iface list family name
  some (elim found [ null ↦ (false, store) | to a ↦ (true, with_port (copy_addr store a) port) ])

-- `cpr_getbind` of a store that is not NULL: its result, and the address. `ifaces` is what
-- `getifaddrs` gives.
unfoldable pub cpr_getbind :
    Pton → Ptr (List Iface) → Ptr (List ℕ) → Family → ℕ → Option (Bool × Sockaddr)
unfolding try_text try_iface
cpr_getbind pton ifaces null family port = some (false, zero_addr)
cpr_getbind pton ifaces (to name) family port =
    let mark = if same_family family inet then b'.' else b':' in
    let named = (do
      any ← cpr_equal (to name) (to (b'*' ∷ 0 ∷ []))
      let texts = (do
        done ← try_text pton family mark name port
        if done.0 then some done else try_iface ifaces family name port done.1)
      if any then some (true, with_port (record zero_addr { family = family }) port) else texts) in
    if same_family family inet || same_family family inet6
    then (do first ← load name 0; if first == 0 then some (false, zero_addr) else named)
    else some (false, zero_addr)

-- `getaddrinfo` with the hints of a family and a type: the first address.
abbrev pub Resolve : Type 0
Resolve = List ℕ → Ptr (List ℕ) → Family → ℕ → Ptr Sockaddr

-- `cpr_gethost`: its result, and the address.
pub cpr_gethost : Resolve → Ptr (List ℕ) → Ptr (List ℕ) → Family → ℕ → Sockaddr → Bool × Sockaddr
unfolding copy_addr
cpr_gethost resolve null service family type store = (false, store)
cpr_gethost resolve (to host) service family type store =
    if same_family family inet || same_family family inet6
    then elim (resolve host service family type) [
      | null ↦ (false, store)
      | to a ↦ (true, copy_addr store a)
    ]
    else (false, store)
