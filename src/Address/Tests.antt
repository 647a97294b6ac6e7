-- ===== src/Address/Tests.antt =====
-- Runs of the functions of address.c, and the theorems at concrete addresses.
use libcpr.Base.{
  ℕ, ◌≡◌, refl, true, some, List, [], ◌∷◌, ◌++◌, arith, length, replicate, ◌==◌, if◌then◌else◌,
  null, to, Malloc,
}
use libcpr.Strchar.{cpr_equal}
use libcpr.Socket.{inet, inet6}
use libcpr.Address.{
  Sockaddr, zero_addr, Pton, Ntop, has_char, cpr_addport, cpr_setaddr, cpr_getaddr, find_iface,
  cpr_getbind,
}
use libcpr.Address.Port.{cpr_getbind-port}
use libcpr.Address.Text.{IsMarked, with_colon, cpr_getaddr-setaddr}

-- The texts "1.2" and "::1" stand for what the C library reads and prints.
abbrev dots : List ℕ
dots = b'1' ∷ b'.' ∷ b'2' ∷ []

abbrev colons : List ℕ
colons = b':' ∷ b':' ∷ b'1' ∷ []

abbrev one : List ℕ
one = replicate 15 0 ++ (1 ∷ [])

abbrev reads : Pton
reads inet s = if length s == 4 then to (1 ∷ 0 ∷ 0 ∷ 2 ∷ []) else null
reads inet6 s = if length s == 4 then to one else null
reads _ s = null

abbrev prints : Ntop
prints inet bytes = to (dots ++ (0 ∷ []))
prints inet6 bytes = to (colons ++ (0 ∷ []))
prints _ bytes = null

abbrev heap : Malloc
heap size = to (replicate size 0xaa)

-- An IPv6 address that is bound gets no port; one that is set does.
bind_run :
    (cpr_getbind reads null (to (dots ++ (0 ∷ []))) inet 80
      ≡ some (true, record zero_addr { family = inet; port = 80; sin_addr = 1 ∷ 0 ∷ 0 ∷ 2 ∷ [] }))
    × (cpr_getbind reads null (to (colons ++ (0 ∷ []))) inet6 80
        ≡ some (true, record zero_addr { family = inet6; sin6_addr = one }))
unfolding cpr_getbind cpr_addport has_char cpr_equal
bind_run = (refl, refl)

set_run :
    cpr_setaddr reads (to zero_addr) (to (colons ++ (0 ∷ []))) 80
    ≡ some (inet6, to (record zero_addr { family = inet6; port = 80; sin6_addr = one }))
unfolding cpr_setaddr has_char
set_run = refl

-- The interface "lo" has no address at first, then one.
iface_run :
    cpr_getbind reads
      (to (
        record { name = b'l' ∷ 0 ∷ []; addr = null }
        ∷ record {
          name = b'l' ∷ 0 ∷ [];
          addr = to (record zero_addr { family = inet; sin_addr = 127 ∷ 0 ∷ 0 ∷ 1 ∷ [] });
        }
        ∷ []))
      (to (b'l' ∷ 0 ∷ []))
      inet
      80
    ≡ some (true, record zero_addr { family = inet; port = 80; sin_addr = 127 ∷ 0 ∷ 0 ∷ 1 ∷ [] })
unfolding cpr_getbind cpr_addport has_char cpr_equal find_iface
iface_run = refl

cpr_getbind-port_example :
    cpr_getbind reads null (to (colons ++ (0 ∷ []))) inet6 80
    ≡ cpr_getbind reads null (to (colons ++ (0 ∷ []))) inet6 443
cpr_getbind-port_example = cpr_getbind-port reads null (to (colons ++ (0 ∷ []))) 80 443

colons-IsMarked : IsMarked (colons ++ (0 ∷ [])) inet6
unfolding has_char
colons-IsMarked = with_colon refl refl

cpr_getaddr-setaddr_example :
    (after : Sockaddr) × (cpr_setaddr reads (to zero_addr) (to (colons ++ (0 ∷ []))) 80
      ≡ some (inet6, to after))
    × (after.port ≡ 80)
    × (cpr_getaddr heap prints (to after) ≡ some (to (colons ++ (0 ∷ []))))
cpr_getaddr-setaddr_example =
    cpr_getaddr-setaddr heap reads prints colons one (replicate 4 0xaa) 80 (ground arith)
      (omega arith) (omega arith) refl refl inet6 zero_addr colons-IsMarked refl refl
