-- ===== src/Multicast/Tests.antt =====
-- Runs of the functions of multicast.c, and the theorems at a concrete system.
use libcpr.Base.{
  arith, ℕ, ◌≡◌, refl, Bool, true, false, some, List, [], ◌∷◌, replicate, null, to, pos, negsuc,
}
use libcpr.Strchar.{cpr_equal}
use libcpr.Socket.{inet}
use libcpr.Address.{Sockaddr, zero_addr}
use libcpr.Multicast.{
  Interface, Os, serves, find_multicast, makes, exits, cleared, leave, fine, ebadf, eai_family,
  make_multicast, change_multicast, bind_multicast, open_multicast, join_multicast, drop_multicast,
}
use libcpr.Strchar.Length.{IsText}
use libcpr.Multicast.Ways.{AllListed, ip4}
use libcpr.Multicast.Member.{IsRequested, change_multicast_lem}

abbrev local_addr : List ℕ
local_addr = 10 ∷ 0 ∷ 0 ∷ 7 ∷ []

abbrev en0 : List ℕ
en0 = b'e' ∷ b'n' ∷ 0 ∷ []

-- An interface without multicast, and one with it.
abbrev ethernet : Interface
ethernet = record {
  name = en0;
  multicast = true;
  addr = to (record zero_addr { family = inet; sin_addr = local_addr });
}

abbrev interfaces : List Interface
interfaces = record ethernet { multicast = false } ∷ ethernet ∷ []

-- A system where everything is done, but for the second socket option.
abbrev system : Bool → Os
system sends = record {
  getifaddrs = to interfaces;
  socket = λ family. to 5;
  reuse = λ sock. true;
  bind = λ sock family port. true;
  multicast_if = λ sock family bytes. sends;
  membership = λ sock change family bytes. null;
  if_nametoindex = λ name. 2 ∷ 0 ∷ 0 ∷ 0 ∷ [];
}

abbrev kept : List ℕ
kept = 0 ∷ 0 ∷ 0 ∷ 0 ∷ 10 ∷ 0 ∷ 0 ∷ 7 ∷ replicate 12 0

made_run : make_multicast (system true) en0 inet 5000 ≡ some (makes 5, kept)
unfolding make_multicast find_multicast serves open_multicast bind_multicast cpr_equal
made_run = refl

-- The first interface has the name and an address, but no multicast.
without_run : find_multicast (record ethernet { multicast = false } ∷ []) en0 inet ≡ some []
unfolding find_multicast serves cpr_equal
without_run = refl

exit_run : make_multicast (system false) en0 inet 5000 ≡ some (exits 6, kept)
unfolding make_multicast find_multicast serves open_multicast bind_multicast cpr_equal
exit_run = refl

lost_run : make_multicast (system true) (b'e' ∷ 0 ∷ []) inet 5000 ≡ some (exits 2, cleared)
unfolding make_multicast find_multicast serves open_multicast bind_multicast cpr_equal
lost_run = refl

abbrev group : Sockaddr
group = record zero_addr { family = inet; sin_addr = 239 ∷ 0 ∷ 0 ∷ 1 ∷ [] }

join_run :
    (join_multicast (system true) kept (pos 5) group
      ≡ some (fine, to (inet, 239 ∷ 0 ∷ 0 ∷ 1 ∷ 10 ∷ 0 ∷ 0 ∷ 7 ∷ [])))
    × (drop_multicast (system true) kept (negsuc 0) group ≡ some (ebadf, null))
    × (drop_multicast (system true) kept (pos 5) zero_addr ≡ some (eai_family, null))
unfolding change_multicast
join_run = (refl, refl, refl)

-- The text of a name, and the interfaces as they are listed.
abbrev en0_text : List ℕ
en0_text = b'e' ∷ b'n' ∷ []

en0-IsText : IsText en0_text
en0-IsText = (ground arith, (ground arith, _))

interfaces-AllListed : AllListed (to interfaces)
interfaces-AllListed =
    let name = en0-IsText in
    (
      (record { text = en0_text; rest = []; is_name = refl; is_text = name }, refl),
      ((record { text = en0_text; rest = []; is_name = refl; is_text = name }, refl), _),
    )

-- An interface of another name is passed over, though it has multicast and an address.
abbrev others : Os
others = record (system true) {
  getifaddrs = to (
      record ethernet {
        name = b'l' ∷ b'o' ∷ 0 ∷ [];
        addr = to (record zero_addr { family = inet; sin_addr = 127 ∷ 0 ∷ 0 ∷ 1 ∷ [] });
      }
      ∷ interfaces);
}

others_run : make_multicast others en0 inet 5000 ≡ some (makes 5, kept)
unfolding make_multicast find_multicast serves open_multicast bind_multicast cpr_equal
others_run = refl

change_multicast_lem_example : IsRequested leave (system true) en0_text inet kept 5 group
change_multicast_lem_example =
    change_multicast_lem leave (system true) en0_text inet 5000 5 kept 5 group ip4 en0-IsText
      interfaces-AllListed refl made_run refl refl
