-- ===== src/Address/Port.antt =====
-- The port of the address that `cpr_getbind` makes.
use libcpr.Base.{
  ℕ, ◌≡◌, refl, sym, ap, ◌∙◌, Bool, true, false, Option, none, some, List, [], ◌∷◌, arith, ◌==◌,
  if◌then◌else◌, Ptr, null, to, store, load, ◌>>=◌, bind_cong,
}
use mathlib.Core.Path.{Path}
use libcpr.Strchar.{cpr_equal}
use libcpr.Socket.{Family, unspec, inet, inet6, other_family}
use libcpr.Address.{
  Sockaddr, zero_addr, Pton, cpr_addport, with_port, Iface, same_family, find_iface, copy_addr,
  try_text, try_iface, cpr_getbind,
}

same_family-inet6 : (f : Family) → same_family f inet6 ≡ true → f ≡ inet6
same_family-inet6 unspec h = ground arith
same_family-inet6 inet h = ground arith
same_family-inet6 inet6 h = refl
same_family-inet6 (other_family n) h = ground arith

-- What the interfaces give is of the family.
find_iface-inet6 :
    (list : List Iface) (name : List ℕ) (a : Sockaddr)
    → find_iface list inet6 name ≡ some (to a)
    → a.family ≡ inet6
unfolding find_iface
find_iface-inet6 [] name a h = ground arith
find_iface-inet6 (node ∷ list) name a h = first node.name node.addr (find_iface-inet6 list name a) h
  where
    first :
        (n : List ℕ) (addr : Ptr Sockaddr)
        → (find_iface list inet6 name ≡ some (to a) → a.family ≡ inet6)
        → find_iface (record { name = n; addr = addr } ∷ list) inet6 name ≡ some (to a)
        → a.family ≡ inet6
    first n null later h = later h
    first n (to b) later h = ground (arith, same_family-inet6 b.family)

with_port-inet6 : (store : Sockaddr) (p : ℕ) → store.family ≡ inet6 → with_port store p ≡ store
unfolding cpr_addport
with_port-inet6 store p h = rw h refl

copy_addr-family : (store a : Sockaddr) → a.family ≡ inet6 → (copy_addr store a).family ≡ inet6
unfolding copy_addr
copy_addr-family store a h = rw h refl

bind_agree :
    {A B : Type 0} (m : Option A) (f g : A → Option B)
    → ((a : A) → m ≡ some a → f a ≡ g a)
    → (m >>= f) ≡ (m >>= g)
bind_agree none f g h = refl
bind_agree (some a) f g h = h a refl

found_port :
    (store : Sockaddr) (a : Sockaddr) (p : ℕ)
    → a.family ≡ inet6
    → with_port (copy_addr store a) p ≡ copy_addr store a
found_port store a p h = with_port-inet6 (copy_addr store a) p (copy_addr-family store a h)

try_iface-port :
    (ifaces : Ptr (List Iface)) (name : List ℕ) (p q : ℕ) (store : Sockaddr)
    → try_iface ifaces inet6 name p store ≡ try_iface ifaces inet6 name q store
unfolding try_iface
try_iface-port null name p q store = refl
try_iface-port (to list) name p q store = bind_agree (find_iface list inet6 name) _ _ (λ found e.
    elim found
        as (λ found.
          (find_iface list inet6 name ≡ some found)
          → Path (Option (Bool × Sockaddr))
              (some (elim found [
                | null ↦ (false, store)
                | to a ↦ (true, with_port (copy_addr store a) p)
              ]))
              (some (elim found [
                | null ↦ (false, store)
                | to a ↦ (true, with_port (copy_addr store a) q)
              ]))) [
                | null ↦ λ e. refl
                | to a ↦ λ e.
                    let six = find_iface-inet6 list name a e in
                    ap (λ s. some (true, s))
                      (found_port store a p six ∙ sym (found_port store a q six))
              ]
      e)

-- For IPv6, `cpr_getbind` does the same whatever port it is given.
pub cpr_getbind-port :
    (pton : Pton) (ifaces : Ptr (List Iface)) (name : Ptr (List ℕ)) (p q : ℕ)
    → cpr_getbind pton ifaces name inet6 p ≡ cpr_getbind pton ifaces name inet6 q
unfolding cpr_getbind cpr_addport try_text
cpr_getbind-port pton ifaces null p q = refl
cpr_getbind-port pton ifaces (to name) p q = bind_cong (load name 0) _ _ (λ first.
    ap (λ r. if first == 0 then some (false, zero_addr) else r)
      (bind_cong (cpr_equal (to name) (to (b'*' ∷ 0 ∷ []))) _ _ (λ any.
        ap (λ r. if any then some (true, record zero_addr { family = inet6 }) else r)
          (bind_cong (try_text pton inet6 b':' name p) _ _ (λ done.
            ap (λ r. if done.0 then some done else r) (try_iface-port ifaces name p q done.1))))))
