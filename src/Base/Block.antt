-- ===== src/Base/Block.antt =====
-- A block of memory is the list of its bytes. An access outside it is undefined in C: the result
-- is `none`. A pointer argument that the code compares with NULL is a `Ptr`; a pointer into a
-- block, `p + n`, is the part of the block from there on.
use Prim.Native.Nat.{ℕ, suc, ◌+◌, ◌-◌, ◌*◌, ◌/◌, ◌%◌, ◌^◌, ◌<◌}
use mathlib.Core.Path.{◌≡◌, refl, ap}
use mathlib.Core.Bool.{◌&&◌}
use mathlib.Core.Option
use mathlib.Core.Option.{Option, none, some}
use mathlib.Core.List.{List, [], ◌∷◌, ◌++◌, append_assoc}
use native.Mathlib.Omega.{arith}
use libcpr.Base.Tests.{ltb, leb, ◌==◌, if◌then◌else◌, lt→ltb}
use libcpr.Base.Lists.{length, get_elem?, set, take, drop, length-append}

pub length-lt-append :
    (pre : List ℕ) (x : ℕ) (rest : List ℕ) → length pre < length (pre ++ (x ∷ rest))
length-lt-append pre x rest = omega (arith, length-append pre (x ∷ rest))

pub set-append :
    (pre : List ℕ) (x : ℕ) (rest : List ℕ) (v : ℕ)
    → set (pre ++ (x ∷ rest)) (length pre) v ≡ pre ++ (v ∷ rest)
set-append [] x rest v = refl
set-append (y ∷ pre) x rest v = ap (λ l. y ∷ l) (set-append pre x rest v)

pub data Ptr {ℓ} (A : Type ℓ) : Type ℓ where
  null : Ptr A
  to : A → Ptr A

infixl 5 ◌>>=◌
abbrev pub ◌>>=◌ {ℓ κ} : {A : Type ℓ} {B : Type κ} → Option A → (A → Option B) → Option B
none >>= f = none
some a >>= f = f a

abbrev pub load : List ℕ → ℕ → Option ℕ
load block i = get_elem? block i

abbrev pub store : List ℕ → ℕ → ℕ → Option (List ℕ)
store block i v = if ltb i (length block) then some (set block i v) else none

-- The casts to the unsigned types; `size_t` has 64 bits.
abbrev pub u8 : ℕ → ℕ
u8 x = x % 2 ^ 8

abbrev pub u16 : ℕ → ℕ
u16 x = x % 2 ^ 16

abbrev pub u32 : ℕ → ℕ
u32 x = x % 2 ^ 32

abbrev pub u64 : ℕ → ℕ
u64 x = x % 2 ^ 64

infixl 75 ◌<<<◌ ◌>>>◌
abbrev pub ◌<<<◌ : ℕ → ℕ → ℕ
x <<< k = x * 2 ^ k

abbrev pub ◌>>>◌ : ℕ → ℕ → ℕ
x >>> k = x / 2 ^ k

abbrev pub IsByte : ℕ → Type 0
IsByte b = b < 256

-- `malloc`: NULL, or a block of the size asked for, with any contents.
abbrev pub Malloc : Type 0
Malloc = ℕ → Ptr (List ℕ)

abbrev pub IsBlock : ℕ → Ptr (List ℕ) → Type 0
IsBlock size null = Unit
IsBlock size (to block) = length block ≡ size

abbrev pub IsMalloc : Malloc → Type 0
IsMalloc malloc = (size : ℕ) → IsBlock size (malloc size)

-- `memcpy` of the C library.
abbrev pub memcpy : List ℕ → List ℕ → ℕ → Option (List ℕ)
memcpy dst src n =
    if leb n (length dst) && leb n (length src) then some (take n src ++ drop n dst) else none

-- `strchr` of the C library: how far the first such byte is, the terminator included.
unfoldable pub strchr : List ℕ → ℕ → Option ℕ
strchr [] c = none
strchr (x ∷ xs) c = if x == c then some 0 else if x == 0 then none else Option.map suc (strchr xs c)

-- A store just behind a prefix.
pub store-append :
    (pre : List ℕ) (x : ℕ) (rest : List ℕ) (v : ℕ)
    → store (pre ++ (x ∷ rest)) (length pre) v ≡ some (pre ++ (v ∷ rest))
store-append pre x rest v = rw (lt→ltb _ _ (length-lt-append pre x rest), set-append pre x rest v)

pub store-append_at :
    (pos : ℕ) (pre : List ℕ) (x : ℕ) (rest : List ℕ) (v : ℕ)
    → pos ≡ length pre
    → store (pre ++ (x ∷ rest)) pos v ≡ some (pre ++ (v ∷ rest))
store-append_at pos pre x rest v e = rw e (store-append pre x rest v)

pub store-append_next :
    (pre : List ℕ) (a x : ℕ) (rest : List ℕ) (v : ℕ)
    → store (pre ++ (a ∷ x ∷ rest)) (length pre + 1) v ≡ some (pre ++ (a ∷ v ∷ rest))
store-append_next pre a x rest v =
    rw (← append_assoc pre (a ∷ []) (x ∷ rest), ← append_assoc pre (a ∷ []) (v ∷ rest))
      (store-append_at _ (pre ++ (a ∷ [])) x rest v (omega (arith, length-append pre (a ∷ []))))

pub load-append :
    (pre : List ℕ) (x : ℕ) (rest : List ℕ) → load (pre ++ (x ∷ rest)) (length pre) ≡ some x
load-append [] x rest = refl
load-append (y ∷ pre) x rest = load-append pre x rest

-- `memmove` of the C library to the start of a block, from `start` on.
abbrev pub memmove : List ℕ → ℕ → ℕ → Option (List ℕ)
memmove block start n =
    if leb (start + n) (length block)
    then some (take n (drop start block) ++ drop n block)
    else none

-- The bytes that a call of the system leaves in a block at `pos`.
abbrev pub store_bytes : List ℕ → ℕ → List ℕ → Option (List ℕ)
store_bytes block pos bytes =
    if leb (pos + length bytes) (length block)
    then some (take pos block ++ (bytes ++ drop (pos + length bytes) block))
    else none

-- `vsnprintf` of the C library to `pos`, where `text` is what the format makes: as much of it as
-- `size`, which is not 0, has room for, and a terminator.
abbrev pub vsnprintf : List ℕ → ℕ → ℕ → List ℕ → Option (List ℕ)
vsnprintf block pos size text = store_bytes block pos (take (size - 1) text ++ (0 ∷ []))

-- `do` blocks that agree on what the first part gives.
pub bind_cong :
    {A B : Type 0} (m : Option A) (f g : A → Option B)
    → ((a : A) → f a ≡ g a)
    → (m >>= f) ≡ (m >>= g)
bind_cong none f g h = refl
bind_cong (some a) f g h = h a
