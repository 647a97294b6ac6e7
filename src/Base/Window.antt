-- ===== src/Base/Window.antt =====
-- A window of a list: `n` items from `start` on. What writes do to it.
use Prim.Native.Nat.{ℕ, zero, suc, ◌+◌, ◌≤◌}
use mathlib.Core.Path.{◌≡◌, refl, ap}
use mathlib.Core.List.{List, [], ◌∷◌, ◌++◌}
use native.Mathlib.Omega.{arith}
use libcpr.Base.Lists.{length, set, take, drop, length-take, length-drop, take_append}

module _ {ℓ} {A : Type ℓ} where
  abbrev pub window : List A → ℕ → ℕ → List A
  window xs start n = take n (drop start xs)

  pub length-window :
      (xs : List A) (start n : ℕ) → start + n ≤ length xs → length (window xs start n) ≡ n
  length-window xs start n h = omega (arith, length-take n (drop start xs), length-drop start xs)

  -- A write behind the window.
  pub window-set :
      (xs : List A) (start n i : ℕ) (v : A)
      → start + n ≤ i
      → window (set xs i v) start n ≡ window xs start n
  window-set [] start n i v h = refl
  window-set (x ∷ xs) zero zero i v h = refl
  window-set (x ∷ xs) zero (suc n) zero v h = absurd (omega arith)
  window-set (x ∷ xs) zero (suc n) (suc i) v h =
      ap (λ l. x ∷ l) (window-set xs zero n i v (omega arith))
  window-set (x ∷ xs) (suc start) n zero v h = absurd (omega arith)
  window-set (x ∷ xs) (suc start) n (suc i) v h = window-set xs start n i v (omega arith)

  -- Items written at the end of the window.
  pub window-write :
      (xs ys rest : List A) (start n end : ℕ)
      → end ≡ start + n
      → end ≤ length xs
      → window (take end xs ++ (ys ++ rest)) start (n + length ys) ≡ window xs start n ++ ys
  window-write xs ys rest zero zero zero e h =
      let same : 0 + length ys ≡ length ys = omega arith in rw same (take_append ys rest)
  window-write [] ys rest start n (suc end) e h = absurd (omega arith)
  window-write (x ∷ xs) ys rest zero (suc n) (suc end) e h =
      let more : suc n + length ys ≡ suc (n + length ys) = omega arith in
      rw more (ap (λ l. x ∷ l) (window-write xs ys rest zero n end (omega arith) (omega arith)))
  window-write (x ∷ xs) ys rest (suc start) n (suc end) e h =
      window-write xs ys rest start n end (omega arith) (omega arith)
  window-write xs ys rest zero zero (suc end) e h = absurd (omega arith)
  window-write xs ys rest zero (suc n) zero e h = absurd (omega arith)
  window-write xs ys rest (suc start) n zero e h = absurd (omega arith)

  pub take_all : (n : ℕ) (xs ys : List A) → n ≡ length xs → take n (xs ++ ys) ≡ xs
  take_all n xs ys e = rw e (take_append xs ys)

  window-nil : (start n : ℕ) → window ([]) start n ≡ []
  window-nil zero zero = refl
  window-nil zero (suc n) = refl
  window-nil (suc start) zero = refl
  window-nil (suc start) (suc n) = refl

  -- A window splits at any place.
  pub window_split :
      (xs : List A) (start n k whole middle : ℕ)
      → whole ≡ n + k
      → middle ≡ start + n
      → window xs start whole ≡ window xs start n ++ window xs middle k
  window_split [] start n k whole middle e f =
      rw (window-nil start whole, window-nil start n, window-nil middle k) refl
  window_split (x ∷ xs) zero zero k whole middle e f =
      let same : whole ≡ k = omega arith in
      let first : middle ≡ 0 = omega arith in rw (same, first) refl
  window_split (x ∷ xs) zero (suc n) k (suc whole) (suc middle) e f =
      ap (λ l. x ∷ l) (window_split xs zero n k whole middle (omega arith) (omega arith))
  window_split (x ∷ xs) zero (suc n) k zero middle e f = absurd (omega arith)
  window_split (x ∷ xs) zero (suc n) k (suc whole) zero e f = absurd (omega arith)
  window_split (x ∷ xs) (suc start) n k whole (suc middle) e f =
      window_split xs start n k whole middle e (omega arith)
  window_split (x ∷ xs) (suc start) n k whole zero e f = absurd (omega arith)
