-- ===== src/Pipeline/Slots.antt =====
-- The slots of a circular buffer, from an index that is taken modulo the size.
use native.Mathlib.Nat.{mod-add-mod}
use libcpr.Base.{
  ℕ, zero, suc, ◌+◌, ◌%◌, ◌≤◌, ◌<◌, ◌≡◌, ◌≢◌, refl, sym, ap, ap₂, ◌∙◌, List, [], ◌∷◌, ◌++◌, arith,
  length, set, get_or, get_or-set_ne,
}

pub mod_ne : (size h d : ℕ) → 0 < d → d < size → (h + d) % size ≢ h % size
mod_ne size h d p l = grind arith

pub mod_shift : (size h : ℕ) → 0 < size → suc (h % size) % size ≡ suc h % size
mod_shift size h p =
    ap (λ k. k % size) (omega arith) ∙ mod-add-mod h size 1 ∙ ap (λ k. k % size) (omega arith)

module _ (size : ℕ) where
  -- The contents of `n` slots, where slot `h` is at index `h % size`.
  abbrev pub slots : List ℕ → ℕ → ℕ → List ℕ
  slots buf h zero = []
  slots buf h (suc n) = get_or buf (h % size) 0 ∷ slots buf (suc h) n

  pub length-slots : (buf : List ℕ) (h n : ℕ) → length (slots buf h n) ≡ n
  length-slots buf h zero = refl
  length-slots buf h (suc n) = ap suc (length-slots buf (suc h) n)

  -- Only the index modulo the size counts.
  pub slots-mod :
      (buf : List ℕ) (h h' n : ℕ) → h % size ≡ h' % size → 0 < size → slots buf h n ≡ slots buf h' n
  slots-mod buf h h' zero e p = refl
  slots-mod buf h h' (suc n) e p = ap₂ ◌∷◌ (ap (λ i. get_or buf i 0) e) (
      slots-mod buf (suc h) (suc h') n
        (sym (mod_shift size h p) ∙ ap (λ i. suc i % size) e ∙ mod_shift size h' p) p)

  -- A slot behind the window is written.
  pub slots-set :
      (buf : List ℕ) (h n d v : ℕ)
      → n ≤ d
      → d < size
      → slots (set buf ((h + d) % size) v) h n ≡ slots buf h n
  slots-set buf h zero d v le lt = refl
  slots-set buf h (suc n) zero v le lt = absurd (omega arith)
  slots-set buf h (suc n) (suc d) v le lt =
      let e : h + suc d ≡ suc h + d = omega arith in
      ap₂ ◌∷◌
        (get_or-set_ne buf ((h + suc d) % size) (h % size) v 0
          (mod_ne size h (suc d) (omega arith) lt))
        (ap (λ i. slots (set buf (i % size) v) (suc h) n) e
          ∙ slots-set buf (suc h) n d v (omega arith) (omega arith))

  pub slots_snoc :
      (buf : List ℕ) (h n : ℕ)
      → slots buf h (suc n) ≡ slots buf h n ++ (get_or buf ((h + n) % size) 0 ∷ [])
  slots_snoc buf h zero = let e : h + 0 ≡ h = omega arith in rw e refl
  slots_snoc buf h (suc n) =
      let e : h + suc n ≡ suc h + n = omega arith in
      rw e (ap (λ l. get_or buf (h % size) 0 ∷ l) (slots_snoc buf (suc h) n))
