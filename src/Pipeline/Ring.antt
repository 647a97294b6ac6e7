-- ===== src/Pipeline/Ring.antt =====
-- The ring of a pipeline: when it is well formed, and what taking and adding a pointer does to it.
use native.Mathlib.Nat.{mod-eq_of_lt, mod-lt, mod-mod, mod-add-mod, add-mod_right}
use libcpr.Base.{
  ℕ, suc, ◌+◌, ◌-◌, ◌%◌, ◌≤◌, ◌<◌, ◌≡◌, sym, ap, ap₂, ◌∙◌, some, List, [], ◌∷◌, ◌++◌, arith, length,
  set, get_or, length-set, get_elem?-eq-get_or, get_or-set_self, load,
}
use libcpr.Pipeline.{Pipeline}
use libcpr.Pipeline.Slots.{slots, slots-mod, slots-set, slots_snoc}

pub record IsValid (pl : Pipeline) : Type 0 where
  pub room : pl.size ≤ length pl.buf
  pub some_size : 0 < pl.size
  pub head_in : pl.head < pl.size
  pub count_in : pl.count ≤ pl.size
  pub tail_at : pl.tail ≡ (pl.head + pl.count) % pl.size

-- The pointers in the pipeline, the oldest first.
abbrev pub contents : Pipeline → List ℕ
contents pl = slots pl.size pl.buf pl.head pl.count

-- What no pass changes.
abbrev pub SameSetup : Pipeline → Pipeline → Type 0
SameSetup pl after =
    (after.policy ≡ pl.policy) × (after.size ≡ pl.size) × (after.closed ≡ pl.closed)

-- A pipeline with the oldest pointer taken out: the slot may have been cleared.
abbrev pub advance : Pipeline → List ℕ → Pipeline
advance pl buf = record pl { buf = buf; head = (pl.head + 1) % pl.size; count = pl.count - 1 }

abbrev pub pushed : Pipeline → ℕ → Pipeline
pushed pl ptr = record pl {
  buf = set pl.buf pl.tail ptr;
  tail = (pl.tail + 1) % pl.size;
  count = pl.count + 1;
}

module _ (pl : Pipeline) (v : IsValid pl) where
  open pl use {head, tail, count, size, buf}

  pub tail_in : tail < size
  tail_in = grind (arith, v.tail_at, v.some_size)

  pub head_slot : load buf head ≡ some (get_or buf (head % size) 0)
  head_slot =
      let e : head % size ≡ head = mod-eq_of_lt v.head_in in
      rw e (get_elem?-eq-get_or buf head 0 (omega (arith, v.room, v.head_in)))

  pub advance-IsValid :
      (out : List ℕ) → length out ≡ length buf → 0 < count → IsValid (advance pl out)
  advance-IsValid out same some_left = record {
    room = omega (arith, v.room);
    some_size = v.some_size;
    head_in = mod-lt (head + 1) v.some_size;
    count_in = omega (arith, v.count_in);
    tail_at =
        v.tail_at
        ∙ ap (λ k. k % size) (omega arith)
        ∙ sym (mod-add-mod (head + 1) size (count - 1));
  }

  -- Taking the oldest pointer leaves the others.
  pub contents-advance :
      0 < count → contents pl ≡ get_or buf (head % size) 0 ∷ contents (advance pl buf)
  contents-advance some_left =
      let e : count ≡ suc (count - 1) = omega arith in
      ap (slots size buf head) e
      ∙ ap (λ l. get_or buf (head % size) 0 ∷ l)
          (slots-mod size buf (suc head) ((head + 1) % size) (count - 1)
            (ap (λ k. k % size) (omega arith) ∙ sym (mod-mod (head + 1) size)) v.some_size)

  -- The slot that is left is behind the others, so clearing it changes none of them.
  pub contents-clear :
      0 < count → contents (advance pl (set buf head 0)) ≡ contents (advance pl buf)
  contents-clear some_left =
      ap (λ i. slots size (set buf i 0) ((head + 1) % size) (count - 1)) behind
      ∙ slots-set size buf ((head + 1) % size) (count - 1) (size - 1) 0 (omega (arith, v.count_in))
          (omega (arith, v.some_size))
    where
      behind : head ≡ ((head + 1) % size + (size - 1)) % size
      behind =
          sym (mod-eq_of_lt v.head_in)
          ∙ sym (add-mod_right head size)
          ∙ ap (λ k. k % size) (omega (arith, v.some_size))
          ∙ sym (mod-add-mod (head + 1) size (size - 1))

  pub pushed-IsValid : (ptr : ℕ) → count < size → IsValid (pushed pl ptr)
  pushed-IsValid ptr space = record {
    room = omega (arith, v.room, length-set buf tail ptr);
    some_size = v.some_size;
    head_in = v.head_in;
    count_in = omega arith;
    tail_at =
        ap (λ t. (t + 1) % size) v.tail_at
        ∙ mod-add-mod (head + count) size 1
        ∙ ap (λ k. k % size) (omega arith);
  }

  -- Writing to the tail puts a pointer behind the others.
  pub contents-pushed :
      (ptr : ℕ) → count < size → contents (pushed pl ptr) ≡ contents pl ++ (ptr ∷ [])
  contents-pushed ptr space =
      let e : count + 1 ≡ suc count = omega arith in
      ap (slots size (set buf tail ptr) head) e
      ∙ slots_snoc size (set buf tail ptr) head count
      ∙ ap₂ (λ l x. l ++ (x ∷ []))
          (ap (λ i. slots size (set buf i ptr) head count) v.tail_at
            ∙ slots-set size buf head count count ptr (omega arith) space)
          (ap (λ i. get_or (set buf tail ptr) i 0) (sym v.tail_at)
            ∙ get_or-set_self buf tail ptr 0 (omega (arith, v.room, tail_in)))
