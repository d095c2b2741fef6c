-- ===== src/Prelude/Prefix.antt =====
-- Prefixes of words, by recursion on both.
use Prim.Native.Nat.{ℕ, zero, suc, ◌+◌, ◌≤◌}
use mathlib.Core.Path.{◌≡◌, refl, ap₂}
use mathlib.Core.List.{List, [], ◌∷◌}
use native.Mathlib.Omega.{arith}
use acor.Prelude.Lists.{length, take}

module _ {A : Type 0} where
  abbrev pub IsPrefix : List A → List A → Type 0
  IsPrefix [] l = Unit
  IsPrefix (a ∷ p) [] = ⊥
  IsPrefix (a ∷ p) (b ∷ l) = (a ≡ b) × IsPrefix p l

module _ {A : Type 0} where
  pub IsPrefix-refl : (l : List A) → IsPrefix l l
  IsPrefix-refl [] = tt
  IsPrefix-refl (a ∷ l) = (refl, IsPrefix-refl l)

  pub IsPrefix-trans : (p q l : List A) → IsPrefix p q → IsPrefix q l → IsPrefix p l
  IsPrefix-trans [] q l h k = tt
  IsPrefix-trans (a ∷ p) [] l h k = elim h [ ]
  IsPrefix-trans (a ∷ p) (b ∷ q) [] h k = elim k [ ]
  IsPrefix-trans (a ∷ p) (b ∷ q) (c ∷ l) (e, h) (f, k) = (cc, IsPrefix-trans p q l h k)

  pub length-prefix : (p l : List A) → IsPrefix p l → length p ≤ length l
  length-prefix [] l h = omega arith
  length-prefix (a ∷ p) [] h = elim h [ ]
  length-prefix (a ∷ p) (b ∷ l) (e, h) = omega (arith, length-prefix p l h)

  -- Of two prefixes of one word the shorter is a prefix of the longer.
  pub IsPrefix-shorter :
      (p q l : List A) → IsPrefix p l → IsPrefix q l → length p ≤ length q → IsPrefix p q
  IsPrefix-shorter [] q l h k n = tt
  IsPrefix-shorter (a ∷ p) [] l h k n = absurd (omega arith)
  IsPrefix-shorter (a ∷ p) (b ∷ q) [] h k n = elim h [ ]
  IsPrefix-shorter (a ∷ p) (b ∷ q) (c ∷ l) (e, h) (f, k) n =
      (cc, IsPrefix-shorter p q l h k (omega arith))

  pub prefix_eq_of_length :
      (p q l : List A) → IsPrefix p l → IsPrefix q l → length p ≡ length q → p ≡ q
  prefix_eq_of_length [] [] l h k n = refl
  prefix_eq_of_length [] (b ∷ q) l h k n = absurd (omega arith)
  prefix_eq_of_length (a ∷ p) [] l h k n = absurd (omega arith)
  prefix_eq_of_length (a ∷ p) (b ∷ q) [] h k n = elim h [ ]
  prefix_eq_of_length (a ∷ p) (b ∷ q) (c ∷ l) (e, h) (f, k) n =
      ap₂ ◌∷◌ (cc) (prefix_eq_of_length p q l h k (omega arith))

  -- A prefix that is short enough does not notice that the rest is cut off.
  pub prefix_of_prefix-take : (n : ℕ) (p l : List A) → IsPrefix p (take n l) → IsPrefix p l
  prefix_of_prefix-take n [] l h = tt
  prefix_of_prefix-take zero (a ∷ p) l h = elim h [ ]
  prefix_of_prefix-take (suc n) (a ∷ p) [] h = elim h [ ]
  prefix_of_prefix-take (suc n) (a ∷ p) (b ∷ l) (e, h) = (e, prefix_of_prefix-take n p l h)

  pub prefix-take_of_prefix :
      (n : ℕ) (p l : List A) → length p ≤ n → IsPrefix p l → IsPrefix p (take n l)
  prefix-take_of_prefix n [] l k h = tt
  prefix-take_of_prefix zero (a ∷ p) l k h = absurd (omega arith)
  prefix-take_of_prefix (suc n) (a ∷ p) [] k h = elim h [ ]
  prefix-take_of_prefix (suc n) (a ∷ p) (b ∷ l) k (e, h) =
      (e, prefix-take_of_prefix n p l (omega arith) h)

-- A word read backwards, in front of `l`.
abbrev pub rev_onto : {A : Type 0} → List A → List A → List A
rev_onto [] l = l
rev_onto (c ∷ w) l = rev_onto w (c ∷ l)

abbrev pub backwards : {A : Type 0} → List A → List A
backwards w = rev_onto w []

pub length-rev_onto : {A : Type 0} (w l : List A) → length (rev_onto w l) ≡ length w + length l
length-rev_onto [] l = omega arith
length-rev_onto (c ∷ w) l = omega (arith, length-rev_onto w (c ∷ l))

pub nil_of_length : {A : Type 0} (w : List A) → length w ≡ 0 → w ≡ []
nil_of_length [] h = refl
nil_of_length (c ∷ w) h = absurd (omega arith)
