-- ===== src/Prelude/Member.antt =====
-- Membership as a predicate by recursion, which computes to a sum, and its Boolean test over words.
use Prim.Native.Nat.{ℕ}
use mathlib.Core.Path.{◌≡◌, refl}
use mathlib.Core.Logic.{◌↔◌, ◌⊎◌, inl, inr}
use mathlib.Core.Bool.{Bool, true, false, ◌&&◌, ◌||◌}
use mathlib.Core.List.{List, [], ◌∷◌, ◌++◌}
use native.Mathlib.Omega.{arith}
use acor.Prelude.Tests.{◌==◌, Bool-cases}

module _ {A : Type 0} where
  abbrev pub Has : A → List A → Type 0
  Has a [] = ⊥
  Has a (x ∷ xs) = (a ≡ x) ⊎ Has a xs

module _ {A : Type 0} where
  pub Has-append_left : (a : A) (xs ys : List A) → Has a xs → Has a (xs ++ ys)
  Has-append_left a [] ys h = elim h [ ]
  Has-append_left a (x ∷ xs) ys (inl e) = inl e
  Has-append_left a (x ∷ xs) ys (inr h) = inr (Has-append_left a xs ys h)

  pub Has-append_right : (a : A) (xs ys : List A) → Has a ys → Has a (xs ++ ys)
  Has-append_right a [] ys h = h
  Has-append_right a (x ∷ xs) ys h = inr (Has-append_right a xs ys h)

  pub Has-append_inv : (a : A) (xs ys : List A) → Has a (xs ++ ys) → Has a xs ⊎ Has a ys
  Has-append_inv a [] ys h = inr h
  Has-append_inv a (x ∷ xs) ys (inl e) = inl (inl e)
  Has-append_inv a (x ∷ xs) ys (inr h) = elim (Has-append_inv a xs ys h) [
    | inl k ↦ inl (inr k)
    | inr k ↦ inr k
  ]

-- No entry stands twice.
abbrev pub AllDistinct : {A : Type 0} → List A → Type 0
AllDistinct [] = Unit
AllDistinct (x ∷ xs) = (¬ Has x xs) × AllDistinct xs

pub AllDistinct-append :
    {A : Type 0} (xs ys : List A)
    → AllDistinct xs
    → AllDistinct ys
    → ((a : A) → Has a xs → ¬ Has a ys)
    → AllDistinct (xs ++ ys)
AllDistinct-append [] ys hx hy apart = hy
AllDistinct-append (x ∷ xs) ys (new, hx) hy apart = (
  λ h. elim (Has-append_inv x xs ys h) [ inl k ↦ new k | inr k ↦ apart x (inl refl) k ],
  AllDistinct-append xs ys hx hy (λ a k. apart a (inr k)),
)

-- A string, read as the sequence of its code units (the comment at each use says which).
abbrev pub Word : Type 0
Word = List ℕ

unfoldable pub word_eq : Word → Word → Bool
word_eq [] [] = true
word_eq (a ∷ v) (b ∷ w) = a == b && word_eq v w
word_eq _ _ = false

word_eq→eq : (v w : Word) → word_eq v w ≡ true → v ≡ w
unfolding word_eq
word_eq→eq [] [] h = refl
word_eq→eq [] (b ∷ w) h = cc
word_eq→eq (a ∷ v) [] h = cc
word_eq→eq (a ∷ v) (b ∷ w) h = ground (arith, word_eq→eq v w)

word_eq_refl : (v : Word) → word_eq v v ≡ true
unfolding word_eq
word_eq_refl [] = refl
word_eq_refl (a ∷ v) = ground (arith, word_eq_refl v)

eq→word_eq : (v w : Word) → v ≡ w → word_eq v w ≡ true
eq→word_eq v w e = rw e (word_eq_refl w)

pub word_eq_iff : (v w : Word) → (word_eq v w ≡ true) ↔ (v ≡ w)
word_eq_iff v w = (word_eq→eq v w, eq→word_eq v w)

-- The membership test of a Go set of strings.
unfoldable pub has_word : Word → List Word → Bool
has_word v [] = false
has_word v (w ∷ ws) = word_eq v w || has_word v ws

has_word-Has : (v : Word) (ws : List Word) → has_word v ws ≡ true → Has v ws
unfolding has_word
has_word-Has v [] h = cc
has_word-Has v (w ∷ ws) h = elim (Bool-cases (word_eq v w)) [
  | inl e ↦ inl (word_eq→eq v w e)
  | inr e ↦ inr (has_word-Has v ws (ground arith))
]

Has→has_word : (v : Word) (ws : List Word) → Has v ws → has_word v ws ≡ true
unfolding has_word
Has→has_word v [] h = elim h [ ]
Has→has_word v (w ∷ ws) (inl e) = ground (arith, eq→word_eq v w e)
Has→has_word v (w ∷ ws) (inr h) = ground (arith, Has→has_word v ws h)

pub has_word_iff : (v : Word) (ws : List Word) → (has_word v ws ≡ true) ↔ Has v ws
has_word_iff v ws = (has_word-Has v ws, Has→has_word v ws)
