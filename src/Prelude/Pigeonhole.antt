-- ===== src/Prelude/Pigeonhole.antt =====
-- A list without repetition whose entries are below `n` has at most `n` of them.
use Prim.Native.Nat.{ℕ, zero, suc, ◌+◌, ◌≤◌, ◌<◌}
use mathlib.Core.Path.{◌≡◌, refl}
use mathlib.Core.Logic.{◌≢◌, inl, inr}
use mathlib.Core.List.{List, [], ◌∷◌, ◌++◌}
use mathlib.Core.Option.{none, some}
use native.Mathlib.Omega.{arith}
use acor.Prelude.Tests.{◌==◌, if◌then◌else◌, Bool-cases}
use acor.Prelude.Lists.{length, get_elem?}
use acor.Prelude.Member.{Has, AllDistinct}

without : ℕ → List ℕ → List ℕ
without n [] = []
without n (x ∷ xs) = if x == n then without n xs else x ∷ without n xs

Has-without : (n a : ℕ) (l : List ℕ) → Has a (without n l) → (a ≢ n) × Has a l
unfolding without
Has-without n a [] h = elim h [ ]
Has-without n a (x ∷ xs) h = elim (Bool-cases (x == n)) [
  | inl e ↦ let (p, q) = Has-without n a xs (rw e at h) in (p, inr q)
  | inr e ↦ elim (rw e at h) [
    | inl q ↦ (λ r. ground arith, inl q)
    | inr q ↦ let (p, r) = Has-without n a xs q in (p, inr r)
  ]
]

AllDistinct-without : (n : ℕ) (l : List ℕ) → AllDistinct l → AllDistinct (without n l)
unfolding without
AllDistinct-without n [] h = tt
AllDistinct-without n (x ∷ xs) (new, h) = elim (Bool-cases (x == n)) [
  | inl e ↦ rw e (AllDistinct-without n xs h)
  | inr e ↦ rw e ((λ k. new (Has-without n x xs k).1, AllDistinct-without n xs h))
]

length-without_absent : (n : ℕ) (l : List ℕ) → ¬ Has n l → length (without n l) ≡ length l
unfolding without
length-without_absent n [] h = refl
length-without_absent n (x ∷ xs) h = elim (Bool-cases (x == n)) [
  | inl e ↦ let q : n ≡ x = ground arith in absurd (h (inl q))
  | inr e ↦ rw e (omega (arith, length-without_absent n xs (λ k. h (inr k))))
]

length-without : (n : ℕ) (l : List ℕ) → AllDistinct l → length l ≤ length (without n l) + 1
unfolding without
length-without n [] h = omega arith
length-without n (x ∷ xs) (new, h) = elim (Bool-cases (x == n)) [
  | inl e ↦
      let q : x ≡ n = ground arith in
      rw e (omega (arith, length-without_absent n xs (λ k. new (rw q k))))
  | inr e ↦ rw e (omega (arith, length-without n xs h))
]

pub pigeonhole : (n : ℕ) (l : List ℕ) → AllDistinct l → ((a : ℕ) → Has a l → a < n) → length l ≤ n
pigeonhole zero [] d h = omega arith
pigeonhole zero (x ∷ xs) d h = absurd (omega (arith, h x (inl refl)))
pigeonhole (suc n) l d h = omega (
  arith,
  length-without n l d,
  pigeonhole n (without n l) (AllDistinct-without n l d)
      (λ a k. let (p, q) = Has-without n a l k in omega (arith, h a q, p)),
)

pub get_elem?-append_here :
    {A : Type 0} (l r : List A) (a : A) → get_elem? (l ++ a ∷ r) (length l) ≡ some a
get_elem?-append_here [] r a = refl
get_elem?-append_here (x ∷ l) r a = get_elem?-append_here l r a

pub get_elem?-beyond : {A : Type 0} (l : List A) → get_elem? l (length l) ≡ none
get_elem?-beyond [] = refl
get_elem?-beyond (x ∷ l) = get_elem?-beyond l
