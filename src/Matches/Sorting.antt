-- ===== src/Matches/Sorting.antt =====
-- The order of cmpLeftmostLongest, and that the sort of matches.go sorts and keeps the spans.
use acor.Prelude.{
  ◌≤◌, ◌<◌, ◌≡◌, refl, ◌⊎◌, inl, inr, true, false, List, [], ◌∷◌, arith, Bool-cases, Has,
}
use acor.Matches.{Match, is_less, is_sorted, insert, sort}

-- `a` may stand before `b`: it starts further left, or at the same place and ends no earlier.
abbrev pub Before : Match → Match → Type 0
Before a b = (a.start < b.start) ⊎ ((a.start ≡ b.start) × (b.end ≤ a.end))

abbrev pub IsSorted : List Match → Type 0
IsSorted [] = Unit
IsSorted (m ∷ ms) = ((x : Match) → Has x ms → Before m x) × IsSorted ms

less→Before : (a b : Match) → is_less a b ≡ true → Before a b
unfolding is_less
less→Before a b h = ground arith

not_less→Before : (a b : Match) → is_less b a ≡ false → Before a b
unfolding is_less
not_less→Before a b h = ground arith

Before-trans : (a b c : Match) → Before a b → Before b c → Before a c
Before-trans a b c h k = ground arith

Has-insert : (x m : Match) (ms : List Match) → Has x (insert m ms) → (x ≡ m) ⊎ Has x ms
unfolding insert
Has-insert x m [] h = h
Has-insert x m (y ∷ ms) h = ground (arith, Has-insert x m ms)

Has-insert_new : (m : Match) (ms : List Match) → Has m (insert m ms)
unfolding insert
Has-insert_new m [] = inl refl
Has-insert_new m (y ∷ ms) = ground (arith, Has-insert_new m ms)

Has-insert_old : (x m : Match) (ms : List Match) → Has x ms → Has x (insert m ms)
unfolding insert
Has-insert_old x m [] h = elim h [ ]
Has-insert_old x m (y ∷ ms) h = ground (arith, Has-insert_old x m ms)

pub Has-sort : (x : Match) (ms : List Match) → Has x (sort ms) → Has x ms
unfolding sort
Has-sort x [] h = h
Has-sort x (m ∷ ms) h = elim (Has-insert x m (sort ms) h) [
  | inl e ↦ inl e
  | inr k ↦ inr (Has-sort x ms k)
]

pub Has→Has-sort : (x : Match) (ms : List Match) → Has x ms → Has x (sort ms)
unfolding sort
Has→Has-sort x [] h = h
Has→Has-sort x (m ∷ ms) (inl e) = rw e (Has-insert_new m (sort ms))
Has→Has-sort x (m ∷ ms) (inr h) = Has-insert_old x m (sort ms) (Has→Has-sort x ms h)

insert-IsSorted : (m : Match) (ms : List Match) → IsSorted ms → IsSorted (insert m ms)
unfolding insert
insert-IsSorted m [] h = (λ x k. elim k [ ], tt)
insert-IsSorted m (y ∷ ms) h = elim (Bool-cases (is_less y m)) [
  | inl e ↦ rw e (
    λ x k. elim (Has-insert x m ms k) [ inl q ↦ rw q (less→Before y m e) | inr q ↦ h.0 x q ],
    insert-IsSorted m ms h.1,
  )
  | inr e ↦ rw e (
    λ x k. elim k [
      | inl q ↦ rw q (not_less→Before m y e)
      | inr q ↦ Before-trans m y x (not_less→Before m y e) (h.0 x q)
    ],
    h,
  )
]

pub sort-IsSorted : (ms : List Match) → IsSorted (sort ms)
unfolding sort
sort-IsSorted [] = tt
sort-IsSorted (m ∷ ms) = insert-IsSorted m (sort ms) (sort-IsSorted ms)

-- The cheap check that lets leftmostLongest skip the sort is right.
pub is_sorted→IsSorted : (ms : List Match) → is_sorted ms ≡ true → IsSorted ms
unfolding is_sorted
is_sorted→IsSorted [] h = tt
is_sorted→IsSorted (a ∷ []) h = (λ x k. elim k [ ], tt)
is_sorted→IsSorted (a ∷ b ∷ ms) h =
    let first : Before a b = not_less→Before a b (ground arith) in
    let tail_sorted : IsSorted (b ∷ ms) = is_sorted→IsSorted (b ∷ ms) (ground arith) in
    (
      λ x k. elim k [ inl q ↦ rw q first | inr q ↦ Before-trans a b x first (tail_sorted.0 x q) ],
      tail_sorted,
    )
