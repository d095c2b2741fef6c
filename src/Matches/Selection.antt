-- ===== src/Matches/Selection.antt =====
-- leftmostLongest: what it keeps, what it drops, and why.
use acor.Prelude.{
  ℕ, ◌≤◌, ◌<◌, ◌≡◌, refl, ◌⊎◌, inl, inr, false, List, [], ◌∷◌, arith, leb, if◌then◌else◌,
  Bool-cases, length, Has,
}
use acor.Matches.{Match, is_sorted, sort, select, leftmost_longest}
use acor.Matches.Sorting.{
  Before, IsSorted, Has-sort, Has→Has-sort, sort-IsSorted, is_sorted→IsSorted,
}

-- The spans follow one another from `e` on without overlap.
abbrev pub IsSpread : ℕ → List Match → Type 0
IsSpread e [] = Unit
IsSpread e (m ∷ ms) = (e ≤ m.start) × IsSpread m.end ms

-- `k` starts inside or at the start of `m`'s reach: `m` begins within `k`, not before it, and where
-- both begin together `k` is at least as long.
abbrev pub Covers : Match → Match → Type 0
Covers k m = (k.start ≤ m.start) × (m.start < k.end) × (k.start ≡ m.start → m.end ≤ k.end)

abbrev pub IsNonempty : Match → Type 0
IsNonempty m = m.start < m.end

select-IsSpread : (e : ℕ) (ms : List Match) → IsSpread e (select e ms)
unfolding select
select-IsSpread e [] = tt
select-IsSpread e (m ∷ ms) = ground (arith, select-IsSpread e ms, select-IsSpread m.end ms)

Has-select : (k : Match) (e : ℕ) (ms : List Match) → Has k (select e ms) → Has k ms
unfolding select
Has-select k e [] h = h
Has-select k e (m ∷ ms) h = ground (arith, Has-select k e ms, Has-select k m.end ms)

Before→Covers : (k m : Match) → Before k m → m.start < k.end → Covers k m
Before→Covers k m b h = ground arith

-- A span that is not kept starts before `e` or inside a kept one that comes before it.
select-Covers :
    (e : ℕ) (ms : List Match)
    → IsSorted ms
    → ((m : Match) → Has m ms → IsNonempty m)
    → (m : Match) → Has m ms
    → (m.start < e) ⊎ ((k : Match) × Has k (select e ms) × Covers k m)
unfolding select
select-Covers e [] s n m h = elim h [ ]
select-Covers e (x ∷ ms) s n m (inl q) = elim (Bool-cases (leb e x.start)) [
  | inl t ↦
      rw (t, q) (inr (x, inl refl, Before→Covers x x (inr (refl, omega arith)) (n x (inl refl))))
  | inr t ↦ rw q (inl (ground arith))
]
select-Covers e (x ∷ ms) s n m (inr h) = elim (Bool-cases (leb e x.start)) [
  | inl t ↦ rw t (elim (select-Covers x.end ms s.1 (λ y k. n y (inr k)) m h) [
    | inl q ↦ inr (x, inl refl, Before→Covers x m (s.0 m h) q)
    | inr (k, hk, c) ↦ inr (k, inr hk, c)
  ])
  | inr t ↦ rw t (select-Covers e ms s.1 (λ y k. n y (inr k)) m h)
]

-- What leftmostLongest promises: what it keeps is taken from `ms`, does not overlap and is in text
-- order, and every span of `ms` is covered by a kept one.
pub record IsSelection (ms out : List Match) : Type 0 where
  pub spread : IsSpread 0 out
  pub taken : (k : Match) → Has k out → Has k ms
  pub covered : (m : Match) → Has m ms → (k : Match) × Has k out × Covers k m

module _ (ms : List Match) (nonempty : (m : Match) → Has m ms → IsNonempty m) where
  -- For a sorted rearrangement `l` of `ms`, which the loop runs over.
  select-IsSelection :
      (l : List Match)
      → IsSorted l
      → ((x : Match) → Has x l → Has x ms)
      → ((x : Match) → Has x ms → Has x l)
      → IsSelection ms (select 0 l)
  select-IsSelection l s back forth = record {
    spread = select-IsSpread 0 l;
    taken = λ k h. back k (Has-select k 0 l h);
    covered = λ m h. elim (select-Covers 0 l s (λ x k. nonempty x (back x k)) m (forth m h)) [
      | inl q ↦ absurd (omega arith)
      | inr found ↦ found
    ];
  }

  several-IsSelection : IsSelection ms (select 0 (if is_sorted ms then ms else sort ms))
  several-IsSelection = elim (Bool-cases (is_sorted ms)) [
    | inl e ↦ rw e (select-IsSelection ms (is_sorted→IsSorted ms e) (λ x h. h) (λ x h. h))
    | inr e ↦ rw e (
        select-IsSelection (sort ms) (sort-IsSorted ms) (λ x. Has-sort x ms)
          (λ x. Has→Has-sort x ms))
  ]

-- leftmostLongest selects: for every list of nonempty spans, in any order and of any length, the
-- result is non-overlapping, in text order and taken from the list, and every span of the list begins
-- inside a kept one that starts no later and, where both start together, ends no earlier.
pub leftmost_longest-IsSelection :
    (ms : List Match)
    → ((m : Match) → Has m ms → IsNonempty m)
    → IsSelection ms (leftmost_longest ms)
unfolding leftmost_longest
leftmost_longest-IsSelection [] nonempty = record {
  spread = tt;
  taken = λ k h. h;
  covered = λ m h. elim h [ ];
}
leftmost_longest-IsSelection (x ∷ []) nonempty = record {
  spread = omega arith;
  taken = λ k h. h;
  covered = λ m h. elim h [
    | inl e ↦
        (x, inl refl, rw e (Before→Covers x x (inr (refl, omega arith)) (nonempty x (inl refl))))
    | inr e ↦ elim e [ ]
  ];
}
leftmost_longest-IsSelection (x ∷ y ∷ ms) nonempty =
    let e : leb (length (x ∷ y ∷ ms)) 1 ≡ false = ground arith in
    rw e (several-IsSelection (x ∷ y ∷ ms) nonempty)
