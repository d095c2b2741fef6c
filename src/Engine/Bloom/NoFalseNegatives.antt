-- ===== src/Engine/Bloom/NoFalseNegatives.antt =====
-- What was added is contained.
use acor.Prelude.{
  length-replicate, ℕ, zero, suc, ◌+◌, ◌*◌, ◌/◌, ◌≤◌, ◌<◌, ◌≡◌, refl, ◌∙◌, inl, inr, Bool, true,
  false, List, [], ◌∷◌, arith, leb, ◌==◌, length, get_or, set, get_or-set, length-set, Bool-cases,
  Has,
}
use native.Mathlib.Nat.{mod-lt}
use acor.Engine.Bloom.{
  BloomFilter, new_bloom_filter, hash_pair, position, set_bits, add, all_set, might_contain,
  add_all,
}

-- A filter has at least as many bits as it hashes to, and hashes to some.
abbrev pub IsFilter : BloomFilter → Type 0
IsFilter bf = (0 < bf.num_bits) × (bf.num_bits ≤ length bf.bits)

-- Every bit of the first is one of the second.
abbrev IsWithin : List Bool → List Bool → Type 0
IsWithin a b = (p : ℕ) → get_or a p false ≡ true → get_or b p false ≡ true

position-lt : (n : ℕ) (pair : ℕ × ℕ) (i : ℕ) → 0 < n → position n pair i < n
unfolding position
position-lt n (a, b) i h = mod-lt _ h

set-IsWithin : (bits : List Bool) (p : ℕ) → p < length bits → IsWithin bits (set bits p true)
set-IsWithin bits p h q k = get_or-set bits p true q false h ∙ ground arith

module _ (n : ℕ) (pair : ℕ × ℕ) (h : 0 < n) where
  set_bits-IsWithin :
      (i left : ℕ) (bits : List Bool)
      → n ≤ length bits
      → IsWithin bits (set_bits n pair i left bits)
  unfolding set_bits
  set_bits-IsWithin i zero bits l p k = k
  set_bits-IsWithin i (suc left) bits l p k =
      set_bits-IsWithin (i + 1) left (set bits (position n pair i) true)
        (omega (arith, length-set bits (position n pair i) true)) p
        (set-IsWithin bits (position n pair i) (omega (arith, position-lt n pair i h)) p k)

  length-set_bits :
      (i left : ℕ) (bits : List Bool) → length (set_bits n pair i left bits) ≡ length bits
  unfolding set_bits
  length-set_bits i zero bits = refl
  length-set_bits i (suc left) bits =
      length-set_bits (i + 1) left (set bits (position n pair i) true)
      ∙ length-set bits (position n pair i) true

  all_set-IsWithin :
      (i left : ℕ) (a b : List Bool)
      → IsWithin a b
      → all_set n pair i left a ≡ true
      → all_set n pair i left b ≡ true
  unfolding all_set
  all_set-IsWithin i zero a b w k = refl
  all_set-IsWithin i (suc left) a b w k = elim (Bool-cases (get_or a (position n pair i) false)) [
    | inl e ↦ rw (w (position n pair i) e) (all_set-IsWithin (i + 1) left a b w (rw e at k))
    | inr e ↦ absurd (ground arith)
  ]

  all_set-set_bits :
      (i left : ℕ) (bits : List Bool)
      → n ≤ length bits
      → all_set n pair i left (set_bits n pair i left bits) ≡ true
  unfolding all_set set_bits
  all_set-set_bits i zero bits l = refl
  all_set-set_bits i (suc left) bits l =
      let p = position n pair i in
      let p_lt : p < length bits = omega (arith, position-lt n pair i h) in
      let l' : n ≤ length (set bits p true) = omega (arith, length-set bits p true) in
      let here : get_or (set bits p true) p false ≡ true =
        get_or-set bits p true p false p_lt ∙ ground arith in
      rw (set_bits-IsWithin (i + 1) left (set bits p true) l' p here)
        (all_set-set_bits (i + 1) left (set bits p true) l')

add-IsFilter : (bf : BloomFilter) (r : ℕ) → IsFilter bf → IsFilter (add bf r)
unfolding add
add-IsFilter bf r (a, b) =
    (a, omega (arith, length-set_bits bf.num_bits (hash_pair r) a 0 bf.hashes bf.bits))

contains-add : (bf : BloomFilter) (r : ℕ) → IsFilter bf → might_contain (add bf r) r ≡ true
unfolding add might_contain
contains-add bf r (a, b) = all_set-set_bits bf.num_bits (hash_pair r) a 0 bf.hashes bf.bits b

contains_after-add :
    (bf : BloomFilter) (r q : ℕ)
    → IsFilter bf
    → might_contain bf q ≡ true
    → might_contain (add bf r) q ≡ true
unfolding add might_contain
contains_after-add bf r q (a, b) h =
    all_set-IsWithin bf.num_bits (hash_pair q) a 0 bf.hashes bf.bits _
      (set_bits-IsWithin bf.num_bits (hash_pair r) a 0 bf.hashes bf.bits b) h

contains_after-add_all :
    (rs : List ℕ) (bf : BloomFilter) (q : ℕ)
    → IsFilter bf
    → might_contain bf q ≡ true
    → might_contain (add_all bf rs) q ≡ true
unfolding add_all
contains_after-add_all [] bf q F h = h
contains_after-add_all (r ∷ rs) bf q F h =
    contains_after-add_all rs (add bf r) q (add-IsFilter bf r F) (contains_after-add bf r q F h)

contains-add_all :
    (rs : List ℕ) (bf : BloomFilter) (r : ℕ)
    → IsFilter bf
    → Has r rs
    → might_contain (add_all bf rs) r ≡ true
unfolding add_all
contains-add_all [] bf r F h = elim h [ ]
contains-add_all (q ∷ rs) bf r F (inl e) =
    rw e (contains_after-add_all rs (add bf q) q (add-IsFilter bf q F) (contains-add bf q F))
contains-add_all (q ∷ rs) bf r F (inr h) = contains-add_all rs (add bf q) r (add-IsFilter bf q F) h

module _ (sizing : ℕ → ℕ × ℕ) (some_bits : (n : ℕ) → 0 < n → 0 < (sizing n).0) where
  new-IsFilter : (n : ℕ) → IsFilter (new_bloom_filter sizing n)
  unfolding new_bloom_filter
  new-IsFilter n = elim (Bool-cases (leb n 0)) [
    | inl e ↦ rw e (omega arith, omega arith)
    | inr e ↦
        let h = some_bits n (ground arith) in
        let w : (((sizing n).0 + 63) / 64 == 0) ≡ false = ground (arith, quotient (sizing n).0 h) in
        rw (e, w) (h, omega (arith, length-replicate (((sizing n).0 + 63) / 64 * 64) false))
  ]
    where
      quotient : (m : ℕ) → 0 < m → 0 < (m + 63) / 64
      quotient m h = omega arith

  -- Let the formulas give at least one bit for a positive number of items. Then a rune that was added
  -- to a new filter, among any others, is never reported missing.
  pub contains-added :
      (n : ℕ) (rs : List ℕ) (r : ℕ)
      → Has r rs
      → might_contain (add_all (new_bloom_filter sizing n) rs) r ≡ true
  contains-added n rs r h = contains-add_all rs (new_bloom_filter sizing n) r (new-IsFilter n) h
