-- ===== src/Engine/Bloom.antt =====
-- internal/engine/engine_bloom.go: the filter that skips runes no keyword starts with. The bit
-- `pos % 64` of the word `bits[pos / 64]` stands at `pos` of one list. The two floating-point formulas
-- of newBloomFilter (math.Ceil and math.Log of Go's library) are a parameter: from the expected number
-- of items they give the number of bits and of hashes.
pub mod NoFalseNegatives
use acor.Prelude.{
  ℕ, zero, suc, ◌+◌, ◌*◌, ◌/◌, ◌%◌, ◌^◌, Bool, true, false, List, [], ◌∷◌, ltb, leb, ◌==◌,
  if◌then◌else◌, get_or, set, replicate,
}
use Prim.Native.Nat.{bit_xor}

pub record BloomFilter : Type 0 where
  pub bits : List Bool
  pub num_bits : ℕ
  pub hashes : ℕ

abbrev word_count : ℕ → ℕ
word_count num_bits = let size = (num_bits + 63) / 64 in if size == 0 then 1 else size

abbrev clamp_hashes : ℕ → ℕ
clamp_hashes hashes = if ltb hashes 1 then 1 else if ltb 16 hashes then 16 else hashes

unfoldable pub new_bloom_filter : (ℕ → ℕ × ℕ) → ℕ → BloomFilter
new_bloom_filter sizing expected_items =
    if leb expected_items 0
    then record { bits = replicate 64 false; num_bits = 64; hashes = 1 }
    else let (num_bits, hashes) = sizing expected_items in
      record {
        bits = replicate (word_count num_bits * 64) false;
        num_bits = num_bits;
        hashes = clamp_hashes hashes;
      }

-- uint64 arithmetic wraps.
unfoldable pub hash_pair : ℕ → ℕ × ℕ
hash_pair r =
    let h1 = bit_xor 14695981039346656037 r * 1099511628211 % 2 ^ 64 in
    let h2 = bit_xor 6959950808824887261 r * 1099511628211 % 2 ^ 64 in
    (h1, bit_xor h2 (r / 256) * 1099511628211 % 2 ^ 64)

unfoldable pub position : ℕ → ℕ × ℕ → ℕ → ℕ
position num_bits (h1, h2) i = (h1 + i * h2 % 2 ^ 64) % 2 ^ 64 % num_bits

-- The loop from `i`, for the rest of the hashes.
unfoldable pub set_bits : ℕ → ℕ × ℕ → ℕ → ℕ → List Bool → List Bool
unfolding position
set_bits num_bits pair i zero bits = bits
set_bits num_bits pair i (suc left) bits =
    set_bits num_bits pair (i + 1) left (set bits (position num_bits pair i) true)

unfoldable pub add : BloomFilter → ℕ → BloomFilter
unfolding set_bits hash_pair
add bf r = record bf { bits = set_bits bf.num_bits (hash_pair r) 0 bf.hashes bf.bits }

unfoldable pub all_set : ℕ → ℕ × ℕ → ℕ → ℕ → List Bool → Bool
unfolding position
all_set num_bits pair i zero bits = true
all_set num_bits pair i (suc left) bits =
    let rest = all_set num_bits pair (i + 1) left bits in
    if get_or bits (position num_bits pair i) false then rest else false

unfoldable pub might_contain : BloomFilter → ℕ → Bool
unfolding all_set hash_pair
might_contain bf r = all_set bf.num_bits (hash_pair r) 0 bf.hashes bf.bits

unfoldable pub add_all : BloomFilter → List ℕ → BloomFilter
unfolding add
add_all bf [] = bf
add_all bf (r ∷ rs) = add_all (add bf r) rs
