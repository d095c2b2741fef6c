-- ===== src/Parallel/Boundary.antt =====
-- Where findBoundary and the base chunks end.
use acor.Prelude.{
  ◌≡◌, ◌⊎◌, inl, refl, ℕ, zero, suc, ◌+◌, ◌≤◌, ◌<◌, ◌-◌, ◌/◌, min, Bool, Word, arith, length,
}
use acor.Parallel.{
  ChunkBoundary, ParallelOptions, backtrack, find_boundary, auto_end, default_max_backtrack_divisor,
}

module _ (is_space : ℕ → Bool) where
  backtrack-le :
      (runes : Word) (target : ℕ) (kind : ChunkBoundary) (m i : ℕ)
      → i ≤ target
      → backtrack is_space runes target kind m i ≤ target
  unfolding backtrack
  backtrack-le runes target kind m zero h = omega arith
  backtrack-le runes target kind m (suc i) h =
      ground (arith, backtrack-le runes target kind m i (omega arith))

  pub find_boundary-le :
      (runes : Word) (target : ℕ) (kind : ChunkBoundary) (m : ℕ)
      → find_boundary is_space runes target kind m ≤ target
  unfolding find_boundary
  find_boundary-le runes target kind m = backtrack-le runes target kind m target (omega arith)

  backtrack-near :
      (runes : Word) (target : ℕ) (kind : ChunkBoundary) (m i : ℕ)
      → (backtrack is_space runes target kind m i ≡ target)
        ⊎ (target < backtrack is_space runes target kind m i + m)
  unfolding backtrack
  backtrack-near runes target kind m zero = inl refl
  backtrack-near runes target kind m (suc i) = ground (arith, backtrack-near runes target kind m i)

  -- The boundary is the target itself or less than `m` before it.
  pub find_boundary-near :
      (runes : Word) (target : ℕ) (kind : ChunkBoundary) (m : ℕ)
      → (find_boundary is_space runes target kind m ≡ target)
        ⊎ (target < find_boundary is_space runes target kind m + m)
  unfolding find_boundary
  find_boundary-near runes target kind m = backtrack-near runes target kind m target

  module _ (runes : Word) (opts : ParallelOptions) (positive : 0 < opts.chunk_size) where
    pub auto_end_bounds :
        (start : ℕ)
        → start < length runes
        → (start < auto_end is_space runes opts start)
          × (auto_end is_space runes opts start ≤ length runes)
    unfolding auto_end
    auto_end_bounds start h = ground (
      arith,
      find_boundary-le runes (start + min opts.chunk_size (length runes - start)) opts.boundary
          (opts.chunk_size / default_max_backtrack_divisor),
    )
