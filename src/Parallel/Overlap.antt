-- ===== src/Parallel/Overlap.antt =====
-- What splitChunks shows of the text when the overlap is at most half a chunk.
use acor.Prelude.{
  ℕ, zero, suc, ◌+◌, ◌-◌, ◌/◌, ◌≤◌, ◌<◌, ◌≡◌, refl, ◌⊎◌, inl, inr, Bool, List, ◌∷◌, Word, arith,
  leb, ltb, length, drop, Bool-cases, Has, if◌then◌else◌, length-prefix, length-drop, drop-drop,
  true,
}
use acor.Parallel.{
  ParallelOptions, Chunk, slice, find_boundary, default_max_backtrack_divisor, chunk_end,
  next_start, overlap_loop, split_chunks,
}
use acor.Parallel.Boundary.{find_boundary-le, find_boundary-near}
use acor.Parallel.Auto.{OccursAt, OccursAt-slice}

bounds_of_boundary :
    (b s size overlap : ℕ)
    → 0 < size
    → overlap ≤ size / 2
    → b ≤ s + size
    → (b ≡ s + size) ⊎ (s + size < b + size / 2)
    → (s + overlap < (if leb b s then s + size else b))
      × ((if leb b s then s + size else b) ≤ s + size)
bounds_of_boundary b s size overlap p o l n = elim (Bool-cases (leb b s)) [
  | inl e ↦ rw e (omega arith, omega arith)
  | inr e ↦ rw e (elim n [ inl q ↦ omega arith | inr q ↦ omega arith ], l)
]

-- In some chunk of `cs`, `kw` begins where it begins in the text at `p`.
abbrev pub IsShown : List Chunk → Word → ℕ → Type 0
IsShown cs kw p =
    (c : Chunk) × Has c cs × (c.text_offset ≤ p) × OccursAt kw c.text (p - c.text_offset)

module _ (is_space : ℕ → Bool) (runes : Word) (opts : ParallelOptions)
    (positive : 0 < opts.chunk_size) (small : opts.overlap ≤ opts.chunk_size / 2) where
  chunk_end-bounds :
      (start : ℕ)
      → (start + opts.overlap < chunk_end is_space runes opts start)
        × (chunk_end is_space runes opts start ≤ start + opts.chunk_size)
  unfolding chunk_end
  chunk_end-bounds start =
      bounds_of_boundary
        (find_boundary is_space runes (start + opts.chunk_size) opts.boundary
          (opts.chunk_size / default_max_backtrack_divisor))
        start opts.chunk_size opts.overlap positive small
        (find_boundary-le is_space runes (start + opts.chunk_size) opts.boundary
          (opts.chunk_size / default_max_backtrack_divisor))
        (find_boundary-near is_space runes (start + opts.chunk_size) opts.boundary
          (opts.chunk_size / default_max_backtrack_divisor))

  next_start-eq :
      (start : ℕ)
      → next_start is_space runes opts start ≡ chunk_end is_space runes opts start - opts.overlap
  unfolding next_start
  next_start-eq start = ground (arith, chunk_end-bounds start)

  module _ (kw : Word) (p : ℕ) (nonempty : 0 < length kw) (short : length kw ≤ opts.overlap + 1)
      (occurs : OccursAt kw runes p) where
    inside : p + length kw ≤ length runes
    inside = omega (arith, length-prefix kw (drop p runes) occurs, length-drop p runes)

    in_last : (start : ℕ) → start ≤ p → OccursAt kw (drop start runes) (p - start)
    in_last start h =
        let at : start + (p - start) ≡ p = omega arith in
        rw (drop-drop start (p - start) runes, at) occurs

    in_slice :
        (start b : ℕ)
        → start ≤ p
        → p + length kw ≤ b
        → OccursAt kw (slice runes start b) (p - start)
    in_slice start b h k =
        let at : start + (p - start) ≡ p = omega arith in
        (OccursAt-slice kw runes start b (p - start) (omega arith)).0 (rw at occurs)

    later : (c : Chunk) (cs : List Chunk) → IsShown cs kw p → IsShown (c ∷ cs) kw p
    later c cs (d, h, l, o) = (d, inr h, l, o)

    overlap_loop-IsShown :
        (fuel start : ℕ)
        → start ≤ p
        → length runes < fuel + start
        → IsShown (overlap_loop is_space runes opts fuel start) kw p
    unfolding overlap_loop
    overlap_loop-IsShown zero start h f = absurd (omega (arith, inside))
    overlap_loop-IsShown (suc fuel) start h f =
        let go : ltb start (length runes) ≡ true = ground (arith, inside) in
        let (far, near) = chunk_end-bounds start in
        let next = next_start-eq start in
        elim (Bool-cases (leb (length runes) (start + opts.chunk_size))) [
          | inl e ↦ rw (go, e) (_, inl refl, h, in_last start h)
          | inr e ↦ elim (Bool-cases (leb (p + length kw) (chunk_end is_space runes opts start))) [
            | inl k ↦ rw (go, e) (_, inl refl, h, in_slice start _ h (ground arith))
            | inr k ↦
                let past : chunk_end is_space runes opts start < p + length kw = ground arith in
                rw (go, e)
                  (later _ _ (
                    overlap_loop-IsShown fuel (next_start is_space runes opts start)
                      (omega (arith, next, past)) (omega (arith, next, far))))
          ]
        ]

    -- With a positive chunk size and an overlap of at most half of it, every occurrence in the text of
    -- a keyword that is not empty and has at most one rune more than the overlap is an occurrence at
    -- its place in some chunk of splitChunks.
    pub split_chunks-IsShown : IsShown (split_chunks is_space runes opts) kw p
    unfolding split_chunks
    split_chunks-IsShown = elim (Bool-cases (leb (length runes) opts.chunk_size)) [
      | inl e ↦ rw e (_, inl refl, omega arith, in_last 0 (omega arith))
      | inr e ↦ rw e (overlap_loop-IsShown (length runes + 1) 0 (omega arith) (omega arith))
    ]
