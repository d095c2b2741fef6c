-- ===== src/Parallel/Auto.antt =====
-- splitAutoChunks: the base chunks share out the positions of the text, and each chunk's text reaches
-- far enough to the right for every keyword that begins in the part that it owns.
use acor.Prelude.{
  ℕ, zero, suc, ◌+◌, ◌-◌, ◌≤◌, ◌<◌, max, ◌≡◌, sym, ap, ◌↔◌, ◌∙◌, inl, inr, Bool, true, Word, arith,
  ltb, Bool-cases, length, take, drop, drop-drop, drop-take, length-drop, Has, IsPrefix,
  length-prefix, prefix_of_prefix-take, prefix-take_of_prefix, refl,
}
use acor.Parallel.{
  ParallelOptions, Chunk, slice, auto_end, auto_chunk, auto_loop, split_auto_chunks,
}
use acor.Parallel.Boundary.{auto_end_bounds}

-- `kw` occurs in `runes` at position `p`.
abbrev pub OccursAt : Word → Word → ℕ → Type 0
OccursAt kw runes p = IsPrefix kw (drop p runes)

abbrev pub Owns : Chunk → ℕ → Type 0
Owns c p = (c.text_offset ≤ p) × (p < c.text_offset + c.owned_runes)

drop-slice :
    (runes : Word) (a b i : ℕ) → drop i (slice runes a b) ≡ take (b - a - i) (drop (a + i) runes)
drop-slice runes a b i =
    drop-take i (b - a) (drop a runes) ∙ ap (take (b - a - i)) (drop-drop a i runes)

pub OccursAt-slice :
    (kw runes : Word) (a b i : ℕ)
    → a + i + length kw ≤ b
    → OccursAt kw runes (a + i) ↔ OccursAt kw (slice runes a b) i
OccursAt-slice kw runes a b i h = rw drop-slice (
  prefix-take_of_prefix (b - a - i) kw (drop (a + i) runes) (omega arith),
  prefix_of_prefix-take (b - a - i) kw (drop (a + i) runes),
)

-- Also without room for all of `kw`: what is found in the slice is in the text.
OccursAt-of_slice :
    (kw runes : Word) (a b i : ℕ) → OccursAt kw (slice runes a b) i → OccursAt kw runes (a + i)
OccursAt-of_slice kw runes a b i h =
    prefix_of_prefix-take (b - a - i) kw (drop (a + i) runes) (rw drop-slice at h)

module _ (is_space : ℕ → Bool) (runes : Word) (opts : ParallelOptions)
    (positive : 0 < opts.chunk_size) where
  -- What a chunk's text shows of the keywords that begin in its part is what the text has there.
  Agrees : ℕ → Chunk → Type 0
  Agrees longest c =
      (kw : Word) (i : ℕ)
      → length kw ≤ longest
      → i < c.owned_runes
      → OccursAt kw runes (c.text_offset + i) ↔ OccursAt kw c.text i

  auto_chunk-Agrees :
      (longest extension start : ℕ)
      → longest ≤ extension + 1
      → start < length runes
      → Agrees longest (auto_chunk is_space runes opts extension start)
  unfolding auto_chunk Agrees
  auto_chunk-Agrees longest extension start room inside kw i short owned = (
    λ h.
        (OccursAt-slice kw runes start _ i (
            omega (
              arith,
              auto_end_bounds is_space runes opts positive start inside,
              length-prefix kw (drop (start + i) runes) h,
              length-drop (start + i) runes,
            ))).0
          h,
    λ h. OccursAt-of_slice kw runes start _ i h,
  )

  module _ (extension : ℕ) where
    -- Each chunk of the loop is a base chunk that begins inside the text, at `start` or later.
    auto_loop-each :
        (fuel start : ℕ) (c : Chunk)
        → Has c (auto_loop is_space runes opts fuel extension start)
        → (s : ℕ) × (c ≡ auto_chunk is_space runes opts extension s)
          × (start ≤ s)
          × (s < length runes)
    unfolding auto_loop
    auto_loop-each zero start c h = elim h [ ]
    auto_loop-each (suc fuel) start c h = elim (Bool-cases (ltb start (length runes))) [
      | inl t ↦ elim (rw t at h) [
        | inl e ↦ (start, e, omega arith, ground arith)
        | inr k ↦
            let (s, e, later, inside) =
              auto_loop-each fuel (auto_end is_space runes opts start) c k in
            (
              s,
              e,
              omega (arith, auto_end_bounds is_space runes opts positive start (ground arith)),
              inside,
            )
      ]
      | inr t ↦ elim (rw t at h) [ ]
    ]

    auto_loop-covers :
        (fuel start p : ℕ)
        → length runes < start + fuel
        → start ≤ p
        → p < length runes
        → (c : Chunk) × Has c (auto_loop is_space runes opts fuel extension start) × Owns c p
    unfolding auto_loop auto_chunk
    auto_loop-covers zero start p enough later inside = absurd (omega arith)
    auto_loop-covers (suc fuel) start p enough later inside =
        let t : ltb start (length runes) ≡ true = ground arith in
        let bounds = auto_end_bounds is_space runes opts positive start (ground arith) in
        rw t (elim (Bool-cases (ltb p (auto_end is_space runes opts start))) [
          | inl owned ↦ (
            auto_chunk is_space runes opts extension start,
            inl refl,
            (omega arith, ground arith),
          )
          | inr beyond ↦
              let (c, h, o) =
                auto_loop-covers fuel (auto_end is_space runes opts start) p (omega arith)
                  (ground arith) inside in
              (c, inr h, o)
        ])

    head-Owns :
        (start p : ℕ)
        → start < length runes
        → Owns (auto_chunk is_space runes opts extension start) p
        → p < auto_end is_space runes opts start
    unfolding auto_chunk
    head-Owns start p h o = omega (arith, auto_end_bounds is_space runes opts positive start h)

    tail-Owns :
        (fuel start p : ℕ) (d : Chunk)
        → Has d (auto_loop is_space runes opts fuel extension start)
        → Owns d p
        → start ≤ p
    unfolding auto_chunk
    tail-Owns fuel start p d h o =
        let (s, e, later, inside) = auto_loop-each fuel start d h in
        let at : d.text_offset ≡ s = ap (λ (c : Chunk). c.text_offset) e in omega arith

    -- No position has two owners.
    auto_loop_unique :
        (fuel start p : ℕ) (c d : Chunk)
        → Has c (auto_loop is_space runes opts fuel extension start)
        → Has d (auto_loop is_space runes opts fuel extension start)
        → Owns c p
        → Owns d p
        → c ≡ d
    unfolding auto_loop
    auto_loop_unique zero start p c d hc hd oc od = elim hc [ ]
    auto_loop_unique (suc fuel) start p c d hc hd oc od =
        elim (Bool-cases (ltb start (length runes))) [
          | inl t ↦
              let head =
                λ (x : Chunk) (e : x ≡ auto_chunk is_space runes opts extension start)
                    (o : Owns x p).
                  head-Owns start p (ground arith) (rw e at o) in
              let rest = tail-Owns fuel (auto_end is_space runes opts start) p in
              elim (rw t at hc) [
                | inl e ↦ elim (rw t at hd) [
                  | inl e' ↦ e ∙ sym e'
                  | inr k' ↦ absurd (omega (arith, head c e oc, rest d k' od))
                ]
                | inr k ↦ elim (rw t at hd) [
                  | inl e' ↦ absurd (omega (arith, head d e' od, rest c k oc))
                  | inr k' ↦
                      auto_loop_unique fuel (auto_end is_space runes opts start) p c d k k' oc od
                ]
              ]
          | inr t ↦ elim (rw t at hc) [ ]
        ]

  -- In the part that it owns, every chunk shows the short keywords of the text, and no others.
  pub split_auto_chunks-Agrees :
      (longest : ℕ) (c : Chunk)
      → Has c (split_auto_chunks is_space runes opts longest)
      → (kw : Word) (i : ℕ) → length kw ≤ longest
      → i < c.owned_runes
      → OccursAt kw runes (c.text_offset + i) ↔ OccursAt kw c.text i
  unfolding split_auto_chunks Agrees
  split_auto_chunks-Agrees longest c h =
      let extension = max opts.overlap (longest - 1) in
      let (s, e, later, within) = auto_loop-each extension (length runes + 1) 0 c h in
      let agrees : Agrees longest c =
        rw e (auto_chunk-Agrees longest extension s (omega arith) within) in
      agrees

  -- splitAutoChunks loses nothing at its boundaries: with a positive chunk size, each position of
  -- the text is owned by exactly one chunk, and for every keyword of at most `longest` runes the
  -- keyword begins at that position of the text exactly if it begins there in the owner's text.
  pub split_auto_chunks_lem :
      (longest p : ℕ)
      → p < length runes
      → (c : Chunk) × Has c (split_auto_chunks is_space runes opts longest)
        × Owns c p
        × ((d : Chunk) → Has d (split_auto_chunks is_space runes opts longest) → Owns d p → d ≡ c)
        × ((kw : Word)
            → length kw ≤ longest
            → OccursAt kw runes p ↔ OccursAt kw c.text (p - c.text_offset))
  unfolding split_auto_chunks Agrees
  split_auto_chunks_lem longest p inside =
      let extension = max opts.overlap (longest - 1) in
      let fuel = length runes + 1 in
      let (c, h, o) = auto_loop-covers extension fuel 0 p (omega arith) (omega arith) inside in
      let (s, e, later, within) = auto_loop-each extension fuel 0 c h in
      let agrees : Agrees longest c =
        rw e (auto_chunk-Agrees longest extension s (omega arith) within) in
      let at : c.text_offset + (p - c.text_offset) ≡ p = omega arith in
      (
        c,
        h,
        o,
        λ d k q. auto_loop_unique extension fuel 0 p d c k h q o,
        λ kw short. rw at at (agrees kw (p - c.text_offset) short (omega arith)),
      )
