-- ===== src/Parallel.antt =====
-- pkg/acor/parallel.go: how a text is cut into chunks for concurrent scans, and how the chunks'
-- results are put together. Texts are their rune sequences ([]rune); `is_space` is unicode.IsSpace.
pub mod Boundary
pub mod Auto
pub mod Overlap
pub mod Find
pub mod Index
use acor.Prelude.{
  ℕ, zero, suc, ◌+◌, ◌-◌, ◌/◌, min, max, Bool, true, false, not, ◌&&◌, ◌||◌, List, [], ◌∷◌, Word,
  leb, ltb, ◌==◌, if◌then◌else◌, length, get_or, take, drop,
}

pub data ChunkBoundary : Type 0 where
  word sentence line : ChunkBoundary

-- The fields that the splitting reads, after normalizeParallelOptions: the overlap is at least 0.
pub record ParallelOptions : Type 0 where
  pub chunk_size : ℕ
  pub boundary : ChunkBoundary
  pub overlap : ℕ

pub record Chunk : Type 0 where
  pub text : Word
  pub text_offset : ℕ
  pub owned_runes : ℕ

-- runes[a:b]
abbrev pub slice : Word → ℕ → ℕ → Word
slice runes a b = take (b - a) (drop a runes)

abbrev default_max_backtrack_divisor : ℕ
default_max_backtrack_divisor = 2

module _ (is_space : ℕ → Bool) where
  boundary_at : ℕ → ℕ → ChunkBoundary → Bool
  boundary_at before here word = is_space here && not (is_space before)
  boundary_at before here line = before == 10
  boundary_at before here sentence =
      (before == b'.' || before == b'!' || before == b'?') && is_space here

  unfoldable pub is_boundary : Word → ℕ → ChunkBoundary → Bool
  unfolding boundary_at
  is_boundary runes idx kind =
      if idx == 0 || leb (length runes) idx
      then false
      else boundary_at (get_or runes (idx - 1) 0) (get_or runes idx 0) kind

  -- The loop of findBoundary, from `i` down while `i > target - max_backtrack` and `i > 0`.
  backtrack : Word → ℕ → ChunkBoundary → ℕ → ℕ → ℕ
  backtrack runes target kind max_backtrack zero = target
  backtrack runes target kind max_backtrack (suc i) =
      let further = backtrack runes target kind max_backtrack i in
      if ltb target (suc i + max_backtrack)
      then (if is_boundary runes (suc i) kind then suc i else further)
      else target

  unfoldable pub find_boundary : Word → ℕ → ChunkBoundary → ℕ → ℕ
  unfolding backtrack is_boundary
  find_boundary runes target kind max_backtrack = backtrack runes target kind max_backtrack target

  module _ (runes : Word) (opts : ParallelOptions) where
    -- The end of the base chunk that begins at `start`.
    unfoldable pub auto_end : ℕ → ℕ
    unfolding find_boundary
    auto_end start =
        let end = start + min opts.chunk_size (length runes - start) in
        let boundary =
          find_boundary runes end opts.boundary (opts.chunk_size / default_max_backtrack_divisor) in
        if ltb end (length runes) then (if ltb start boundary then boundary else end) else end

    auto_chunk : ℕ → ℕ → Chunk
    unfolding auto_end
    auto_chunk extension start =
        let end = auto_end start in
        let search_end = end + min extension (length runes - end) in
        record {
          text = slice runes start search_end;
          text_offset = start;
          owned_runes = end - start;
        }

    -- The loop of splitAutoChunks. Each round moves `start` forward, so the rounds are at most the
    -- runes; the last unit of fuel sees the end of the text.
    unfoldable pub auto_loop : ℕ → ℕ → ℕ → List Chunk
    unfolding auto_chunk
    auto_loop zero extension start = []
    auto_loop (suc fuel) extension start =
        let rest = auto_loop fuel extension (auto_end start) in
        if ltb start (length runes) then auto_chunk extension start ∷ rest else []

  unfoldable pub split_auto_chunks : Word → ParallelOptions → ℕ → List Chunk
  unfolding auto_loop
  split_auto_chunks runes opts longest =
      auto_loop runes opts (length runes + 1) (max opts.overlap (longest - 1)) 0

  -- splitChunks, for the overlap that the caller sets.
  module _ (runes : Word) (opts : ParallelOptions) where
    unfoldable pub chunk_end : ℕ → ℕ
    unfolding find_boundary
    chunk_end start =
        let end = start + opts.chunk_size in
        let boundary =
          find_boundary runes end opts.boundary (opts.chunk_size / default_max_backtrack_divisor) in
        if leb boundary start then end else boundary

    -- `boundary - Overlap` may be negative in Go, and then it is not past `start` either.
    unfoldable pub next_start : ℕ → ℕ
    unfolding chunk_end
    next_start start =
        let boundary = chunk_end start in
        if leb (boundary - opts.overlap) start then boundary else boundary - opts.overlap

    -- Each round moves `start` forward, so there are no more rounds than runes.
    unfoldable pub overlap_loop : ℕ → ℕ → List Chunk
    unfolding next_start
    overlap_loop zero start = []
    overlap_loop (suc fuel) start =
        let rest = overlap_loop fuel (next_start start) in
        let last : Chunk = record {
          text = drop start runes;
          text_offset = start;
          owned_runes = 0;
        } in
        let here : Chunk = record {
          text = slice runes start (chunk_end start);
          text_offset = start;
          owned_runes = 0;
        } in
        if ltb start (length runes)
        then (if leb (length runes) (start + opts.chunk_size) then last ∷ [] else here ∷ rest)
        else []

  unfoldable pub split_chunks : Word → ParallelOptions → List Chunk
  unfolding overlap_loop
  split_chunks runes opts =
      let whole : Chunk = record { text = runes; text_offset = 0; owned_runes = 0 } in
      if leb (length runes) opts.chunk_size
      then whole ∷ []
      else overlap_loop runes opts (length runes + 1) 0
