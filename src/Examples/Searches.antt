-- ===== src/Examples/Searches.antt =====
-- The theorems about the handle of an engine and the searches over chunks, at small inputs.
use acor.Prelude.{◌≡◌, refl, ◌↔◌, List, Word, Has, AllDistinct, true, false, arith, ◌==◌, ℕ}
use acor.Engine.Handle.{mem_efficient, build, contains, contains_iff, IsFound}
use acor.V2.{ok}
use acor.Parallel.{ParallelOptions, word}
use acor.Parallel.Find.{find_parallel, normalize_text}
use acor.Engine.MemEfficient.{IndexMap}
use acor.Parallel.Index.{find_index_parallel}
use acor.Parallel.Index.Merged.{IsIndexed}
use acor.Parallel.Index.Sorted.{IsIncreasing}
use acor.Parallel.Index.Places.{IsPlace, find_index_parallel_iff}
use acor.Matches.Presence.{find_set_context, contains_context, find_set_context-contains_context}
use acor.Parallel.Find.Set.{find_parallel_iff}
use acor.Examples.Data.{dictionary, ushers, ten_bits, ten_bits-positive}

contains_iff_example :
    (contains (build (mem_efficient ten_bits ten_bits-positive) dictionary) ushers ≡ true)
    ↔ ((kw : Word) × IsFound dictionary ushers kw)
contains_iff_example =
    contains_iff (mem_efficient ten_bits ten_bits-positive) dictionary ushers refl

abbrev threes : ParallelOptions
threes = record { chunk_size = 3; boundary = word; overlap = 0 }

find_parallel_iff_example :
    (result : List Word) × (find_parallel
        (λ c. c)
        false
        (λ c. c == 32)
        (λ _. false)
        (ok (build (mem_efficient ten_bits ten_bits-positive) dictionary))
        ushers
        threes
        true
      ≡ ok result)
    × AllDistinct result
    × ((x : Word) → Has x result ↔ IsFound dictionary (normalize_text (λ c. c) false ushers) x)
find_parallel_iff_example =
    find_parallel_iff (mem_efficient ten_bits ten_bits-positive) dictionary (λ c. c) false
      (λ c. c == 32) ushers threes (omega arith) (λ _. false) (λ _. refl)

find_index_parallel_iff_example :
    (result : IndexMap) × (find_index_parallel
        (λ c. c)
        false
        (λ c. c == 32)
        (λ _. false)
        (ok (build (mem_efficient ten_bits ten_bits-positive) dictionary))
        ushers
        threes
        true
      ≡ ok result)
    × ((kw : Word) (p : ℕ)
        → IsIndexed result kw p ↔ IsPlace dictionary (normalize_text (λ c. c) false ushers) kw p)
    × ((kw : Word) (l : List ℕ) → Has (kw, l) result → IsIncreasing l)
find_index_parallel_iff_example =
    find_index_parallel_iff (mem_efficient ten_bits ten_bits-positive) dictionary (λ c. c) false
      (λ c. c == 32) ushers threes (omega arith) (λ _. false) (λ _. refl)

find_set_context-contains_context_example :
    (result : List Word) × (find_set_context
        (λ c. c)
        false
        false
        (ok (build (mem_efficient ten_bits ten_bits-positive) dictionary))
        ushers
      ≡ ok result)
    × ((kw : Word) → Has kw result ↔ IsFound dictionary (normalize_text (λ c. c) false ushers) kw)
    × ((contains_context
            (λ c. c)
            false
            false
            (ok (build (mem_efficient ten_bits ten_bits-positive) dictionary))
            ushers
          ≡ ok true)
        ↔ ((kw : Word) × Has kw result))
find_set_context-contains_context_example =
    find_set_context-contains_context (mem_efficient ten_bits ten_bits-positive) dictionary (λ c. c)
      false ushers refl (λ e. cc)
