-- ===== src/Engine/Outputs.antt =====
-- internal/engine/engine_output.go: which keywords a state reports. Keyword ids and state ids are
-- numbers (the source keeps them below 2^31); `none` is outNone, the end of an output chain. A read
-- out of range, which panics in Go, reads as no keyword and no link here.
use acor.Prelude.{
  ℕ, zero, suc, ◌-◌, Option, none, some, List, [], ◌∷◌, ◌++◌, Word, ◌==◌, if◌then◌else◌, length,
  get_or, set,
}

pub record Outputs : Type 0 where
  pub own : List ℕ
  pub out_link : List (Option ℕ)
  pub keywords : List Word
  pub rune_lens : List ℕ

abbrev pub own_at : Outputs → ℕ → ℕ
own_at o s = get_or o.own s 0

abbrev pub link_at : Outputs → ℕ → Option ℕ
link_at o s = get_or o.out_link s none

abbrev pub keyword_at : Outputs → ℕ → Word
keyword_at o id = get_or o.keywords id []

-- Id 0 is the sentinel for "no keyword".
unfoldable pub with_sentinel : Outputs → Outputs
with_sentinel o =
    if length o.keywords == 0 then record o { keywords = [] ∷ []; rune_lens = 0 ∷ [] } else o

unfoldable pub assign_id : Outputs → Word → Outputs × ℕ
unfolding with_sentinel
assign_id o kw =
    let o' = with_sentinel o in
    (
      record o' { keywords = o'.keywords ++ kw ∷ []; rune_lens = o'.rune_lens ++ length kw ∷ [] },
      length o'.keywords,
    )

-- `cur` is the id that the terminal state holds now.
unfoldable pub assign : Outputs → ℕ → Word → Outputs × ℕ
unfolding assign_id
assign o cur kw = if cur == 0 then assign_id o kw else (
  record o { keywords = set o.keywords cur kw; rune_lens = set o.rune_lens cur (length kw) },
  cur,
)

-- The states on an output chain that carry a keyword, in the order of the walk. The chain is walked
-- on fuel; a chain descends in depth, so the number of states is enough.
unfoldable pub chain : ℕ → Outputs → Option ℕ → List ℕ
chain fuel o none = []
chain zero o (some s) = []
chain (suc fuel) o (some s) =
    let rest = chain fuel o (link_at o s) in if own_at o s == 0 then rest else s ∷ rest

-- emitChain with its calls of `emit` as a list: the keyword, the start and the end of each.
pub record Emission : Type 0 where
  pub keyword : Word
  pub start : ℕ
  pub end : ℕ

unfoldable pub emission_at : Outputs → ℕ → ℕ → Emission
emission_at o end s = record {
  keyword = keyword_at o (own_at o s);
  start = end - get_or o.rune_lens (own_at o s) 0;
  end = end;
}
