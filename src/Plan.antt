-- ===== src/Plan.antt =====
-- pkg/acor/v2_plan.go: the pure half of a V2 write. A string is the sequence of its runes, since
-- the code slices strings at rune starts only; keywords are valid UTF-8 here, as JSON, which they are
-- stored in, does not keep other bytes. A Go set is a list, and the map of output lists is an association list with the last write in front.
pub mod Suffixes
pub mod Stored
pub mod Loop
pub mod Add
pub mod Remove
use acor.Prelude.{
  Bool, true, false, ◌&&◌, ◌||◌, not, Option, none, some, List, [], ◌∷◌, ◌++◌, map, Word, ◌==◌,
  if◌then◌else◌, word_eq, has_word, ℕ,
}

pub record TrieSnapshot : Type 0 where
  pub keywords : List Word
  pub prefixes : List Word
  pub version : ℕ

abbrev pub OutputMap : Type 0
OutputMap = List (Word × List Word)

-- `outputs[state]`, the empty list for a missing key.
unfoldable pub outputs_at : OutputMap → Word → List Word
outputs_at [] state = []
outputs_at ((s, outs) ∷ m) state = if word_eq s state then outs else outputs_at m state

-- `state[byteOff:]` for each rune start but the first, and `keyword[:byteOff]` for each, then the whole.
abbrev pub proper_suffixes : Word → List Word
proper_suffixes [] = []
proper_suffixes (c ∷ []) = []
proper_suffixes (c ∷ d ∷ w) = (d ∷ w) ∷ proper_suffixes (d ∷ w)

abbrev pub nonempty_prefixes : Word → List Word
nonempty_prefixes [] = []
nonempty_prefixes (c ∷ w) = (c ∷ []) ∷ map (◌∷◌ c) (nonempty_prefixes w)

-- The loop of computeOutputs over the proper suffixes.
unfoldable pub suffix_outputs : List Word → List Word → List Word → List Word
suffix_outputs [] prefix_set keyword_set = []
suffix_outputs (s ∷ ss) prefix_set keyword_set =
    let rest = suffix_outputs ss prefix_set keyword_set in
    if not (has_word s prefix_set) then rest else if has_word s keyword_set then s ∷ rest else rest

unfoldable pub compute_outputs : Word → List Word → List Word → List Word
unfolding suffix_outputs
compute_outputs state prefix_set keyword_set =
    (if has_word state keyword_set then state ∷ [] else [])
    ++ suffix_outputs (proper_suffixes state) prefix_set keyword_set

abbrev pub is_empty : {A : Type 0} → List A → Bool
is_empty [] = true
is_empty (_ ∷ _) = false

-- A loop over prefixes that stores the output lists that are not empty.
unfoldable pub store_outputs : List Word → List Word → List Word → OutputMap → OutputMap
unfolding compute_outputs
store_outputs [] prefix_set keyword_set outputs = outputs
store_outputs (p ∷ ps) prefix_set keyword_set outputs =
    let outs = compute_outputs p prefix_set keyword_set in
    store_outputs ps prefix_set keyword_set
      (if is_empty p || is_empty outs then outputs else (p, outs) ∷ outputs)

-- What planAddMany's loop over the keywords changes.
pub record Planned : Type 0 where
  pub keyword_set : List Word
  pub prefix_set : List Word
  pub new_prefixes : List Word
  pub added : List Word

unfoldable pub add_prefix : Planned → Word → Planned
add_prefix plan prefix = if has_word prefix plan.prefix_set then plan else record plan {
  new_prefixes = plan.new_prefixes ++ prefix ∷ [];
  prefix_set = prefix ∷ plan.prefix_set;
}

unfoldable pub add_prefixes : Planned → List Word → Planned
unfolding add_prefix
add_prefixes plan [] = plan
add_prefixes plan (p ∷ ps) = add_prefixes (add_prefix plan p) ps

unfoldable pub plan_keyword : Planned → Word → Planned
unfolding add_prefixes
plan_keyword plan keyword =
    if is_empty keyword || has_word keyword plan.keyword_set
    then plan
    else add_prefixes
        (record plan {
          keyword_set = keyword ∷ plan.keyword_set;
          added = plan.added ++ keyword ∷ [];
        })
        (nonempty_prefixes keyword)

unfoldable pub plan_keywords : Planned → List Word → Planned
unfolding plan_keyword
plan_keywords plan [] = plan
plan_keywords plan (kw ∷ kws) = plan_keywords (plan_keyword plan kw) kws

-- The snapshot after the call, the changed output lists, and the keywords that were new. The new
-- prefixes are not empty; of the old ones the empty one is passed over.
unfoldable pub plan_add_many : TrieSnapshot → List Word → TrieSnapshot × OutputMap × List Word
unfolding plan_keywords store_outputs
plan_add_many snap keywords =
    let plan =
      plan_keywords
        (record {
          keyword_set = snap.keywords;
          prefix_set = snap.prefixes;
          new_prefixes = [];
          added = [];
        })
        keywords in
    if is_empty plan.added then (snap, [], []) else (
      record snap {
        keywords = snap.keywords ++ plan.added;
        prefixes = snap.prefixes ++ plan.new_prefixes;
      },
      store_outputs snap.prefixes plan.prefix_set plan.keyword_set
          (store_outputs plan.new_prefixes plan.prefix_set plan.keyword_set []),
      plan.added,
    )

abbrev pub starts_with : Word → Word → Bool
starts_with kw [] = true
starts_with [] (c ∷ p) = false
starts_with (d ∷ kw) (c ∷ p) = d == c && starts_with kw p

-- The keywords that survive, and those removed.
unfoldable pub surviving : List Word → List Word → List Word
surviving doomed [] = []
surviving doomed (kw ∷ kws) =
    let rest = surviving doomed kws in if has_word kw doomed then rest else kw ∷ rest

unfoldable pub removed_from : List Word → List Word → List Word
removed_from doomed [] = []
removed_from doomed (kw ∷ kws) =
    let rest = removed_from doomed kws in if has_word kw doomed then kw ∷ rest else rest

abbrev pub has_start : List Word → Word → Bool
has_start [] prefix = false
has_start (kw ∷ kws) prefix = starts_with kw prefix || has_start kws prefix

-- The prefixes that a surviving keyword still reaches; the empty one is put in front by the caller.
unfoldable pub live_prefixes : List Word → List Word → List Word
live_prefixes keywords [] = []
live_prefixes keywords (p ∷ ps) =
    let rest = live_prefixes keywords ps in
    if is_empty p then rest else if has_start keywords p then p ∷ rest else rest

unfoldable pub plan_remove_many : TrieSnapshot → List Word → TrieSnapshot × OutputMap × List Word
unfolding surviving removed_from live_prefixes store_outputs
plan_remove_many snap keywords =
    let kept = surviving keywords snap.keywords in
    let removed = removed_from keywords snap.keywords in
    let prefixes = [] ∷ live_prefixes kept snap.prefixes in
    if is_empty removed then (snap, [], []) else (
      record snap { keywords = kept; prefixes = prefixes },
      store_outputs prefixes prefixes kept [],
      removed,
    )
