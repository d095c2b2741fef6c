-- ===== src/V2.antt =====
-- pkg/acor/v2_transaction.go and pkg/acor/v2_lua.go: a collection as it stands in Redis under the V2
-- schema, and a write to it: read the snapshot, plan, and swap under a version check. The JSON of
-- encoding/json is a parameter; a string is the sequence of its runes, as in Plan.
pub mod Fields
pub mod Stored
pub mod Commit
pub mod Written
pub mod Attempt
pub mod Retry
pub mod Writes
pub mod Queries
pub mod Version
pub mod System
pub mod Machine
pub mod Refinement
use acor.Prelude.{
  ℕ, zero, suc, ◌+◌, ◌*◌, ◌%◌, ◌^◌, ◌≡◌, Bool, true, false, not, Option, none, some, List, [], ◌∷◌,
  Word, ◌==◌, if◌then◌else◌, word_eq,
}
use acor.Plan.{TrieSnapshot, OutputMap, is_empty, plan_add_many, plan_remove_many}

-- json.Marshal and json.Unmarshal of a []string. Words are the runes of valid UTF-8, for which what was
-- written is read back; Marshal replaces the bytes that are none.
pub record Json : Type 0 where
  pub encode : List Word → Word
  pub decode : Word → Option (List Word)
  pub read_back : (l : List Word) → decode (encode l) ≡ some l

-- A Redis hash from states to values.
abbrev pub Hash : Type 0
Hash = List (Word × Word)

unfoldable pub hget : Hash → Word → Option Word
hget [] field = none
hget ((f, v) ∷ h) field = if word_eq f field then some v else hget h field

unfoldable pub hset : Hash → Word → Word → Hash
hset [] field value = (field, value) ∷ []
hset ((f, v) ∷ h) field value =
    let rest = hset h field value in if word_eq f field then (f, value) ∷ h else (f, v) ∷ rest

-- The fields of the trie hash, absent ones as `none`. The version is written by acor alone, so it is
-- a number.
pub record TrieHash : Type 0 where
  pub keywords : Option Word
  pub prefixes : Option Word
  pub version : Option ℕ

pub record Collection : Type 0 where
  pub trie : TrieHash
  pub outputs : Hash

-- The collection before anything was written.
abbrev pub absent : Collection
absent = record { trie = record { keywords = none; prefixes = none; version = none }; outputs = [] }

pub data Error : Type 0 where
  unmarshal redis concurrency_conflict canceled empty_keyword invalid_chunk_size : Error

pub data Result {ℓ} (A : Type ℓ) : Type ℓ where
  ok : A → Result A
  err : Error → Result A

-- An absent version is zero.
abbrev pub parse_trie_version : Option ℕ → ℕ
parse_trie_version none = 0
parse_trie_version (some v) = v

-- What readTrieSnapshot makes of the two decoded fields.
abbrev pub snapshot_of : Option (List Word) → Option (List Word) → ℕ → Result TrieSnapshot
snapshot_of none prefixes version = err unmarshal
snapshot_of (some keywords) none version = err unmarshal
snapshot_of (some keywords) (some prefixes) version =
    ok (record { keywords = keywords; prefixes = prefixes; version = version })

-- generateVersion from two random bytes and a clock: an int64 as its bit pattern.
unfoldable pub generate_version : ℕ → ℕ → ℕ → ℕ
generate_version b0 b1 timestamp = b0 * 2 ^ 56 + b1 * 2 ^ 48 + timestamp % 2 ^ 48

pub record ScriptArgs : Type 0 where
  pub old_version : ℕ
  pub new_version : ℕ
  pub keywords : Word
  pub prefixes : Word
  pub outputs : Hash
  pub clear_outputs : Bool

-- `for state, jsonOuts in pairs(outputs)`, from the back: where the map of output lists holds an older
-- entry of a state, the one in front of it counts.
unfoldable pub hset_all : Hash → Hash → Hash
unfolding hset
hset_all [] h = h
hset_all ((state, outs) ∷ m) h = hset (hset_all m h) state outs

-- `currentVersion and currentVersion ~= oldVersion`
abbrev pub is_stale : Option ℕ → ℕ → Bool
is_stale none old = false
is_stale (some v) old = not (v == old)

-- v2WriteScript, which Redis runs as one step: the collection after it, and its reply.
unfoldable pub v2_write_script : Collection → ScriptArgs → Collection × ℕ
unfolding hset_all
v2_write_script c args =
    let written : Collection = record {
      trie = record {
        keywords = some args.keywords;
        prefixes = some args.prefixes;
        version = some args.new_version;
      };
      outputs = hset_all args.outputs (if args.clear_outputs then [] else c.outputs);
    } in
    if is_stale c.trie.version args.old_version then (c, 0) else (written, 1)

module _ (json : Json) where
  abbrev pub decode_field : Option Word → Option (List Word)
  decode_field none = some []
  decode_field (some written) = json.decode written

  unfoldable pub read_trie_snapshot : Collection → Result TrieSnapshot
  read_trie_snapshot c =
      snapshot_of (decode_field c.trie.keywords) (decode_field c.trie.prefixes)
        (parse_trie_version c.trie.version)

  unfoldable pub encode_outputs : OutputMap → Hash
  encode_outputs [] = []
  encode_outputs ((state, outs) ∷ m) = (state, json.encode outs) ∷ encode_outputs m

  unfoldable pub marshal_trie_args : TrieSnapshot → Hash → ℕ → Bool → ScriptArgs
  marshal_trie_args snap outputs new_version clear_outputs = record {
    old_version = snap.version;
    new_version = new_version;
    keywords = json.encode snap.keywords;
    prefixes = json.encode snap.prefixes;
    outputs = outputs;
    clear_outputs = clear_outputs;
  }

  -- commitV2Write under `new_version`, on the collection as it stands when the script runs.
  unfoldable pub commit_v2_write :
      Collection → TrieSnapshot → OutputMap → Bool → ℕ → Collection × Result ℕ
  unfolding encode_outputs marshal_trie_args v2_write_script
  commit_v2_write c snap outputs clear_outputs new_version =
      let (c', reply) =
        v2_write_script c
          (marshal_trie_args snap (encode_outputs outputs) new_version clear_outputs) in
      if reply == 0 then (c', err concurrency_conflict) else (c', ok new_version)

-- Which of the two writes: `planAddMany` without clearing, `planRemoveMany` with it.
pub data Write : Type 0 where
  add remove : Write

unfoldable pub plan_write : Write → TrieSnapshot → List Word → TrieSnapshot × OutputMap × List Word
unfolding plan_add_many plan_remove_many
plan_write add snap keywords = plan_add_many snap keywords
plan_write remove snap keywords = plan_remove_many snap keywords

abbrev pub clears : Write → Bool
clears add = false
clears remove = true

-- What an attempt answers once the script has run: the keywords that took effect.
abbrev pub answered : List Word → Result ℕ → Result (List Word)
answered changed (err e) = err e
answered changed (ok _) = ok changed

module _ (json : Json) (write : Write) (keywords : List Word) (now : Collection)
    (new_version : ℕ) where
  -- An attempt from the snapshot on; the script runs on `now`.
  unfoldable pub attempt_from : Result TrieSnapshot → Collection × Result (List Word)
  unfolding plan_write commit_v2_write
  attempt_from (err e) = (now, err e)
  attempt_from (ok snap) =
      let (snap', outputs, changed) = plan_write write snap keywords in
      let (now', result) = commit_v2_write json now snap' outputs (clears write) new_version in
      if is_empty changed then (now, ok []) else (now', answered changed result)

  -- One attempt of applyManyAtomic: the snapshot is read from `before`, which other writers may have
  -- changed into `now` when the script runs.
  unfoldable pub attempt : Collection → Collection × Result (List Word)
  unfolding read_trie_snapshot attempt_from
  attempt before = attempt_from (read_trie_snapshot json before)

-- retryOnConflict: `outcome i` is what attempt `i` comes to, and `is_canceled i` says whether the
-- context ends while the loop waits after it.
abbrev pub max_retries : ℕ
max_retries = 3

-- The body of the loop after one attempt, with `left` attempts to come and what they will answer.
abbrev pub after_attempt : {A : Type 0} → ℕ → Bool → Result A → Result A → Result A
after_attempt left is_canceled later (ok a) = ok a
after_attempt left is_canceled later (err concurrency_conflict) =
    if left == 0 then err concurrency_conflict else if is_canceled then err canceled else later
after_attempt left is_canceled later (err e) = err e

module _ {A : Type 0} (outcome : ℕ → Result A) (is_canceled : ℕ → Bool) where
  unfoldable pub retry_from : ℕ → ℕ → Result A
  retry_from zero i = err concurrency_conflict
  retry_from (suc left) i = after_attempt left (is_canceled i) (retry_from left (i + 1)) (outcome i)

  unfoldable pub retry_on_conflict : Result A
  unfolding retry_from
  retry_on_conflict = retry_from max_retries 0

-- flushV2Keys: one MULTI/EXEC that deletes the hashes and writes emptyTrieFields.
module _ (json : Json) where
  unfoldable pub flush_v2_keys : ℕ → Collection
  flush_v2_keys now = record {
    trie = record {
      keywords = some (json.encode []);
      prefixes = some (json.encode ([] ∷ []));
      version = some now;
    };
    outputs = [];
  }
