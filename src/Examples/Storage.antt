-- ===== src/Examples/Storage.antt =====
-- The theorems about stored collections, at small inputs.
use acor.Prelude.{
  ℕ, zero, suc, ◌<◌, ◌≡◌, refl, ap, ◌↔◌, inl, inr, Option, none, some, List, [], ◌∷◌, Word, Has,
  IsPrefix, AllDistinct, map, length, false, arith, if◌then◌else◌, ◌==◌, ◌%◌, ◌^◌, true,
}
use acor.V2.{
  Collection, Json, add, attempt, Result, ok, err, concurrency_conflict, absent, retry_on_conflict,
  generate_version,
}
use acor.V2.Stored.{absent-IsStored}
use acor.V2.Attempt.{IsOutcome, attempt-IsOutcome}
use acor.V2.Retry.{IsRetried, retry_on_conflict-IsRetried}
use acor.V2.Writes.{apply_many_atomic}
use acor.V2.Writes.Progress.{apply_many_atomic-succeeds}
use acor.V2.Queries.{keywords_to_build, info, suggest, suggest_index}
use acor.V2.Queries.Suggested.{suggest_iff}
use acor.V2.Queries.Built.{keywords_to_build_iff}
use acor.V2.Version.{generate_version_iff}
use acor.V2.System.{
  System, Pending, attempted, Step, reads, commits, Reach, start, later, init, update, IsSound,
  Reach-IsSound,
}
use acor.V2.Machine.{Abstract, IsAtomic}
use acor.V2.Refinement.{Simulates, Step-IsAtomic, Reach-Simulates}
use acor.Batch.{no_result, many_transactional}
use acor.Batch.Stored.{IsWhole, v2_ops, many_transactional-IsWhole}
use acor.Examples.Data.{word_he, word_hers}

-- A codec with the round trip of JSON: each word with its runes moved up by one, and a zero after it.
marked : Word → Word → Word
marked [] rest = 0 ∷ rest
marked (c ∷ w) rest = suc c ∷ marked w rest

encode : List Word → Word
unfolding marked
encode [] = []
encode (w ∷ ws) = marked w (encode ws)

abbrev extended : ℕ → Option (List Word) → Option (List Word)
extended c none = none
extended c (some []) = none
extended c (some (w ∷ ws)) = some ((c ∷ w) ∷ ws)

abbrev started : Option (List Word) → Option (List Word)
started none = none
started (some ws) = some ([] ∷ ws)

decode : Word → Option (List Word)
decode [] = some []
decode (zero ∷ rest) = started (decode rest)
decode (suc c ∷ rest) = extended c (decode rest)

decode-marked :
    (w rest : Word) (ws : List Word)
    → decode rest ≡ some ws
    → decode (marked w rest) ≡ some (w ∷ ws)
unfolding marked decode
decode-marked [] rest ws e = ap started e
decode-marked (c ∷ w) rest ws e = ap (extended c) (decode-marked w rest ws e)

decode-encode : (l : List Word) → decode (encode l) ≡ some l
unfolding encode decode
decode-encode [] = refl
decode-encode (w ∷ ws) = decode-marked w (encode ws) ws (decode-encode ws)

abbrev sample_json : Json
sample_json = record { encode = encode; decode = decode; read_back = decode-encode }

abbrev words : List Word
words = word_he ∷ word_hers ∷ []

abbrev first_write : Pending
first_write = record { write = add; asked = words; base = absent }

abbrev one_pending : System
one_pending = record init { pending = update init.pending 0 (some first_write) }

abbrev one_added : System
one_added = record {
  collection = (attempt sample_json add words absent 7 absent).0;
  used = 7 ∷ 0 ∷ [];
  pending = update one_pending.pending 0 none;
}

new_version : ¬ Has {A = ℕ} 7 (0 ∷ [])
new_version (inl e) = absurd (omega arith)
new_version (inr z) = elim z [ ]

abbrev adding_step :
    Step sample_json one_pending
      (attempted add words (attempt sample_json add words absent 7 absent).1)
      one_added
adding_step = commits 0 first_write 7 refl new_version

abbrev reach_pending : Reach sample_json one_pending
reach_pending = later start (reads 0 add words)

abbrev reach_added : Reach sample_json one_added
reach_added = later reach_pending adding_step

abbrev added_sound : IsSound sample_json one_added
added_sound = Reach-IsSound sample_json reach_added

Reach-IsSound_example : IsSound sample_json one_added
Reach-IsSound_example = Reach-IsSound sample_json reach_added

abbrev before_adding : (a : Abstract) × Simulates sample_json one_pending a
before_adding = Reach-Simulates sample_json reach_pending

Step-IsAtomic_example :
    (b : Abstract) × IsAtomic before_adding.0
      (attempted add words (attempt sample_json add words absent 7 absent).1)
      b
    × Simulates sample_json one_added b
Step-IsAtomic_example =
    Step-IsAtomic sample_json before_adding.0 reach_pending adding_step before_adding.1

attempt-IsOutcome_example :
    IsOutcome sample_json add words [] absent absent 7
      (attempt sample_json add words absent 7 absent)
attempt-IsOutcome_example =
    attempt-IsOutcome sample_json add words 7 absent [] [] (absent-IsStored sample_json) absent
      (λ _. refl)

apply_many_atomic-succeeds_example :
    (changed : List Word) × (apply_many_atomic sample_json
        (λ _. absent)
        (λ _. absent)
        (λ i. i)
        (λ _. false)
        add
        words
      ≡ ok changed)
apply_many_atomic-succeeds_example =
    apply_many_atomic-succeeds sample_json (λ _. absent) (λ _. absent) (λ i. i) (λ _. false)
      (λ _. ([], [], absent-IsStored sample_json)) (λ _ _. refl) add words (λ _. refl) 1
      (omega arith) refl

abbrev second_time : ℕ → Result ℕ
second_time i = if i == 0 then err concurrency_conflict else ok 5

retry_on_conflict-IsRetried_example :
    IsRetried second_time (λ _. false) 0 3 (retry_on_conflict second_time (λ _. false))
retry_on_conflict-IsRetried_example = retry_on_conflict-IsRetried second_time (λ _. false)

keywords_to_build_iff_example :
    (built : List Word) × (keywords_to_build sample_json one_added.collection.outputs ≡ ok built)
    × AllDistinct built
    × ((w : Word) → Has w built ↔ Has w added_sound.stored.0)
keywords_to_build_iff_example =
    keywords_to_build_iff sample_json one_added.collection added_sound.stored.0 added_sound.stored.1
      added_sound.stored.2

generate_version_iff_example :
    (generate_version 255 1 3 < 2 ^ 64)
    × ((generate_version 255 1 3 ≡ generate_version 255 2 3)
        ↔ (◌≡◌ {A = ℕ} 255 255) × (◌≡◌ {A = ℕ} 1 2) × (3 % 2 ^ 48 ≡ 3 % 2 ^ 48))
generate_version_iff_example =
    generate_version_iff 255 1 3 255 2 3 (omega arith) (omega arith) (omega arith) (omega arith)

suggest_iff_example :
    (results : List Word) × (suggest sample_json (λ w. w) one_added.collection word_he ≡ ok results)
    × ((kw : Word) → Has kw results ↔ Has kw added_sound.stored.0 × IsPrefix word_he kw)
    × (suggest_index sample_json (λ w. w) one_added.collection word_he
        ≡ ok (map (λ kw. (kw, 0 ∷ [])) results))
    × (info sample_json (λ w. w) one_added.collection
        ≡ ok (record {
          keywords = length added_sound.stored.0;
          nodes = length added_sound.stored.1;
        }))
suggest_iff_example =
    suggest_iff sample_json (λ w. w) one_added.collection added_sound.stored.0 added_sound.stored.1
      added_sound.stored.2 word_he (λ e. cc)

-- The writes of single keywords, which a transactional batch of this mode does not use.
abbrev unused : Collection → Word → Collection × Result ℕ
unused c kw = (c, ok 0)

abbrev version_nine : Collection → ℕ
version_nine _ = 9

many_transactional-IsWhole_example :
    IsWhole
      (λ w. w)
      (λ w. w)
      true
      sample_json
      add
      version_nine
      unused
      unused
      one_added.collection
      added_sound.stored.0
      words
      (many_transactional
        (λ w. w)
        (λ w. w)
        true
        (v2_ops (λ w. w) (λ w. w) true sample_json add version_nine unused unused)
        one_added.collection
        words
        no_result)
many_transactional-IsWhole_example =
    many_transactional-IsWhole (λ w. w) (λ w. w) true sample_json add version_nine unused unused
      one_added.collection added_sound.stored.0 added_sound.stored.1 added_sound.stored.2 words
