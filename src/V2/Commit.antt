-- ===== src/V2/Commit.antt =====
-- The script run under the version that a plan was made from, and under another one.
use acor.Prelude.{
  ◌≡◌, ◌≢◌, refl, sym, inl, inr, some, [], Word, Has, Bool, true, false, subst, if◌then◌else◌, ℕ,
}
use acor.Plan.{TrieSnapshot, OutputMap, outputs_at}
use acor.Plan.Suffixes.{IsSuffix}
use acor.Plan.Stored.{IsConsistent}
use acor.V2.{
  Json, Hash, Collection, hset_all, encode_outputs, marshal_trie_args, v2_write_script,
  commit_v2_write, ok, err, concurrency_conflict, is_stale,
}
use acor.V2.Fields.{
  decoded_at, decoded_at-hset_all, hset_all-IsKeyed, hset_all-IsReadable, IsKeyed, IsReadable,
}
use acor.V2.Stored.{IsStored}

module _ (json : Json) (c : Collection) (snap : TrieSnapshot) (m : OutputMap)
    (new_version : ℕ) where
  -- The collection that a commit leaves when it is not stale.
  abbrev pub after_commit : Bool → Collection
  after_commit clear = record {
    trie = record {
      keywords = some (json.encode snap.keywords);
      prefixes = some (json.encode snap.prefixes);
      version = some new_version;
    };
    outputs = hset_all (encode_outputs json m) (if clear then [] else c.outputs);
  }

  pub commit_v2_write-current :
      (clear : Bool)
      → is_stale c.trie.version snap.version ≡ false
      → commit_v2_write json c snap m clear new_version ≡ (after_commit clear, ok new_version)
  unfolding commit_v2_write v2_write_script marshal_trie_args
  commit_v2_write-current clear e = rw e refl

  pub commit_v2_write-stale :
      (clear : Bool)
      → is_stale c.trie.version snap.version ≡ true
      → commit_v2_write json c snap m clear new_version ≡ (c, err concurrency_conflict)
  unfolding commit_v2_write v2_write_script marshal_trie_args
  commit_v2_write-stale clear e = rw e refl

  -- What a plan promises: right output lists on the new prefixes, where it stored any.
  pub after_commit-IsStored :
      (clear : Bool) (old : Hash)
      → (if clear then [] else c.outputs) ≡ old
      → IsKeyed old
      → IsReadable json old
      → ((s w : Word) → Has w (decoded_at json old s) → IsSuffix w s × Has w snap.keywords)
      → IsConsistent snap.keywords snap.prefixes
      → (¬ Has [] snap.keywords)
      → ((s w : Word) → Has w (outputs_at m s) → IsSuffix w s × Has w snap.keywords)
      → ((s w : Word)
          → s ≢ []
          → Has s snap.prefixes
          → IsSuffix w s
          → Has w snap.keywords
          → Has w (outputs_at m s))
      → IsStored json (after_commit clear) snap.keywords snap.prefixes
  after_commit-IsStored clear old e keyed readable kept C n sound right = record {
    keywords_stored = json.read_back snap.keywords;
    prefixes_stored = json.read_back snap.prefixes;
    consistent = C;
    sound = λ s w h. elim (decoded_at-hset_all json m old s) [
      | inl k ↦ sound s w (subst (Has w) k (now s w h))
      | inr (k, z) ↦ kept s w (subst (Has w) k (now s w h))
    ];
    complete = λ s w x h i k. elim (decoded_at-hset_all json m old s) [
      | inl l ↦ back s w (subst (Has w) (sym l) (right s w x h i k))
      | inr (l, z) ↦ elim (subst (Has w) z (right s w x h i k)) [ ]
    ];
    nonempty = n;
    keyed =
        subst (λ o. IsKeyed (hset_all (encode_outputs json m) o)) (sym e)
          (hset_all-IsKeyed (encode_outputs json m) old keyed);
    readable =
        subst (λ o. IsReadable json (hset_all (encode_outputs json m) o)) (sym e)
          (hset_all-IsReadable json m old readable);
  }
    where
      now :
          (s w : Word)
          → Has w (decoded_at json (after_commit clear).outputs s)
          → Has w (decoded_at json (hset_all (encode_outputs json m) old) s)
      now s w h = subst (λ o. Has w (decoded_at json (hset_all (encode_outputs json m) o) s)) e h

      back :
          (s w : Word)
          → Has w (decoded_at json (hset_all (encode_outputs json m) old) s)
          → Has w (decoded_at json (after_commit clear).outputs s)
      back s w h =
          subst (λ o. Has w (decoded_at json (hset_all (encode_outputs json m) o) s)) (sym e) h
