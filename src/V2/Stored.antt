-- ===== src/V2/Stored.antt =====
-- What a stored collection holds: the invariant of the V2 schema.
use acor.Prelude.{◌≡◌, ◌≢◌, refl, ap₂, inl, inr, some, List, [], ◌∷◌, Word, Has, ℕ}
use acor.Plan.Suffixes.{IsSuffix}
use acor.Plan.Stored.{IsConsistent}
use acor.V2.{
  Json, Collection, ok, absent, decode_field, parse_trie_version, hget, snapshot_of,
  read_trie_snapshot, flush_v2_keys,
}
use acor.V2.Fields.{decoded_at, IsKeyed, IsReadable}

module _ (json : Json) where
  -- The collection stores these keywords: its trie hash holds them with their prefixes, and each prefix
  -- has the keywords that are its suffixes as its output list.
  pub record IsStored (c : Collection) (keywords prefixes : List Word) : Type 0 where
    pub keywords_stored : decode_field json c.trie.keywords ≡ some keywords
    pub prefixes_stored : decode_field json c.trie.prefixes ≡ some prefixes
    pub consistent : IsConsistent keywords prefixes
    pub sound : (s w : Word) → Has w (decoded_at json c.outputs s) → IsSuffix w s × Has w keywords
    pub complete :
        (s w : Word)
        → s ≢ []
        → Has s prefixes
        → IsSuffix w s
        → Has w keywords
        → Has w (decoded_at json c.outputs s)
    pub nonempty : ¬ Has [] keywords
    pub keyed : IsKeyed c.outputs
    pub readable : IsReadable json c.outputs

  pub read_trie_snapshot-stored :
      (c : Collection) (ks ps : List Word)
      → IsStored c ks ps
      → read_trie_snapshot json c
        ≡ ok (record { keywords = ks; prefixes = ps; version = parse_trie_version c.trie.version })
  unfolding read_trie_snapshot
  read_trie_snapshot-stored c ks ps S =
      ap₂ (λ k p. snapshot_of k p (parse_trie_version c.trie.version)) S.keywords_stored
        S.prefixes_stored

  pub nothing_decoded : {B : Type 0} (s w : Word) → Has w (decoded_at json [] s) → B
  unfolding hget
  nothing_decoded s w h = elim h [ ]

  pub nothing_to_read : IsReadable json []
  unfolding hget
  nothing_to_read s v e = cc

  pub absent-IsStored : IsStored absent [] []
  absent-IsStored = record {
    keywords_stored = refl;
    prefixes_stored = refl;
    consistent = record { closed = λ k p h. elim h [ ]; sound = λ p h. elim h [ ] };
    sound = λ s w h. nothing_decoded s w h;
    complete = λ s w n h. elim h [ ];
    nonempty = λ h. elim h [ ];
    keyed = tt;
    readable = nothing_to_read;
  }

  pub flush_v2_keys-IsStored : (now : ℕ) → IsStored (flush_v2_keys json now) [] ([] ∷ [])
  unfolding flush_v2_keys
  flush_v2_keys-IsStored now = record {
    keywords_stored = json.read_back [];
    prefixes_stored = json.read_back ([] ∷ []);
    consistent = record {
      closed = λ k p h. elim h [ ];
      sound = λ p h. elim h [ inl e ↦ inl e | inr k ↦ elim k [ ] ];
    };
    sound = λ s w h. nothing_decoded s w h;
    complete = λ s w n h i k. elim k [ ];
    nonempty = λ h. elim h [ ];
    keyed = tt;
    readable = nothing_to_read;
  }
