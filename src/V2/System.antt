-- ===== src/V2/System.antt =====
-- Several writers on one collection: each reads a snapshot, and later runs the script. A reply that
-- gets lost on the way leaves the same collection.
use acor.Prelude.{
  ℕ, ◌≡◌, refl, sym, ap, ◌∙◌, ◌⊎◌, inl, inr, Option, none, some, List, [], ◌∷◌, Word, Has, false,
  subst, Bool-cases, ◌==◌, if◌then◌else◌, arith,
}
use acor.V2.{
  Json, Collection, Write, attempt, Result, absent, flush_v2_keys, parse_trie_version, is_stale,
}
use acor.V2.Stored.{IsStored, absent-IsStored, flush_v2_keys-IsStored}
use acor.V2.Attempt.{attempt-IsOutcome}

-- A write that has read its snapshot from `base`.
pub record Pending : Type 0 where
  pub write : Write
  pub asked : List Word
  pub base : Collection

-- `used` are the versions that were ever stamped, and 0, as which an absent one reads.
pub record System : Type 0 where
  pub collection : Collection
  pub used : List ℕ
  pub pending : ℕ → Option Pending

pub data Event : Type 0 where
  read gave_up flushed : Event
  attempted : Write → List Word → Result (List Word) → Event

abbrev pub update : {A : Type 0} → (ℕ → Option A) → ℕ → Option A → ℕ → Option A
update f i a j = if i == j then a else f j

abbrev pub init : System
init = record { collection = absent; used = 0 ∷ []; pending = λ _. none }

version_of_current : (v old : ℕ) → is_stale (some v) old ≡ false → v ≡ old
version_of_current v old h = ground arith

none_not_some : {p : Pending} → none ≡ some p → ⊥
none_not_some e = cc

same_base : {q p : Pending} → some q ≡ some p → p.base ≡ q.base
same_base e = cc

update-inv :
    (f : ℕ → Option Pending) (i : ℕ) (o : Option Pending) (j : ℕ) (p : Pending)
    → update f i o j ≡ some p
    → (o ≡ some p) ⊎ (f j ≡ some p)
update-inv f i o j p h = elim (Bool-cases (i == j)) [
  | inl e ↦ inl (subst (λ b. (if b then o else f j) ≡ some p) e h)
  | inr e ↦ inr (subst (λ b. (if b then o else f j) ≡ some p) e h)
]

update-kept :
    (f : ℕ → Option Pending) (i j : ℕ) (p : Pending) → update f i none j ≡ some p → f j ≡ some p
update-kept f i j p h = elim (update-inv f i none j p h) [
  | inl e ↦ absurd (none_not_some e)
  | inr e ↦ e
]

module _ (json : Json) where
  -- The versions of generateVersion and of the flush's clock are taken to be new ones.
  pub data Step : System → Event → System → Type 0 where
    reads :
        {s : System} (i : ℕ) (write : Write) (asked : List Word)
        → Step s read (record s {
          pending =
              update s.pending i
                (some (record { write = write; asked = asked; base = s.collection }));
        })
    commits :
        {s : System} (i : ℕ) (p : Pending) (new_version : ℕ)
        → s.pending i ≡ some p
        → (¬ Has new_version s.used)
        → Step s
            (attempted p.write p.asked
              (attempt json p.write p.asked s.collection new_version p.base).1)
            (record {
              collection = (attempt json p.write p.asked s.collection new_version p.base).0;
              used = new_version ∷ s.used;
              pending = update s.pending i none;
            })
    gives_up :
        {s : System} (i : ℕ) → Step s gave_up (record s { pending = update s.pending i none })
    flushes :
        {s : System} (now : ℕ)
        → (¬ Has now s.used)
        → Step s flushed (record s { collection = flush_v2_keys json now; used = now ∷ s.used })

  pub data Reach : System → Type 0 where
    start : Reach init
    later : {s t : System} {e : Event} → Reach s → Step s e t → Reach t

  -- The collection is stored right, and what a writer read has either not changed or has another
  -- version now.
  pub record IsSound (s : System) : Type 0 where
    pub stored : (ks : List Word) × (ps : List Word) × IsStored json s.collection ks ps
    pub current_used : Has (parse_trie_version s.collection.trie.version) s.used
    pub base_used :
        (i : ℕ) (p : Pending)
        → s.pending i ≡ some p
        → Has (parse_trie_version p.base.trie.version) s.used
    pub base_stored :
        (i : ℕ) (p : Pending)
        → s.pending i ≡ some p
        → (ks : List Word) × (ps : List Word) × IsStored json p.base ks ps
    pub base_current :
        (i : ℕ) (p : Pending)
        → s.pending i ≡ some p
        → is_stale s.collection.trie.version (parse_trie_version p.base.trie.version) ≡ false
        → s.collection ≡ p.base

  -- A collection as it was, or one that is stored right under a new version.
  abbrev IsReplaced : System → Collection → ℕ → Type 0
  IsReplaced s c v =
      (c ≡ s.collection)
      ⊎ ((¬ Has v s.used)
          × (c.trie.version ≡ some v)
          × ((ks : List Word) × (ps : List Word) × IsStored json c ks ps))

  replaced-IsSound :
      (s : System) (c : Collection) (v : ℕ) (pending : ℕ → Option Pending)
      → IsSound s
      → IsReplaced s c v
      → ((i : ℕ) (p : Pending) → pending i ≡ some p → s.pending i ≡ some p)
      → IsSound (record { collection = c; used = v ∷ s.used; pending = pending })
  replaced-IsSound s c v pending I (inl e) kept = record {
    stored =
        subst (λ c. (ks : List Word) × (ps : List Word) × IsStored json c ks ps) (sym e) I.stored;
    current_used =
        inr (subst (λ c. Has (parse_trie_version c.trie.version) s.used) (sym e) I.current_used);
    base_used = λ i p h. inr (I.base_used i p (kept i p h));
    base_stored = λ i p h. I.base_stored i p (kept i p h);
    base_current = λ i p h k.
        e
        ∙ I.base_current i p (kept i p h) (
            subst (λ c. is_stale c.trie.version (parse_trie_version p.base.trie.version) ≡ false) e
              k);
  }
  replaced-IsSound s c v pending I (inr (fresh, e, S)) kept = record {
    stored = S;
    current_used = inl (ap parse_trie_version e);
    base_used = λ i p h. inr (I.base_used i p (kept i p h));
    base_stored = λ i p h. I.base_stored i p (kept i p h);
    base_current = λ i p h k.
        let same =
          version_of_current v (parse_trie_version p.base.trie.version)
            (subst (λ o. is_stale o (parse_trie_version p.base.trie.version) ≡ false) e k) in
        absurd (fresh (subst (λ x. Has x s.used) (sym same) (I.base_used i p (kept i p h))));
  }

  pub is_stale-own : (v : Option ℕ) → is_stale v (parse_trie_version v) ≡ false
  is_stale-own none = refl
  is_stale-own (some v) = ground arith

  pub init-IsSound : IsSound init
  init-IsSound = record {
    stored = ([], [], absent-IsStored json);
    current_used = inl refl;
    base_used = λ i p h. absurd (none_not_some h);
    base_stored = λ i p h. absurd (none_not_some h);
    base_current = λ i p h k. absurd (none_not_some h);
  }

  read-IsSound :
      (s : System) (i : ℕ) (q : Pending)
      → q.base ≡ s.collection
      → IsSound s
      → IsSound (record s { pending = update s.pending i (some q) })
  read-IsSound s i q here I = record {
    stored = I.stored;
    current_used = I.current_used;
    base_used = λ j p h. elim (own j p h) [
      | inl e ↦ subst (λ c. Has (parse_trie_version c.trie.version) s.used) (sym e) I.current_used
      | inr e ↦ I.base_used j p e
    ];
    base_stored = λ j p h. elim (own j p h) [
      | inl e ↦
          subst (λ c. (ks : List Word) × (ps : List Word) × IsStored json c ks ps) (sym e) I.stored
      | inr e ↦ I.base_stored j p e
    ];
    base_current = λ j p h k. elim (own j p h) [ inl e ↦ sym e | inr e ↦ I.base_current j p e k ];
  }
    where
      own :
          (j : ℕ) (p : Pending)
          → update s.pending i (some q) j ≡ some p
          → (p.base ≡ s.collection) ⊎ (s.pending j ≡ some p)
      own j p h = elim (update-inv s.pending i (some q) j p h) [
        | inl e ↦ inl (same_base e ∙ here)
        | inr e ↦ inr e
      ]

  attempt-IsReplaced :
      (s : System) (i : ℕ) (p : Pending) (v : ℕ)
      → IsSound s
      → s.pending i ≡ some p
      → (¬ Has v s.used)
      → IsReplaced s (attempt json p.write p.asked s.collection v p.base).0 v
  attempt-IsReplaced s i p v I h fresh =
      let (ks, ps, S) = I.base_stored i p h in
      elim (attempt-IsOutcome json p.write p.asked v p.base ks ps S s.collection
        (I.base_current i p h)) [
          | inl (e, _) ↦ inl (ap (λ r. r.0) e)
          | inr (inl (e, _)) ↦ inl (ap (λ r. r.0) e)
          | inr (inr (after, changed, e, same, _, W)) ↦ inr (
            fresh,
            ap (λ r. r.0.trie.version) e ∙ W.stamped,
            (
              W.keywords_after,
              W.prefixes_after,
              subst (λ c. IsStored json c W.keywords_after W.prefixes_after) (ap (λ r. r.0) (sym e))
                  W.stored,
            ),
          )
        ]

  flush-version : (now : ℕ) → (flush_v2_keys json now).trie.version ≡ some now
  unfolding flush_v2_keys
  flush-version now = refl

  Step-IsSound : {s t : System} {e : Event} → Step s e t → IsSound s → IsSound t
  Step-IsSound {s} (reads i write asked) I =
      read-IsSound s i (record { write = write; asked = asked; base = s.collection }) refl I
  Step-IsSound {s} (commits i p v h fresh) I =
      replaced-IsSound s (attempt json p.write p.asked s.collection v p.base).0 v
        (update s.pending i none) I (attempt-IsReplaced s i p v I h fresh) (update-kept s.pending i)
  Step-IsSound {s} (gives_up i) I = record {
    stored = I.stored;
    current_used = I.current_used;
    base_used = λ j p h. I.base_used j p (update-kept s.pending i j p h);
    base_stored = λ j p h. I.base_stored j p (update-kept s.pending i j p h);
    base_current = λ j p h. I.base_current j p (update-kept s.pending i j p h);
  }
  Step-IsSound {s} (flushes now fresh) I =
      replaced-IsSound s (flush_v2_keys json now) now s.pending I
        (inr (fresh, flush-version now, ([], [] ∷ [], flush_v2_keys-IsStored json now)))
        (λ j p h. h)

  -- In every state that the writers and flushes of a collection reach, the collection is stored right,
  -- and what a writer has read was stored right and either stands there still or has another version.
  pub Reach-IsSound : {s : System} → Reach s → IsSound s
  Reach-IsSound start = init-IsSound
  Reach-IsSound (later r st) = Step-IsSound st (Reach-IsSound r)
