-- ===== src/V2/Refinement.antt =====
-- What a reader of the collection sees of the writers: a machine with one set of keywords that simulates
-- them.
use acor.Prelude.{
  ℕ, ◌≡◌, refl, sym, ap, ◌∙◌, ◌↔◌, inl, inr, some, List, [], ◌∷◌, Word, Has, subst, Bool, true,
  false, Option, none, Bool-cases, ◌==◌,
}
use acor.V2.{Json, Collection, Result, decode_field, flush_v2_keys, is_stale, parse_trie_version}
use acor.V2.Stored.{IsStored, absent-IsStored, flush_v2_keys-IsStored}
use acor.V2.Written.{IsKept, IsChanged}
use acor.V2.Attempt.{IsOutcome, attempt-IsOutcome}
use acor.V2.System.{
  Pending, System, Event, attempted, Step, reads, commits, gives_up, flushes, Reach, start, later,
  update, Reach-IsSound, is_stale-own,
}
use acor.V2.Machine.{
  Seen, Abstract, overtake, IsAtomic, starts, acts, finds_nothing, conflicts, stops, empties,
}

abbrev pub seen : Pending → List Word → Bool → Seen
seen p keywords overtaken = record {
  write = p.write;
  asked = p.asked;
  keywords = keywords;
  overtaken = overtaken;
}

-- The writer has read a collection with these keywords, which still stands there if nothing came since.
abbrev pub IsSeen : Json → Collection → Option Pending → Option Seen → Type 0
IsSeen json c none o = o ≡ none
IsSeen json c (some p) o =
    (keywords : List Word) × (prefixes : List Word) × (overtaken : Bool) × (o
      ≡ some (seen p keywords overtaken))
    × IsStored json p.base keywords prefixes
    × (overtaken ≡ false → c ≡ p.base)

-- The collection stores the keywords of the abstract machine, and each writer has read what its
-- counterpart did.
pub record Simulates (json : Json) (s : System) (a : Abstract) : Type 0 where
  pub prefixes : List Word
  pub stored : IsStored json s.collection a.keywords prefixes
  pub writers : (i : ℕ) → IsSeen json s.collection (s.pending i) (a.pending i)

module _ (json : Json) where
  some_injective : {A : Type 0} {a b : A} → some a ≡ some b → a ≡ b
  some_injective e = cc

  clash : {b : Bool} → b ≡ true → b ≡ false → ⊥
  clash h k = cc

  -- A collection stores one list of keywords.
  same_keywords :
      (c d : Collection) (ks ps ks' ps' : List Word)
      → IsStored json c ks ps
      → IsStored json d ks' ps'
      → c ≡ d
      → ks' ≡ ks
  same_keywords c d ks ps ks' ps' S T e = some_injective (
      sym T.keywords_stored
      ∙ ap (λ x. decode_field json x.trie.keywords) (sym e)
      ∙ S.keywords_stored)

  update-IsSeen :
      (c : Collection) (f : ℕ → Option Pending) (g : ℕ → Option Seen) (i : ℕ) (o : Option Pending)
      (q : Option Seen)
      → IsSeen json c o q
      → ((j : ℕ) → IsSeen json c (f j) (g j))
      → (j : ℕ) → IsSeen json c (update f i o j) (update g i q j)
  update-IsSeen c f g i o q here there j = elim (Bool-cases (i == j)) [
    | inl e ↦ rw e here
    | inr e ↦ rw e (there j)
  ]

  overtake-IsSeen :
      (c d : Collection) (o : Option Pending) (q : Option Seen)
      → IsSeen json c o q
      → IsSeen json d o (overtake q)
  overtake-IsSeen c d none q e = ap overtake e
  overtake-IsSeen c d (some p) q (ks, ps, b, e, S, k) =
      (ks, ps, true, ap overtake e, S, λ h. absurd (clash refl h))

  abbrev Matched : System → Event → Abstract → Type 0
  Matched t e a = (b : Abstract) × IsAtomic a e b × Simulates json t b

  abbrev committed : System → ℕ → ℕ → Collection × Result (List Word) → System
  committed s i v r = record {
    collection = r.0;
    used = v ∷ s.used;
    pending = update s.pending i none;
  }

  -- A writer that leaves and changes nothing.
  cleared-Simulates :
      (s : System) (a : Abstract) (i : ℕ) (used : List ℕ)
      → Simulates json s a
      → Simulates json
          (record { collection = s.collection; used = used; pending = update s.pending i none })
          (record a { pending = update a.pending i none })
  cleared-Simulates s a i used M = record {
    prefixes = M.prefixes;
    stored = M.stored;
    writers = update-IsSeen s.collection s.pending a.pending i none none refl M.writers;
  }

  attempted-IsAtomic :
      (s : System) (a : Abstract) (i : ℕ) (p : Pending) (v : ℕ) (bs qs : List Word) (b : Bool)
      → Simulates json s a
      → a.pending i ≡ some (seen p bs b)
      → IsStored json p.base bs qs
      → (b ≡ false → s.collection ≡ p.base)
      → (r : Collection × Result (List Word))
      → IsOutcome json p.write p.asked bs p.base s.collection v r
      → Matched (committed s i v r) (attempted p.write p.asked r.1) a
  attempted-IsAtomic s a i p v bs qs b M h B here r (inl (e, nothing)) =
      subst (λ r. Matched (committed s i v r) (attempted p.write p.asked r.1) a) (sym e)
        (
          record a { pending = update a.pending i none },
          finds_nothing i (seen p bs b) h nothing,
          cleared-Simulates s a i (v ∷ s.used) M,
        )
  attempted-IsAtomic s a i p v bs qs b M h B here r (inr (inl (e, stale))) =
      let own = λ (c : Collection) (k : c ≡ p.base).
        subst (λ x. is_stale x.trie.version (parse_trie_version p.base.trie.version) ≡ false)
          (sym k) (is_stale-own json p.base.trie.version) in
      let late : b ≡ true = elim (Bool-cases b) [
        | inl t ↦ t
        | inr t ↦ absurd (clash stale (own s.collection (here t)))
      ] in
      subst (λ r. Matched (committed s i v r) (attempted p.write p.asked r.1) a) (sym e)
        (
          record a { pending = update a.pending i none },
          conflicts i (seen p bs b) h late,
          cleared-Simulates s a i (v ∷ s.used) M,
        )
  attempted-IsAtomic s a i p v bs qs b M h B here r
        (inr (inr (after, changed, e, same, changes, W))) =
      let from : bs ≡ a.keywords = same_keywords _ _ a.keywords M.prefixes bs qs M.stored B same in
      subst (λ r. Matched (committed s i v r) (attempted p.write p.asked r.1) a) (sym e)
        (
          record {
            keywords = W.keywords_after;
            pending = λ j. overtake (update a.pending i none j);
          },
          acts i (seen p bs b) changed W.keywords_after h
              (λ w. subst (λ l. Has w changed ↔ IsChanged p.write l p.asked w) from (changes w))
              (λ w.
                subst (λ l. Has w W.keywords_after ↔ IsKept p.write l p.asked w) from (W.held w)),
          record {
            prefixes = W.prefixes_after;
            stored = W.stored;
            writers = λ j.
                overtake-IsSeen s.collection after (update s.pending i none j)
                  (update a.pending i none j)
                  (update-IsSeen s.collection s.pending a.pending i none none refl M.writers j);
          },
        )

  -- Every step that writers and flushes take from a reachable state is a step of the abstract machine, from
  -- each of its states that corresponds, and the states after it correspond again: a write that changes
  -- keywords acts at once on those that stand there then, and answers which it changed; one that answers
  -- without a change found nothing to change when it read; one that fails was overtaken; a flush leaves no
  -- keyword.
  pub Step-IsAtomic :
      {s t : System} {e : Event} (a : Abstract)
      → Reach json s
      → Step json s e t
      → Simulates json s a
      → (b : Abstract) × IsAtomic a e b × Simulates json t b
  Step-IsAtomic {s} a r (reads i write asked) M = (
    _,
    starts i write asked,
    record {
      prefixes = M.prefixes;
      stored = M.stored;
      writers =
          update-IsSeen s.collection s.pending a.pending i _ _
            (a.keywords, M.prefixes, false, refl, M.stored, λ _. refl) M.writers;
    },
  )
  Step-IsAtomic {s} a r (commits i p v h fresh) M =
      let (bs, qs, b, e, B, here) =
        subst (λ o. IsSeen json s.collection o (a.pending i)) h (M.writers i) in
      attempted-IsAtomic s a i p v bs qs b M e B here _ (
        attempt-IsOutcome json p.write p.asked v p.base bs qs B s.collection
          ((Reach-IsSound json r).base_current i p h))
  Step-IsAtomic {s} a r (gives_up i) M = (_, stops i, cleared-Simulates s a i s.used M)
  Step-IsAtomic {s} a r (flushes now fresh) M = (
    _,
    empties,
    record {
      prefixes = [] ∷ [];
      stored = flush_v2_keys-IsStored json now;
      writers = λ j.
          overtake-IsSeen s.collection (flush_v2_keys json now) (s.pending j) (a.pending j)
            (M.writers j);
    },
  )

  -- Every reachable state simulates a state of the abstract machine.
  pub Reach-Simulates : {s : System} → Reach json s → (a : Abstract) × Simulates json s a
  Reach-Simulates start = (
    record { keywords = []; pending = λ _. none },
    record { prefixes = []; stored = absent-IsStored json; writers = λ i. refl },
  )
  Reach-Simulates (later r st) =
      let (a, M) = Reach-Simulates r in let (b, _, N) = Step-IsAtomic a r st M in (b, N)
