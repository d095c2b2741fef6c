-- ===== src/Plan/Stored.antt =====
-- The loop that stores output lists, and the snapshots whose prefixes are right.
use acor.Prelude.{
  ◌≡◌, ◌≢◌, refl, sym, ap, ◌∙◌, ◌↔◌, ◌⊎◌, inl, inr, true, ◌||◌, List, [], ◌∷◌, Word, if◌then◌else◌,
  word_eq, word_eq_iff, Has, Has-map, Bool-cases, subst,
}
use acor.Plan.{OutputMap, outputs_at, nonempty_prefixes, compute_outputs, store_outputs, is_empty}

pub nil_of_is_empty : {A : Type 0} (l : List A) → is_empty l ≡ true → l ≡ []
nil_of_is_empty [] h = refl
nil_of_is_empty (x ∷ l) h = cc

module _ (P K : List Word) where
  abbrev pub IsRightAt : OutputMap → Word → Type 0
  IsRightAt m s = outputs_at m s ≡ compute_outputs s P K

  -- One round of the loop.
  abbrev stored : Word → OutputMap → OutputMap
  stored p m =
      if is_empty p || is_empty (compute_outputs p P K) then m else (p, compute_outputs p P K) ∷ m

  stored-keeps : (p : Word) (m : OutputMap) (s : Word) → IsRightAt m s → IsRightAt (stored p m) s
  unfolding outputs_at
  stored-keeps p m s h = elim (Bool-cases (is_empty p || is_empty (compute_outputs p P K))) [
    | inl e ↦ rw e h
    | inr e ↦ rw e (elim (Bool-cases (word_eq p s)) [
      | inl f ↦ rw f (ap (λ x. compute_outputs x P K) ((word_eq_iff p s).0 f))
      | inr f ↦ rw f h
    ])
  ]

  stored-others :
      (p : Word) (m : OutputMap) (s : Word)
      → (outputs_at m s ≡ []) ⊎ IsRightAt m s
      → (outputs_at (stored p m) s ≡ []) ⊎ IsRightAt (stored p m) s
  unfolding outputs_at
  stored-others p m s (inr h) = inr (stored-keeps p m s h)
  stored-others p m s (inl h) = elim (Bool-cases (is_empty p || is_empty (compute_outputs p P K))) [
    | inl e ↦ rw e (inl h)
    | inr e ↦ rw e (elim (Bool-cases (word_eq p s)) [
      | inl f ↦ inr (rw f (ap (λ x. compute_outputs x P K) ((word_eq_iff p s).0 f)))
      | inr f ↦ inl (rw f h)
    ])
  ]

  stored-here :
      (s : Word) (m : OutputMap)
      → s ≢ []
      → (outputs_at m s ≡ []) ⊎ IsRightAt m s
      → IsRightAt (stored s m) s
  unfolding outputs_at
  stored-here s m n (inr h) = stored-keeps s m s h
  stored-here s m n (inl h) = elim (Bool-cases (is_empty s)) [
    | inl e ↦ absurd (n (nil_of_is_empty s e))
    | inr e ↦ elim (Bool-cases (is_empty (compute_outputs s P K))) [
      | inl f ↦ rw (e, f) (h ∙ sym (nil_of_is_empty (compute_outputs s P K) f))
      | inr f ↦ rw (e, f, (word_eq_iff s s).1 refl) refl
    ]
  ]

  pub store_outputs-keeps :
      (ps : List Word) (m : OutputMap) (s : Word)
      → IsRightAt m s
      → IsRightAt (store_outputs ps P K m) s
  unfolding store_outputs
  store_outputs-keeps [] m s h = h
  store_outputs-keeps (p ∷ ps) m s h = store_outputs-keeps ps (stored p m) s (stored-keeps p m s h)

  pub store_outputs-others :
      (ps : List Word) (m : OutputMap) (s : Word)
      → (outputs_at m s ≡ []) ⊎ IsRightAt m s
      → (outputs_at (store_outputs ps P K m) s ≡ []) ⊎ IsRightAt (store_outputs ps P K m) s
  unfolding store_outputs
  store_outputs-others [] m s h = h
  store_outputs-others (p ∷ ps) m s h =
      store_outputs-others ps (stored p m) s (stored-others p m s h)

  -- Every state that the loop visits has its output list afterwards.
  pub store_outputs-visited :
      (ps : List Word) (m : OutputMap) (s : Word)
      → s ≢ []
      → Has s ps
      → (outputs_at m s ≡ []) ⊎ IsRightAt m s
      → IsRightAt (store_outputs ps P K m) s
  unfolding store_outputs
  store_outputs-visited [] m s n h g = elim h [ ]
  store_outputs-visited (p ∷ ps) m s n (inl e) g =
      store_outputs-keeps ps (stored p m) s
        (subst (λ x. IsRightAt (stored x m) s) e (stored-here s m n g))
  store_outputs-visited (p ∷ ps) m s n (inr h) g =
      store_outputs-visited ps (stored p m) s n h (stored-others p m s g)

-- The prefixes of a snapshot are those of its keywords, and the empty one.
pub record IsConsistent (keywords prefixes : List Word) : Type 0 where
  pub closed : (kw p : Word) → Has kw keywords → Has p (nonempty_prefixes kw) → Has p prefixes
  pub sound :
      (p : Word)
      → Has p prefixes
      → (p ≡ []) ⊎ ((kw : Word) × Has kw keywords × Has p (nonempty_prefixes kw))

pub IsConsistent-same :
    (k p k' p' : List Word)
    → ((w : Word) → Has w k' ↔ Has w k)
    → ((w : Word) → Has w p' ↔ Has w p)
    → IsConsistent k p
    → IsConsistent k' p'
IsConsistent-same k p k' p' same_k same_p C = record {
  closed = λ kw q h g. (same_p q).1 (C.closed kw q ((same_k kw).0 h) g);
  sound = λ q h. elim (C.sound q ((same_p q).0 h)) [
    | inl e ↦ inl e
    | inr (kw, g, j) ↦ inr (kw, (same_k kw).1 g, j)
  ];
}

pub own_prefix : (w : Word) → w ≢ [] → Has w (nonempty_prefixes w)
own_prefix [] n = absurd (n refl)
own_prefix (c ∷ []) n = inl refl
own_prefix (c ∷ d ∷ w) n = inr (
    (Has-map (◌∷◌ c) (nonempty_prefixes (d ∷ w)) (c ∷ d ∷ w)).1
      (d ∷ w, own_prefix (d ∷ w) (λ e. cc), refl))
