-- ===== src/Plan/Remove.antt =====
-- planRemoveMany: the new snapshot is consistent, and the replacement outputs are right for it.
use acor.Prelude.{
  ◌≡◌, ◌≢◌, refl, sym, ◌∙◌, ◌↔◌, ◌⊎◌, inl, inr, true, false, List, [], ◌∷◌, Word, arith, has_word,
  has_word_iff, Has, Has-map, Bool-cases, subst,
}
use acor.Plan.{
  TrieSnapshot, OutputMap, outputs_at, nonempty_prefixes, starts_with, surviving, removed_from,
  has_start, live_prefixes, store_outputs, is_empty, plan_remove_many,
}
use acor.Plan.Suffixes.{IsSuffix, compute_outputs_iff, absent-has_word}
use acor.Plan.Add.{no_output}
use acor.Plan.Stored.{
  store_outputs-others, IsRightAt, store_outputs-visited, IsConsistent, own_prefix, nil_of_is_empty,
}

surviving_iff :
    (doomed kws : List Word) (w : Word)
    → Has w (surviving doomed kws) ↔ Has w kws × (¬ Has w doomed)
unfolding surviving
surviving_iff doomed [] w = (λ h. elim h [ ], λ (h, n). elim h [ ])
surviving_iff doomed (kw ∷ kws) w =
    let rest = surviving_iff doomed kws w in
    elim (Bool-cases (has_word kw doomed)) [
      | inl e ↦ rw e (
        λ h. let (a, n) = rest.0 h in (inr a, n),
        λ (h, n). elim h [
          | inl f ↦ absurd (n (subst (λ x. Has x doomed) (sym f) ((has_word_iff kw doomed).0 e)))
          | inr a ↦ rest.1 (a, n)
        ],
      )
      | inr e ↦ rw e (
        λ h. elim h [
          | inl f ↦ (inl f, λ k. absent-has_word kw doomed e (subst (λ x. Has x doomed) f k))
          | inr g ↦ let (a, n) = rest.0 g in (inr a, n)
        ],
        λ (h, n). elim h [ inl f ↦ inl f | inr a ↦ inr (rest.1 (a, n)) ],
      )
    ]

removed_from_iff :
    (doomed kws : List Word) (w : Word) → Has w (removed_from doomed kws) ↔ Has w kws × Has w doomed
unfolding removed_from
removed_from_iff doomed [] w = (λ h. elim h [ ], λ (h, n). elim h [ ])
removed_from_iff doomed (kw ∷ kws) w =
    let rest = removed_from_iff doomed kws w in
    elim (Bool-cases (has_word kw doomed)) [
      | inl e ↦ rw e (
        λ h. elim h [
          | inl f ↦ (inl f, subst (λ x. Has x doomed) (sym f) ((has_word_iff kw doomed).0 e))
          | inr g ↦ let (a, n) = rest.0 g in (inr a, n)
        ],
        λ (h, n). elim h [ inl f ↦ inl f | inr a ↦ inr (rest.1 (a, n)) ],
      )
      | inr e ↦ rw e (
        λ h. let (a, n) = rest.0 h in (inr a, n),
        λ (h, n). elim h [
          | inl f ↦ absurd (absent-has_word kw doomed e (subst (λ x. Has x doomed) f n))
          | inr a ↦ rest.1 (a, n)
        ],
      )
    ]

-- strings.HasPrefix for a prefix that is not empty.
starts_with_iff : (kw p : Word) → p ≢ [] → (starts_with kw p ≡ true) ↔ Has p (nonempty_prefixes kw)
starts_with_iff kw [] n = absurd (n refl)
starts_with_iff [] (c ∷ p) n = (λ h. absurd (cc), λ h. elim h [ ])
starts_with_iff (d ∷ kw) (c ∷ []) n = (
  λ h. let same : d ≡ c = ground arith in inl (rw same refl),
  λ h. elim h [
    | inl e ↦ let same : c ≡ d = cc in ground arith
    | inr k ↦
        let (q, a, e) = (Has-map (◌∷◌ d) (nonempty_prefixes kw) (c ∷ [])).0 k in
        let same : c ≡ d = cc in ground arith
  ],
)
starts_with_iff (d ∷ kw) (c ∷ b ∷ p) n =
    let rest = starts_with_iff kw (b ∷ p) (λ e. cc) in
    (
      λ h.
          let same : d ≡ c = ground arith in
          let more : starts_with kw (b ∷ p) ≡ true = ground arith in
          inr (
            (Has-map (◌∷◌ d) (nonempty_prefixes kw) (c ∷ b ∷ p)).1
              (b ∷ p, rest.0 more, rw same refl)),
      λ h. elim h [
        | inl e ↦ cc
        | inr k ↦
            let (q, a, e) = (Has-map (◌∷◌ d) (nonempty_prefixes kw) (c ∷ b ∷ p)).0 k in
            let same : c ≡ d = cc in
            let tail : b ∷ p ≡ q = cc in
            let more : starts_with kw (b ∷ p) ≡ true =
              rest.1 (subst (λ x. Has x (nonempty_prefixes kw)) (sym tail) a) in
            rw same (ground (arith, more))
      ],
    )

has_start_iff :
    (kws : List Word) (p : Word)
    → p ≢ []
    → (has_start kws p ≡ true) ↔ ((kw : Word) × Has kw kws × Has p (nonempty_prefixes kw))
has_start_iff [] p n = (λ h. absurd (cc), λ (kw, h, g). elim h [ ])
has_start_iff (w ∷ kws) p n =
    let rest = has_start_iff kws p n in
    let here = starts_with_iff w p n in
    (
      λ h. elim (Bool-cases (starts_with w p)) [
        | inl e ↦ (w, inl refl, here.0 e)
        | inr e ↦ let (kw, a, b) = rest.0 (rw e at h) in (kw, inr a, b)
      ],
      λ (kw, a, b). elim (Bool-cases (starts_with w p)) [
        | inl e ↦ rw e refl
        | inr e ↦ rw e (elim a [
          | inl f ↦
              let yes : starts_with w p ≡ true =
                here.1 (subst (λ x. Has p (nonempty_prefixes x)) f b) in
              absurd (cc)
          | inr k ↦ rest.1 (kw, k, b)
        ])
      ],
    )

nonempty-prefix : (w p : Word) → Has p (nonempty_prefixes w) → p ≢ []
nonempty-prefix [] p h = elim h [ ]
nonempty-prefix (c ∷ w) p (inl e) = λ z. cc
nonempty-prefix (c ∷ w) p (inr h) =
    let (q, a, e) = (Has-map (◌∷◌ c) (nonempty_prefixes w) p).0 h in λ z. cc

abbrev IsReached : List Word → Word → Type 0
IsReached kws p = (kw : Word) × Has kw kws × Has p (nonempty_prefixes kw)

live_prefixes_iff :
    (kws ps : List Word) (p : Word)
    → Has p (live_prefixes kws ps) ↔ (p ≢ []) × Has p ps × IsReached kws p
unfolding live_prefixes
live_prefixes_iff kws [] p = (λ h. elim h [ ], λ (n, h, r). elim h [ ])
live_prefixes_iff kws (q ∷ ps) p =
    let rest = live_prefixes_iff kws ps p in
    let later : Has p (live_prefixes kws ps) → (p ≢ []) × Has p (q ∷ ps) × IsReached kws p =
      λ h. let (n, a, r) = rest.0 h in (n, inr a, r) in
    elim (Bool-cases (is_empty q)) [
      | inl e ↦ rw e (
        later,
        λ (n, h, r). elim h [
          | inl f ↦ absurd (n (f ∙ nil_of_is_empty q e))
          | inr a ↦ rest.1 (n, a, r)
        ],
      )
      | inr e ↦
          let some_q : q ≢ [] = λ z. cc (subst (λ x. is_empty x ≡ false) z e) in
          elim (Bool-cases (has_start kws q)) [
            | inl s ↦
                rw (e, s)
                  (
                    λ h. elim h [
                      | inl f ↦ (
                        λ z. some_q (sym f ∙ z),
                        inl f,
                        subst (IsReached kws) (sym f) ((has_start_iff kws q some_q).0 s),
                      )
                      | inr k ↦ later k
                    ],
                    λ (n, h, r). elim h [ inl f ↦ inl f | inr a ↦ inr (rest.1 (n, a, r)) ],
                  )
            | inr s ↦
                rw (e, s)
                  (
                    later,
                    λ (n, h, r). elim h [
                      | inl f ↦
                          let yes : has_start kws q ≡ true =
                            (has_start_iff kws q some_q).1 (subst (IsReached kws) f r) in
                          absurd (cc)
                      | inr a ↦ rest.1 (n, a, r)
                    ],
                  )
          ]
    ]

-- What planRemoveMany promises of the snapshot, the output lists and the removed keywords.
pub record IsRemoval (snap : TrieSnapshot) (doomed : List Word) (after : TrieSnapshot)
    (outputs : OutputMap) (removed : List Word) : Type 0 where
  pub consistent : IsConsistent after.keywords after.prefixes
  pub held : (w : Word) → Has w after.keywords ↔ Has w snap.keywords × (¬ Has w doomed)
  pub gone : (w : Word) → Has w removed ↔ Has w snap.keywords × Has w doomed
  pub outputs_sound :
      (p w : Word) → Has w (outputs_at outputs p) → IsSuffix w p × Has w after.keywords
  pub outcome :
      ((removed ≡ []) × (after ≡ snap))
      ⊎ ((p w : Word)
          → p ≢ []
          → Has p after.prefixes
          → Has w (outputs_at outputs p) ↔ IsSuffix w p × Has w after.keywords)

module _ (snap : TrieSnapshot) (doomed : List Word)
    (C : IsConsistent snap.keywords snap.prefixes) where
  abbrev kept : List Word
  kept = surviving doomed snap.keywords

  abbrev kept_prefixes : List Word
  kept_prefixes = [] ∷ live_prefixes kept snap.prefixes

  kept-IsConsistent : IsConsistent kept kept_prefixes
  kept-IsConsistent = record {
    closed = λ kw p h g. inr (
        (live_prefixes_iff kept snap.prefixes p).1 (
          nonempty-prefix kw p g,
          C.closed kw p ((surviving_iff doomed snap.keywords kw).0 h).0 g,
          (kw, h, g),
        ));
    sound = λ p h. elim h [
      | inl e ↦ inl e
      | inr k ↦ let (n, a, r) = (live_prefixes_iff kept snap.prefixes p).0 k in inr r
    ];
  }

  kept_outputs-right :
      (p w : Word)
      → p ≢ []
      → Has p kept_prefixes
      → Has w (outputs_at (store_outputs kept_prefixes kept_prefixes kept []) p)
        ↔ IsSuffix w p × Has w kept
  unfolding outputs_at
  kept_outputs-right p w n h =
      let at : IsRightAt kept_prefixes kept (store_outputs kept_prefixes kept_prefixes kept []) p =
        store_outputs-visited kept_prefixes kept kept_prefixes [] p n h (inl refl) in
      rw at (
        compute_outputs_iff kept_prefixes kept
          (λ x k m. kept-IsConsistent.closed x x k (own_prefix x m)) p w)

  kept-output-sound :
      (p w : Word)
      → Has w (outputs_at (store_outputs kept_prefixes kept_prefixes kept []) p)
      → IsSuffix w p × Has w kept
  unfolding outputs_at
  kept-output-sound p w h =
      elim (store_outputs-others kept_prefixes kept kept_prefixes [] p (inl refl)) [
        | inl e ↦ elim (subst (Has w) e h) [ ]
        | inr e ↦
            (compute_outputs_iff kept_prefixes kept
                (λ x k m. kept-IsConsistent.closed x x k (own_prefix x m)) p w).0
              (subst (Has w) e h)
      ]

  none_removed :
      removed_from doomed snap.keywords ≡ []
      → (w : Word) → Has w snap.keywords ↔ Has w snap.keywords × (¬ Has w doomed)
  none_removed e w = (
    λ h. (h, λ k. elim (subst (Has w) e ((removed_from_iff doomed snap.keywords w).1 (h, k))) [ ]),
    λ (h, k). h,
  )

  -- On a snapshot whose prefixes are those of its keywords, planRemoveMany leaves such a snapshot,
  -- which holds the old keywords but those asked for; it returns the ones that it removed, and either
  -- there are none and the snapshot is unchanged, or each prefix of the new snapshot but the empty one
  -- has the new snapshot's keywords that are its suffixes as its outputs. No output list holds
  -- anything but keywords of the new snapshot that are suffixes of its state.
  pub plan_remove_many_lem :
      IsRemoval snap doomed
        (plan_remove_many snap doomed).0
        (plan_remove_many snap doomed).1
        (plan_remove_many snap doomed).2
  unfolding plan_remove_many
  plan_remove_many_lem = elim (Bool-cases (is_empty (removed_from doomed snap.keywords))) [
    | inl e ↦
        let none = nil_of_is_empty (removed_from doomed snap.keywords) e in
        rw e (record {
          consistent = C;
          held = none_removed none;
          gone = λ w.
              subst (λ l. Has w l ↔ Has w snap.keywords × Has w doomed) none
                (removed_from_iff doomed snap.keywords w);
          outputs_sound = λ p w h. no_output p w h;
          outcome = inl (refl, refl);
        })
    | inr e ↦ rw e (record {
      consistent = kept-IsConsistent;
      held = surviving_iff doomed snap.keywords;
      gone = removed_from_iff doomed snap.keywords;
      outputs_sound = kept-output-sound;
      outcome = inr kept_outputs-right;
    })
  ]
