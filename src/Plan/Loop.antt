-- ===== src/Plan/Loop.antt =====
-- planAddMany's loop over the keywords, which collects the new ones and their prefixes.
use acor.Prelude.{
  ◌≡◌, ◌≢◌, refl, sym, ◌∙◌, ◌↔◌, ◌⊎◌, inl, inr, true, false, ◌||◌, List, [], ◌∷◌, ◌++◌, Word,
  has_word, has_word_iff, Has, Has-append_left, Has-append_right, Has-append_inv, Bool-cases, subst,
  rev_onto,
}
use acor.Plan.{
  nonempty_prefixes, is_empty, Planned, add_prefix, add_prefixes, plan_keyword, plan_keywords,
}
use acor.Plan.Suffixes.{absent-has_word}
use acor.Plan.Stored.{IsConsistent, nil_of_is_empty}

Has-snoc : (w : Word) (xs : List Word) (x : Word) → Has w (xs ++ x ∷ []) ↔ Has w xs ⊎ (w ≡ x)
Has-snoc w xs x = (
  λ h. elim (Has-append_inv w xs (x ∷ []) h) [
    | inl k ↦ inl k
    | inr k ↦ elim k [ inl e ↦ inr e | inr z ↦ elim z [ ] ]
  ],
  λ h. elim h [
    | inl k ↦ Has-append_left w xs (x ∷ []) k
    | inr e ↦ Has-append_right w xs (x ∷ []) (inl e)
  ],
)

-- The set `s` holds what `base` and `extra` hold.
abbrev pub IsSplit : List Word → List Word → List Word → Type 0
IsSplit s base extra = (w : Word) → Has w s ↔ Has w base ⊎ Has w extra

IsSplit-more :
    (s base extra : List Word) (x : Word)
    → IsSplit s base extra
    → IsSplit (x ∷ s) base (extra ++ x ∷ [])
IsSplit-more s base extra x S w =
    let snoc = Has-snoc w extra x in
    (
      λ h. elim h [
        | inl e ↦ inr (snoc.1 (inr e))
        | inr k ↦ elim ((S w).0 k) [ inl a ↦ inl a | inr b ↦ inr (snoc.1 (inl b)) ]
      ],
      λ h. elim h [
        | inl a ↦ inr ((S w).1 (inl a))
        | inr b ↦ elim (snoc.0 b) [ inl k ↦ inr ((S w).1 (inr k)) | inr e ↦ inl e ]
      ],
    )

module _ (keywords prefixes : List Word) where
  -- A round that adds prefixes leaves the keywords.
  record Prefixed (plan : Planned) (ps : List Word) (after : Planned) : Type 0 where
    pub same_keywords : after.keyword_set ≡ plan.keyword_set
    pub same_added : after.added ≡ plan.added
    pub all : (p : Word) → Has p after.prefix_set ↔ Has p plan.prefix_set ⊎ Has p ps
    pub split : IsSplit after.prefix_set prefixes after.new_prefixes

  add_prefix-Prefixed :
      (plan : Planned) (p : Word)
      → IsSplit plan.prefix_set prefixes plan.new_prefixes
      → Prefixed plan (p ∷ []) (add_prefix plan p)
  unfolding add_prefix
  add_prefix-Prefixed plan p S = elim (Bool-cases (has_word p plan.prefix_set)) [
    | inl e ↦ rw e (record {
      same_keywords = refl;
      same_added = refl;
      all = λ q. (
        λ h. inl h,
        λ h. elim h [
          | inl k ↦ k
          | inr k ↦ elim k [
            | inl f ↦
                subst (λ x. Has x plan.prefix_set) (sym f) ((has_word_iff p plan.prefix_set).0 e)
            | inr z ↦ elim z [ ]
          ]
        ],
      );
      split = S;
    })
    | inr e ↦ rw e (record {
      same_keywords = refl;
      same_added = refl;
      all = λ q. (
        λ h. elim h [ inl f ↦ inr (inl f) | inr k ↦ inl k ],
        λ h. elim h [ inl k ↦ inr k | inr k ↦ elim k [ inl f ↦ inl f | inr z ↦ elim z [ ] ] ],
      );
      split = IsSplit-more plan.prefix_set prefixes plan.new_prefixes p S;
    })
  ]

  add_prefixes-Prefixed :
      (ps : List Word) (plan : Planned)
      → IsSplit plan.prefix_set prefixes plan.new_prefixes
      → Prefixed plan ps (add_prefixes plan ps)
  unfolding add_prefixes
  add_prefixes-Prefixed [] plan S = record {
    same_keywords = refl;
    same_added = refl;
    all = λ q. (λ h. inl h, λ h. elim h [ inl k ↦ k | inr z ↦ elim z [ ] ]);
    split = S;
  }
  add_prefixes-Prefixed (p ∷ ps) plan S =
      let one = add_prefix-Prefixed plan p S in
      let rest = add_prefixes-Prefixed ps (add_prefix plan p) one.split in
      record {
        same_keywords = rest.same_keywords ∙ one.same_keywords;
        same_added = rest.same_added ∙ one.same_added;
        all = λ q. (
          λ h. elim ((rest.all q).0 h) [
            | inl k ↦ elim ((one.all q).0 k) [
              | inl a ↦ inl a
              | inr b ↦ elim b [ inl f ↦ inr (inl f) | inr z ↦ elim z [ ] ]
            ]
            | inr k ↦ inr (inr k)
          ],
          λ h. (rest.all q).1 (elim h [
            | inl a ↦ inl ((one.all q).1 (inl a))
            | inr b ↦ elim b [ inl f ↦ inl ((one.all q).1 (inr (inl f))) | inr k ↦ inr k ]
          ]),
        );
        split = rest.split;
      }

  -- The loop's invariant, with the keywords `asked` that it has seen.
  pub record IsPlan (plan : Planned) (asked : List Word) : Type 0 where
    pub keyword_split : IsSplit plan.keyword_set keywords plan.added
    pub prefix_split : IsSplit plan.prefix_set prefixes plan.new_prefixes
    pub consistent : IsConsistent plan.keyword_set plan.prefix_set
    pub held : (w : Word) → Has w plan.keyword_set ↔ Has w keywords ⊎ ((w ≢ []) × Has w asked)
    pub fresh : (w : Word) → Has w plan.added → (w ≢ []) × (¬ Has w keywords)

  skipped-IsPlan :
      (plan : Planned) (asked : List Word) (kw : Word)
      → (is_empty kw || has_word kw plan.keyword_set) ≡ true
      → IsPlan plan asked
      → IsPlan plan (kw ∷ asked)
  skipped-IsPlan plan asked kw e I = record {
    keyword_split = I.keyword_split;
    prefix_split = I.prefix_split;
    consistent = I.consistent;
    held = λ w. (
      λ h. elim ((I.held w).0 h) [ inl a ↦ inl a | inr (n, b) ↦ inr (n, inr b) ],
      λ h. elim h [
        | inl a ↦ (I.held w).1 (inl a)
        | inr (n, b) ↦ elim b [
          | inl f ↦ subst (λ x. Has x plan.keyword_set) (sym f) (known (λ z. n (f ∙ z)))
          | inr k ↦ (I.held w).1 (inr (n, k))
        ]
      ],
    );
    fresh = I.fresh;
  }
    where
      known : kw ≢ [] → Has kw plan.keyword_set
      known n = elim (Bool-cases (is_empty kw)) [
        | inl z ↦ absurd (n (nil_of_is_empty kw z))
        | inr z ↦ (has_word_iff kw plan.keyword_set).0 (rw z at e)
      ]

  taken-IsPlan :
      (plan : Planned) (asked : List Word) (kw : Word) (after : Planned)
      → kw ≢ []
      → ¬ Has kw plan.keyword_set
      → IsPlan plan asked
      → after.keyword_set ≡ kw ∷ plan.keyword_set
      → after.added ≡ plan.added ++ kw ∷ []
      → ((p : Word) → Has p after.prefix_set ↔ Has p plan.prefix_set ⊎ Has p (nonempty_prefixes kw))
      → IsSplit after.prefix_set prefixes after.new_prefixes
      → IsPlan after (kw ∷ asked)
  taken-IsPlan plan asked kw after n new I ek ea all split = record {
    keyword_split =
        rw (ek, ea) (IsSplit-more plan.keyword_set keywords plan.added kw I.keyword_split);
    prefix_split = split;
    consistent = rw ek (record {
      closed = λ w p h g. (all p).1 (elim h [
        | inl e ↦ inr (subst (λ x. Has p (nonempty_prefixes x)) e g)
        | inr k ↦ inl (I.consistent.closed w p k g)
      ]);
      sound = λ p h. elim ((all p).0 h) [
        | inl k ↦ elim (I.consistent.sound p k) [
          | inl e ↦ inl e
          | inr (w, a, b) ↦ inr (w, inr a, b)
        ]
        | inr k ↦ inr (kw, inl refl, k)
      ];
    });
    held = λ w. rw ek (
      λ h. elim h [
        | inl e ↦ inr (λ z. n (sym e ∙ z), inl e)
        | inr k ↦ elim ((I.held w).0 k) [ inl a ↦ inl a | inr (m, b) ↦ inr (m, inr b) ]
      ],
      λ h. elim h [
        | inl a ↦ inr ((I.held w).1 (inl a))
        | inr (m, b) ↦ elim b [ inl e ↦ inl e | inr k ↦ inr ((I.held w).1 (inr (m, k))) ]
      ],
    );
    fresh = λ w h. elim ((Has-snoc w plan.added kw).0 (rw ea at h)) [
      | inl k ↦ I.fresh w k
      | inr e ↦
          (λ z. n (sym e ∙ z), λ k. new ((I.held kw).1 (inl (subst (λ x. Has x keywords) e k))))
    ];
  }

  plan_keyword-IsPlan :
      (plan : Planned) (asked : List Word) (kw : Word)
      → IsPlan plan asked
      → IsPlan (plan_keyword plan kw) (kw ∷ asked)
  unfolding plan_keyword
  plan_keyword-IsPlan plan asked kw I =
      elim (Bool-cases (is_empty kw || has_word kw plan.keyword_set)) [
        | inl e ↦ rw e (skipped-IsPlan plan asked kw e I)
        | inr e ↦
            let plan' : Planned = record plan {
              keyword_set = kw ∷ plan.keyword_set;
              added = plan.added ++ kw ∷ [];
            } in
            let more = add_prefixes-Prefixed (nonempty_prefixes kw) plan' I.prefix_split in
            rw e (
              taken-IsPlan plan asked kw (add_prefixes plan' (nonempty_prefixes kw)) (nonempty e)
                (absent e) I more.same_keywords more.same_added more.all more.split)
      ]
    where
      nonempty : (is_empty kw || has_word kw plan.keyword_set) ≡ false → kw ≢ []
      nonempty e z = cc (subst (λ x. (is_empty x || has_word x plan.keyword_set) ≡ false) z e)

      absent : (is_empty kw || has_word kw plan.keyword_set) ≡ false → ¬ Has kw plan.keyword_set
      absent e = absent-has_word kw plan.keyword_set (elim (Bool-cases (is_empty kw)) [
        | inl z ↦ absurd (nonempty e (nil_of_is_empty kw z))
        | inr z ↦ rw z at e
      ])

  pub plan_keywords-IsPlan :
      (kws : List Word) (plan : Planned) (asked : List Word)
      → IsPlan plan asked
      → IsPlan (plan_keywords plan kws) (rev_onto kws asked)
  unfolding plan_keywords
  plan_keywords-IsPlan [] plan asked I = I
  plan_keywords-IsPlan (kw ∷ kws) plan asked I =
      plan_keywords-IsPlan kws (plan_keyword plan kw) (kw ∷ asked)
        (plan_keyword-IsPlan plan asked kw I)
