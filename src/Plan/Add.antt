-- ===== src/Plan/Add.antt =====
-- planAddMany: the new snapshot is consistent, and every output list is right for it.
use acor.Prelude.{
  ◌≡◌, ◌≢◌, refl, ◌↔◌, ◌⊎◌, inl, inr, List, [], ◌++◌, Word, Has, Has-append_left, Has-append_right,
  Has-append_inv, Bool-cases, subst, rev_onto, Has-backwards,
}
use acor.Plan.{
  TrieSnapshot, OutputMap, outputs_at, store_outputs, is_empty, Planned, plan_keywords,
  plan_add_many,
}
use acor.Plan.Suffixes.{IsSuffix, compute_outputs_iff}
use acor.Plan.Stored.{
  IsRightAt, store_outputs-visited, store_outputs-keeps, store_outputs-others, IsConsistent,
  IsConsistent-same, own_prefix, nil_of_is_empty,
}
use acor.Plan.Loop.{IsSplit, IsPlan, plan_keywords-IsPlan}

pub no_output : {B : Type 0} (p w : Word) → Has w (outputs_at [] p) → B
unfolding outputs_at
no_output p w h = elim h [ ]

-- What planAddMany promises of the snapshot, the output lists and the new keywords that it returns.
pub record IsAddition (snap : TrieSnapshot) (asked : List Word) (after : TrieSnapshot)
    (outputs : OutputMap) (added : List Word) : Type 0 where
  pub consistent : IsConsistent after.keywords after.prefixes
  pub held : (w : Word) → Has w after.keywords ↔ Has w snap.keywords ⊎ ((w ≢ []) × Has w asked)
  pub new : (w : Word) → Has w added ↔ (w ≢ []) × Has w asked × (¬ Has w snap.keywords)
  pub outputs_sound :
      (p w : Word) → Has w (outputs_at outputs p) → IsSuffix w p × Has w after.keywords
  pub outcome :
      ((added ≡ []) × (after ≡ snap))
      ⊎ ((p w : Word)
          → p ≢ []
          → Has p after.prefixes
          → Has w (outputs_at outputs p) ↔ IsSuffix w p × Has w after.keywords)

module _ (snap : TrieSnapshot) (asked : List Word)
    (C : IsConsistent snap.keywords snap.prefixes) where
  abbrev start : Planned
  start = record {
    keyword_set = snap.keywords;
    prefix_set = snap.prefixes;
    new_prefixes = [];
    added = [];
  }

  start-IsPlan : IsPlan snap.keywords snap.prefixes start []
  start-IsPlan = record {
    keyword_split = λ w. (λ h. inl h, λ h. elim h [ inl a ↦ a | inr z ↦ elim z [ ] ]);
    prefix_split = λ w. (λ h. inl h, λ h. elim h [ inl a ↦ a | inr z ↦ elim z [ ] ]);
    consistent = C;
    held = λ w. (λ h. inl h, λ h. elim h [ inl a ↦ a | inr (n, z) ↦ elim z [ ] ]);
    fresh = λ w h. elim h [ ];
  }

  module _ (plan : Planned) (I : IsPlan snap.keywords snap.prefixes plan (rev_onto asked [])) where
    now_held : (w : Word) → Has w plan.keyword_set ↔ Has w snap.keywords ⊎ ((w ≢ []) × Has w asked)
    now_held w =
        let there = Has-backwards w asked [] in
        (
          λ h. elim ((I.held w).0 h) [
            | inl a ↦ inl a
            | inr (n, b) ↦ inr (n, elim (there.0 b) [ inl k ↦ k | inr z ↦ elim z [ ] ])
          ],
          λ h. (I.held w).1 (elim h [ inl a ↦ inl a | inr (n, b) ↦ inr (n, there.1 (inl b)) ]),
        )

    now_new : (w : Word) → Has w plan.added ↔ (w ≢ []) × Has w asked × (¬ Has w snap.keywords)
    now_new w = (
      λ h.
          let (n, f) = I.fresh w h in
          (
            n,
            elim ((now_held w).0 ((I.keyword_split w).1 (inr h))) [
              | inl a ↦ absurd (f a)
              | inr (m, b) ↦ b
            ],
            f,
          ),
      λ (n, b, f). elim ((I.keyword_split w).0 ((now_held w).1 (inr (n, b)))) [
        | inl a ↦ absurd (f a)
        | inr k ↦ k
      ],
    )

    split→append :
        (s base extra : List Word)
        → IsSplit s base extra
        → (w : Word) → Has w (base ++ extra) ↔ Has w s
    split→append s base extra S w = (
      λ h. (S w).1 (Has-append_inv w base extra h),
      λ h. elim ((S w).0 h) [
        | inl a ↦ Has-append_left w base extra a
        | inr b ↦ Has-append_right w base extra b
      ],
    )

    outputs-right :
        (p w : Word)
        → p ≢ []
        → Has p (snap.prefixes ++ plan.new_prefixes)
        → Has w (
            outputs_at
              (store_outputs snap.prefixes plan.prefix_set plan.keyword_set
                (store_outputs plan.new_prefixes plan.prefix_set plan.keyword_set []))
              p)
          ↔ IsSuffix w p × Has w plan.keyword_set
    unfolding outputs_at
    outputs-right p w n h =
        let first = store_outputs plan.new_prefixes plan.prefix_set plan.keyword_set [] in
        let at : IsRightAt plan.prefix_set plan.keyword_set
            (store_outputs snap.prefixes plan.prefix_set plan.keyword_set first) p =
          elim (Has-append_inv p snap.prefixes plan.new_prefixes h) [
            | inl a ↦
                store_outputs-visited plan.prefix_set plan.keyword_set snap.prefixes first p n a (
                  store_outputs-others plan.prefix_set plan.keyword_set plan.new_prefixes [] p
                    (inl refl))
            | inr b ↦ store_outputs-keeps plan.prefix_set plan.keyword_set snap.prefixes first p (
                store_outputs-visited plan.prefix_set plan.keyword_set plan.new_prefixes [] p n b
                  (inl refl))
          ] in
        rw at (
          compute_outputs_iff plan.prefix_set plan.keyword_set
            (λ x k m. I.consistent.closed x x k (own_prefix x m)) p w)

    every-output-sound :
        (p w : Word)
        → Has w (
            outputs_at
              (store_outputs snap.prefixes plan.prefix_set plan.keyword_set
                (store_outputs plan.new_prefixes plan.prefix_set plan.keyword_set []))
              p)
        → IsSuffix w p × Has w plan.keyword_set
    unfolding outputs_at
    every-output-sound p w h =
        let first = store_outputs plan.new_prefixes plan.prefix_set plan.keyword_set [] in
        elim (store_outputs-others plan.prefix_set plan.keyword_set snap.prefixes first p (
          store_outputs-others plan.prefix_set plan.keyword_set plan.new_prefixes [] p
            (inl refl))) [
              | inl e ↦ elim (subst (Has w) e h) [ ]
              | inr e ↦
                  (compute_outputs_iff plan.prefix_set plan.keyword_set
                      (λ x k m. I.consistent.closed x x k (own_prefix x m)) p w).0
                    (subst (Has w) e h)
            ]

  -- On a snapshot whose prefixes are those of its keywords, planAddMany leaves such a snapshot, which
  -- holds the old keywords and those asked for that are not empty; it returns the ones that were not
  -- there before, and either there are none and the snapshot is unchanged, or each prefix of the new
  -- snapshot but the empty one has the new snapshot's keywords that are its suffixes as its outputs.
  -- No output list holds anything but keywords of the new snapshot that are suffixes of its state.
  pub plan_add_many_lem :
      IsAddition snap asked
        (plan_add_many snap asked).0
        (plan_add_many snap asked).1
        (plan_add_many snap asked).2
  unfolding plan_add_many
  plan_add_many_lem =
      let plan : Planned = plan_keywords start asked in
      let I = plan_keywords-IsPlan snap.keywords snap.prefixes asked start [] start-IsPlan in
      let same_keywords =
        split→append plan I plan.keyword_set snap.keywords plan.added I.keyword_split in
      let same_prefixes =
        split→append plan I plan.prefix_set snap.prefixes plan.new_prefixes I.prefix_split in
      elim (Bool-cases (is_empty plan.added)) [
        | inl e ↦
            let none_new : plan.added ≡ [] = nil_of_is_empty plan.added e in
            let same : (w : Word) → Has w snap.keywords ↔ Has w plan.keyword_set = λ w. (
              λ h. (I.keyword_split w).1 (inl h),
              λ h. elim ((I.keyword_split w).0 h) [
                | inl a ↦ a
                | inr b ↦ elim (subst (Has w) none_new b) [ ]
              ],
            ) in
            rw e (record {
              consistent = C;
              held = λ w. (λ h. inl h, λ h. (same w).1 ((now_held plan I w).1 h));
              new = λ w. (λ h. elim h [ ], λ h. subst (Has w) none_new ((now_new plan I w).1 h));
              outputs_sound = λ p w h. no_output p w h;
              outcome = inl (refl, refl);
            })
        | inr e ↦ rw e (record {
          consistent =
              IsConsistent-same plan.keyword_set plan.prefix_set _ _ same_keywords same_prefixes
                I.consistent;
          held = λ w. (
            λ h. (now_held plan I w).0 ((same_keywords w).0 h),
            λ h. (same_keywords w).1 ((now_held plan I w).1 h),
          );
          new = now_new plan I;
          outputs_sound =
              λ p w h. let (a, b) = every-output-sound plan I p w h in (a, (same_keywords w).1 b);
          outcome = inr (λ p w n h.
              let r = outputs-right plan I p w n h in
              (
                λ k. let (a, b) = r.0 k in (a, (same_keywords w).1 b),
                λ (a, b). r.1 (a, (same_keywords w).0 b),
              ));
        })
      ]
