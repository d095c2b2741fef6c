-- ===== src/Parallel/Find/Once.antt =====
-- The lists that keep what they have seen, and those put together from the chunks.
use acor.Prelude.{
  ℕ, ◌<◌, ◌≡◌, refl, sym, ap, ◌∙◌, ◌↔◌, ◌⊎◌, inl, inr, List, [], ◌∷◌, ◌++◌, map, Word, Has,
  Has-append_left, Has-append_right, Has-append_inv, AllDistinct, AllDistinct-append, true, false,
  subst, Bool-cases, has_word, has_word_iff, arith, ltb, ltb→lt, if◌then◌else◌,
}
use acor.Engine.Outputs.{Emission}
use acor.Parallel.Find.{dedup_from, owned_keywords, flattened}

not_seen : (w : Word) (ws : List Word) → has_word w ws ≡ false → ¬ Has w ws
not_seen w ws e h = let there : has_word w ws ≡ true = (has_word_iff w ws).1 h in cc

-- `out` with `w`, unless it is there.
insert_iff :
    (w : Word) (out : List Word) (x : Word)
    → Has x (if has_word w out then out else out ++ w ∷ []) ↔ Has x out ⊎ (x ≡ w)
insert_iff w out x = elim (Bool-cases (has_word w out)) [
  | inl e ↦ rw e (
    λ h. inl h,
    λ h. elim h [ inl k ↦ k | inr k ↦ subst (λ y. Has y out) (sym k) ((has_word_iff w out).0 e) ],
  )
  | inr e ↦ rw e (
    λ h. elim (Has-append_inv x out (w ∷ []) h) [
      | inl k ↦ inl k
      | inr (inl k) ↦ inr k
      | inr (inr z) ↦ elim z [ ]
    ],
    λ h. elim h [
      | inl k ↦ Has-append_left x out (w ∷ []) k
      | inr k ↦ Has-append_right x out (w ∷ []) (inl k)
    ],
  )
]

insert-AllDistinct :
    (w : Word) (out : List Word)
    → AllDistinct out
    → AllDistinct (if has_word w out then out else out ++ w ∷ [])
insert-AllDistinct w out d = elim (Bool-cases (has_word w out)) [
  | inl e ↦ rw e d
  | inr e ↦ rw e (
      AllDistinct-append out (w ∷ []) d (λ z. elim z [ ], tt)
        (λ x h k. elim k [
          | inl f ↦ not_seen w out e (subst (λ y. Has y out) f h)
          | inr z ↦ elim z [ ]
        ]))
]

pub dedup_from_iff :
    (out words : List Word) (x : Word) → Has x (dedup_from out words) ↔ Has x out ⊎ Has x words
unfolding dedup_from
dedup_from_iff out [] x = (λ h. inl h, λ h. elim h [ inl k ↦ k | inr z ↦ elim z [ ] ])
dedup_from_iff out (w ∷ words) x =
    let at = dedup_from_iff (if has_word w out then out else out ++ w ∷ []) words x in
    let one = insert_iff w out x in
    (
      λ h. elim (at.0 h) [
        | inl k ↦ elim (one.0 k) [ inl i ↦ inl i | inr i ↦ inr (inl i) ]
        | inr k ↦ inr (inr k)
      ],
      λ h. elim h [
        | inl k ↦ at.1 (inl (one.1 (inl k)))
        | inr (inl k) ↦ at.1 (inl (one.1 (inr k)))
        | inr (inr k) ↦ at.1 (inr k)
      ],
    )

pub dedup_from-AllDistinct :
    (out words : List Word) → AllDistinct out → AllDistinct (dedup_from out words)
unfolding dedup_from
dedup_from-AllDistinct out [] d = d
dedup_from-AllDistinct out (w ∷ words) d =
    dedup_from-AllDistinct (if has_word w out then out else out ++ w ∷ []) words
      (insert-AllDistinct w out d)

-- A keyword that some report names that begins in the owned part.
abbrev pub IsOwned : ℕ → List Emission → Word → Type 0
IsOwned owned ms x = (m : Emission) × Has m ms × (m.start < owned) × (x ≡ m.keyword)

pub owned_keywords_iff :
    (owned : ℕ) (matches : List Word) (ms : List Emission) (x : Word)
    → Has x (owned_keywords owned matches ms) ↔ Has x matches ⊎ IsOwned owned ms x
unfolding owned_keywords
owned_keywords_iff owned matches [] x =
    (λ h. inl h, λ h. elim h [ inl k ↦ k | inr (m, z, _, _) ↦ elim z [ ] ])
owned_keywords_iff owned matches (m ∷ ms) x = elim (Bool-cases (ltb m.start owned)) [
  | inl e ↦
      let at =
        owned_keywords_iff owned
          (if has_word m.keyword matches then matches else matches ++ m.keyword ∷ []) ms x in
      let one = insert_iff m.keyword matches x in
      rw e (
        λ h. elim (at.0 h) [
          | inl k ↦ elim (one.0 k) [
            | inl i ↦ inl i
            | inr i ↦ inr (m, inl refl, ltb→lt m.start owned e, i)
          ]
          | inr (n, k, l, i) ↦ inr (n, inr k, l, i)
        ],
        λ h. elim h [
          | inl k ↦ at.1 (inl (one.1 (inl k)))
          | inr (n, inl f, l, i) ↦ at.1 (inl (one.1 (inr (i ∙ ap (λ (y : Emission). y.keyword) f))))
          | inr (n, inr k, l, i) ↦ at.1 (inr (n, k, l, i))
        ],
      )
  | inr e ↦
      let at = owned_keywords_iff owned matches ms x in
      rw e (
        λ h. elim (at.0 h) [ inl k ↦ inl k | inr (n, k, l, i) ↦ inr (n, inr k, l, i) ],
        λ h. elim h [
          | inl k ↦ at.1 (inl k)
          | inr (n, inl f, l, i) ↦ absurd (beyond n m owned f l e)
          | inr (n, inr k, l, i) ↦ at.1 (inr (n, k, l, i))
        ],
      )
]
  where
    beyond : (n m : Emission) (owned : ℕ) → n ≡ m → n.start < owned → ltb m.start owned ≡ false → ⊥
    beyond n m owned f l e =
        let same : n.start ≡ m.start = ap (λ (y : Emission). y.start) f in ground arith

pub flattened_iff :
    {A : Type 0} (g : A → List Word) (cs : List A) (x : Word)
    → Has x (flattened (map g cs)) ↔ ((c : A) × Has c cs × Has x (g c))
flattened_iff g [] x = (λ h. elim h [ ], λ (c, z, h). elim z [ ])
flattened_iff g (c ∷ cs) x =
    let at = flattened_iff g cs x in
    (
      λ h. elim (Has-append_inv x (g c) (flattened (map g cs)) h) [
        | inl k ↦ (c, inl refl, k)
        | inr k ↦ let (d, i, j) = at.0 k in (d, inr i, j)
      ],
      λ (d, i, j). elim i [
        | inl e ↦ Has-append_left x (g c) (flattened (map g cs)) (subst (λ y. Has x (g y)) e j)
        | inr k ↦ Has-append_right x (g c) (flattened (map g cs)) (at.1 (d, k, j))
      ],
    )
