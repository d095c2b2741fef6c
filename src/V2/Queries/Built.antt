-- ===== src/V2/Queries/Built.antt =====
-- The engine of a search is built from the keywords that the trie hash holds.
use acor.Prelude.{
  AllDistinct, Bool, true, false, ◌≡◌, ◌≢◌, refl, sym, ap, ap₂, ◌∙◌, ◌↔◌, ◌⊎◌, inl, inr, some, List,
  [], ◌∷◌, Word, Has, subst, Bool-cases, has_word, has_word_iff, Option-cases,
}
use acor.Plan.{OutputMap}
use acor.Plan.Stored.{own_prefix}
use acor.V2.{Json, Hash, Collection, ok, hget, decode_field}
use acor.V2.Fields.{decoded_at, or_nil, hget-entry, entry-hget}
use acor.V2.Stored.{IsStored}
use acor.V2.Queries.{
  with_entry, parse_outputs, insert_all, keywords_of_outputs, gathered, keywords_to_build,
}

insert_all_iff :
    (outs keywords : List Word) (w : Word)
    → Has w (insert_all outs keywords) ↔ Has w outs ⊎ Has w keywords
unfolding insert_all
insert_all_iff [] keywords w = (λ h. inr h, λ h. elim h [ inl k ↦ elim k [ ] | inr k ↦ k ])
insert_all_iff (kw ∷ outs) keywords w = elim (Bool-cases (has_word kw keywords)) [
  | inl e ↦
      let at = insert_all_iff outs keywords w in
      rw e (
        λ h. elim (at.0 h) [ inl k ↦ inl (inr k) | inr k ↦ inr k ],
        λ h. elim h [
          | inl (inl k) ↦
              at.1 (inr (subst (λ x. Has x keywords) (sym k) ((has_word_iff kw keywords).0 e)))
          | inl (inr k) ↦ at.1 (inl k)
          | inr k ↦ at.1 (inr k)
        ],
      )
  | inr e ↦
      let at = insert_all_iff outs (kw ∷ keywords) w in
      rw e (
        λ h. elim (at.0 h) [
          | inl k ↦ inl (inr k)
          | inr (inl k) ↦ inl (inl k)
          | inr (inr k) ↦ inr k
        ],
        λ h. elim h [
          | inl (inl k) ↦ at.1 (inr (inl k))
          | inl (inr k) ↦ at.1 (inl k)
          | inr k ↦ at.1 (inr (inr k))
        ],
      )
]

insert_all-AllDistinct :
    (outs keywords : List Word) → AllDistinct keywords → AllDistinct (insert_all outs keywords)
unfolding insert_all
insert_all-AllDistinct [] keywords d = d
insert_all-AllDistinct (kw ∷ outs) keywords d = elim (Bool-cases (has_word kw keywords)) [
  | inl e ↦ rw e (insert_all-AllDistinct outs keywords d)
  | inr e ↦ rw e (
      insert_all-AllDistinct outs (kw ∷ keywords)
        (λ h. absurd (clash ((has_word_iff kw keywords).1 h) e), d))
]
  where
    clash : {b : Bool} → b ≡ true → b ≡ false → ⊥
    clash h k = cc

keywords_of_outputs-AllDistinct :
    (outputs : OutputMap) (keywords : List Word)
    → AllDistinct keywords
    → AllDistinct (keywords_of_outputs outputs keywords)
unfolding keywords_of_outputs
keywords_of_outputs-AllDistinct [] keywords d = d
keywords_of_outputs-AllDistinct ((state, outs) ∷ outputs) keywords d =
    keywords_of_outputs-AllDistinct outputs (insert_all outs keywords)
      (insert_all-AllDistinct outs keywords d)

-- `w` stands in the output list of some entry.
abbrev IsOutput : OutputMap → Word → Type 0
IsOutput outputs w = (s : Word) × (outs : List Word) × Has (s, outs) outputs × Has w outs

keywords_of_outputs_iff :
    (outputs : OutputMap) (keywords : List Word) (w : Word)
    → Has w (keywords_of_outputs outputs keywords) ↔ IsOutput outputs w ⊎ Has w keywords
unfolding keywords_of_outputs
keywords_of_outputs_iff [] keywords w =
    (λ h. inr h, λ h. elim h [ inl (s, o, k, i) ↦ elim k [ ] | inr k ↦ k ])
keywords_of_outputs_iff ((state, outs) ∷ outputs) keywords w =
    let at = keywords_of_outputs_iff outputs (insert_all outs keywords) w in
    let one = insert_all_iff outs keywords w in
    (
      λ h. elim (at.0 h) [
        | inl (s, o, k, i) ↦ inl (s, o, inr k, i)
        | inr k ↦ elim (one.0 k) [ inl i ↦ inl (state, outs, inl refl, i) | inr i ↦ inr i ]
      ],
      λ h. elim h [
        | inl (s, o, inl e, i) ↦ at.1 (inr (one.1 (inl (subst (Has w) (ap (λ x. x.1) e) i))))
        | inl (s, o, inr k, i) ↦ at.1 (inl (s, o, k, i))
        | inr i ↦ at.1 (inr (one.1 (inr i)))
      ],
    )

module _ (json : Json) where
  -- The parsed entries are the decoded ones.
  abbrev IsParsed : Hash → OutputMap → Type 0
  IsParsed h outputs =
      (s : Word) (outs : List Word)
      → Has (s, outs) outputs ↔ ((v : Word) × Has (s, v) h × (json.decode v ≡ some outs))

  parsed_entry :
      {f s v u : Word} {l outs : List Word}
      → json.decode u ≡ some l
      → ◌≡◌ {A = Word × Word} (s, v) (f, u)
      → json.decode v ≡ some outs
      → ◌≡◌ {A = Word × List Word} (s, outs) (f, l)
  parsed_entry d e k = cc

  parse_outputs-IsParsed :
      (h : Hash)
      → ((s v : Word) → Has (s, v) h → (l : List Word) × (json.decode v ≡ some l))
      → (outputs : OutputMap) × (parse_outputs json h ≡ ok outputs) × IsParsed h outputs
  unfolding parse_outputs
  parse_outputs-IsParsed [] r = ([], refl, λ s outs. (λ k. elim k [ ], λ (v, k, e). elim k [ ]))
  parse_outputs-IsParsed ((f, u) ∷ h) r =
      let (l, d) = r f u (inl refl) in
      let (outputs, e, P) = parse_outputs-IsParsed h (λ s v k. r s v (inr k)) in
      (
        (f, l) ∷ outputs,
        ap₂ (with_entry f) d e,
        λ s outs. (
          λ k. elim k [
            | inl q ↦ (u, inl (ap (λ x. (x.0, u)) q), d ∙ ap (λ x. some x.1) (sym q))
            | inr q ↦ let (v, i, j) = (P s outs).0 q in (v, inr i, j)
          ],
          λ (v, i, j). elim i [
            | inl q ↦ inl (parsed_entry d q j)
            | inr q ↦ inr ((P s outs).1 (v, q, j))
          ],
        ),
      )

  module _ (c : Collection) (ks ps : List Word) (S : IsStored json c ks ps) where
    -- The union of the output lists is the set of keywords.
    stored_keywords :
        (outputs : OutputMap)
        → IsParsed c.outputs outputs
        → (w : Word) → Has w (keywords_of_outputs outputs []) ↔ Has w ks
    stored_keywords outputs P w =
        let at = keywords_of_outputs_iff outputs [] w in
        (
          λ h. elim (at.0 h) [
            | inl (s, outs, k, i) ↦
                let (v, q, d) = (P s outs).0 k in
                let g : decoded_at json c.outputs s ≡ outs =
                  ap (λ o. or_nil json (decode_field json o)) (hget-entry c.outputs s v S.keyed q)
                  ∙ ap (or_nil json) d in
                (S.sound s w (subst (Has w) (sym g) i)).1
            | inr z ↦ elim z [ ]
          ],
          λ h.
              let n : w ≢ [] = λ e. S.nonempty (subst (λ x. Has x ks) e h) in
              let own : Has w (decoded_at json c.outputs w) =
                S.complete w w n (S.consistent.closed w w h (own_prefix w n)) (inl refl) h in
              elim (Option-cases (hget c.outputs w)) [
                | inl e ↦
                    elim (subst (Has w) (ap (λ o. or_nil json (decode_field json o)) e) own) [ ]
                | inr (v, e) ↦
                    let (l, d) = S.readable w v e in
                    let g : decoded_at json c.outputs w ≡ l =
                      ap (λ o. or_nil json (decode_field json o)) e ∙ ap (or_nil json) d in
                    at.1 (
                      inl (w, l, (P w l).1 (v, entry-hget c.outputs w v e, d), subst (Has w) g own))
              ],
        )

  -- On a stored collection, the engine of a search is built from exactly the stored keywords, each once:
  -- the outputs hash is readable, and the union of its lists is the set of keywords.
  pub keywords_to_build_iff :
      (c : Collection) (ks ps : List Word)
      → IsStored json c ks ps
      → (built : List Word) × (keywords_to_build json c.outputs ≡ ok built)
        × AllDistinct built
        × ((w : Word) → Has w built ↔ Has w ks)
  unfolding keywords_to_build
  keywords_to_build_iff c ks ps S =
      let (outputs, e, P) =
        parse_outputs-IsParsed c.outputs
          (λ s v k. S.readable s v (hget-entry c.outputs s v S.keyed k)) in
      (
        keywords_of_outputs outputs [],
        ap gathered e,
        keywords_of_outputs-AllDistinct outputs [] tt,
        stored_keywords c ks ps S outputs P,
      )
