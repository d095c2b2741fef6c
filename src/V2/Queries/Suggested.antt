-- ===== src/V2/Queries/Suggested.antt =====
-- suggest, suggestIndex and info on a stored collection.
use acor.Prelude.{
  ◌≡◌, ◌≢◌, refl, sym, ap, ap₂, ◌↔◌, inl, inr, List, [], ◌∷◌, map, Word, Has, IsPrefix, Bool, true,
  false, ◌==◌, ==_iff, Bool-cases, length, if◌then◌else◌, subst,
}
use acor.Plan.{is_empty, starts_with}
use acor.V2.{Json, Collection, ok, decode_field}
use acor.V2.Stored.{IsStored}
use acor.V2.Queries.{info_of, starting_with, suggested, indexed, info, suggest, suggest_index}

starts_with-IsPrefix : (kw p : Word) → starts_with kw p ≡ true → IsPrefix p kw
starts_with-IsPrefix kw [] h = tt
starts_with-IsPrefix [] (c ∷ p) h = cc
starts_with-IsPrefix (d ∷ kw) (c ∷ p) h = elim (Bool-cases (d == c)) [
  | inl e ↦ (sym ((==_iff d c).0 e), starts_with-IsPrefix kw p (rw e at h))
  | inr e ↦ let never : false ≡ true = rw e at h in cc
]

IsPrefix-starts_with : (kw p : Word) → IsPrefix p kw → starts_with kw p ≡ true
IsPrefix-starts_with [] [] h = refl
IsPrefix-starts_with (d ∷ kw) [] h = refl
IsPrefix-starts_with [] (c ∷ p) h = elim h [ ]
IsPrefix-starts_with (d ∷ kw) (c ∷ p) (e, h) =
    let same : (d == c) ≡ true = (==_iff d c).1 (sym e) in rw same (IsPrefix-starts_with kw p h)

starting_with_iff :
    (input : Word) (kws : List Word) (w : Word)
    → Has w (starting_with input kws) ↔ Has w kws × IsPrefix input w
unfolding starting_with
starting_with_iff input [] w = (λ h. elim h [ ], λ (z, _). elim z [ ])
starting_with_iff input (kw ∷ kws) w =
    let rest = starting_with_iff input kws w in
    elim (Bool-cases (starts_with kw input)) [
      | inl e ↦ rw e (
        λ h. elim h [
          | inl f ↦ (inl f, subst (IsPrefix input) (sym f) (starts_with-IsPrefix kw input e))
          | inr i ↦ let (k, p) = rest.0 i in (inr k, p)
        ],
        λ (h, p). elim h [ inl f ↦ inl f | inr i ↦ inr (rest.1 (i, p)) ],
      )
      | inr e ↦ rw e (
        λ h. let (k, p) = rest.0 h in (inr k, p),
        λ (h, p). elim h [
          | inl f ↦ absurd (clash (IsPrefix-starts_with kw input (subst (IsPrefix input) f p)) e)
          | inr i ↦ rest.1 (i, p)
        ],
      )
    ]
  where
    clash : {b : Bool} → b ≡ true → b ≡ false → ⊥
    clash h k = cc

suggested-stored :
    (json : Json) (c : Collection) (ks ps : List Word)
    → IsStored json c ks ps
    → (normalized : Word) → normalized ≢ []
    → (if is_empty normalized
        then ok []
        else suggested normalized (decode_field json c.trie.keywords))
      ≡ ok (starting_with normalized ks)
suggested-stored json c ks ps S [] n = absurd (n refl)
suggested-stored json c ks ps S (x ∷ w) n = ap (suggested (x ∷ w)) S.keywords_stored

-- On a stored collection, suggest with an input that is not empty once normalized returns exactly the
-- keywords that begin with it, suggestIndex the same ones with the position 0 each, and info counts the
-- keywords and the prefixes.
pub suggest_iff :
    (json : Json) (normalize : Word → Word) (c : Collection) (ks ps : List Word)
    → IsStored json c ks ps
    → (input : Word) → normalize input ≢ []
    → (results : List Word) × (suggest json normalize c input ≡ ok results)
      × ((kw : Word) → Has kw results ↔ Has kw ks × IsPrefix (normalize input) kw)
      × (suggest_index json normalize c input ≡ ok (map (λ kw. (kw, 0 ∷ [])) results))
      × (info json normalize c ≡ ok (record { keywords = length ks; nodes = length ps }))
unfolding suggest suggest_index info
suggest_iff json normalize c ks ps S input n =
    let found = suggested-stored json c ks ps S (normalize input) n in
    (
      starting_with (normalize input) ks,
      found,
      starting_with_iff (normalize input) ks,
      ap indexed found,
      ap₂ info_of S.keywords_stored S.prefixes_stored,
    )
