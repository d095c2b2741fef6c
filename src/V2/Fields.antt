-- ===== src/V2/Fields.antt =====
-- The hash of output lists: what a field holds after the script's loop over the new lists.
use acor.Prelude.{
  ◌≡◌, refl, sym, ap, ◌∙◌, ◌⊎◌, inl, inr, Option, none, some, List, [], ◌∷◌, Word, if◌then◌else◌,
  word_eq, word_eq_iff, Bool-cases, Bool-cases, false, true, Has, subst,
}
use acor.Plan.{OutputMap, outputs_at}
use acor.V2.{Json, Hash, hget, hset, hset_all, decode_field, encode_outputs}

some_not_none : {A : Type 0} {a : A} → some a ≡ none → ⊥
some_not_none e = cc

pair_eq : {f s u v : Word} → f ≡ s → some u ≡ some v → ◌≡◌ {A = Word × Word} (s, v) (f, u)
pair_eq e k = cc

word_eq-other : (f g s : Word) → f ≡ g → word_eq f s ≡ false → word_eq g s ≡ false
word_eq-other f g s e h = rw (sym e) h

word_eq-clash : (g f s : Word) → word_eq g f ≡ false → word_eq g s ≡ true → word_eq f s ≡ true → ⊥
word_eq-clash g f s e k l =
    let same : word_eq g f ≡ true =
      (word_eq_iff g f).1 ((word_eq_iff g s).0 k ∙ sym ((word_eq_iff f s).0 l)) in
    cc

hget-hset :
    (h : Hash) (f v s : Word) → hget (hset h f v) s ≡ (if word_eq f s then some v else hget h s)
unfolding hget hset
hget-hset [] f v s = refl
hget-hset ((g, u) ∷ h) f v s = elim (Bool-cases (word_eq g f)) [
  | inl e ↦ elim (Bool-cases (word_eq f s)) [
    | inl k ↦
        let same : word_eq g s ≡ true =
          (word_eq_iff g s).1 ((word_eq_iff g f).0 e ∙ (word_eq_iff f s).0 k) in
        rw (e, same, k) refl
    | inr k ↦ rw (e, k, word_eq-other f g s (sym ((word_eq_iff g f).0 e)) k) refl
  ]
  | inr e ↦ elim (Bool-cases (word_eq g s)) [
    | inl k ↦ elim (Bool-cases (word_eq f s)) [
      | inl l ↦ absurd (word_eq-clash g f s e k l)
      | inr l ↦ rw (e, k, l) refl
    ]
    | inr k ↦ rw (e, k) (hget-hset h f v s)
  ]
]

module _ (json : Json) where
  hget-hset_all :
      (m : OutputMap) (h : Hash) (s : Word)
      → (hget (hset_all (encode_outputs json m) h) s ≡ some (json.encode (outputs_at m s)))
        ⊎ ((hget (hset_all (encode_outputs json m) h) s ≡ hget h s) × (outputs_at m s ≡ []))
  unfolding hset_all encode_outputs outputs_at
  hget-hset_all [] h s = inr (refl, refl)
  hget-hset_all ((state, outs) ∷ m) h s =
      let rest = hset_all (encode_outputs json m) h in
      elim (Bool-cases (word_eq state s)) [
        | inl e ↦ inl (rw (hget-hset rest state (json.encode outs) s, e) refl)
        | inr e ↦ rw (hget-hset rest state (json.encode outs) s, e) (hget-hset_all m h s)
      ]

  abbrev or_none : Option Word → Option (List Word)
  or_none none = none
  or_none (some v) = json.decode v

  -- What stands in the hash was written by acor, and is read back.
  abbrev pub IsReadable : Hash → Type 0
  IsReadable h = (s v : Word) → hget h s ≡ some v → (l : List Word) × (json.decode v ≡ some l)

  pub hset_all-IsReadable :
      (m : OutputMap) (h : Hash) → IsReadable h → IsReadable (hset_all (encode_outputs json m) h)
  hset_all-IsReadable m h r s v e = elim (hget-hset_all m h s) [
    | inl k ↦
        let same : some (json.encode (outputs_at m s)) ≡ some v = sym k ∙ e in
        (outputs_at m s, ap (λ o. or_none o) (sym same) ∙ json.read_back (outputs_at m s))
    | inr (k, n) ↦ r s v (sym k ∙ e)
  ]

  abbrev pub or_nil : Option (List Word) → List Word
  or_nil none = []
  or_nil (some l) = l

  -- The output list of a state, empty for a missing one.
  abbrev pub decoded_at : Hash → Word → List Word
  decoded_at h s = or_nil (decode_field json (hget h s))

  -- The loop stores the new lists, and leaves the field of any other state.
  pub decoded_at-hset_all :
      (m : OutputMap) (h : Hash) (s : Word)
      → (decoded_at (hset_all (encode_outputs json m) h) s ≡ outputs_at m s)
        ⊎ ((decoded_at (hset_all (encode_outputs json m) h) s ≡ decoded_at h s)
            × (outputs_at m s ≡ []))
  decoded_at-hset_all m h s = elim (hget-hset_all m h s) [
    | inl e ↦
        inl (ap (λ o. or_nil (decode_field json o)) e ∙ ap or_nil (json.read_back (outputs_at m s)))
    | inr (e, k) ↦ inr (ap (λ o. or_nil (decode_field json o)) e, k)
  ]

-- A hash has one entry per field.
abbrev pub IsKeyed : Hash → Type 0
IsKeyed [] = Unit
IsKeyed ((f, v) ∷ h) = (hget h f ≡ none) × IsKeyed h

hset-IsKeyed : (h : Hash) (f v : Word) → IsKeyed h → IsKeyed (hset h f v)
unfolding hset hget
hset-IsKeyed [] f v k = (refl, tt)
hset-IsKeyed ((g, u) ∷ h) f v (new, k) = elim (Bool-cases (word_eq g f)) [
  | inl e ↦ rw e (new, k)
  | inr e ↦ rw e (
    hget-hset h f v g ∙ elim (Bool-cases (word_eq f g)) [
      | inl l ↦ absurd (word_eq-clash g f g e ((word_eq_iff g g).1 refl) l)
      | inr l ↦ rw l new
    ],
    hset-IsKeyed h f v k,
  )
]

pub hset_all-IsKeyed : (m h : Hash) → IsKeyed h → IsKeyed (hset_all m h)
unfolding hset_all
hset_all-IsKeyed [] h k = k
hset_all-IsKeyed ((f, v) ∷ m) h k = hset-IsKeyed (hset_all m h) f v (hset_all-IsKeyed m h k)

pub hget-entry : (h : Hash) (s v : Word) → IsKeyed h → Has (s, v) h → hget h s ≡ some v
unfolding hget
hget-entry [] s v k i = elim i [ ]
hget-entry ((f, u) ∷ h) s v (new, k) (inl e) =
    rw ((word_eq_iff f s).1 (ap (λ x. x.0) (sym e))) (ap (λ x. some x.1) (sym e))
hget-entry ((f, u) ∷ h) s v (new, k) (inr i) = elim (Bool-cases (word_eq f s)) [
  | inl e ↦
      let there : hget h s ≡ some v = hget-entry h s v k i in
      let gone : hget h s ≡ none = subst (λ x. hget h x ≡ none) ((word_eq_iff f s).0 e) new in
      absurd (some_not_none (sym there ∙ gone))
  | inr e ↦ rw e (hget-entry h s v k i)
]

pub entry-hget : (h : Hash) (s v : Word) → hget h s ≡ some v → Has (s, v) h
unfolding hget
entry-hget [] s v e = cc
entry-hget ((f, u) ∷ h) s v e = elim (Bool-cases (word_eq f s)) [
  | inl k ↦
      let here : some u ≡ some v = subst (λ b. (if b then some u else hget h s) ≡ some v) k e in
      inl (pair_eq ((word_eq_iff f s).0 k) here)
  | inr k ↦ inr (entry-hget h s v (subst (λ b. (if b then some u else hget h s) ≡ some v) k e))
]
