-- ===== src/Parallel/Index/Merged.antt =====
-- The positions that the maps of the chunks hold, put together and sorted.
use acor.Prelude.{
  ℕ, ◌≡◌, sym, ap, ◌∙◌, ◌↔◌, ◌⊎◌, inl, inr, List, [], ◌∷◌, ◌++◌, Word, Has, Has-append_left,
  Has-append_right, Has-append_inv, true, ◌==◌, ==_iff, word_eq, word_eq_iff, Bool-cases, subst,
}
use acor.Engine.MemEfficient.{IndexMap, index_add}
use acor.Parallel.Index.{has_position, insert_position, ensure_keyword, add_position}

-- `x` is one of the positions of `kw`.
abbrev pub IsIndexed : IndexMap → Word → ℕ → Type 0
IsIndexed m kw x = (l : List ℕ) × Has (kw, l) m × Has x l

has_position-Has : (p : ℕ) (ps : List ℕ) → has_position p ps ≡ true → Has p ps
has_position-Has p [] h = cc
has_position-Has p (q ∷ ps) h = elim (Bool-cases (p == q)) [
  | inl e ↦ inl ((==_iff p q).0 e)
  | inr e ↦ inr (has_position-Has p ps (rw e at h))
]

-- A map with one key's list changed, entry by entry.
pub head_or_rest :
    (w : Word) (l : List ℕ) (m : IndexMap) (k : Word) (x : ℕ)
    → IsIndexed ((w, l) ∷ m) k x ↔ ((k ≡ w) × Has x l) ⊎ IsIndexed m k x
head_or_rest w l m k x = (
  λ (s, h, i). elim h [
    | inl e ↦ inl (ap (λ y. y.0) e, subst (Has x) (ap (λ y. y.1) e) i)
    | inr j ↦ inr (s, j, i)
  ],
  λ h. elim h [ inl (e, i) ↦ (l, inl (ap (λ y. (y, l)) e), i) | inr (s, j, i) ↦ (s, inr j, i) ],
)

-- Adding `p` to the list of `kw` adds one position: by what it does to one list and to a new key.
changed_list :
    (w kw : Word) (old new : List ℕ) (p : ℕ) (m : IndexMap) (k : Word) (x : ℕ)
    → w ≡ kw
    → (Has x new ↔ Has x old ⊎ (x ≡ p))
    → IsIndexed ((w, new) ∷ m) k x ↔ IsIndexed ((w, old) ∷ m) k x ⊎ ((k ≡ kw) × (x ≡ p))
changed_list w kw old new p m k x e one =
    let after = head_or_rest w new m k x in
    let before = head_or_rest w old m k x in
    (
      λ h. elim (after.0 h) [
        | inl (f, i) ↦ elim (one.0 i) [
          | inl j ↦ inl (before.1 (inl (f, j)))
          | inr j ↦ inr (f ∙ e, j)
        ]
        | inr i ↦ inl (before.1 (inr i))
      ],
      λ h. elim h [
        | inl i ↦ elim (before.0 i) [
          | inl (f, j) ↦ after.1 (inl (f, one.1 (inl j)))
          | inr j ↦ after.1 (inr j)
        ]
        | inr (f, j) ↦ after.1 (inl (f ∙ sym e, one.1 (inr j)))
      ],
    )

kept_list :
    (w : Word) (l : List ℕ) (m m' : IndexMap) (k kw : Word) (x p : ℕ)
    → (IsIndexed m' k x ↔ IsIndexed m k x ⊎ ((k ≡ kw) × (x ≡ p)))
    → IsIndexed ((w, l) ∷ m') k x ↔ IsIndexed ((w, l) ∷ m) k x ⊎ ((k ≡ kw) × (x ≡ p))
kept_list w l m m' k kw x p rest =
    let after = head_or_rest w l m' k x in
    let before = head_or_rest w l m k x in
    (
      λ h. elim (after.0 h) [
        | inl i ↦ inl (before.1 (inl i))
        | inr i ↦ elim (rest.0 i) [ inl j ↦ inl (before.1 (inr j)) | inr j ↦ inr j ]
      ],
      λ h. elim h [
        | inl i ↦ elim (before.0 i) [
          | inl j ↦ after.1 (inl j)
          | inr j ↦ after.1 (inr (rest.1 (inl j)))
        ]
        | inr j ↦ after.1 (inr (rest.1 (inr j)))
      ],
    )

new_key :
    (kw k : Word) (p x : ℕ)
    → IsIndexed ((kw, p ∷ []) ∷ []) k x ↔ IsIndexed [] k x ⊎ ((k ≡ kw) × (x ≡ p))
new_key kw k p x = (
  λ (l, h, i). elim h [
    | inl e ↦ elim (subst (Has x) (ap (λ y. y.1) e) i) [
      | inl f ↦ inr (ap (λ y. y.0) e, f)
      | inr z ↦ elim z [ ]
    ]
    | inr z ↦ elim z [ ]
  ],
  λ h. elim h [
    | inl (l, z, i) ↦ elim z [ ]
    | inr (e, f) ↦ (p ∷ [], inl (ap (λ y. (y, p ∷ [])) e), inl f)
  ],
)

appended : (l : List ℕ) (p x : ℕ) → Has x (l ++ p ∷ []) ↔ Has x l ⊎ (x ≡ p)
appended l p x = (
  λ h. elim (Has-append_inv x l (p ∷ []) h) [
    | inl i ↦ inl i
    | inr (inl i) ↦ inr i
    | inr (inr z) ↦ elim z [ ]
  ],
  λ h. elim h [
    | inl i ↦ Has-append_left x l (p ∷ []) i
    | inr i ↦ Has-append_right x l (p ∷ []) (inl i)
  ],
)

inserted : (l : List ℕ) (p x : ℕ) → Has x (insert_position p l) ↔ Has x l ⊎ (x ≡ p)
inserted l p x = elim (Bool-cases (has_position p l)) [
  | inl e ↦ rw e (
    λ h. inl h,
    λ h. elim h [ inl i ↦ i | inr i ↦ subst (λ y. Has y l) (sym i) (has_position-Has p l e) ],
  )
  | inr e ↦
      rw e (
        λ h. elim h [ inl i ↦ inr i | inr i ↦ inl i ],
        λ h. elim h [ inl i ↦ inr i | inr i ↦ inl i ],
      )
]

pub index_add_iff :
    (m : IndexMap) (kw : Word) (p : ℕ) (k : Word) (x : ℕ)
    → IsIndexed (index_add m kw p) k x ↔ IsIndexed m k x ⊎ ((k ≡ kw) × (x ≡ p))
unfolding index_add
index_add_iff [] kw p k x = new_key kw k p x
index_add_iff ((w, l) ∷ m) kw p k x = elim (Bool-cases (word_eq w kw)) [
  | inl e ↦
      rw e (changed_list w kw l (l ++ p ∷ []) p m k x ((word_eq_iff w kw).0 e) (appended l p x))
  | inr e ↦ rw e (kept_list w l m (index_add m kw p) k kw x p (index_add_iff m kw p k x))
]

pub add_position_iff :
    (m : IndexMap) (kw : Word) (p : ℕ) (k : Word) (x : ℕ)
    → IsIndexed (add_position m kw p) k x ↔ IsIndexed m k x ⊎ ((k ≡ kw) × (x ≡ p))
unfolding add_position
add_position_iff [] kw p k x = new_key kw k p x
add_position_iff ((w, l) ∷ m) kw p k x = elim (Bool-cases (word_eq w kw)) [
  | inl e ↦
      rw e (
        changed_list w kw l (insert_position p l) p m k x ((word_eq_iff w kw).0 e) (inserted l p x))
  | inr e ↦ rw e (kept_list w l m (add_position m kw p) k kw x p (add_position_iff m kw p k x))
]

pub ensure_keyword_iff :
    (m : IndexMap) (kw k : Word) (x : ℕ) → IsIndexed (ensure_keyword m kw) k x ↔ IsIndexed m k x
unfolding ensure_keyword
ensure_keyword_iff [] kw k x = (
  λ (l, h, i). elim h [ inl e ↦ elim (subst (Has x) (ap (λ y. y.1) e) i) [ ] | inr z ↦ elim z [ ] ],
  λ (l, h, i). elim h [ ],
)
ensure_keyword_iff ((w, l) ∷ m) kw k x = elim (Bool-cases (word_eq w kw)) [
  | inl e ↦ rw e (λ h. h, λ h. h)
  | inr e ↦
      let after = head_or_rest w l (ensure_keyword m kw) k x in
      let before = head_or_rest w l m k x in
      let rest = ensure_keyword_iff m kw k x in
      rw e (
        λ h. elim (after.0 h) [ inl i ↦ before.1 (inl i) | inr i ↦ before.1 (inr (rest.0 i)) ],
        λ h. elim (before.0 h) [ inl i ↦ after.1 (inl i) | inr i ↦ after.1 (inr (rest.1 i)) ],
      )
]
