-- ===== src/Parallel/Index/Sorted.antt =====
-- The position lists are sorted, and each position stands once.
use acor.Prelude.{
  ℕ, ◌<◌, ◌≡◌, refl, sym, ap, ◌↔◌, ◌⊎◌, inl, inr, List, [], ◌∷◌, Word, Has, AllDistinct, leb, ◌==◌,
  ==_iff, word_eq, Bool-cases, arith, subst, ◌+◌, true, Bool, false,
}
use acor.Engine.MemEfficient.{IndexMap}
use acor.Parallel.{Chunk}
use acor.Parallel.Index.{
  has_position, insert_position, ensure_keyword, add_position, merge_positions, merge_matches,
  merge_chunks, insert_sorted, sort_positions, sort_all,
}
use acor.Parallel.Index.Merged.{IsIndexed, head_or_rest}

abbrev pub IsIncreasing : List ℕ → Type 0
IsIncreasing [] = Unit
IsIncreasing (p ∷ ps) = ((q : ℕ) → Has q ps → p < q) × IsIncreasing ps

insert_sorted_iff : (p : ℕ) (ps : List ℕ) (x : ℕ) → Has x (insert_sorted p ps) ↔ (x ≡ p) ⊎ Has x ps
unfolding insert_sorted
insert_sorted_iff p [] x = (λ h. h, λ h. h)
insert_sorted_iff p (q ∷ ps) x = elim (Bool-cases (leb p q)) [
  | inl e ↦ rw e (λ h. h, λ h. h)
  | inr e ↦
      let rest = insert_sorted_iff p ps x in
      rw e (
        λ h. elim h [
          | inl i ↦ inr (inl i)
          | inr i ↦ elim (rest.0 i) [ inl j ↦ inl j | inr j ↦ inr (inr j) ]
        ],
        λ h. elim h [
          | inl i ↦ inr (rest.1 (inl i))
          | inr (inl i) ↦ inl i
          | inr (inr i) ↦ inr (rest.1 (inr i))
        ],
      )
]

insert_sorted-IsIncreasing :
    (p : ℕ) (ps : List ℕ) → (¬ Has p ps) → IsIncreasing ps → IsIncreasing (insert_sorted p ps)
unfolding insert_sorted
insert_sorted-IsIncreasing p [] new s = (λ q z. elim z [ ], tt)
insert_sorted-IsIncreasing p (q ∷ ps) new (first, s) = elim (Bool-cases (leb p q)) [
  | inl e ↦
      let less : p < q = strictly p q e (λ f. new (inl f)) in
      rw e (
        λ x h. elim h [
          | inl f ↦ subst (λ y. p < y) (sym f) less
          | inr i ↦ omega (arith, first x i)
        ],
        (first, s),
      )
  | inr e ↦
      let more : q < p = ground arith in
      rw e (
        λ x h. elim ((insert_sorted_iff p ps x).0 h) [
          | inl f ↦ subst (λ y. q < y) (sym f) more
          | inr i ↦ first x i
        ],
        insert_sorted-IsIncreasing p ps (λ i. new (inr i)) s,
      )
]
  where
    strictly : (p q : ℕ) → leb p q ≡ true → (p ≡ q → ⊥) → p < q
    strictly p q e n = elim (Bool-cases (p == q)) [
      | inl f ↦ absurd (n ((==_iff p q).0 f))
      | inr f ↦ ground arith
    ]

sort_positions_iff : (ps : List ℕ) (x : ℕ) → Has x (sort_positions ps) ↔ Has x ps
unfolding sort_positions
sort_positions_iff [] x = (λ h. h, λ h. h)
sort_positions_iff (p ∷ ps) x =
    let at = insert_sorted_iff p (sort_positions ps) x in
    let rest = sort_positions_iff ps x in
    (
      λ h. elim (at.0 h) [ inl i ↦ inl i | inr i ↦ inr (rest.0 i) ],
      λ h. elim h [ inl i ↦ at.1 (inl i) | inr i ↦ at.1 (inr (rest.1 i)) ],
    )

sort_positions-IsIncreasing : (ps : List ℕ) → AllDistinct ps → IsIncreasing (sort_positions ps)
unfolding sort_positions
sort_positions-IsIncreasing [] d = tt
sort_positions-IsIncreasing (p ∷ ps) (new, d) =
    insert_sorted-IsIncreasing p (sort_positions ps) (λ h. new ((sort_positions_iff ps p).0 h))
      (sort_positions-IsIncreasing ps d)

pub sort_all_iff : (m : IndexMap) (k : Word) (x : ℕ) → IsIndexed (sort_all m) k x ↔ IsIndexed m k x
unfolding sort_all
sort_all_iff [] k x = (λ h. h, λ h. h)
sort_all_iff ((w, l) ∷ m) k x =
    let after = head_or_rest w (sort_positions l) (sort_all m) k x in
    let before = head_or_rest w l m k x in
    let rest = sort_all_iff m k x in
    let here = sort_positions_iff l x in
    (
      λ h. elim (after.0 h) [
        | inl (e, i) ↦ before.1 (inl (e, here.0 i))
        | inr i ↦ before.1 (inr (rest.0 i))
      ],
      λ h. elim (before.0 h) [
        | inl (e, i) ↦ after.1 (inl (e, here.1 i))
        | inr i ↦ after.1 (inr (rest.1 i))
      ],
    )

-- Every list of the map has each position once.
abbrev pub IsSetMap : IndexMap → Type 0
IsSetMap [] = Unit
IsSetMap ((w, l) ∷ m) = AllDistinct l × IsSetMap m

has_position-true : (p : ℕ) (ps : List ℕ) → Has p ps → has_position p ps ≡ true
has_position-true p [] h = elim h [ ]
has_position-true p (q ∷ ps) (inl e) = let hit : (p == q) ≡ true = (==_iff p q).1 e in rw hit refl
has_position-true p (q ∷ ps) (inr h) = elim (Bool-cases (p == q)) [
  | inl e ↦ rw e refl
  | inr e ↦ rw e (has_position-true p ps h)
]

insert_position-AllDistinct :
    (p : ℕ) (l : List ℕ) → AllDistinct l → AllDistinct (insert_position p l)
insert_position-AllDistinct p l d = elim (Bool-cases (has_position p l)) [
  | inl e ↦ rw e d
  | inr e ↦ rw e (λ h. not_both (has_position-true p l h) e, d)
]
  where
    not_both : {b : Bool} → b ≡ true → b ≡ false → ⊥
    not_both e f = cc

add_position-IsSetMap :
    (m : IndexMap) (kw : Word) (p : ℕ) → IsSetMap m → IsSetMap (add_position m kw p)
unfolding add_position
add_position-IsSetMap [] kw p s = ((λ z. elim z [ ], tt), tt)
add_position-IsSetMap ((w, l) ∷ m) kw p (d, s) = elim (Bool-cases (word_eq w kw)) [
  | inl e ↦ rw e (insert_position-AllDistinct p l d, s)
  | inr e ↦ rw e (d, add_position-IsSetMap m kw p s)
]

ensure_keyword-IsSetMap : (m : IndexMap) (kw : Word) → IsSetMap m → IsSetMap (ensure_keyword m kw)
unfolding ensure_keyword
ensure_keyword-IsSetMap [] kw s = (tt, tt)
ensure_keyword-IsSetMap ((w, l) ∷ m) kw (d, s) = elim (Bool-cases (word_eq w kw)) [
  | inl e ↦ rw e (d, s)
  | inr e ↦ rw e (d, ensure_keyword-IsSetMap m kw s)
]

merge_positions-IsSetMap :
    (offset : ℕ) (kw : Word) (merged : IndexMap) (indices : List ℕ)
    → IsSetMap merged
    → IsSetMap (merge_positions offset kw merged indices)
unfolding merge_positions
merge_positions-IsSetMap offset kw merged [] s = s
merge_positions-IsSetMap offset kw merged (i ∷ indices) s =
    merge_positions-IsSetMap offset kw (add_position merged kw (i + offset)) indices
      (add_position-IsSetMap merged kw (i + offset) s)

merge_matches-IsSetMap :
    (offset : ℕ) (merged matches : IndexMap)
    → IsSetMap merged
    → IsSetMap (merge_matches offset merged matches)
unfolding merge_matches
merge_matches-IsSetMap offset merged [] s = s
merge_matches-IsSetMap offset merged ((kw, indices) ∷ matches) s =
    merge_matches-IsSetMap offset (merge_positions offset kw (ensure_keyword merged kw) indices)
      matches
      (merge_positions-IsSetMap offset kw (ensure_keyword merged kw) indices
        (ensure_keyword-IsSetMap merged kw s))

pub merge_chunks-IsSetMap :
    (merged : IndexMap) (cs : List Chunk) (per_chunk : List IndexMap)
    → IsSetMap merged
    → IsSetMap (merge_chunks merged cs per_chunk)
unfolding merge_chunks
merge_chunks-IsSetMap merged [] per_chunk s = s
merge_chunks-IsSetMap merged (c ∷ cs) [] s = s
merge_chunks-IsSetMap merged (c ∷ cs) (m ∷ per_chunk) s =
    merge_chunks-IsSetMap (merge_matches c.text_offset merged m) cs per_chunk
      (merge_matches-IsSetMap c.text_offset merged m s)

pub sort_all-IsIncreasing :
    (m : IndexMap) → IsSetMap m → (k : Word) (l : List ℕ) → Has (k, l) (sort_all m) → IsIncreasing l
unfolding sort_all
sort_all-IsIncreasing [] s k l h = elim h [ ]
sort_all-IsIncreasing ((w, ps) ∷ m) (d, s) k l (inl e) =
    subst IsIncreasing (ap (λ y. y.1) (sym e)) (sort_positions-IsIncreasing ps d)
sort_all-IsIncreasing ((w, ps) ∷ m) (d, s) k l (inr h) = sort_all-IsIncreasing m s k l h
