-- ===== src/Parallel/Index/Folded.antt =====
-- The loops of mergeIndexResults and of a chunk's scan over what they add one by one.
use acor.Prelude.{
  ℕ, ◌+◌, ◌<◌, ◌≡◌, refl, ap, ◌∙◌, ◌↔◌, ◌⊎◌, inl, inr, List, [], ◌∷◌, map, Word, Has, ltb, ltb→lt,
  Bool-cases, arith, subst, false,
}
use acor.Engine.Outputs.{Emission}
use acor.Engine.MemEfficient.{IndexMap, index_add}
use acor.Parallel.{Chunk}
use acor.Parallel.Index.{
  ensure_keyword, add_position, merge_positions, merge_matches, merge_chunks, owned_index,
}
use acor.Parallel.Index.Merged.{
  IsIndexed, head_or_rest, index_add_iff, add_position_iff, ensure_keyword_iff,
}

-- One more step of a loop that adds things.
extended : {A B C P Q R : Type 0} → (C ↔ B ⊎ Q) → (B ↔ A ⊎ P) → (R ↔ P ⊎ Q) → C ↔ A ⊎ R
extended later first both = (
  λ h. elim (later.0 h) [
    | inl b ↦ elim (first.0 b) [ inl a ↦ inl a | inr p ↦ inr (both.1 (inl p)) ]
    | inr q ↦ inr (both.1 (inr q))
  ],
  λ h. elim h [
    | inl a ↦ later.1 (inl (first.1 (inl a)))
    | inr r ↦ elim (both.0 r) [ inl p ↦ later.1 (inl (first.1 (inr p))) | inr q ↦ later.1 (inr q) ]
  ],
)

-- The report of a keyword at `x` that begins in the owned part.
abbrev pub IsReported : ℕ → List Emission → Word → ℕ → Type 0
IsReported owned ms k x =
    (m : Emission) × Has m ms × (m.start < owned) × (k ≡ m.keyword) × (x ≡ m.start)

pub owned_index_iff :
    (owned : ℕ) (matches : IndexMap) (ms : List Emission) (k : Word) (x : ℕ)
    → IsIndexed (owned_index owned matches ms) k x ↔ IsIndexed matches k x ⊎ IsReported owned ms k x
unfolding owned_index
owned_index_iff owned matches [] k x =
    (λ h. inl h, λ h. elim h [ inl i ↦ i | inr (m, z, _, _, _) ↦ elim z [ ] ])
owned_index_iff owned matches (m ∷ ms) k x = elim (Bool-cases (ltb m.start owned)) [
  | inl e ↦ rw e (
      extended (owned_index_iff owned (index_add matches m.keyword m.start) ms k x)
        (index_add_iff matches m.keyword m.start k x)
        (
          λ (r, h, l, f, g). elim h [
            | inl q ↦
                inl (f ∙ ap (λ (y : Emission). y.keyword) q, g ∙ ap (λ (y : Emission). y.start) q)
            | inr q ↦ inr (r, q, l, f, g)
          ],
          λ h. elim h [
            | inl (f, g) ↦ (m, inl refl, ltb→lt m.start owned e, f, g)
            | inr (r, q, l, f, g) ↦ (r, inr q, l, f, g)
          ],
        ))
  | inr e ↦
      let rest = owned_index_iff owned matches ms k x in
      rw e (
        λ h. elim (rest.0 h) [ inl i ↦ inl i | inr (r, q, l, f, g) ↦ inr (r, inr q, l, f, g) ],
        λ h. elim h [
          | inl i ↦ rest.1 (inl i)
          | inr (r, inl q, l, f, g) ↦ absurd (beyond r m owned q l e)
          | inr (r, inr q, l, f, g) ↦ rest.1 (inr (r, q, l, f, g))
        ],
      )
]
  where
    beyond : (n m : Emission) (owned : ℕ) → n ≡ m → n.start < owned → ltb m.start owned ≡ false → ⊥
    beyond n m owned f l e =
        let same : n.start ≡ m.start = ap (λ (y : Emission). y.start) f in ground arith

merge_positions_iff :
    (offset : ℕ) (kw : Word) (merged : IndexMap) (indices : List ℕ) (k : Word) (x : ℕ)
    → IsIndexed (merge_positions offset kw merged indices) k x
      ↔ IsIndexed merged k x ⊎ ((k ≡ kw) × ((i : ℕ) × Has i indices × (x ≡ i + offset)))
unfolding merge_positions
merge_positions_iff offset kw merged [] k x =
    (λ h. inl h, λ h. elim h [ inl i ↦ i | inr (_, (_, z, _)) ↦ elim z [ ] ])
merge_positions_iff offset kw merged (i ∷ indices) k x =
    extended (merge_positions_iff offset kw (add_position merged kw (i + offset)) indices k x)
      (add_position_iff merged kw (i + offset) k x)
      (
        λ (e, (j, h, f)). elim h [
          | inl q ↦ inl (e, f ∙ ap (λ y. y + offset) q)
          | inr q ↦ inr (e, (j, q, f))
        ],
        λ h. elim h [
          | inl (e, f) ↦ (e, (i, inl refl, f))
          | inr (e, (j, q, f)) ↦ (e, (j, inr q, f))
        ],
      )

merge_matches_iff :
    (offset : ℕ) (merged matches : IndexMap) (k : Word) (x : ℕ)
    → IsIndexed (merge_matches offset merged matches) k x
      ↔ IsIndexed merged k x ⊎ ((i : ℕ) × IsIndexed matches k i × (x ≡ i + offset))
unfolding merge_matches
merge_matches_iff offset merged [] k x =
    (λ h. inl h, λ h. elim h [ inl i ↦ i | inr (_, (_, z, _), _) ↦ elim z [ ] ])
merge_matches_iff offset merged ((kw, indices) ∷ matches) k x =
    let made = ensure_keyword_iff merged kw k x in
    let here = merge_positions_iff offset kw (ensure_keyword merged kw) indices k x in
    extended
      (merge_matches_iff offset (merge_positions offset kw (ensure_keyword merged kw) indices)
        matches k x)
      (
        λ h. elim (here.0 h) [ inl i ↦ inl (made.0 i) | inr i ↦ inr i ],
        λ h. elim h [ inl i ↦ here.1 (inl (made.1 i)) | inr i ↦ here.1 (inr i) ],
      )
      (
        λ (i, h, e). elim ((head_or_rest kw indices matches k i).0 h) [
          | inl (f, j) ↦ inl (f, (i, j, e))
          | inr j ↦ inr (i, j, e)
        ],
        λ h. elim h [
          | inl (f, (i, j, e)) ↦ (i, (head_or_rest kw indices matches k i).1 (inl (f, j)), e)
          | inr (i, j, e) ↦ (i, (head_or_rest kw indices matches k i).1 (inr j), e)
        ],
      )

-- `k` stands at `x` in the map of some chunk, moved by the chunk's offset.
abbrev pub IsMerged : (Chunk → IndexMap) → List Chunk → Word → ℕ → Type 0
IsMerged g cs k x =
    (c : Chunk) × Has c cs × ((i : ℕ) × IsIndexed (g c) k i × (x ≡ i + c.text_offset))

pub merge_chunks_iff :
    (g : Chunk → IndexMap) (cs : List Chunk) (merged : IndexMap) (k : Word) (x : ℕ)
    → IsIndexed (merge_chunks merged cs (map g cs)) k x ↔ IsIndexed merged k x ⊎ IsMerged g cs k x
unfolding merge_chunks
merge_chunks_iff g [] merged k x =
    (λ h. inl h, λ h. elim h [ inl i ↦ i | inr (_, z, _) ↦ elim z [ ] ])
merge_chunks_iff g (c ∷ cs) merged k x =
    extended (merge_chunks_iff g cs (merge_matches c.text_offset merged (g c)) k x)
      (merge_matches_iff c.text_offset merged (g c) k x)
      (
        λ (d, h, (i, j, e)). elim h [
          | inl q ↦
              inl (
                i,
                subst (λ y. IsIndexed (g y) k i) q j,
                e ∙ ap (λ (y : Chunk). i + y.text_offset) q,
              )
          | inr q ↦ inr (d, q, (i, j, e))
        ],
        λ h. elim h [
          | inl (i, j, e) ↦ (c, inl refl, (i, j, e))
          | inr (d, q, (i, j, e)) ↦ (d, inr q, (i, j, e))
        ],
      )
