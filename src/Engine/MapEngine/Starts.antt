-- ===== src/Engine/MapEngine/Starts.antt =====
-- The edges of the root: each stands for the first rune of a keyword.
use acor.Prelude.{
  ℕ, ◌<◌, ◌≡◌, ◌≢◌, refl, sym, ◌∙◌, inl, inr, some, Word, List, [], ◌∷◌, arith, length, Bool-cases,
  Option-cases, ◌==◌, Has, ◌⊎◌, rev_onto,
}
use acor.Engine.MapNode.{next}
use acor.Engine.MapEngine.{
  MapTrie, node_at, root_only, grow, insert_runes, mark_terminal, insert_keyword, insert_keywords,
}
use acor.Engine.MapEngine.Trie.{IsTrie, next-grow, length-grow}
use acor.Engine.MapEngine.Grow.{grown_labels, grow-IsTrie}
use acor.Engine.MapEngine.Keywords.{IsBuilt, insert_keyword-IsBuilt, next-root_only}

abbrev pub HasStarts : MapTrie → List Word → Type 0
HasStarts t keys = (c u : ℕ) → next (node_at t.nodes 0) c ≡ some u → (w : Word) × Has (c ∷ w) keys

-- Below the root nothing changes at the root.
root-insert_runes :
    (t : MapTrie) (labels : List Word) (s : ℕ) (kw : Word) (c : ℕ)
    → IsTrie t.nodes labels
    → s < length t.nodes
    → s ≢ 0
    → next (node_at (insert_runes t s kw).0.nodes 0) c ≡ next (node_at t.nodes 0) c
unfolding insert_runes
root-insert_runes t labels s [] c I h n = refl
root-insert_runes t labels s (ch ∷ kw) c I h n = elim (Option-cases (next (node_at t.nodes s) ch)) [
  | inl absent ↦
      rw (absent, insert_runes)
        (root-insert_runes (grow t s ch) (grown_labels t labels I s ch h absent) (length t.nodes) kw
            c (grow-IsTrie t labels I s ch h absent) (omega (arith, length-grow t s ch h))
            (omega (arith, h))
          ∙ next-grow t s ch h 0 c
          ∙ ground arith)
  | inr (child, e) ↦
      let (before, child_lt, at) = I.goto s ch child e in
      rw (e, insert_runes)
        (root-insert_runes t labels child kw c I child_lt (omega (arith, before)))
]

root-insert_from_root :
    (t : MapTrie) (labels : List Word) (ch : ℕ) (kw : Word) (c u : ℕ)
    → IsTrie t.nodes labels
    → next (node_at (insert_runes t 0 (ch ∷ kw)).0.nodes 0) c ≡ some u
    → (c ≡ ch) ⊎ (next (node_at t.nodes 0) c ≡ some u)
unfolding insert_runes
root-insert_from_root t labels ch kw c u I k = elim (Option-cases (next (node_at t.nodes 0) ch)) [
  | inl absent ↦
      let h = I.has_root in
      let below =
        root-insert_runes (grow t 0 ch) (grown_labels t labels I 0 ch h absent) (length t.nodes) kw
          c (grow-IsTrie t labels I 0 ch h absent) (omega (arith, length-grow t 0 ch h))
          (omega (arith, h)) in
      let k' : next (node_at (grow t 0 ch).nodes 0) c ≡ some u =
        sym below ∙ rw (absent, insert_runes) at k in
      elim (Bool-cases (ch == c)) [
        | inl e ↦ inl (ground arith)
        | inr e ↦ inr (sym (next-grow t 0 ch h 0 c ∙ ground arith) ∙ k')
      ]
  | inr (child, e) ↦
      let (before, child_lt, at) = I.goto 0 ch child e in
      inr (
        sym (root-insert_runes t labels child kw c I child_lt (omega (arith, before)))
        ∙ rw (e, insert_runes) at k)
]

insert_keyword-HasStarts :
    (t : MapTrie) (keys : List Word) (kw : Word)
    → IsBuilt t keys
    → HasStarts t keys
    → HasStarts (insert_keyword t kw) (kw ∷ keys)
unfolding insert_keyword mark_terminal
insert_keyword-HasStarts t keys [] B R = λ c u h. let (w, k) = R c u h in (w, inr k)
insert_keyword-HasStarts t keys (ch ∷ kw) B R = λ c u h.
    elim (root-insert_from_root t B.labels ch kw c u B.trie h) [
      | inl e ↦ (kw, inl (rw e refl))
      | inr k ↦ let (w, j) = R c u k in (w, inr j)
    ]

pub insert_keywords-HasStarts :
    (t : MapTrie) (keys keywords : List Word)
    → IsBuilt t keys
    → HasStarts t keys
    → HasStarts (insert_keywords t keywords) (rev_onto keywords keys)
unfolding insert_keywords
insert_keywords-HasStarts t keys [] B R = R
insert_keywords-HasStarts t keys (kw ∷ kws) B R =
    insert_keywords-HasStarts (insert_keyword t kw) (kw ∷ keys) kws
      (insert_keyword-IsBuilt t keys kw B) (insert_keyword-HasStarts t keys kw B R)

pub root_only-HasStarts : HasStarts root_only []
root_only-HasStarts c u h = ground (arith, next-root_only 0 c)
