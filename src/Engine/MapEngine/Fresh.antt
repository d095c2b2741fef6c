-- ===== src/Engine/MapEngine/Fresh.antt =====
-- While keywords are inserted no link is set: the first states are linked before the pass begins.
use acor.Prelude.{
  ℕ, zero, suc, ◌<◌, ◌≡◌, refl, sym, ap, ◌∙◌, inl, inr, none, Word, List, [], ◌∷◌, arith, length,
  Bool-cases, Option-cases, ◌==◌, if◌then◌else◌, get_or-push, nil_of_length, ◌≤◌,
}
use acor.Engine.Outputs.{own_at, link_at, assign, assign_id, with_sentinel}
use acor.Engine.MapNode.{MapNode, next, add_child, fail-add_child}
use acor.Engine.MapEngine.{
  MapTrie, node_at, root_only, grow, insert_runes, mark_terminal, insert_keyword, insert_keywords,
}
use acor.Engine.MapEngine.Trie.{IsTrie, label_at, node_at-grow, new_node, length-grow}
use acor.Engine.MapEngine.Keyed.{IsKeyed}
use acor.Engine.MapEngine.Grow.{grown_labels, grow-IsTrie}
use acor.Engine.MapEngine.Keywords.{IsBuilt, insert_keyword-IsBuilt, node_at-root_only}
use acor.Engine.MapEngine.Links.{IsLinkTo, IsLinked, HasLink}

abbrev pub IsFresh : MapTrie → Type 0
IsFresh t = ((x : ℕ) → (node_at t.nodes x).fail ≡ 0) × ((x : ℕ) → link_at t.out x ≡ none)

fail_by_case :
    (t : MapTrie) (s ch x : ℕ) (h : s < length t.nodes)
    → IsFresh t
    → (if x == s
        then add_child (node_at t.nodes s) ch (length t.nodes)
        else if x == length t.nodes
        then new_node t s ch h
        else node_at t.nodes x).fail
      ≡ 0
unfolding new_node
fail_by_case t s ch x h (F, L) = elim (Bool-cases (x == s)) [
  | inl e ↦ rw e (fail-add_child (node_at t.nodes s) ch (length t.nodes) ∙ F s)
  | inr e ↦
      rw e (elim (Bool-cases (x == length t.nodes)) [ inl f ↦ rw f refl | inr f ↦ rw f (F x) ])
]

grow-IsFresh : (t : MapTrie) (s ch : ℕ) → s < length t.nodes → IsFresh t → IsFresh (grow t s ch)
unfolding grow
grow-IsFresh t s ch h (F, L) = (
  λ x. ap (λ (n : MapNode). n.fail) (node_at-grow t s ch h x) ∙ fail_by_case t s ch x h (F, L),
  λ x. get_or-push t.out.out_link none x none ∙ ground (arith, L x),
)

insert_runes-IsFresh :
    (t : MapTrie) (labels : List Word) (s : ℕ) (kw : Word)
    → IsTrie t.nodes labels
    → s < length t.nodes
    → IsFresh t
    → IsFresh (insert_runes t s kw).0
unfolding insert_runes
insert_runes-IsFresh t labels s [] I h F = F
insert_runes-IsFresh t labels s (ch ∷ kw) I h F =
    elim (Option-cases (next (node_at t.nodes s) ch)) [
      | inl absent ↦
          rw (absent, insert_runes)
            (insert_runes-IsFresh (grow t s ch) (grown_labels t labels I s ch h absent)
              (length t.nodes) kw (grow-IsTrie t labels I s ch h absent)
              (omega (arith, length-grow t s ch h)) (grow-IsFresh t s ch h F))
      | inr (child, e) ↦
          let (_, child_lt, at) = I.goto s ch child e in
          rw (e, insert_runes) (insert_runes-IsFresh t labels child kw I child_lt F)
    ]

mark_terminal-IsFresh :
    (t : MapTrie) (s : ℕ) (kw : Word) → IsFresh t → IsFresh (mark_terminal t s kw)
unfolding mark_terminal assign assign_id with_sentinel
mark_terminal-IsFresh t s kw (F, L) = (
  F,
  λ x. elim (Bool-cases (own_at t.out s == 0)) [
    | inl e ↦
        rw e (elim (Bool-cases (length t.out.keywords == 0)) [
          | inl f ↦ rw f (L x)
          | inr f ↦ rw f (L x)
        ])
    | inr e ↦ rw e (L x)
  ],
)

insert_keyword-IsFresh :
    (t : MapTrie) (keys : List Word) (kw : Word)
    → IsBuilt t keys
    → IsFresh t
    → IsFresh (insert_keyword t kw)
unfolding insert_keyword
insert_keyword-IsFresh t keys [] B F = F
insert_keyword-IsFresh t keys (ch ∷ kw) B F =
    mark_terminal-IsFresh (insert_runes t 0 (ch ∷ kw)).0 (insert_runes t 0 (ch ∷ kw)).1 (ch ∷ kw)
      (insert_runes-IsFresh t B.labels 0 (ch ∷ kw) B.trie B.trie.has_root F)

pub insert_keywords-IsFresh :
    (t : MapTrie) (keys keywords : List Word)
    → IsBuilt t keys
    → IsFresh t
    → IsFresh (insert_keywords t keywords)
unfolding insert_keywords
insert_keywords-IsFresh t keys [] B F = F
insert_keywords-IsFresh t keys (kw ∷ kws) B F =
    insert_keywords-IsFresh (insert_keyword t kw) (kw ∷ keys) kws
      (insert_keyword-IsBuilt t keys kw B) (insert_keyword-IsFresh t keys kw B F)

pub root_only-IsFresh : IsFresh root_only
root_only-IsFresh = (λ x. ap (λ (n : MapNode). n.fail) (node_at-root_only x), no_link)
  where
    no_link : (x : ℕ) → link_at root_only.out x ≡ none
    no_link zero = refl
    no_link (suc x) = refl

module _ (t : MapTrie) (labels keys : List Word) (I : IsTrie t.nodes labels)
    (K : IsKeyed t labels keys) (F : IsFresh t) where
  only_root : (u : ℕ) → u < length t.nodes → length (label_at labels u) < 1 → u ≡ 0
  only_root u h d =
      I.injective u 0 h I.has_root (nil_of_length (label_at labels u) (omega arith) ∙ sym I.root)

  -- At depth one or less no keyword is a proper suffix, ...
  shallow-no_link :
      (l : Word) (v : ℕ) → length l ≤ 1 → IsLinkTo t.nodes labels t.out l (link_at t.out v)
  shallow-no_link l v h =
      rw (F.1 v)
        (λ u (o, u_lt, p, b). o (ap (own_at t.out) (only_root u u_lt (omega arith)) ∙ K.root))

  pub root-HasLink : HasLink t.nodes labels t.out 0
  root-HasLink = shallow-no_link (label_at labels 0) 0 (omega (arith, ap length I.root))

  -- ... and the failure state is the root.
  pub shallow-IsLinked : (u : ℕ) → length (label_at labels u) ≡ 1 → IsLinked t.nodes labels t.out u
  shallow-IsLinked u h = (
    rw (F.0 u) (record {
      inside = I.has_root;
      prefix = rw I.root tt;
      below = omega (arith, ap length I.root);
      longest = λ x x_lt p b. omega arith;
    }),
    shallow-no_link (label_at labels u) u (omega arith),
  )
