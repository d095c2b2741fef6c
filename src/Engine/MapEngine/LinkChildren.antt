-- ===== src/Engine/MapEngine/LinkChildren.antt =====
-- The inner loop: the children of one state join the queue, each with right links.
use acor.Prelude.{
  ℕ, ◌≤◌, ◌<◌, ◌≡◌, ◌≢◌, refl, sym, ap, ◌∙◌, inl, inr, some, Word, List, [], ◌∷◌, ◌++◌, arith,
  length, Bool-cases, ◌==◌, Has, AllDistinct, append-nil, Has-append_inv, append-one, subst,
  Has-append_left,
}
use acor.Engine.MapNode.{Edges, next, targets}
use acor.Engine.MapEngine.{MapTrie, node_at, link_child, link_children, fail_of_child}
use acor.Engine.MapEngine.Trie.{IsTrie, label_at}
use acor.Engine.MapEngine.Keyed.{IsKeyed}
use acor.Engine.MapEngine.Longest.{IsLongest}
use acor.Engine.MapEngine.Links.{HasLink, IsLinked, fail_of_child-IsLongest, link-IsLinkTo}
use acor.Engine.MapEngine.Shape.{SameShape, SameShape-trans, IsTrie-shape}
use acor.Engine.MapEngine.LinkChild.{
  link_child-SameShape, IsLinked-kept, HasLink-kept, IsLinked-child,
}

-- `t₀` is the trie before the breadth-first pass, which changes links only.
module _ (t₀ : MapTrie) (labels keys : List Word) (I₀ : IsTrie t₀.nodes labels)
    (K₀ : IsKeyed t₀ labels keys) where
  -- The states of `q` and the root have right links.
  pub record AreLinked (t : MapTrie) (q : List ℕ) : Type 0 where
    pub shape : SameShape t₀ t
    pub root : HasLink t.nodes labels t.out 0
    pub inside : (x : ℕ) → Has x q → x < length t₀.nodes
    pub not_root : (x : ℕ) → Has x q → x ≢ 0
    pub linked : (x : ℕ) → Has x q → IsLinked t.nodes labels t.out x

  module _ (s : ℕ) (s_lt : s < length t₀.nodes) (s_ne : s ≢ 0) where
    -- Every state that is no deeper than `s` is in `q`.
    abbrev pub IsUpTo : List ℕ → Type 0
    IsUpTo q =
        (u : ℕ)
        → u < length t₀.nodes
        → u ≢ 0
        → length (label_at labels u) ≤ length (label_at labels s)
        → Has u q

    module _ (t : MapTrie) (q : List ℕ) (A : AreLinked t q) (up : IsUpTo q) (ch child : ℕ)
        (to : next (node_at t₀.nodes s) ch ≡ some child) (new : ¬ Has child q) where
      I_now : IsTrie t.nodes labels
      I_now = IsTrie-shape t₀ t labels A.shape I₀

      child_fail :
          IsLongest t.nodes labels
            (length (label_at labels child))
            (label_at labels child)
            (fail_of_child t.nodes s ch)
      child_fail =
          fail_of_child-IsLongest t.nodes labels I_now s ch child (omega (arith, A.shape.size)) s_ne
            (A.shape.gotos s ch ∙ to)
            (λ u h n d. (A.linked u (up u (omega (arith, A.shape.size)) n d)).0)

      fail-HasLink :
          (f : ℕ)
          → f < length t₀.nodes
          → length (label_at labels f) ≤ length (label_at labels s)
          → HasLink t.nodes labels t.out f
      fail-HasLink f h d = elim (Bool-cases (f == 0)) [
        | inl e ↦ let z : f ≡ 0 = ground arith in rw z A.root
        | inr e ↦ (A.linked f (up f h (ground arith) d)).1
      ]

      AreLinked-child : AreLinked (link_child t s ch child) (q ++ child ∷ [])
      AreLinked-child =
          let (before, child_lt, at) = I₀.goto s ch child to in
          let F = child_fail in
          let c_lt : child < length t.nodes = omega (arith, A.shape.size) in
          let room : child < length t.out.out_link = omega (arith, A.shape.links, K₀.link_length) in
          let d : length (label_at labels (fail_of_child t.nodes s ch))
              ≤ length (label_at labels s) =
            omega (arith, F.below, ap length at) in
          let L =
            link-IsLinkTo t.nodes labels I_now t.out (label_at labels child)
              (fail_of_child t.nodes s ch) F
              (fail-HasLink (fail_of_child t.nodes s ch) (omega (arith, F.inside, A.shape.size))
                d) in
          record {
            shape =
                SameShape-trans t₀ t (link_child t s ch child) A.shape
                  (link_child-SameShape t s ch child c_lt);
            root = HasLink-kept t s ch child c_lt room labels 0 (omega (arith, before)) A.root;
            inside = λ x h. elim (Has-append_inv x q (child ∷ []) h) [
              | inl k ↦ A.inside x k
              | inr k ↦ elim k [ inl e ↦ rw e child_lt | inr z ↦ elim z [ ] ]
            ];
            not_root = λ x h. elim (Has-append_inv x q (child ∷ []) h) [
              | inl k ↦ A.not_root x k
              | inr k ↦ elim k [ inl e ↦ omega (arith, before, e) | inr z ↦ elim z [ ] ]
            ];
            linked = λ x h. elim (Has-append_inv x q (child ∷ []) h) [
              | inl k ↦
                  IsLinked-kept t s ch child c_lt room labels x
                    (λ e. new (subst (λ y. Has y q) e k)) (A.linked x k)
              | inr k ↦ elim k [
                | inl e ↦ rw e (IsLinked-child t s ch child c_lt room labels F L)
                | inr z ↦ elim z [ ]
              ]
            ];
          }

    -- The whole inner loop.
    pub link_children-AreLinked :
        (es : Edges) (t : MapTrie) (q : List ℕ)
        → AreLinked t q
        → IsUpTo q
        → ((c u : ℕ) → Has (c, u) es → next (node_at t₀.nodes s) c ≡ some u)
        → AllDistinct (targets es)
        → ((u : ℕ) → Has u (targets es) → ¬ Has u q)
        → AreLinked (link_children t s es q).0 (q ++ targets es)
    unfolding link_children
    link_children-AreLinked [] t q A up edge d new = rw (append-nil q) A
    link_children-AreLinked ((ch, child) ∷ es) t q A up edge (fresh, d) new =
        rw (← append-one q child (targets es)) (
          link_children-AreLinked es (link_child t s ch child) (q ++ child ∷ [])
            (AreLinked-child t q A up ch child (edge ch child (inl refl)) (new child (inl refl)))
            (λ u h n k. Has-append_left u q (child ∷ []) (up u h n k)) (λ c u h. edge c u (inr h)) d
            (λ u h k. elim (Has-append_inv u q (child ∷ []) k) [
              | inl z ↦ new u (inr h) z
              | inr z ↦ elim z [
                | inl e ↦ fresh (subst (λ y. Has y (targets es)) e h)
                | inr y ↦ elim y [ ]
              ]
            ]))

pub queue-link_children :
    (es : Edges) (t : MapTrie) (s : ℕ) (q : List ℕ) → (link_children t s es q).1 ≡ q ++ targets es
unfolding link_children
queue-link_children [] t s q = sym (append-nil q)
queue-link_children ((ch, child) ∷ es) t s q =
    queue-link_children es (link_child t s ch child) s (q ++ child ∷ [])
    ∙ append-one q child (targets es)
