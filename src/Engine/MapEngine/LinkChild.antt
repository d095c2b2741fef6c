-- ===== src/Engine/MapEngine/LinkChild.antt =====
-- One round of the inner loop: the child gets right links, and no other state's change.
use acor.Prelude.{
  ℕ, ◌<◌, ◌≡◌, ◌≢◌, refl, sym, ap, ◌∙◌, inl, inr, none, some, Word, List, arith, length, Bool-cases,
  ◌==◌, if◌then◌else◌, length-set, get_or-set, true, false,
}
use acor.Engine.Outputs.{own_at, link_at}
use acor.Engine.MapNode.{MapNode, blank, next, edges}
use acor.Engine.MapEngine.{MapTrie, node_at, link_child, fail_of_child}
use acor.Engine.MapEngine.Trie.{label_at}
use acor.Engine.MapEngine.Longest.{IsLongest}
use acor.Engine.MapEngine.Links.{IsLinkTo, HasLink, IsLinked}
use acor.Engine.MapEngine.Shape.{SameShape, IsLongest-shape, IsLinkTo-shape}

-- A node's edges and depth do not depend on its failure link.
next-set_fail : (n : MapNode) (f c : ℕ) → next (record n { fail = f }) c ≡ next n c
unfolding next
next-set_fail n f c = refl

edges-set_fail : (n : MapNode) (f : ℕ) → edges (record n { fail = f }) ≡ edges n
unfolding edges
edges-set_fail n f = refl

module _ (t : MapTrie) (s ch child : ℕ) (child_lt : child < length t.nodes) where
  abbrev relinked : MapNode
  relinked = record (node_at t.nodes child) { fail = fail_of_child t.nodes s ch }

  node_at-link_child :
      (x : ℕ)
      → node_at (link_child t s ch child).nodes x
        ≡ (if x == child then relinked else node_at t.nodes x)
  unfolding link_child
  node_at-link_child x = get_or-set t.nodes child relinked x blank child_lt

  -- A field of the nodes that the failure link does not enter is as before.
  same_field {ℓ} :
      {A : Type ℓ} (f : MapNode → A)
      → f relinked ≡ f (node_at t.nodes child)
      → (x : ℕ) → f (node_at (link_child t s ch child).nodes x) ≡ f (node_at t.nodes x)
  same_field f e x = ap f (node_at-link_child x) ∙ elim (Bool-cases (x == child)) [
    | inl q ↦
        let x' : x ≡ child = ground arith in rw q (e ∙ ap (λ y. f (node_at t.nodes y)) (sym x'))
    | inr q ↦ rw q refl
  ]

  pub link_child-SameShape : SameShape t (link_child t s ch child)
  unfolding link_child
  link_child-SameShape = record {
    size = length-set t.nodes child relinked;
    gotos = λ x c. same_field (λ n. next n c) (next-set_fail _ _ c) x;
    all_edges = same_field edges (edges-set_fail _ _);
    depths = same_field (λ n. n.depth) refl;
    own = refl;
    keywords = refl;
    rune_lens = refl;
    links = length-set t.out.out_link child (
        if own_at t.out (fail_of_child t.nodes s ch) == 0
        then link_at t.out (fail_of_child t.nodes s ch)
        else some (fail_of_child t.nodes s ch));
  }

  fail_new : (node_at (link_child t s ch child).nodes child).fail ≡ fail_of_child t.nodes s ch
  fail_new =
      let e : (child == child) ≡ true = ground arith in
      let h : node_at (link_child t s ch child).nodes child ≡ relinked =
        node_at-link_child child ∙ (rw e refl) in
      ap (λ (n : MapNode). n.fail) h

  fail_old :
      (x : ℕ)
      → x ≢ child
      → (node_at (link_child t s ch child).nodes x).fail ≡ (node_at t.nodes x).fail
  fail_old x n =
      let e : (x == child) ≡ false = ground arith in
      let h : node_at (link_child t s ch child).nodes x ≡ node_at t.nodes x =
        node_at-link_child x ∙ (rw e refl) in
      ap (λ (n : MapNode). n.fail) h

  module _ (room : child < length t.out.out_link) where
    link_new : link_at (link_child t s ch child).out child ≡ (
        if own_at t.out (fail_of_child t.nodes s ch) == 0
        then link_at t.out (fail_of_child t.nodes s ch)
        else some (fail_of_child t.nodes s ch))
    unfolding link_child
    link_new =
        let e : (child == child) ≡ true = ground arith in
        get_or-set t.out.out_link child
          (if own_at t.out (fail_of_child t.nodes s ch) == 0
            then link_at t.out (fail_of_child t.nodes s ch)
            else some (fail_of_child t.nodes s ch))
          child none room
        ∙ rw e refl

    link_old : (x : ℕ) → x ≢ child → link_at (link_child t s ch child).out x ≡ link_at t.out x
    unfolding link_child
    link_old x n =
        let e : (x == child) ≡ false = ground arith in
        get_or-set t.out.out_link child
          (if own_at t.out (fail_of_child t.nodes s ch) == 0
            then link_at t.out (fail_of_child t.nodes s ch)
            else some (fail_of_child t.nodes s ch))
          x none room
        ∙ rw e refl

    module _ (labels : List Word) where
      -- A state that was linked stays linked, if it is not the child.
      pub IsLinked-kept :
          (x : ℕ)
          → x ≢ child
          → IsLinked t.nodes labels t.out x
          → IsLinked (link_child t s ch child).nodes labels (link_child t s ch child).out x
      IsLinked-kept x n (F, L) =
          let S = link_child-SameShape in
          (
            rw (fail_old x n) (IsLongest-shape t (link_child t s ch child) labels S _ _ _ F),
            rw (link_old x n) (IsLinkTo-shape t (link_child t s ch child) labels S _ _ L),
          )

      pub HasLink-kept :
          (x : ℕ)
          → x ≢ child
          → HasLink t.nodes labels t.out x
          → HasLink (link_child t s ch child).nodes labels (link_child t s ch child).out x
      HasLink-kept x n L =
          rw (link_old x n)
            (IsLinkTo-shape t (link_child t s ch child) labels link_child-SameShape _ _ L)

      -- The child becomes linked.
      pub IsLinked-child :
          IsLongest t.nodes labels
            (length (label_at labels child))
            (label_at labels child)
            (fail_of_child t.nodes s ch)
          → IsLinkTo t.nodes labels t.out (label_at labels child) (
              if own_at t.out (fail_of_child t.nodes s ch) == 0
              then link_at t.out (fail_of_child t.nodes s ch)
              else some (fail_of_child t.nodes s ch))
          → IsLinked (link_child t s ch child).nodes labels (link_child t s ch child).out child
      IsLinked-child F L =
          let S = link_child-SameShape in
          (
            rw fail_new (IsLongest-shape t (link_child t s ch child) labels S _ _ _ F),
            rw link_new (IsLinkTo-shape t (link_child t s ch child) labels S _ _ L),
          )
