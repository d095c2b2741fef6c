-- ===== src/Engine/MapEngine/Grow.antt =====
-- A trie stays one when a state gets a new child.
use acor.Prelude.{
  ℕ, ◌<◌, ◌≡◌, ap, ◌∙◌, inl, inr, none, some, [], ◌∷◌, ◌++◌, Word, List, arith, ◌==◌, if◌then◌else◌,
  Bool-cases, length, length-append, get_or-push, Has, false, ◌≢◌, ◌↔◌, ◌⊎◌, true, AllDistinct,
  AllDistinct-append,
}
use acor.Engine.MapNode.{
  next, edges, Has-edges-add_child, depth-add_child, targets, targets-add_child, edge_of_target,
}
use acor.Engine.MapEngine.{MapTrie, node_at, grow}
use acor.Engine.MapEngine.Trie.{IsTrie, label_at, length-grow, new_node, node_at-grow, next-grow}

module _ (t : MapTrie) (labels : List Word) (I : IsTrie t.nodes labels) (s ch : ℕ)
    (s_lt : s < length t.nodes) (absent : next (node_at t.nodes s) ch ≡ none) where
  abbrev pub grown_labels : List Word
  grown_labels = labels ++ (ch ∷ label_at labels s) ∷ []

  label :
      (x : ℕ)
      → label_at grown_labels x
        ≡ (if x == length t.nodes then ch ∷ label_at labels s else label_at labels x)
  label x = get_or-push labels (ch ∷ label_at labels s) x [] ∙ ground (arith, I.same_length)

  pub label_old : (x : ℕ) → x < length t.nodes → label_at grown_labels x ≡ label_at labels x
  label_old x h = label x ∙ ground arith

  pub label_new : label_at grown_labels (length t.nodes) ≡ ch ∷ label_at labels s
  label_new = label (length t.nodes) ∙ ground arith

  grow-goto :
      (x c u : ℕ)
      → next (node_at (grow t s ch).nodes x) c ≡ some u
      → (x < u)
        × (u < length (grow t s ch).nodes)
        × (label_at grown_labels u ≡ c ∷ label_at grown_labels x)
  grow-goto x c u h =
      ground
        (arith, next-grow t s ch s_lt x c, label x, label u, I.goto x c u, length-grow t s ch s_lt)

  grow-parent :
      (u c : ℕ) (w : Word)
      → u < length (grow t s ch).nodes
      → label_at grown_labels u ≡ c ∷ w
      → (x : ℕ) × (x < length (grow t s ch).nodes)
        × (label_at grown_labels x ≡ w)
        × (next (node_at (grow t s ch).nodes x) c ≡ some u)
  grow-parent u c w h e = elim (Bool-cases (u == length t.nodes)) [
    | inl q ↦ (
      s,
      omega (arith, length-grow t s ch s_lt),
      ground (arith, label u, label s),
      ground (arith, label u, next-grow t s ch s_lt s c),
    )
    | inr q ↦
        let (x, x_lt, at, to) =
          I.parent u c w (ground (arith, length-grow t s ch s_lt)) (ground (arith, label u)) in
        (
          x,
          omega (arith, length-grow t s ch s_lt),
          label_old x x_lt ∙ at,
          ground (arith, next-grow t s ch s_lt x c),
        )
  ]

  -- The new label is none of the old ones.
  fresh : (x : ℕ) → x < length t.nodes → ¬ (label_at labels x ≡ ch ∷ label_at labels s)
  fresh x h e =
      let (p, p_lt, at, to) = I.parent x ch (label_at labels s) h e in
      let same : p ≡ s = I.injective p s p_lt s_lt at in
      let to' : next (node_at t.nodes s) ch ≡ some x = rw (← same) to in cc

  grow-injective :
      (x y : ℕ)
      → x < length (grow t s ch).nodes
      → y < length (grow t s ch).nodes
      → label_at grown_labels x ≡ label_at grown_labels y
      → x ≡ y
  grow-injective x y hx hy e =
      ground (arith, length-grow t s ch s_lt, label x, label y, fresh x, fresh y, I.injective x y)

  not_root : length t.nodes ≢ 0
  not_root = omega arith

  -- The edges of a node after growth, by the three kinds of node.
  edges_at_s :
      (p : ℕ × ℕ)
      → Has p (edges (node_at (grow t s ch).nodes s))
        ↔ (p ≡ (ch, length t.nodes)) ⊎ Has p (edges (node_at t.nodes s))
  edges_at_s p =
      let e : (s == s) ≡ true = ground arith in
      rw (node_at-grow t s ch s_lt s, e)
        (Has-edges-add_child (node_at t.nodes s) ch (length t.nodes) p not_root absent)

  edges_new : edges (node_at (grow t s ch).nodes (length t.nodes)) ≡ []
  unfolding edges new_node
  edges_new =
      let e : (length t.nodes == s) ≡ false = ground arith in
      let f : (length t.nodes == length t.nodes) ≡ true = ground arith in
      rw (node_at-grow t s ch s_lt (length t.nodes), e, f)

  edges_old :
      (x : ℕ)
      → (x == s) ≡ false
      → (x == length t.nodes) ≡ false
      → edges (node_at (grow t s ch).nodes x) ≡ edges (node_at t.nodes x)
  edges_old x e f = rw (node_at-grow t s ch s_lt x, e, f)

  grow-edge→next :
      (x c u : ℕ)
      → Has (c, u) (edges (node_at (grow t s ch).nodes x))
      → next (node_at (grow t s ch).nodes x) c ≡ some u
  grow-edge→next x c u h = elim (Bool-cases (x == s)) [
    | inl e ↦
        let e' : x ≡ s = ground arith in
        rw e' (elim ((edges_at_s (c, u)).0 (rw e' at h)) [
          | inl q ↦
              next-grow t s ch s_lt s c
              ∙ ground (arith, ap (λ (p : ℕ × ℕ). p.0) q, ap (λ (p : ℕ × ℕ). p.1) q)
          | inr q ↦ next-grow t s ch s_lt s c ∙ ground (arith, I.edge→next s c u q)
        ])
    | inr e ↦ elim (Bool-cases (x == length t.nodes)) [
      | inl f ↦ let f' : x ≡ length t.nodes = ground arith in elim (rw (f', edges_new) at h) [ ]
      | inr f ↦
          next-grow t s ch s_lt x c ∙ ground (arith, I.edge→next x c u (rw (edges_old x e f) at h))
    ]
  ]

  grow-next→edge :
      (x c u : ℕ)
      → next (node_at (grow t s ch).nodes x) c ≡ some u
      → Has (c, u) (edges (node_at (grow t s ch).nodes x))
  grow-next→edge x c u h = elim (Bool-cases (x == s)) [
    | inl e ↦
        let e' : x ≡ s = ground arith in
        rw e' (
          (edges_at_s (c, u)).1 (elim (Bool-cases (ch == c)) [
            | inl g ↦
                let g' : c ≡ ch = ground arith in
                let u' : u ≡ length t.nodes = ground (arith, next-grow t s ch s_lt x c) in
                inl (λ i. (g' i, u' i))
            | inr g ↦ inr (I.next→edge s c u (ground (arith, next-grow t s ch s_lt x c)))
          ]))
    | inr e ↦ elim (Bool-cases (x == length t.nodes)) [
      | inl f ↦
          let f' : x ≡ length t.nodes = ground arith in
          absurd (ground (arith, next-grow t s ch s_lt x c, I.goto x c u))
      | inr f ↦ rw (edges_old x e f) (I.next→edge x c u (ground (arith, next-grow t s ch s_lt x c)))
    ]
  ]

  grow-distinct : (x : ℕ) → AllDistinct (targets (edges (node_at (grow t s ch).nodes x)))
  grow-distinct x = elim (Bool-cases (x == s)) [
    | inl e ↦
        let e' : x ≡ s = ground arith in
        let f : (s == s) ≡ true = ground arith in
        rw
          (
            e',
            node_at-grow t s ch s_lt s,
            f,
            targets-add_child (node_at t.nodes s) ch (length t.nodes) not_root absent,
          )
          (AllDistinct-append (targets (edges (node_at t.nodes s))) (length t.nodes ∷ [])
            (I.distinct s) (λ h. h, tt)
            (λ a h k. apart a (edge_of_target a (edges (node_at t.nodes s)) h) k))
    | inr e ↦ elim (Bool-cases (x == length t.nodes)) [
      | inl f ↦ let f' : x ≡ length t.nodes = ground arith in rw (f', edges_new) tt
      | inr f ↦ rw (edges_old x e f) (I.distinct x)
    ]
  ]
    where
      apart :
          (a : ℕ)
          → (c : ℕ) × Has (c, a) (edges (node_at t.nodes s))
          → Has a (length t.nodes ∷ [])
          → ⊥
      apart a (c, h) (inl e) = let (_, a_lt, _) = I.goto s c a (I.edge→next s c a h) in omega arith
      apart a (c, h) (inr k) = k

  grow-depth :
      (x : ℕ)
      → x < length (grow t s ch).nodes
      → (node_at (grow t s ch).nodes x).depth ≡ length (label_at grown_labels x)
  unfolding new_node
  grow-depth x h = elim (Bool-cases (x == s)) [
    | inl e ↦
        let e' : x ≡ s = ground arith in
        let f : (s == s) ≡ true = ground arith in
        rw (e', node_at-grow t s ch s_lt s, f, label_old s s_lt)
          (depth-add_child (node_at t.nodes s) ch (length t.nodes) ∙ I.depth s s_lt)
    | inr e ↦ elim (Bool-cases (x == length t.nodes)) [
      | inl f ↦
          rw (node_at-grow t s ch s_lt x, e, f, label x) (rw f (ground (arith, I.depth s s_lt)))
      | inr f ↦
          rw (node_at-grow t s ch s_lt x, e, f)
            (ground (arith, label x, I.depth x, length-grow t s ch s_lt))
    ]
  ]

  -- A new child of any state keeps the trie; its label is the rune before its parent's.
  pub grow-IsTrie : IsTrie (grow t s ch).nodes grown_labels
  grow-IsTrie = record {
    same_length = omega (
      arith,
      length-grow t s ch s_lt,
      I.same_length,
      length-append {0} labels ((ch ∷ label_at labels s) ∷ []),
    );
    has_root = omega (arith, length-grow t s ch s_lt);
    root = label_old 0 I.has_root ∙ I.root;
    goto = grow-goto;
    parent = grow-parent;
    injective = grow-injective;
    edge→next = grow-edge→next;
    next→edge = grow-next→edge;
    distinct = grow-distinct;
    depth = grow-depth;
  }
