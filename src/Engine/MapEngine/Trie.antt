-- ===== src/Engine/MapEngine/Trie.antt =====
-- What makes the slice of nodes a trie. `labels` is a ghost: the label of a state is the string that
-- leads to it, read backwards, so that a suffix of what was read is a prefix of a label.
use acor.Prelude.{
  AllDistinct, ℕ, ◌+◌, ◌<◌, ◌≡◌, refl, sym, ◌∙◌, inl, inr, ◌&&◌, none, some, List, [], ◌∷◌, Word,
  arith, ◌==◌, if◌then◌else◌, Bool-cases, length, get_or, set, length-append, length-set,
  get_or-beyond, Has, get_or-set-push,
}
use acor.Engine.MapNode.{MapNode, blank, next, add_child, edges, targets, next-add_child}
use acor.Engine.MapEngine.{MapTrie, node_at, grow}

abbrev pub label_at : List Word → ℕ → Word
label_at labels s = get_or labels s []

pub record IsTrie (nodes : List MapNode) (labels : List Word) : Type 0 where
  pub same_length : length labels ≡ length nodes
  pub has_root : 0 < length nodes
  pub root : label_at labels 0 ≡ []
  pub goto :
      (s c t : ℕ)
      → next (node_at nodes s) c ≡ some t
      → (s < t) × (t < length nodes) × (label_at labels t ≡ c ∷ label_at labels s)
  pub parent :
      (t c : ℕ) (w : Word)
      → t < length nodes
      → label_at labels t ≡ c ∷ w
      → (s : ℕ) × (s < length nodes) × (label_at labels s ≡ w) × (next (node_at nodes s) c ≡ some t)
  pub injective :
      (s t : ℕ)
      → s < length nodes
      → t < length nodes
      → label_at labels s ≡ label_at labels t
      → s ≡ t
  pub edge→next :
      (s c t : ℕ) → Has (c, t) (edges (node_at nodes s)) → next (node_at nodes s) c ≡ some t
  pub next→edge :
      (s c t : ℕ) → next (node_at nodes s) c ≡ some t → Has (c, t) (edges (node_at nodes s))
  pub distinct : (s : ℕ) → AllDistinct (targets (edges (node_at nodes s)))
  pub depth : (s : ℕ) → s < length nodes → (node_at nodes s).depth ≡ length (label_at labels s)

next-blank : (c : ℕ) → next blank c ≡ none
unfolding next
next-blank c = refl

module _ (t : MapTrie) (s ch : ℕ) (s_lt : s < length t.nodes) where
  pub length-grow : length (grow t s ch).nodes ≡ length t.nodes + 1
  unfolding grow
  length-grow = omega (
    arith,
    length-append {0} (set t.nodes s (add_child (node_at t.nodes s) ch (length t.nodes)))
        (record blank { depth = (node_at t.nodes s).depth + 1 } ∷ []),
    length-set {0} t.nodes s (add_child (node_at t.nodes s) ch (length t.nodes)),
  )

  unfoldable pub new_node : MapNode
  new_node = record blank { depth = (node_at t.nodes s).depth + 1 }

  -- The nodes after growth, one by one.
  pub node_at-grow :
      (x : ℕ)
      → node_at (grow t s ch).nodes x ≡ (
          if x == s
          then add_child (node_at t.nodes s) ch (length t.nodes)
          else if x == length t.nodes
          then new_node
          else node_at t.nodes x)
  unfolding grow new_node
  node_at-grow x =
      get_or-set-push t.nodes s (add_child (node_at t.nodes s) ch (length t.nodes))
        (record blank { depth = (node_at t.nodes s).depth + 1 }) x blank s_lt

  pub next-new_node : (c : ℕ) → next new_node c ≡ none
  unfolding next new_node
  next-new_node c = refl

  pub next-grow :
      (x c : ℕ)
      → next (node_at (grow t s ch).nodes x) c
        ≡ (if x == s && ch == c then some (length t.nodes) else next (node_at t.nodes x) c)
  next-grow x c = rw (node_at-grow x) (elim (Bool-cases (x == s)) [
    | inl e ↦
        let e' : x ≡ s = ground arith in
        rw (e, e')
          (next-add_child (node_at t.nodes s) ch (length t.nodes) c (omega arith) ∙ ground arith)
    | inr e ↦ rw e (elim (Bool-cases (x == length t.nodes)) [
      | inl f ↦
          let f' : x ≡ length t.nodes = ground arith in
          rw (f, f', next-new_node c, get_or-beyond t.nodes (length t.nodes) blank (omega arith))
            (sym (next-blank c))
      | inr f ↦ rw f refl
    ])
  ])
