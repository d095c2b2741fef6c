-- ===== src/Engine/MapNode.antt =====
-- mapNode of internal/engine/engine_map.go: a trie node that keeps a single edge inline and several
-- in a map. `none` is the nil map.
use acor.Prelude.{
  ap, ◌++◌, ℕ, ◌≡◌, ◌≢◌, refl, not, ◌&&◌, Option, none, some, List, [], ◌∷◌, arith, ◌==◌,
  if◌then◌else◌, ◌⊎◌, Has, ◌↔◌, Bool-cases, inl, inr, false,
}

-- A Go map from runes to node ids.
abbrev pub Edges : Type 0
Edges = List (ℕ × ℕ)

unfoldable pub lookup : ℕ → Edges → Option ℕ
lookup ch [] = none
lookup ch ((c, v) ∷ m) = if c == ch then some v else lookup ch m

unfoldable pub insert : ℕ → ℕ → Edges → Edges
insert ch v [] = (ch, v) ∷ []
insert ch v ((c, u) ∷ m) = if c == ch then (ch, v) ∷ m else (c, u) ∷ insert ch v m

pub record MapNode : Type 0 where
  pub children : Option Edges
  pub single_rune : ℕ
  pub single_child : ℕ
  pub fail : ℕ
  pub depth : ℕ

abbrev pub blank : MapNode
blank = record { children = none; single_rune = 0; single_child = 0; fail = 0; depth = 0 }

unfoldable pub next : MapNode → ℕ → Option ℕ
unfolding lookup
next n ch = elim n.children [
  | some m ↦ lookup ch m
  | none ↦ if not (n.single_child == 0) && n.single_rune == ch then some n.single_child else none
]

unfoldable pub add_child : MapNode → ℕ → ℕ → MapNode
unfolding insert
add_child n ch child = elim n.children [
  | some m ↦ record n { children = some (insert ch child m) }
  | none ↦
      if n.single_child == 0
      then record n { single_rune = ch; single_child = child }
      else record n {
        children = some (insert ch child ((n.single_rune, n.single_child) ∷ []));
        single_child = 0;
      }
]

-- The edges in the order of the map's representation; Go leaves the order of a map open.
unfoldable pub edges : MapNode → Edges
edges n = elim n.children [
  | some m ↦ m
  | none ↦ if n.single_child == 0 then [] else (n.single_rune, n.single_child) ∷ []
]

-- The children that a loop over the edges visits.
abbrev pub targets : Edges → List ℕ
targets [] = []
targets ((_, child) ∷ es) = child ∷ targets es

lookup-insert :
    (c ch v : ℕ) (m : Edges) → lookup c (insert ch v m) ≡ (if ch == c then some v else lookup c m)
unfolding lookup insert
lookup-insert c ch v [] = refl
lookup-insert c ch v ((d, u) ∷ m) = ground (arith, lookup-insert c ch v m)

-- By the layout of the node, which is given by its fields.
next-add_child_layouts :
    (m : Option Edges) (r k f d : ℕ) (ch child c : ℕ)
    → child ≢ 0
    → next
        (add_child
          (record { children = m; single_rune = r; single_child = k; fail = f; depth = d })
          ch
          child)
        c
      ≡ (if ch == c
          then some child
          else next
              (record { children = m; single_rune = r; single_child = k; fail = f; depth = d })
              c)
unfolding next add_child
next-add_child_layouts (some m) r k f d ch child c h = lookup-insert c ch child m
next-add_child_layouts none r k f d ch child c h =
    ground (arith, lookup-insert c ch child ((r, k) ∷ []))

-- Whichever of its three layouts a node is in, addChild of an id other than the root's adds the edge,
-- overwrites one for the same rune, and leaves the node's other edges as they are.
pub next-add_child :
    (n : MapNode) (ch child c : ℕ)
    → child ≢ 0
    → next (add_child n ch child) c ≡ (if ch == c then some child else next n c)
next-add_child n ch child c h =
    next-add_child_layouts n.children n.single_rune n.single_child n.fail n.depth ch child c h

Has-insert_absent :
    (p : ℕ × ℕ) (ch v : ℕ) (m : Edges)
    → lookup ch m ≡ none
    → Has p (insert ch v m)
    → (p ≡ (ch, v)) ⊎ Has p m
unfolding lookup insert
Has-insert_absent p ch v [] h k = k
Has-insert_absent p ch v ((d, u) ∷ m) h k = elim (Bool-cases (d == ch)) [
  | inl e ↦ absurd (ground arith)
  | inr e ↦ elim (rw e at k) [
    | inl q ↦ inr (inl q)
    | inr q ↦ elim (Has-insert_absent p ch v m (rw e at h) q) [
      | inl z ↦ inl z
      | inr z ↦ inr (inr z)
    ]
  ]
]

Has→Has-insert_absent :
    (p : ℕ × ℕ) (ch v : ℕ) (m : Edges)
    → lookup ch m ≡ none
    → (p ≡ (ch, v)) ⊎ Has p m
    → Has p (insert ch v m)
unfolding lookup insert
Has→Has-insert_absent p ch v [] h k = k
Has→Has-insert_absent p ch v ((d, u) ∷ m) h k = elim (Bool-cases (d == ch)) [
  | inl e ↦ absurd (ground arith)
  | inr e ↦ rw e (elim k [
    | inl q ↦ inr (Has→Has-insert_absent p ch v m (rw e at h) (inl q))
    | inr z ↦ elim z [
      | inl q ↦ inl q
      | inr q ↦ inr (Has→Has-insert_absent p ch v m (rw e at h) (inr q))
    ]
  ])
]

Has-edges-add_child_layouts :
    (m : Option Edges) (r k f d : ℕ) (ch child : ℕ) (p : ℕ × ℕ)
    → child ≢ 0
    → next (record { children = m; single_rune = r; single_child = k; fail = f; depth = d }) ch
      ≡ none
    → Has p (
        edges (
          add_child
            (record { children = m; single_rune = r; single_child = k; fail = f; depth = d })
            ch
            child))
      ↔ (p ≡ (ch, child))
        ⊎ Has p (
            edges (record { children = m; single_rune = r; single_child = k; fail = f; depth = d }))
unfolding next add_child edges
Has-edges-add_child_layouts (some m) r k f d ch child p h absent =
    (Has-insert_absent p ch child m absent, Has→Has-insert_absent p ch child m absent)
Has-edges-add_child_layouts none r k f d ch child p h absent = elim (Bool-cases (k == 0)) [
  | inl e ↦ let z : (child == 0) ≡ false = ground arith in rw (e, z) (λ q. q, λ q. q)
  | inr e ↦ rw e (
    Has-insert_absent p ch child ((r, k) ∷ []) (alone (rw e at absent)),
    Has→Has-insert_absent p ch child ((r, k) ∷ []) (alone (rw e at absent)),
  )
]
  where
    alone : (if not false && r == ch then some k else none) ≡ none → lookup ch ((r, k) ∷ []) ≡ none
    alone q = ground arith

-- addChild for a rune that has no edge adds exactly one edge.
pub Has-edges-add_child :
    (n : MapNode) (ch child : ℕ) (p : ℕ × ℕ)
    → child ≢ 0
    → next n ch ≡ none
    → Has p (edges (add_child n ch child)) ↔ (p ≡ (ch, child)) ⊎ Has p (edges n)
Has-edges-add_child n ch child p h absent =
    Has-edges-add_child_layouts n.children n.single_rune n.single_child n.fail n.depth ch child p h
      absent

pub depth-add_child : (n : MapNode) (ch child : ℕ) → (add_child n ch child).depth ≡ n.depth
unfolding add_child
depth-add_child n ch child = ground arith

pub fail-add_child : (n : MapNode) (ch child : ℕ) → (add_child n ch child).fail ≡ n.fail
unfolding add_child
fail-add_child n ch child = ground arith

targets-insert_absent :
    (ch v : ℕ) (m : Edges) → lookup ch m ≡ none → targets (insert ch v m) ≡ targets m ++ v ∷ []
unfolding lookup insert
targets-insert_absent ch v [] h = refl
targets-insert_absent ch v ((d, u) ∷ m) h = elim (Bool-cases (d == ch)) [
  | inl e ↦ absurd (ground arith)
  | inr e ↦ rw e (ap (◌∷◌ u) (targets-insert_absent ch v m (rw e at h)))
]

targets-add_child_layouts :
    (m : Option Edges) (r k f d : ℕ) (ch child : ℕ)
    → child ≢ 0
    → next (record { children = m; single_rune = r; single_child = k; fail = f; depth = d }) ch
      ≡ none
    → targets (
        edges (
          add_child
            (record { children = m; single_rune = r; single_child = k; fail = f; depth = d })
            ch
            child))
      ≡ targets
          (edges (record { children = m; single_rune = r; single_child = k; fail = f; depth = d }))
        ++ child ∷ []
unfolding next add_child edges
targets-add_child_layouts (some m) r k f d ch child h absent =
    targets-insert_absent ch child m absent
targets-add_child_layouts none r k f d ch child h absent = elim (Bool-cases (k == 0)) [
  | inl e ↦ let z : (child == 0) ≡ false = ground arith in rw (e, z) refl
  | inr e ↦ rw e (targets-insert_absent ch child ((r, k) ∷ []) (alone (rw e at absent)))
]
  where
    alone : (if not false && r == ch then some k else none) ≡ none → lookup ch ((r, k) ∷ []) ≡ none
    alone q = ground arith

-- The new child comes after the old ones.
pub targets-add_child :
    (n : MapNode) (ch child : ℕ)
    → child ≢ 0
    → next n ch ≡ none
    → targets (edges (add_child n ch child)) ≡ targets (edges n) ++ child ∷ []
targets-add_child n ch child h absent =
    targets-add_child_layouts n.children n.single_rune n.single_child n.fail n.depth ch child h
      absent

pub edge_of_target : (v : ℕ) (es : Edges) → Has v (targets es) → (c : ℕ) × Has (c, v) es
edge_of_target v [] h = elim h [ ]
edge_of_target v ((c, u) ∷ es) (inl e) = (c, inl (λ i. (c, e i)))
edge_of_target v ((c, u) ∷ es) (inr h) = let (d, k) = edge_of_target v es h in (d, inr k)

pub target_of_edge : (c v : ℕ) (es : Edges) → Has (c, v) es → Has v (targets es)
target_of_edge c v [] h = elim h [ ]
target_of_edge c v ((d, u) ∷ es) (inl e) = inl (ap (λ (p : ℕ × ℕ). p.1) e)
target_of_edge c v ((d, u) ∷ es) (inr h) = inr (target_of_edge c v es h)
