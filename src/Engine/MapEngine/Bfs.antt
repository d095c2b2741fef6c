-- ===== src/Engine/MapEngine/Bfs.antt =====
-- The breadth-first pass: the queue reaches every state, level by level, and links each one.
use acor.Prelude.{
  ℕ, suc, ◌≤◌, ◌<◌, ◌≡◌, ◌≢◌, refl, sym, ap, subst, ◌∙◌, ◌⊎◌, inl, inr, some, Word, List, [], ◌∷◌,
  ◌++◌, arith, length, Bool-cases, ◌==◌, Has, Has-append_left, Has-append_right, Has-append_inv,
  AllDistinct, AllDistinct-append, append-nil, append_assoc, append-one,
}
use acor.Engine.MapNode.{next, edges, targets, edge_of_target, target_of_edge}
use acor.Engine.MapEngine.{MapTrie, node_at, link_children}
use acor.Engine.MapEngine.Trie.{IsTrie, label_at}
use acor.Engine.MapEngine.Keyed.{IsKeyed}
use acor.Engine.MapEngine.LinkChildren.{
  AreLinked, IsUpTo, link_children-AreLinked, queue-link_children,
}

module _ (t₀ : MapTrie) (labels keys : List Word) (I : IsTrie t₀.nodes labels)
    (K : IsKeyed t₀ labels keys) where
  abbrev size_at : ℕ → ℕ
  size_at u = length (label_at labels u)

  abbrev IsChild : ℕ → ℕ → Type 0
  IsChild p u = (c : ℕ) × (next (node_at t₀.nodes p) c ≡ some u)

  -- In the order of depth, from `low` on.
  abbrev pub IsBanded : ℕ → List ℕ → Type 0
  IsBanded low [] = Unit
  IsBanded low (x ∷ xs) = (low ≤ size_at x) × IsBanded (size_at x) xs

  IsBanded-Has : (low : ℕ) (xs : List ℕ) (u : ℕ) → IsBanded low xs → Has u xs → low ≤ size_at u
  IsBanded-Has low [] u h k = elim k [ ]
  IsBanded-Has low (x ∷ xs) u (a, h) (inl e) = omega (arith, ap size_at e)
  IsBanded-Has low (x ∷ xs) u (a, h) (inr k) = omega (arith, IsBanded-Has (size_at x) xs u h k)

  IsBanded-append :
      (low : ℕ) (xs ys : List ℕ) (top : ℕ)
      → low ≤ top
      → IsBanded low xs
      → ((u : ℕ) → Has u xs → size_at u ≤ top)
      → ((u : ℕ) → Has u ys → size_at u ≡ top)
      → IsBanded low (xs ++ ys)
  IsBanded-append low [] [] top l h a b = tt
  IsBanded-append low [] (y ∷ ys) top l h a b = (
    omega (arith, b y (inl refl)),
    IsBanded-append (size_at y) [] ys top (omega (arith, b y (inl refl))) tt (λ u z. elim z [ ])
        (λ u k. b u (inr k)),
  )
  IsBanded-append low (x ∷ xs) ys top l (g, h) a b =
      (g, IsBanded-append (size_at x) xs ys top (a x (inl refl)) h (λ u k. a u (inr k)) b)

  -- `done` has been taken from the queue and `rest` has not.
  pub record Progress (t : MapTrie) (done rest : List ℕ) (low : ℕ) : Type 0 where
    pub linked : AreLinked t₀ labels keys I K t (done ++ rest)
    pub distinct : AllDistinct (done ++ rest)
    pub closed : (p u : ℕ) → (p ≡ 0) ⊎ Has p done → IsChild p u → Has u (done ++ rest)
    pub origin : (p u : ℕ) → Has u (done ++ rest) → IsChild p u → (p ≡ 0) ⊎ Has p done
    pub banded : IsBanded low rest
    pub top : (u : ℕ) → Has u rest → size_at u ≤ suc low

  module _ (t : MapTrie) (done : List ℕ) (low : ℕ) where
    -- With nothing left to take, every state is in.
    pub all_in :
        Progress t done [] low
        → (l : Word) (u : ℕ) → u < length t₀.nodes
        → u ≢ 0
        → label_at labels u ≡ l
        → Has u (done ++ [])
    all_in P [] u h n e = absurd (n (I.injective u 0 h I.has_root (e ∙ sym I.root)))
    all_in P (c ∷ w) u h n e =
        let (p, p_lt, at, to) = I.parent u c w h e in
        P.closed p u
          (elim (Bool-cases (p == 0)) [
            | inl z ↦ inl (ground arith)
            | inr z ↦ inr (subst (Has p) (append-nil done) (all_in P w p p_lt (ground arith) at))
          ])
          (c, to)

    module _ (s : ℕ) (r : List ℕ) (P : Progress t done (s ∷ r) low) where
      here : Has s (done ++ s ∷ r)
      here = Has-append_right s done (s ∷ r) (inl refl)

      s_lt : s < length t₀.nodes
      s_lt = P.linked.inside s here

      s_ne : s ≢ 0
      s_ne = P.linked.not_root s here

      -- A state that is not in is deeper than all of `rest`.
      deeper :
          (l : Word) (u : ℕ)
          → u < length t₀.nodes
          → u ≢ 0
          → label_at labels u ≡ l
          → Has u (done ++ s ∷ r) ⊎ (size_at s < length l)
      deeper [] u h n e = absurd (n (I.injective u 0 h I.has_root (e ∙ sym I.root)))
      deeper (c ∷ w) u h n e =
          let (p, p_lt, at, to) = I.parent u c w h e in
          elim (Bool-cases (p == 0)) [
            | inl z ↦ inl (P.closed p u (inl (ground arith)) (c, to))
            | inr z ↦ elim (deeper w p p_lt (ground arith) at) [
              | inl k ↦ elim (Has-append_inv p done (s ∷ r) k) [
                | inl d ↦ inl (P.closed p u (inr d) (c, to))
                | inr d ↦ elim d [
                  | inl q ↦ inr (omega (arith, ap length at, ap size_at q))
                  | inr q ↦
                      inr (omega (arith, ap length at, IsBanded-Has (size_at s) r p (P.banded.1) q))
                ]
              ]
              | inr k ↦ inr (omega arith)
            ]
          ]

      up_to : IsUpTo t₀ labels keys I K s s_lt s_ne (done ++ s ∷ r)
      up_to u h n d = elim (deeper (label_at labels u) u h n refl) [
        | inl k ↦ k
        | inr k ↦ absurd (omega arith)
      ]

      unfoldable pub children : List ℕ
      children = targets (edges (node_at t₀.nodes s))

      IsChild-of : (u : ℕ) → Has u children → IsChild s u
      unfolding children
      IsChild-of u h =
          let (c, k) = edge_of_target u (edges (node_at t₀.nodes s)) h in (c, I.edge→next s c u k)

      s_new : ¬ Has s done
      s_new h = apart done s r P.distinct h
        where
          apart : (xs : List ℕ) (x : ℕ) (ys : List ℕ) → AllDistinct (xs ++ x ∷ ys) → ¬ Has x xs
          apart [] x ys d k = elim k [ ]
          apart (y ∷ xs) x ys (f, d) (inl e) = f (Has-append_right y xs (x ∷ ys) (inl (sym e)))
          apart (y ∷ xs) x ys (f, d) (inr k) = apart xs x ys d k

      children_new : (u : ℕ) → Has u children → ¬ Has u (done ++ s ∷ r)
      children_new u h k = elim (P.origin s u k (IsChild-of u h)) [
        | inl e ↦ s_ne e
        | inr d ↦ s_new d
      ]

      size_child : (u : ℕ) → Has u children → size_at u ≡ suc (size_at s)
      size_child u h =
          let (c, to) = IsChild-of u h in let (_, _, at) = I.goto s c u to in ap length at

      only_parent : (p u : ℕ) → Has u children → IsChild p u → p ≡ s
      only_parent p u h (c, to) =
          let (d, to') = IsChild-of u h in
          let (p_lt, u_lt, at) = I.goto p c u to in
          let (_, _, at') = I.goto s d u to' in
          I.injective p s (omega arith) s_lt (ap tail (sym at ∙ at'))
        where
          tail : Word → Word
          tail [] = []
          tail (x ∷ xs) = xs

      regroup : (done ++ s ∷ []) ++ (r ++ children) ≡ (done ++ s ∷ r) ++ children
      regroup = append-one done s (r ++ children) ∙ sym (append_assoc done (s ∷ r) children)

      -- Taking `s` and putting its children in.
      abbrev linked_on : MapTrie
      linked_on = (link_children t s (edges (node_at t.nodes s)) (done ++ s ∷ r)).0

      closed_on :
          (p u : ℕ)
          → (p ≡ 0) ⊎ Has p (done ++ s ∷ [])
          → IsChild p u
          → Has u ((done ++ s ∷ r) ++ children)
      unfolding children
      closed_on p u (inl e) k = Has-append_left u (done ++ s ∷ r) children (P.closed p u (inl e) k)
      closed_on p u (inr h) (c, to) = elim (Has-append_inv p done (s ∷ []) h) [
        | inl d ↦ Has-append_left u (done ++ s ∷ r) children (P.closed p u (inr d) (c, to))
        | inr d ↦ elim d [
          | inl e ↦ Has-append_right u (done ++ s ∷ r) children (
              target_of_edge c u (edges (node_at t₀.nodes s))
                (I.next→edge s c u (subst (λ x. next (node_at t₀.nodes x) c ≡ some u) e to)))
          | inr z ↦ elim z [ ]
        ]
      ]

      origin_on :
          (p u : ℕ)
          → Has u ((done ++ s ∷ r) ++ children)
          → IsChild p u
          → (p ≡ 0) ⊎ Has p (done ++ s ∷ [])
      origin_on p u h k = elim (Has-append_inv u (done ++ s ∷ r) children h) [
        | inl d ↦ elim (P.origin p u d k) [
          | inl e ↦ inl e
          | inr g ↦ inr (Has-append_left p done (s ∷ []) g)
        ]
        | inr d ↦ inr (Has-append_right p done (s ∷ []) (inl (only_parent p u d k)))
      ]

      top_on : (u : ℕ) → Has u (r ++ children) → size_at u ≤ suc (size_at s)
      top_on u h = elim (Has-append_inv u r children h) [
        | inl k ↦ omega (arith, P.top u (inr k), P.banded.0)
        | inr k ↦ omega (arith, size_child u k)
      ]

      linked_on-AreLinked : AreLinked t₀ labels keys I K linked_on ((done ++ s ∷ r) ++ children)
      unfolding children
      linked_on-AreLinked =
          subst
            (λ es.
              AreLinked t₀ labels keys I K (link_children t s es (done ++ s ∷ r)).0
                ((done ++ s ∷ r) ++ targets (edges (node_at t₀.nodes s))))
            (sym (P.linked.shape.all_edges s))
            (link_children-AreLinked t₀ labels keys I K s s_lt s_ne (edges (node_at t₀.nodes s)) t
              (done ++ s ∷ r) P.linked up_to (I.edge→next s) (I.distinct s) children_new)

      pub Progress-on : Progress linked_on (done ++ s ∷ []) (r ++ children) (size_at s)
      unfolding children
      Progress-on = record {
        linked = rw regroup linked_on-AreLinked;
        distinct = rw regroup (
            AllDistinct-append (done ++ s ∷ r) children P.distinct (I.distinct s)
              (λ u h k. children_new u k h));
        closed = λ p u h k. rw regroup (closed_on p u h k);
        origin = λ p u h k. origin_on p u (rw regroup at h) k;
        banded =
            IsBanded-append (size_at s) r children (suc (size_at s)) (omega arith) (P.banded.1)
              (λ u k. omega (arith, P.top u (inr k), P.banded.0)) size_child;
        top = top_on;
      }

      pub queue-on :
          (link_children t s (edges (node_at t.nodes s)) (done ++ s ∷ r)).1
          ≡ (done ++ s ∷ []) ++ (r ++ children)
      unfolding children
      queue-on =
          queue-link_children (edges (node_at t.nodes s)) t s (done ++ s ∷ r)
          ∙ ap (λ es. (done ++ s ∷ r) ++ targets es) (P.linked.shape.all_edges s)
          ∙ sym regroup
