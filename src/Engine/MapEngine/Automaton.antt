-- ===== src/Engine/MapEngine/Automaton.antt =====
-- The loop over the queue, to its end: what `buildFromSequence` leaves is an Aho–Corasick automaton.
use acor.Prelude.{
  ℕ, zero, suc, ◌+◌, ◌≤◌, ◌<◌, ◌≡◌, ◌≢◌, refl, sym, ap, subst, ◌∙◌, inl, inr, none, some, Word,
  List, [], ◌∷◌, ◌++◌, arith, length, length-append, get_elem?, Has, append-nil, pigeonhole,
  get_elem?-append_here, get_elem?-beyond, rev_onto, ap₂, nil_of_length,
}
use acor.Engine.MapNode.{next, edges, targets, edge_of_target, target_of_edge}
use acor.Engine.MapEngine.{MapTrie, root_only, node_at, insert_keywords, link_loop, build_trie}
use acor.Engine.MapEngine.Trie.{IsTrie, label_at}
use acor.Engine.MapEngine.Keyed.{IsKeyed}
use acor.Engine.MapEngine.Keywords.{insert_keywords-IsBuilt, root_only-IsBuilt}
use acor.Engine.MapEngine.Fresh.{
  IsFresh, insert_keywords-IsFresh, root_only-IsFresh, root-HasLink, shallow-IsLinked,
}
use acor.Engine.MapEngine.Starts.{HasStarts, insert_keywords-HasStarts, root_only-HasStarts}
use acor.Engine.MapEngine.Links.{IsLinked, HasLink}
use acor.Engine.MapEngine.Shape.{SameShape-refl, IsTrie-shape, IsKeyed-shape}
use acor.Engine.MapEngine.Bfs.{Progress, IsBanded, all_in, Progress-on, queue-on, children}

-- The invariant of a built engine: its slice of nodes is a trie whose states spell the ghost
-- `labels`, its output table spells the keywords `keys`, and every link is right.
pub record IsAutomaton (t : MapTrie) (keys : List Word) : Type 0 where
  pub labels : List Word
  pub trie : IsTrie t.nodes labels
  pub keyed : IsKeyed t labels keys
  pub root : HasLink t.nodes labels t.out 0
  pub linked : (u : ℕ) → u < length t.nodes → u ≢ 0 → IsLinked t.nodes labels t.out u
  pub starts : HasStarts t keys

module _ (t₀ : MapTrie) (labels keys : List Word) (I : IsTrie t₀.nodes labels)
    (K : IsKeyed t₀ labels keys) (starts : HasStarts t₀ keys) where
  finished :
      (t : MapTrie) (done : List ℕ) (low : ℕ)
      → Progress t₀ labels keys I K t done [] low
      → IsAutomaton t keys
  finished t done low P =
      let S = P.linked.shape in
      record {
        labels = labels;
        trie = IsTrie-shape t₀ t labels S I;
        keyed = IsKeyed-shape t₀ t labels S keys K;
        root = P.linked.root;
        linked = λ u h n.
            P.linked.linked u (
              all_in t₀ labels keys I K t done low P (label_at labels u) u (rw S.size at h) n refl);
        starts = λ c u h. starts c u (sym (S.gotos 0 c) ∙ h);
      }

  -- Fuel for the states that have not been taken yet is enough.
  pub link_loop-IsAutomaton :
      (fuel : ℕ) (t : MapTrie) (done rest : List ℕ) (low head : ℕ) (queue : List ℕ)
      → Progress t₀ labels keys I K t done rest low
      → head ≡ length done
      → queue ≡ done ++ rest
      → length t₀.nodes ≤ fuel + length done
      → IsAutomaton (link_loop fuel t head queue) keys
  unfolding link_loop
  link_loop-IsAutomaton zero t done [] low head queue P hd q f = finished t done low P
  link_loop-IsAutomaton zero t done (s ∷ r) low head queue P hd q f = absurd (
      omega (
        arith,
        pigeonhole (length t₀.nodes) (done ++ s ∷ r) P.distinct P.linked.inside,
        length-append {0} done (s ∷ r),
      ))
  link_loop-IsAutomaton (suc fuel) t done [] low head queue P hd q f =
      let e : get_elem? queue head ≡ none =
        ap₂ get_elem? (q ∙ append-nil done) hd ∙ get_elem?-beyond done in
      rw (e, link_loop) (finished t done low P)
  link_loop-IsAutomaton (suc fuel) t done (s ∷ r) low head queue P hd q f =
      let e : get_elem? queue head ≡ some s = ap₂ get_elem? q hd ∙ get_elem?-append_here done r s in
      rw (e, link_loop, q)
        (link_loop-IsAutomaton fuel _ (done ++ s ∷ [])
          (r ++ children t₀ labels keys I K t done low s r P) (length (label_at labels s))
          (head + 1) _ (Progress-on t₀ labels keys I K t done low s r P)
          (omega (arith, hd, length-append {0} done (s ∷ [])))
          (queue-on t₀ labels keys I K t done low s r P)
          (omega (arith, f, length-append {0} done (s ∷ []))))

  Progress-start :
      IsFresh t₀ → Progress t₀ labels keys I K t₀ [] (targets (edges (node_at t₀.nodes 0))) 0
  Progress-start F = record {
    linked = record {
      shape = SameShape-refl t₀;
      root = root-HasLink t₀ labels keys I K F;
      inside = λ x h. let (c, k) = child_edge x h in let (_, x_lt, _) = I.goto 0 c x k in x_lt;
      not_root = λ x h.
          let (c, k) = child_edge x h in
          let (before, _, _) = I.goto 0 c x k in omega (arith, before);
      linked = λ x h. shallow-IsLinked t₀ labels keys I K F x (size_child x h);
    };
    distinct = I.distinct 0;
    closed = λ p u h (c, to). elim h [
      | inl e ↦
          target_of_edge c u (edges (node_at t₀.nodes 0))
            (I.next→edge 0 c u (subst (λ x. next (node_at t₀.nodes x) c ≡ some u) e to))
      | inr z ↦ elim z [ ]
    ];
    origin = λ p u h (c, to).
        let (p_lt, u_lt, at) = I.goto p c u to in
        inl (
          I.injective p 0 (omega arith) I.has_root (
            nil_of_length (label_at labels p) (omega (arith, size_child u h, ap length at))
            ∙ sym I.root));
    banded = banded (targets (edges (node_at t₀.nodes 0))) 0 (omega arith) size_child;
    top = λ u h. omega (arith, size_child u h);
  }
    where
      child_edge :
          (u : ℕ)
          → Has u (targets (edges (node_at t₀.nodes 0)))
          → (c : ℕ) × (next (node_at t₀.nodes 0) c ≡ some u)
      child_edge u h =
          let (c, k) = edge_of_target u (edges (node_at t₀.nodes 0)) h in (c, I.edge→next 0 c u k)

      size_child :
          (u : ℕ) → Has u (targets (edges (node_at t₀.nodes 0))) → length (label_at labels u) ≡ 1
      size_child u h =
          let (c, to) = child_edge u h in
          let (_, _, at) = I.goto 0 c u to in omega (arith, ap length at, ap length I.root)

      banded :
          (us : List ℕ) (low : ℕ)
          → low ≤ 1
          → ((u : ℕ) → Has u us → length (label_at labels u) ≡ 1)
          → IsBanded t₀ labels keys I K low us
      banded [] low h k = tt
      banded (u ∷ us) low h k = (
        omega (arith, k u (inl refl)),
        banded us (length (label_at labels u)) (omega (arith, k u (inl refl))) (λ x j. k x (inr j)),
      )

-- Whatever the keywords, buildFromSequence ends with an automaton for them: its nodes are a trie, a
-- state reports the keyword it spells, every keyword that is not empty has a state, and the failure
-- and output links of each state but the root lead to its longest proper suffixes.
pub build_trie-IsAutomaton :
    (keywords : List Word) → IsAutomaton (build_trie keywords) (rev_onto keywords [])
unfolding build_trie
build_trie-IsAutomaton keywords =
    let B = insert_keywords-IsBuilt root_only [] keywords root_only-IsBuilt in
    link_loop-IsAutomaton (insert_keywords root_only keywords) B.labels (rev_onto keywords [])
      B.trie B.keyed
      (insert_keywords-HasStarts root_only [] keywords root_only-IsBuilt root_only-HasStarts)
      (length (insert_keywords root_only keywords).nodes) (insert_keywords root_only keywords) [] _
      0 0 _
      (Progress-start (insert_keywords root_only keywords) B.labels (rev_onto keywords []) B.trie
        B.keyed
        (insert_keywords-HasStarts root_only [] keywords root_only-IsBuilt root_only-HasStarts)
        (insert_keywords-IsFresh root_only [] keywords root_only-IsBuilt root_only-IsFresh))
      refl refl (omega arith)
