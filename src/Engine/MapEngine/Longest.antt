-- ===== src/Engine/MapEngine/Longest.antt =====
-- The state that the automaton should be in, and that one step goes to the right one. What was read
-- stands backwards, so the suffixes that a state may stand for are prefixes.
use acor.Prelude.{
  ℕ, zero, suc, ◌≤◌, ◌<◌, ◌≡◌, ◌≢◌, refl, sym, ap, subst, ◌∙◌, inl, inr, none, some, [], ◌∷◌, Word,
  List, arith, length, Option-cases, IsPrefix, prefix_eq_of_length, IsPrefix-shorter,
  IsPrefix-trans, nil_of_length,
}
use acor.Engine.MapNode.{MapNode, next}
use acor.Engine.MapEngine.{node_at, step, descend, goto_below}
use acor.Engine.MapEngine.Trie.{IsTrie, label_at}

-- One round of the two walks.
module _ (nodes : List MapNode) (fuel : ℕ) where
  descend_at_root :
      (ch : ℕ) → goto_below nodes (descend (suc fuel) nodes 0 ch) ch ≡ step (suc fuel) nodes 0 ch
  unfolding goto_below descend step
  descend_at_root ch = refl

  module _ (s ch : ℕ) where
    descend_on :
        next (node_at nodes (suc s)) ch ≡ none
        → descend (suc fuel) nodes (suc s) ch ≡ descend fuel nodes (node_at nodes (suc s)).fail ch
    unfolding descend
    descend_on e = rw (e, descend) refl

    step_on :
        next (node_at nodes (suc s)) ch ≡ none
        → step (suc fuel) nodes (suc s) ch ≡ step fuel nodes (node_at nodes (suc s)).fail ch
    unfolding step
    step_on e = rw (e, step) refl

    descend_stop :
        (v : ℕ)
        → next (node_at nodes (suc s)) ch ≡ some v
        → goto_below nodes (descend (suc fuel) nodes (suc s) ch) ch
          ≡ step (suc fuel) nodes (suc s) ch
    unfolding descend step goto_below
    descend_stop v e = rw (e, descend, step) (rw (e, goto_below) refl)

module _ (nodes : List MapNode) (labels : List Word) where
  -- Among the states whose labels are prefixes of `rt` shorter than `bound`, `s` has the longest.
  pub record IsLongest (bound : ℕ) (rt : Word) (s : ℕ) : Type 0 where
    pub inside : s < length nodes
    pub prefix : IsPrefix (label_at labels s) rt
    pub below : length (label_at labels s) < bound
    pub longest :
        (u : ℕ)
        → u < length nodes
        → IsPrefix (label_at labels u) rt
        → length (label_at labels u) < bound
        → length (label_at labels u) ≤ length (label_at labels s)

  -- The failure link of `s` is right: the longest proper suffix that is in the trie.
  abbrev pub HasFail : ℕ → Type 0
  HasFail s = IsLongest (length (label_at labels s)) (label_at labels s) (node_at nodes s).fail

  -- While the inner loop walks from `s`: no state that could take the rune is missed.
  pub record Walking (bound : ℕ) (rt : Word) (ch s : ℕ) : Type 0 where
    pub inside : s < length nodes
    pub prefix : IsPrefix (label_at labels s) rt
    pub below : length (label_at labels s) < bound
    pub takers :
        (u v : ℕ)
        → u < length nodes
        → next (node_at nodes u) ch ≡ some v
        → IsPrefix (label_at labels u) rt
        → length (label_at labels u) < bound
        → length (label_at labels u) ≤ length (label_at labels s)

  module _ (I : IsTrie nodes labels) where
    -- A step that finds an edge is done.
    found :
        (bound : ℕ) (rt : Word) (ch s v : ℕ)
        → Walking bound rt ch s
        → next (node_at nodes s) ch ≡ some v
        → IsLongest (suc bound) (ch ∷ rt) v
    found bound rt ch s v W e =
        let (_, v_lt, at) = I.goto s ch v e in
        record {
          inside = v_lt;
          prefix = rw at (refl, W.prefix);
          below = rw at (omega (arith, W.below));
          longest = λ u u_lt p b. rw at (longest u u_lt p b (label_at labels u) refl);
        }
      where
        longest :
            (u : ℕ)
            → u < length nodes
            → IsPrefix (label_at labels u) (ch ∷ rt)
            → length (label_at labels u) < suc bound
            → (l : Word) → label_at labels u ≡ l
            → length (label_at labels u) ≤ length (ch ∷ label_at labels s)
        longest u u_lt p b [] q = rw q (omega arith)
        longest u u_lt p b (c ∷ w) q =
            let (x, x_lt, at, to) = I.parent u c w u_lt q in
            let p' : IsPrefix (c ∷ w) (ch ∷ rt) = subst (λ l. IsPrefix l (ch ∷ rt)) q p in
            let to' : next (node_at nodes x) ch ≡ some u = rw (p'.0) at to in
            let k =
              W.takers x u x_lt to' (subst (λ l. IsPrefix l rt) (sym at) p'.1)
                (rw at (omega (arith, ap length q))) in
            rw q (omega (arith, k, ap length at))

    -- At the root with no edge: nothing but the root itself is left.
    at_root :
        (bound : ℕ) (rt : Word) (ch : ℕ)
        → Walking bound rt ch 0
        → next (node_at nodes 0) ch ≡ none
        → IsLongest (suc bound) (ch ∷ rt) 0
    at_root bound rt ch W e = record {
      inside = I.has_root;
      prefix = rw I.root tt;
      below = rw I.root (omega arith);
      longest = λ u u_lt p b. only u u_lt p b (label_at labels u) refl;
    }
      where
        only :
            (u : ℕ)
            → u < length nodes
            → IsPrefix (label_at labels u) (ch ∷ rt)
            → length (label_at labels u) < suc bound
            → (l : Word) → label_at labels u ≡ l
            → length (label_at labels u) ≤ length (label_at labels 0)
        only u u_lt p b [] q = rw q (omega arith)
        only u u_lt p b (c ∷ w) q =
            let (x, x_lt, at, to) = I.parent u c w u_lt q in
            let p' : IsPrefix (c ∷ w) (ch ∷ rt) = subst (λ l. IsPrefix l (ch ∷ rt)) q p in
            let to' : next (node_at nodes x) ch ≡ some u = rw (p'.0) at to in
            let k =
              W.takers x u x_lt to' (subst (λ l. IsPrefix l rt) (sym at) p'.1)
                (rw at (omega (arith, ap length q))) in
            let w0 : length w ≡ 0 = omega (arith, k, ap length at, ap length I.root) in
            let x0 : x ≡ 0 =
              I.injective x 0 x_lt I.has_root (at ∙ nil_of_length w w0 ∙ sym I.root) in
            let to₀ : next (node_at nodes 0) ch ≡ some u = rw x0 at to' in absurd (cc)

    -- One hop along a right failure link.
    hop :
        (bound : ℕ) (rt : Word) (ch s : ℕ)
        → Walking bound rt ch s
        → next (node_at nodes s) ch ≡ none
        → HasFail s
        → Walking bound rt ch (node_at nodes s).fail
    hop bound rt ch s W e F = record {
      inside = F.inside;
      prefix =
          IsPrefix-trans (label_at labels (node_at nodes s).fail) (label_at labels s) rt F.prefix
            W.prefix;
      below = omega (arith, F.below, W.below);
      takers = λ u v u_lt to p b.
          let k = W.takers u v u_lt to p b in
          let other : length (label_at labels u) ≢ length (label_at labels s) = λ q.
            let same : u ≡ s =
              I.injective u s u_lt W.inside
                (prefix_eq_of_length (label_at labels u) (label_at labels s) rt p W.prefix q) in
            let to' : next (node_at nodes s) ch ≡ some v = rw same at to in cc in
          F.longest u u_lt
            (IsPrefix-shorter (label_at labels u) (label_at labels s) rt p W.prefix k)
            (omega (arith, k, other));
    }

    module _ (deepest : ℕ)
        (fails : (u : ℕ)
          → u < length nodes
          → u ≢ 0
          → length (label_at labels u) ≤ deepest
          → HasFail u) where
      -- The inner loop of the scan, from any state within the depth where the links are right, and
      -- with more fuel than that state is deep.
      pub step-IsLongest :
          (fuel bound : ℕ) (rt : Word) (ch s : ℕ)
          → Walking bound rt ch s
          → length (label_at labels s) ≤ deepest
          → length (label_at labels s) < fuel
          → IsLongest (suc bound) (ch ∷ rt) (step fuel nodes s ch)
      unfolding step
      step-IsLongest zero bound rt ch s W d f = absurd (omega arith)
      step-IsLongest (suc fuel) bound rt ch zero W d f =
          elim (Option-cases (next (node_at nodes zero) ch)) [
            | inl e ↦ rw (e, step) (at_root bound rt ch W e)
            | inr (v, e) ↦ rw (e, step) (found bound rt ch zero v W e)
          ]
      step-IsLongest (suc fuel) bound rt ch (suc s) W d f =
          elim (Option-cases (next (node_at nodes (suc s)) ch)) [
            | inl e ↦
                let F = fails (suc s) W.inside (omega arith) d in
                rw (e, step)
                  (step-IsLongest fuel bound rt ch (node_at nodes (suc s)).fail
                    (hop bound rt ch (suc s) W e F) (omega (arith, F.below))
                    (omega (arith, F.below)))
            | inr (v, e) ↦ rw (e, step) (found bound rt ch (suc s) v W e)
          ]

      -- The walk of the build, with goto applied once below it, ends where the scan's loop ends.
      pub descend-eq-step :
          (fuel s ch : ℕ)
          → s < length nodes
          → length (label_at labels s) ≤ deepest
          → length (label_at labels s) < fuel
          → goto_below nodes (descend fuel nodes s ch) ch ≡ step fuel nodes s ch
      descend-eq-step zero s ch h d f = absurd (omega arith)
      descend-eq-step (suc fuel) zero ch h d f = descend_at_root nodes fuel ch
      descend-eq-step (suc fuel) (suc s) ch h d f =
          elim (Option-cases (next (node_at nodes (suc s)) ch)) [
            | inl e ↦
                let F = fails (suc s) h (omega arith) d in
                ap (λ x. goto_below nodes x ch) (descend_on nodes fuel s ch e)
                ∙ descend-eq-step fuel (node_at nodes (suc s)).fail ch F.inside
                    (omega (arith, F.below)) (omega (arith, F.below))
                ∙ sym (step_on nodes fuel s ch e)
            | inr (v, e) ↦ descend_stop nodes fuel s ch v e
          ]
