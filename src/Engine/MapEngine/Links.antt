-- ===== src/Engine/MapEngine/Links.antt =====
-- What the failure and output links of a state mean, and that the build's formulas give it.
use acor.Prelude.{
  [], prefix_eq_of_length, ℕ, ◌≤◌, ◌<◌, ◌≡◌, ◌≢◌, refl, ap, ◌∙◌, inl, inr, Option, none, some, ◌∷◌,
  Word, List, arith, length, Bool-cases, ◌==◌, if◌then◌else◌, IsPrefix, IsPrefix-trans,
  IsPrefix-shorter,
}
use acor.Engine.Outputs.{Outputs, own_at, link_at}
use acor.Engine.MapNode.{MapNode, next}
use acor.Engine.MapEngine.{node_at, fail_of_child}
use acor.Engine.MapEngine.Trie.{IsTrie, label_at}
use acor.Engine.MapEngine.Longest.{IsLongest, HasFail, Walking, step-IsLongest, descend-eq-step}

module _ (nodes : List MapNode) (labels : List Word) (out : Outputs) where
  -- `u` carries a keyword and its label is a proper prefix of `l`.
  abbrev pub IsInner : Word → ℕ → Type 0
  IsInner l u =
      (own_at out u ≢ 0)
      × (u < length nodes)
      × IsPrefix (label_at labels u) l
      × (length (label_at labels u) < length l)

  -- The output link is right: the longest keyword that is a proper suffix, or none if there is none.
  abbrev pub IsLinkTo : Word → Option ℕ → Type 0
  IsLinkTo l none = (u : ℕ) → IsInner l u → ⊥
  IsLinkTo l (some v) =
      IsInner l v
      × ((u : ℕ) → IsInner l u → length (label_at labels u) ≤ length (label_at labels v))

  abbrev pub HasLink : ℕ → Type 0
  HasLink s = IsLinkTo (label_at labels s) (link_at out s)

  abbrev pub IsLinked : ℕ → Type 0
  IsLinked s = HasFail nodes labels s × HasLink s

module _ (nodes : List MapNode) (labels : List Word) (I : IsTrie nodes labels) where
  -- A label is no longer than the state's number: parents come before children.
  label-le : (l : Word) (s : ℕ) → s < length nodes → label_at labels s ≡ l → length l ≤ s
  label-le [] s h e = omega arith
  label-le (c ∷ w) s h e =
      let (p, p_lt, at, to) = I.parent s c w h e in
      let (before, _, _) = I.goto p c s to in omega (arith, label-le w p p_lt at)

  pub depth-lt : (s : ℕ) → s < length nodes → length (label_at labels s) < length nodes
  depth-lt s h = omega (arith, label-le (label_at labels s) s h refl)

  -- The failure state that the build computes for a child is right, if the links of all states that
  -- are no deeper than the parent are.
  pub fail_of_child-IsLongest :
      (s ch t : ℕ)
      → s < length nodes
      → s ≢ 0
      → next (node_at nodes s) ch ≡ some t
      → ((u : ℕ)
          → u < length nodes
          → u ≢ 0
          → length (label_at labels u) ≤ length (label_at labels s)
          → HasFail nodes labels u)
      → IsLongest nodes labels
          (length (label_at labels t))
          (label_at labels t)
          (fail_of_child nodes s ch)
  unfolding fail_of_child
  fail_of_child-IsLongest s ch t s_lt s_ne to fails =
      let (_, _, at) = I.goto s ch t to in
      let F = fails s s_lt s_ne (omega arith) in
      let deepest = length (label_at labels s) in
      let W : Walking nodes labels deepest (label_at labels s) ch (node_at nodes s).fail = record {
        inside = F.inside;
        prefix = F.prefix;
        below = F.below;
        takers = λ u v u_lt _. F.longest u u_lt;
      } in
      let d = depth-lt (node_at nodes s).fail F.inside in
      rw
        (
          at,
          descend-eq-step nodes labels I deepest fails (length nodes) (node_at nodes s).fail ch
              F.inside (omega (arith, F.below)) d,
        )
        (step-IsLongest nodes labels I deepest fails (length nodes) deepest (label_at labels s) ch
          (node_at nodes s).fail W (omega (arith, F.below)) d)

  -- The output link that the build computes from a right failure state is right.
  pub link-IsLinkTo :
      (out : Outputs) (l : Word) (f : ℕ)
      → IsLongest nodes labels (length l) l f
      → IsLinkTo nodes labels out (label_at labels f) (link_at out f)
      → IsLinkTo nodes labels out l (if own_at out f == 0 then link_at out f else some f)
  link-IsLinkTo out l f F L = elim (Bool-cases (own_at out f == 0)) [
    | inl e ↦ rw e (through (link_at out f) L (ground arith))
    | inr e ↦
        rw e
          ((ground arith, F.inside, F.prefix, F.below), λ u (o, u_lt, p, b). F.longest u u_lt p b)
  ]
    where
      -- An inner state of `l` is `f` itself or an inner state of `f`.
      inner :
          (u : ℕ)
          → own_at out f ≡ 0
          → IsInner nodes labels out l u
          → IsInner nodes labels out (label_at labels f) u
      inner u z (o, u_lt, p, b) =
          let k = F.longest u u_lt p b in
          let q = IsPrefix-shorter (label_at labels u) (label_at labels f) l p F.prefix k in
          let differs : length (label_at labels u) ≢ length (label_at labels f) = λ e.
            let same : u ≡ f =
              I.injective u f u_lt F.inside
                (prefix_eq_of_length (label_at labels u) (label_at labels f) l p F.prefix e) in
            o (ap (own_at out) same ∙ z) in
          (o, u_lt, q, omega (arith, k, differs))

      through :
          (v : Option ℕ)
          → IsLinkTo nodes labels out (label_at labels f) v
          → own_at out f ≡ 0
          → IsLinkTo nodes labels out l v
      through none K z = λ u h. K u (inner u z h)
      through (some v) ((o, v_lt, p, b), K) z = (
        (
          o,
          v_lt,
          IsPrefix-trans (label_at labels v) (label_at labels f) l p F.prefix,
          omega (arith, F.below),
        ),
        λ u h. K u (inner u z h),
      )
