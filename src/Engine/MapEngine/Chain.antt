-- ===== src/Engine/MapEngine/Chain.antt =====
-- The walk along the output chain finds exactly the keyword-carrying suffixes of a state's string.
use acor.Prelude.{
  ℕ, zero, suc, ◌≤◌, ◌<◌, ◌≡◌, ◌≢◌, ap, ◌∙◌, ◌↔◌, ◌⊎◌, inl, inr, Option, none, some, Word, List,
  arith, length, Bool-cases, ◌==◌, IsPrefix, IsPrefix-refl, IsPrefix-trans, IsPrefix-shorter,
  length-prefix, prefix_eq_of_length, Has, false, true,
}
use acor.Engine.Outputs.{own_at, link_at, chain}
use acor.Engine.MapEngine.{MapTrie}
use acor.Engine.MapEngine.Trie.{label_at}
use acor.Engine.MapEngine.Links.{IsInner, IsLinkTo, HasLink, depth-lt}
use acor.Engine.MapEngine.Automaton.{IsAutomaton}

module _ (t : MapTrie) (keys : List Word) (A : IsAutomaton t keys) where
  -- `u` carries a keyword that is a suffix of what `l` stands for.
  abbrev pub IsSuffixKeyword : Word → ℕ → Type 0
  IsSuffixKeyword l u =
      (own_at t.out u ≢ 0) × (u < length t.nodes) × IsPrefix (label_at A.labels u) l

  pub own-not_root : (u : ℕ) → own_at t.out u ≢ 0 → u ≢ 0
  own-not_root u o e = o (ap (own_at t.out) e ∙ A.keyed.root)

  -- A keyword-carrying state `x` and what is inner to it are the suffix keywords of its label.
  at_or_below :
      (x u : ℕ)
      → own_at t.out x ≢ 0
      → x < length t.nodes
      → ((u ≡ x) ⊎ IsInner t.nodes A.labels t.out (label_at A.labels x) u)
        ↔ IsSuffixKeyword (label_at A.labels x) u
  at_or_below x u o h = (to, from)
    where
      to :
          (u ≡ x) ⊎ IsInner t.nodes A.labels t.out (label_at A.labels x) u
          → IsSuffixKeyword (label_at A.labels x) u
      to (inl e) = rw e (o, h, IsPrefix-refl (label_at A.labels x))
      to (inr (p, q, r, _)) = (p, q, r)

      from :
          IsSuffixKeyword (label_at A.labels x) u
          → (u ≡ x) ⊎ IsInner t.nodes A.labels t.out (label_at A.labels x) u
      from (p, q, r) = elim (Bool-cases (u == x)) [
        | inl e ↦ inl (ground arith)
        | inr e ↦
            let l = length-prefix (label_at A.labels u) (label_at A.labels x) r in
            let n : length (label_at A.labels u) ≢ length (label_at A.labels x) = λ k.
              let same : u ≡ x = A.trie.injective u x q h (
                prefix_eq_of_length (label_at A.labels u) (label_at A.labels x)
                  (label_at A.labels x) r (IsPrefix-refl (label_at A.labels x)) k) in
              ground arith in
            inr (p, q, r, omega arith)
      ]

  -- What is inner to `l` is at or below the longest of it.
  IsInner-via :
      (l : Word) (x u : ℕ)
      → IsLinkTo t.nodes A.labels t.out l (some x)
      → IsInner t.nodes A.labels t.out l u ↔ IsSuffixKeyword (label_at A.labels x) u
  IsInner-via l x u ((o, x_lt, p, b), K) = (
    λ (o', u_lt, p', b'). (
      o',
      u_lt,
      IsPrefix-shorter (label_at A.labels u) (label_at A.labels x) l p' p (K u (o', u_lt, p', b')),
    ),
    λ (o', u_lt, p'). (
      o',
      u_lt,
      IsPrefix-trans (label_at A.labels u) (label_at A.labels x) l p' p,
      omega (arith, length-prefix (label_at A.labels u) (label_at A.labels x) p'),
    ),
  )

  pub chain-link :
      (fuel : ℕ) (l : Word) (v : Option ℕ)
      → IsLinkTo t.nodes A.labels t.out l v
      → length l ≤ fuel
      → (u : ℕ) → Has u (chain fuel t.out v) ↔ IsInner t.nodes A.labels t.out l u
  unfolding chain
  chain-link fuel l none K f u = (λ h. elim h [ ], λ h. elim (K u h) [ ])
  chain-link zero l (some x) ((o, x_lt, p, b), K) f u = absurd (omega arith)
  chain-link (suc fuel) l (some x) ((o, x_lt, p, b), K) f u =
      let e : (own_at t.out x == 0) ≡ false = ground arith in
      let rest =
        chain-link fuel (label_at A.labels x) (link_at t.out x)
          ((A.linked x x_lt (own-not_root x o)).1) (omega arith) u in
      let at = at_or_below x u o x_lt in
      let via = IsInner-via l x u ((o, x_lt, p, b), K) in
      rw e (
        λ h. via.1 (at.0 (elim h [ inl k ↦ inl k | inr k ↦ inr (rest.0 k) ])),
        λ h. elim (at.1 (via.0 h)) [ inl k ↦ inl k | inr k ↦ inr (rest.1 k) ],
      )

  pub has_link : (s : ℕ) → s < length t.nodes → HasLink t.nodes A.labels t.out s
  has_link s h = elim (Bool-cases (s == 0)) [
    | inl e ↦ let z : s ≡ 0 = ground arith in rw z A.root
    | inr e ↦ (A.linked s h (ground arith)).1
  ]

  chain-start :
      (fuel s u : ℕ)
      → s < length t.nodes
      → length (label_at A.labels s) < fuel
      → Has u (chain fuel t.out (some s)) ↔ IsSuffixKeyword (label_at A.labels s) u
  unfolding chain
  chain-start zero s u h f = absurd (omega arith)
  chain-start (suc fuel) s u h f =
      let rest =
        chain-link fuel (label_at A.labels s) (link_at t.out s) (has_link s h) (omega arith) u in
      elim (Bool-cases (own_at t.out s == 0)) [
        | inl e ↦ rw e (
          λ k. let (p, q, r, _) = rest.0 k in (p, q, r),
          λ (p, q, r). rest.1 (p, q, r, shorter e p q r),
        )
        | inr e ↦
            let at = at_or_below s u (ground arith) h in
            rw e (
              λ k. at.0 (elim k [ inl g ↦ inl g | inr g ↦ inr (rest.0 g) ]),
              λ k. elim (at.1 k) [ inl g ↦ inl g | inr g ↦ inr (rest.1 g) ],
            )
      ]
    where
      shorter :
          (own_at t.out s == 0) ≡ true
          → own_at t.out u ≢ 0
          → u < length t.nodes
          → IsPrefix (label_at A.labels u) (label_at A.labels s)
          → length (label_at A.labels u) < length (label_at A.labels s)
      shorter e p q r =
          let l = length-prefix (label_at A.labels u) (label_at A.labels s) r in
          let n : length (label_at A.labels u) ≢ length (label_at A.labels s) = λ k.
            let same : u ≡ s = A.trie.injective u s q h (
              prefix_eq_of_length (label_at A.labels u) (label_at A.labels s) (label_at A.labels s)
                r (IsPrefix-refl (label_at A.labels s)) k) in
            p (ap (own_at t.out) same ∙ (ground arith)) in
          omega arith

  -- The number of nodes is enough fuel.
  pub chain-IsSuffixKeyword :
      (s u : ℕ)
      → s < length t.nodes
      → Has u (chain (length t.nodes) t.out (some s)) ↔ IsSuffixKeyword (label_at A.labels s) u
  chain-IsSuffixKeyword s u h =
      chain-start (length t.nodes) s u h (depth-lt t.nodes A.labels A.trie s h)
