-- ===== src/Engine/MapEngine/Once.antt =====
-- No occurrence is reported twice.
use acor.Prelude.{
  ℕ, zero, suc, ◌+◌, ◌≤◌, ◌<◌, ◌≡◌, refl, sym, ap, subst, ◌∙◌, inl, inr, Bool, true, false, Option,
  none, some, Word, List, [], ◌∷◌, map, arith, ltb, length, Bool-cases, ◌==◌, Has, Has-map,
  AllDistinct, AllDistinct-append, backwards,
}
use acor.Engine.Outputs.{own_at, link_at, chain, Emission, emission_at}
use acor.Engine.MapNode.{next}
use acor.Engine.MapEngine.{MapTrie, node_at, step, emit_chain, scan, match_string}
use acor.Engine.MapEngine.Trie.{label_at}
use acor.Engine.MapEngine.Links.{IsLinkTo, depth-lt}
use acor.Engine.MapEngine.Automaton.{IsAutomaton}
use acor.Engine.MapEngine.Chain.{chain-link, chain-IsSuffixKeyword, has_link, own-not_root}
use acor.Engine.MapEngine.Scan.{
  IsState, IsState-start, IsState-step, emit_chain_iff, scan-read, scan_iff,
}

AllDistinct-map :
    {A B : Type 0} (f : A → B) (xs : List A)
    → ((a b : A) → Has a xs → Has b xs → f a ≡ f b → a ≡ b)
    → AllDistinct xs
    → AllDistinct (map f xs)
AllDistinct-map f [] inj d = tt
AllDistinct-map f (x ∷ xs) inj (new, d) = (
  λ h.
      let (a, k, e) = (Has-map f xs (f x)).0 h in
      new (subst (λ y. Has y xs) (sym (inj x a (inl refl) (inr k) e)) k),
  AllDistinct-map f xs (λ a b h k. inj a b (inr h) (inr k)) d,
)

module _ (t : MapTrie) (keys : List Word) (A : IsAutomaton t keys) where
  below-new :
      (fuel x : ℕ)
      → IsLinkTo t.nodes A.labels t.out (label_at A.labels x) (link_at t.out x)
      → length (label_at A.labels x) ≤ fuel
      → ¬ Has x (chain fuel t.out (link_at t.out x))
  below-new fuel x L f h =
      let (_, _, _, b) =
        (chain-link t keys A fuel (label_at A.labels x) (link_at t.out x) L f x).0 h in
      omega arith

  chain-AllDistinct :
      (fuel : ℕ) (l : Word) (v : Option ℕ)
      → IsLinkTo t.nodes A.labels t.out l v
      → length l ≤ fuel
      → AllDistinct (chain fuel t.out v)
  unfolding chain
  chain-AllDistinct fuel l none K f = tt
  chain-AllDistinct zero l (some x) ((o, x_lt, p, b), K) f = tt
  chain-AllDistinct (suc fuel) l (some x) ((o, x_lt, p, b), K) f =
      let e : (own_at t.out x == 0) ≡ false = ground arith in
      let L = (A.linked x x_lt (own-not_root t keys A x o)).1 in
      rw e (
        below-new fuel x L (omega arith),
        chain-AllDistinct fuel (label_at A.labels x) (link_at t.out x) L (omega arith),
      )

  start-AllDistinct :
      (fuel s : ℕ)
      → s < length t.nodes
      → length (label_at A.labels s) < fuel
      → AllDistinct (chain fuel t.out (some s))
  unfolding chain
  start-AllDistinct zero s h f = tt
  start-AllDistinct (suc fuel) s h f =
      let L = has_link t keys A s h in
      let d = chain-AllDistinct fuel (label_at A.labels s) (link_at t.out s) L (omega arith) in
      elim (Bool-cases (own_at t.out s == 0)) [
        | inl e ↦ rw e d
        | inr e ↦ rw e (below-new fuel s L (omega arith), d)
      ]

  emit_chain-AllDistinct : (end s : ℕ) → s < length t.nodes → AllDistinct (emit_chain t end s)
  unfolding emit_chain emission_at
  emit_chain-AllDistinct end s h =
      AllDistinct-map (emission_at t.out end) (chain (length t.nodes) t.out (some s)) same
        (start-AllDistinct (length t.nodes) s h (depth-lt t.nodes A.labels A.trie s h))
    where
      same :
          (a b : ℕ)
          → Has a (chain (length t.nodes) t.out (some s))
          → Has b (chain (length t.nodes) t.out (some s))
          → emission_at t.out end a ≡ emission_at t.out end b
          → a ≡ b
      same a b ha hb e =
          let (oa, a_lt, _) = (chain-IsSuffixKeyword t keys A s a h).0 ha in
          let (ob, b_lt, _) = (chain-IsSuffixKeyword t keys A s b h).0 hb in
          A.trie.injective a b a_lt b_lt (
            sym (A.keyed.carries a oa).spells
            ∙ ap (λ (m : Emission). backwards m.keyword) e
            ∙ (A.keyed.carries b ob).spells)

  module _ (skip : ℕ → Bool)
      (skips : (ch : ℕ) → skip ch ≡ true → next (node_at t.nodes 0) ch ≡ none) where
    scan-AllDistinct :
        (text rt : Word) (s : ℕ)
        → IsState t keys A rt s
        → AllDistinct (scan t skip s (length rt) text)
    unfolding scan
    scan-AllDistinct [] rt s S = tt
    scan-AllDistinct (ch ∷ text) rt s S =
        let s' : ℕ = step (length t.nodes) t.nodes s ch in
        let S' = IsState-step t keys A rt s ch S in
        let i : length rt + 1 ≡ suc (length rt) = omega arith in
        rw (scan-read t keys A skip skips s (length rt) ch text, i)
          (AllDistinct-append (emit_chain t (suc (length rt)) s') _
            (emit_chain-AllDistinct (suc (length rt)) s' S'.inside)
            (scan-AllDistinct text (ch ∷ rt) s' S')
            (λ m h k.
              let (e, _) = (emit_chain_iff t keys A (ch ∷ rt) text s' S' m).0 h in
              let (l, _) = (scan_iff t keys A skip skips text (ch ∷ rt) s' m S').0 k in
              omega (arith, e, l)))

    pub match_string-AllDistinct : (text : Word) → AllDistinct (match_string t skip text)
    unfolding match_string
    match_string-AllDistinct text = elim (Bool-cases (ltb 1 (length t.nodes))) [
      | inl e ↦ rw e (scan-AllDistinct text [] 0 (IsState-start t keys A))
      | inr e ↦ rw e tt
    ]
