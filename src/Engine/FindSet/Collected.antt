-- ===== src/Engine/FindSet/Collected.antt =====
-- FindSet and Find report the same keywords.
use acor.Prelude.{
  map-append, ℕ, zero, suc, ◌+◌, ◌≡◌, refl, sym, ap, ◌∙◌, ◌↔◌, ◌⊎◌, inl, inr, ◌&&◌, ◌||◌, true,
  false, Option, none, some, List, [], ◌∷◌, ◌++◌, map, Word, arith, ltb, ◌==◌, if◌then◌else◌,
  length, Bool-cases, Option-cases, Has, Has-map, Has-append_left, Has-append_right, Has-append_inv,
  subst, ◌≢◌,
}
use acor.Engine.Outputs.{Outputs, Emission, own_at, link_at, keyword_at, chain, emission_at}
use acor.Engine.MapEngine.{step, scan, emit_chain, match_string}
use acor.Engine.MemEfficient.{MemEfficientEngine, skip_at_root, find, engine_match_string}
use acor.Engine.MemEfficient.Queries.{skip-split, find-match_string}
use acor.Engine.FindSet.{
  SetCollector, has_id, is_end, collect_keywords, collect_chain, find_set_from, find_set,
}

has_id-Has : (id : ℕ) (l : List ℕ) → has_id id l ≡ true → Has id l
has_id-Has id [] h = cc
has_id-Has id (x ∷ xs) h = elim (Bool-cases (id == x)) [
  | inl e ↦ inl (ground arith)
  | inr e ↦ inr (has_id-Has id xs (rw e at h))
]

module _ (o : Outputs) where
  -- A keyword that the states `xs` carry.
  abbrev IsOf : List ℕ → Word → Type 0
  IsOf xs w = (x : ℕ) × Has x xs × (w ≡ keyword_at o (own_at o x))

  abbrev AreSeen : SetCollector → Type 0
  AreSeen c = (id : ℕ) → Has id c.seen → Has (keyword_at o id) c.out

  -- After the chain from `v`: its keywords are in, and what is seen is in.
  record Collects (c c' : SetCollector) (xs : List ℕ) : Type 0 where
    pub words : (w : Word) → Has w c'.out ↔ Has w c.out ⊎ IsOf xs w
    pub seen : AreSeen c'
    pub states : c'.seen_states ≡ c.seen_states

  collect-one :
      (c : SetCollector) (s : ℕ)
      → AreSeen c
      → own_at o s ≢ 0
      → Collects c
          (if own_at o s == 0 || has_id (own_at o s) c.seen then c else record c {
            out = c.out ++ keyword_at o (own_at o s) ∷ [];
            seen = own_at o s ∷ c.seen;
          })
          (s ∷ [])
  collect-one c s A n =
      let e : (own_at o s == 0) ≡ false = ground arith in
      elim (Bool-cases (has_id (own_at o s) c.seen)) [
        | inl k ↦
            rw (e, k)
              (record {
                words = λ w. (
                  λ h. inl h,
                  λ h. elim h [
                    | inl a ↦ a
                    | inr (x, b, q) ↦ elim b [
                      | inl f ↦
                          subst (λ v. Has v c.out) (sym (q ∙ ap (λ y. keyword_at o (own_at o y)) f))
                            (A (own_at o s) (has_id-Has (own_at o s) c.seen k))
                      | inr z ↦ elim z [ ]
                    ]
                  ],
                );
                seen = A;
                states = refl;
              })
        | inr k ↦
            rw (e, k)
              (record {
                words = λ w. (
                  λ h. elim (Has-append_inv w c.out (keyword_at o (own_at o s) ∷ []) h) [
                    | inl a ↦ inl a
                    | inr b ↦ elim b [ inl f ↦ inr (s, inl refl, f) | inr z ↦ elim z [ ] ]
                  ],
                  λ h. elim h [
                    | inl a ↦ Has-append_left w c.out (keyword_at o (own_at o s) ∷ []) a
                    | inr (x, b, q) ↦
                        Has-append_right w c.out (keyword_at o (own_at o s) ∷ []) (elim b [
                          | inl f ↦ inl (q ∙ ap (λ y. keyword_at o (own_at o y)) f)
                          | inr z ↦ elim z [ ]
                        ])
                  ],
                );
                seen = λ id h. elim h [
                  | inl f ↦
                      Has-append_right _ c.out (keyword_at o (own_at o s) ∷ [])
                        (inl (ap (keyword_at o) f))
                  | inr a ↦ Has-append_left _ c.out (keyword_at o (own_at o s) ∷ []) (A id a)
                ];
                states = refl;
              })
      ]

  Collects-none : (c : SetCollector) → AreSeen c → Collects c c []
  Collects-none c A = record {
    words = λ w. (λ h. inl h, λ h. elim h [ inl a ↦ a | inr (x, z, q) ↦ elim z [ ] ]);
    seen = A;
    states = refl;
  }

  collect_keywords-Collects :
      (fuel : ℕ) (c : SetCollector) (v : Option ℕ)
      → AreSeen c
      → Collects c (collect_keywords fuel o c v) (chain fuel o v)
  unfolding collect_keywords chain
  collect_keywords-Collects zero c none A = Collects-none c A
  collect_keywords-Collects (suc fuel) c none A = Collects-none c A
  collect_keywords-Collects zero c (some s) A = Collects-none c A
  collect_keywords-Collects (suc fuel) c (some s) A = elim (Bool-cases (own_at o s == 0)) [
    | inl e ↦
        let same : (if own_at o s == 0 || has_id (own_at o s) c.seen then c else record c {
          out = c.out ++ keyword_at o (own_at o s) ∷ [];
          seen = own_at o s ∷ c.seen;
        })
            ≡ c =
          rw e refl in
        rw e (
          subst
            (λ d. Collects c (collect_keywords fuel o d (link_at o s)) (chain fuel o (link_at o s)))
            (sym same) (collect_keywords-Collects fuel c (link_at o s) A))
    | inr e ↦
        let c' : SetCollector =
          if own_at o s == 0 || has_id (own_at o s) c.seen then c else record c {
            out = c.out ++ keyword_at o (own_at o s) ∷ [];
            seen = own_at o s ∷ c.seen;
          } in
        let one : Collects c c' (s ∷ []) = collect-one c s A (ground arith) in
        let rest = collect_keywords-Collects fuel c' (link_at o s) one.seen in
        let longer : s ∷ chain fuel o (link_at o s) ≡ (
            if own_at o s == 0
            then chain fuel o (link_at o s)
            else s ∷ chain fuel o (link_at o s)) =
          rw e refl in
        subst (Collects c (collect_keywords fuel o c' (link_at o s))) longer (record {
          words = λ w. (
            λ h. elim ((rest.words w).0 h) [
              | inl a ↦ elim ((one.words w).0 a) [
                | inl b ↦ inl b
                | inr (x, b, q) ↦ elim b [ inl f ↦ inr (x, inl f, q) | inr z ↦ elim z [ ] ]
              ]
              | inr (x, b, q) ↦ inr (x, inr b, q)
            ],
            λ h. (rest.words w).1 (elim h [
              | inl a ↦ inl ((one.words w).1 (inl a))
              | inr (x, b, q) ↦ elim b [
                | inl f ↦ inl ((one.words w).1 (inr (x, inl f, q)))
                | inr g ↦ inr (x, g, q)
              ]
            ]),
          );
          seen = rest.seen;
          states = rest.states ∙ one.states;
        })
  ]

  module _ (fuel : ℕ) where
    -- What the collector knows between two runes.
    record IsCollector (c : SetCollector) : Type 0 where
      pub seen : AreSeen c
      pub states :
          (s : ℕ) → Has s c.seen_states → (w : Word) → IsOf (chain fuel o (some s)) w → Has w c.out

    record Lands (c c' : SetCollector) (s : ℕ) : Type 0 where
      pub words : (w : Word) → Has w c'.out ↔ Has w c.out ⊎ IsOf (chain fuel o (some s)) w
      pub collector : IsCollector c'

    silent : (s : ℕ) → (own_at o s == 0 && is_end (link_at o s)) ≡ true → chain fuel o (some s) ≡ []
    unfolding chain
    silent s h = elim (Option-cases (link_at o s)) [
      | inl e ↦ quiet fuel s (ground arith) e
      | inr (v, e) ↦ absurd (ends (rw e at h))
    ]
      where
        ends : (own_at o s == 0 && false) ≡ true → ⊥
        ends k = ground arith

        quiet_none : (n : ℕ) → chain n o none ≡ []
        quiet_none zero = refl
        quiet_none (suc n) = refl

        quiet : (n s : ℕ) → own_at o s ≡ 0 → link_at o s ≡ none → chain n o (some s) ≡ []
        quiet zero s a b = refl
        quiet (suc n) s a b = rw (a, b) (quiet_none n)

    collect_chain-Lands :
        (c : SetCollector) (s : ℕ) → IsCollector c → Lands c (collect_chain fuel o c s) s
    unfolding collect_chain
    collect_chain-Lands c s I = elim (Bool-cases (own_at o s == 0 && is_end (link_at o s))) [
      | inl e ↦ rw e (record {
        words = λ w. (
          λ h. inl h,
          λ h. elim h [ inl a ↦ a | inr (x, b, q) ↦ elim (subst (Has x) (silent s e) b) [ ] ],
        );
        collector = I;
      })
      | inr e ↦ elim (Bool-cases (has_id s c.seen_states)) [
        | inl k ↦
            rw (e, k)
              (record {
                words = λ w. (
                  λ h. inl h,
                  λ h. elim h [ inl a ↦ a | inr b ↦ I.states s (has_id-Has s c.seen_states k) w b ],
                );
                collector = I;
              })
        | inr k ↦
            let c₀ : SetCollector = record c { seen_states = s ∷ c.seen_states } in
            let got = collect_keywords-Collects fuel c₀ (some s) I.seen in
            rw (e, k)
              (record {
                words = got.words;
                collector = record {
                  seen = got.seen;
                  states = λ x h w b. (got.words w).1 (elim (rw got.states at h) [
                    | inl f ↦ inr (subst (λ y. IsOf (chain fuel o (some y)) w) f b)
                    | inr g ↦ inl (I.states x g w b)
                  ]);
                };
              })
      ]
    ]

module _ (e : MemEfficientEngine) where
  abbrev fuel : ℕ
  fuel = length e.trie.nodes

  find_set_from_iff :
      (text : Word) (s i : ℕ) (c : SetCollector) (w : Word)
      → IsCollector e.trie.out fuel c
      → Has w (find_set_from e s c text).out
        ↔ Has w c.out
          ⊎ Has w (map (λ (m : Emission). m.keyword) (scan e.trie (skip_at_root e true) s i text))
  unfolding find_set_from scan emit_chain emission_at
  find_set_from_iff [] s i c w I = (λ h. inl h, λ h. elim h [ inl a ↦ a | inr z ↦ elim z [ ] ])
  find_set_from_iff (ch ∷ text) s i c w I = elim (Bool-cases (s == 0 && skip_at_root e true ch)) [
    | inl k ↦ rw (skip-split e s ch, k) (find_set_from_iff text s (i + 1) c w I)
    | inr k ↦
        let s' : ℕ = step fuel e.trie.nodes s ch in
        let landed = collect_chain-Lands e.trie.out fuel c s' I in
        let later = scan e.trie (skip_at_root e true) s' (i + 1) text in
        let rest =
          find_set_from_iff text s' (i + 1) (collect_chain fuel e.trie.out c s') w
            landed.collector in
        let here = reported (i + 1) s' w in
        let split = map-append (λ (m : Emission). m.keyword) (emit_chain e.trie (i + 1) s') later in
        rw (skip-split e s ch, k, split)
          (
            λ h. elim (rest.0 h) [
              | inl a ↦ elim ((landed.words w).0 a) [
                | inl b ↦ inl b
                | inr b ↦ inr (Has-append_left w _ _ (here.1 b))
              ]
              | inr a ↦ inr (Has-append_right w _ _ a)
            ],
            λ h. rest.1 (elim h [
              | inl a ↦ inl ((landed.words w).1 (inl a))
              | inr a ↦ elim (Has-append_inv w _ _ a) [
                | inl b ↦ inl ((landed.words w).1 (inr (here.0 b)))
                | inr b ↦ inr b
              ]
            ]),
          )
  ]
    where
      reported :
          (end s : ℕ) (w : Word)
          → Has w (map (λ (m : Emission). m.keyword) (emit_chain e.trie end s))
            ↔ IsOf e.trie.out (chain fuel e.trie.out (some s)) w
      reported end s w =
          let outer = Has-map (λ (m : Emission). m.keyword) (emit_chain e.trie end s) w in
          (
            λ h.
                let (m, a, q) = outer.0 h in
                let (x, b, r) =
                  (Has-map (emission_at e.trie.out end) (chain fuel e.trie.out (some s)) m).0 a in
                (x, b, q ∙ ap (λ (n : Emission). n.keyword) r),
            λ (x, b, q). outer.1 (
              emission_at e.trie.out end x,
              (Has-map (emission_at e.trie.out end) (chain fuel e.trie.out (some s)) _).1
                  (x, b, refl),
              q,
            ),
          )

  -- FindSet returns a keyword exactly if Find does: passing over the states and keywords that were seen
  -- loses nothing.
  pub find_set-find : (text w : Word) → Has w (find_set e text) ↔ Has w (find e text)
  unfolding find_set engine_match_string match_string
  find_set-find text w =
      rw (find-match_string e text) (elim (Bool-cases (ltb 1 (length e.trie.nodes))) [
        | inl k ↦
            let all =
              find_set_from_iff text 0 0 (record { out = []; seen = []; seen_states = [] }) w
                (record { seen = λ id z. elim z [ ]; states = λ s z. elim z [ ] }) in
            rw k (λ h. elim (all.0 h) [ inl z ↦ elim z [ ] | inr a ↦ a ], λ h. all.1 (inr h))
        | inr k ↦ rw k (λ h. h, λ h. h)
      ])
