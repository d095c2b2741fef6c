-- ===== src/Engine/MapEngine/Keyed.antt =====
-- The output table after the keywords are in: which state carries which keyword.
use acor.Prelude.{
  ℕ, ◌<◌, ◌≡◌, ◌≢◌, refl, sym, ap, subst, ◌∙◌, inl, inr, [], ◌∷◌, ◌++◌, Word, List, arith, length,
  length-append, length-set, get_or, get_or-push, get_or-set, backwards, Bool-cases, ◌==◌, Has,
  length-rev_onto, set, false, if◌then◌else◌,
}
use acor.Engine.Outputs.{Outputs, own_at, keyword_at, assign}
use acor.Engine.MapEngine.{MapTrie, mark_terminal}
use acor.Engine.MapEngine.Trie.{IsTrie, label_at}

-- What a state that carries an id reports.
pub record Carries (out : Outputs) (label : Word) (keys : List Word) (id : ℕ) : Type 0 where
  pub known : id < length out.keywords
  pub spells : backwards (keyword_at out id) ≡ label
  pub rune_len : get_or out.rune_lens id 0 ≡ length (keyword_at out id)
  pub inserted : Has (keyword_at out id) keys

pub record IsKeyed (t : MapTrie) (labels : List Word) (keys : List Word) : Type 0 where
  pub own_length : length t.out.own ≡ length t.nodes
  pub link_length : length t.out.out_link ≡ length t.nodes
  pub sentinel : 0 < length t.out.keywords
  pub same_length : length t.out.rune_lens ≡ length t.out.keywords
  pub root : own_at t.out 0 ≡ 0
  pub carries :
      (x : ℕ) → own_at t.out x ≢ 0 → Carries t.out (label_at labels x) keys (own_at t.out x)
  pub complete :
      (kw : Word)
      → Has kw keys
      → kw ≢ []
      → (x : ℕ) × (x < length t.nodes) × (own_at t.out x ≢ 0) × (label_at labels x ≡ backwards kw)

module _ (t : MapTrie) (labels keys : List Word) (I : IsTrie t.nodes labels)
    (K : IsKeyed t labels keys) (s : ℕ) (kw : Word) (s_lt : s < length t.nodes)
    (at : label_at labels s ≡ backwards kw) (nonempty : 0 < length kw) where
  not_root : s ≢ 0
  not_root e = omega (
    arith,
    length-rev_onto kw [],
    ap length (sym at),
    ap length (ap (label_at labels) e ∙ I.root),
  )

  -- The table after the terminal's first keyword, under the id that comes next, ...
  abbrev with_new : MapTrie
  with_new = record t {
    out = record {
      own = set t.out.own s (length t.out.keywords);
      out_link = t.out.out_link;
      keywords = t.out.keywords ++ kw ∷ [];
      rune_lens = t.out.rune_lens ++ length kw ∷ [];
    };
  }

  -- ... and after a keyword that the terminal holds already.
  abbrev with_again : MapTrie
  with_again = record t {
    out = record {
      own = set t.out.own s (own_at t.out s);
      out_link = t.out.out_link;
      keywords = set t.out.keywords (own_at t.out s) kw;
      rune_lens = set t.out.rune_lens (own_at t.out s) (length kw);
    };
  }

  mark_terminal-eq : mark_terminal t s kw ≡ (if own_at t.out s == 0 then with_new else with_again)
  unfolding mark_terminal assign
  mark_terminal-eq =
      let e : (length t.out.keywords == 0) ≡ false = ground (arith, K.sentinel) in
      elim (Bool-cases (own_at t.out s == 0)) [ inl f ↦ rw (f, e) refl | inr f ↦ rw f refl ]

  own_new :
      (x : ℕ) → own_at with_new.out x ≡ (if x == s then length t.out.keywords else own_at t.out x)
  own_new x = get_or-set t.out.own s (length t.out.keywords) x 0 (omega (arith, K.own_length))

  kw_new : keyword_at with_new.out (length t.out.keywords) ≡ kw
  kw_new = get_or-push t.out.keywords kw (length t.out.keywords) [] ∙ ground arith

  len_new : get_or with_new.out.rune_lens (length t.out.keywords) 0 ≡ length kw
  len_new =
      get_or-push t.out.rune_lens (length kw) (length t.out.keywords) 0
      ∙ ground (arith, K.same_length)

  with_new-Carries :
      (x : ℕ)
      → own_at with_new.out x ≢ 0
      → Carries with_new.out (label_at labels x) (kw ∷ keys) (own_at with_new.out x)
  with_new-Carries x h = elim (Bool-cases (x == s)) [
    | inl e ↦
        let id : own_at with_new.out x ≡ length t.out.keywords = own_new x ∙ rw e refl in
        let x' : x ≡ s = ground arith in
        rw id (record {
          known = omega (arith, length-append {0} t.out.keywords (kw ∷ []));
          spells = ap backwards kw_new ∙ sym at ∙ ap (label_at labels) (sym x');
          rune_len = len_new ∙ ap length (sym kw_new);
          inserted = inl kw_new;
        })
    | inr e ↦
        let id : own_at with_new.out x ≡ own_at t.out x = own_new x ∙ rw e refl in
        let c = K.carries x (rw id at h) in
        let same : keyword_at with_new.out (own_at t.out x) ≡ keyword_at t.out (own_at t.out x) =
          get_or-push t.out.keywords kw (own_at t.out x) [] ∙ ground (arith, c.known) in
        let same_len : get_or with_new.out.rune_lens (own_at t.out x) 0
            ≡ get_or t.out.rune_lens (own_at t.out x) 0 =
          get_or-push t.out.rune_lens (length kw) (own_at t.out x) 0
          ∙ ground (arith, c.known, K.same_length) in
        rw id (record {
          known = omega (arith, c.known, length-append {0} t.out.keywords (kw ∷ []));
          spells = ap backwards same ∙ c.spells;
          rune_len = same_len ∙ c.rune_len ∙ ap length (sym same);
          inserted = inr (subst (λ w. Has w keys) (sym same) c.inserted);
        })
  ]

  IsKeyed-with_new : IsKeyed with_new labels (kw ∷ keys)
  IsKeyed-with_new = record {
    own_length = length-set t.out.own s (length t.out.keywords) ∙ K.own_length;
    link_length = K.link_length;
    sentinel = omega (arith, length-append {0} t.out.keywords (kw ∷ []));
    same_length = omega (
      arith,
      K.same_length,
      length-append {0} t.out.keywords (kw ∷ []),
      length-append {0} t.out.rune_lens (length kw ∷ []),
    );
    root = ground (arith, own_new 0, K.root, not_root);
    carries = with_new-Carries;
    complete = λ w h n. elim h [
      | inl e ↦ (s, s_lt, ground (arith, own_new s, K.sentinel), at ∙ ap backwards (sym e))
      | inr k ↦
          let (x, x_lt, own, spelled) = K.complete w k n in
          (x, x_lt, ground (arith, own_new x, K.sentinel), spelled)
    ];
  }

  own_same : (y : ℕ) → (if y == s then own_at t.out s else own_at t.out y) ≡ own_at t.out y
  own_same y = elim (Bool-cases (y == s)) [
    | inl e ↦ let y' : y ≡ s = ground arith in rw e (ap (own_at t.out) (sym y'))
    | inr e ↦ rw e refl
  ]

  own_again : (x : ℕ) → own_at with_again.out x ≡ own_at t.out x
  own_again x =
      get_or-set t.out.own s (own_at t.out s) x 0 (omega (arith, K.own_length)) ∙ own_same x

  -- Overwriting: every state under the same id has the same label.
  with_again-Carries :
      (x : ℕ)
      → own_at with_again.out x ≢ 0
      → own_at t.out s ≢ 0
      → Carries with_again.out (label_at labels x) (kw ∷ keys) (own_at with_again.out x)
  with_again-Carries x h held =
      let id = own_again x in
      let c = K.carries x (rw id at h) in
      let d = K.carries s held in
      rw id (elim (Bool-cases (own_at t.out x == own_at t.out s)) [
        | inl e ↦
            let i : own_at t.out x ≡ own_at t.out s = ground arith in
            let k : keyword_at with_again.out (own_at t.out x) ≡ kw =
              get_or-set t.out.keywords (own_at t.out s) kw (own_at t.out x) [] d.known
              ∙ rw e refl in
            let l : get_or with_again.out.rune_lens (own_at t.out x) 0 ≡ length kw =
              get_or-set t.out.rune_lens (own_at t.out s) (length kw) (own_at t.out x) 0
                (omega (arith, d.known, K.same_length))
              ∙ rw e refl in
            record {
              known = omega (arith, c.known, length-set {0} t.out.keywords (own_at t.out s) kw);
              spells =
                  ap backwards k
                  ∙ sym at
                  ∙ sym d.spells
                  ∙ ap (λ j. backwards (keyword_at t.out j)) (sym i)
                  ∙ c.spells;
              rune_len = l ∙ ap length (sym k);
              inserted = inl k;
            }
        | inr e ↦
            let k : keyword_at with_again.out (own_at t.out x) ≡ keyword_at t.out (own_at t.out x) =
              get_or-set t.out.keywords (own_at t.out s) kw (own_at t.out x) [] d.known
              ∙ rw e refl in
            let l : get_or with_again.out.rune_lens (own_at t.out x) 0
                ≡ get_or t.out.rune_lens (own_at t.out x) 0 =
              get_or-set t.out.rune_lens (own_at t.out s) (length kw) (own_at t.out x) 0
                (omega (arith, d.known, K.same_length))
              ∙ rw e refl in
            record {
              known = omega (arith, c.known, length-set {0} t.out.keywords (own_at t.out s) kw);
              spells = ap backwards k ∙ c.spells;
              rune_len = l ∙ c.rune_len ∙ ap length (sym k);
              inserted = inr (subst (λ w. Has w keys) (sym k) c.inserted);
            }
      ])

  IsKeyed-with_again : own_at t.out s ≢ 0 → IsKeyed with_again labels (kw ∷ keys)
  IsKeyed-with_again held = record {
    own_length = length-set t.out.own s (own_at t.out s) ∙ K.own_length;
    link_length = K.link_length;
    sentinel = omega (arith, length-set {0} t.out.keywords (own_at t.out s) kw, K.sentinel);
    same_length = omega (
      arith,
      K.same_length,
      length-set {0} t.out.keywords (own_at t.out s) kw,
      length-set {0} t.out.rune_lens (own_at t.out s) (length kw),
    );
    root = own_again 0 ∙ K.root;
    carries = λ x h. with_again-Carries x h held;
    complete = λ w h n. elim h [
      | inl e ↦ (s, s_lt, rw (own_again s) held, at ∙ ap backwards (sym e))
      | inr k ↦
          let (x, x_lt, own, spelled) = K.complete w k n in (x, x_lt, rw (own_again x) own, spelled)
    ];
  }

  pub mark_terminal-IsKeyed : IsKeyed (mark_terminal t s kw) labels (kw ∷ keys)
  mark_terminal-IsKeyed = rw mark_terminal-eq (elim (Bool-cases (own_at t.out s == 0)) [
    | inl e ↦ rw e IsKeyed-with_new
    | inr e ↦ rw e (IsKeyed-with_again (ground arith))
  ])
