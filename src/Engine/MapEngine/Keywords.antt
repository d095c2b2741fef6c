-- ===== src/Engine/MapEngine/Keywords.antt =====
-- All keywords inserted: the trie, and the table that spells them.
use acor.Prelude.{
  ℕ, zero, suc, ◌<◌, ◌≡◌, ◌≢◌, refl, sym, ap, subst, ◌∙◌, inl, inr, none, some, [], ◌∷◌, Word, List,
  arith, length, get_or, get_or-beyond, backwards, rev_onto, Bool-cases, ltb, Has,
}
use acor.Engine.Outputs.{own_at, keyword_at}
use acor.Engine.MapNode.{MapNode, blank, next, edges}
use acor.Engine.MapEngine.{
  MapTrie, root_only, node_at, mark_terminal, insert_runes, insert_keyword, insert_keywords,
}
use acor.Engine.MapEngine.Trie.{IsTrie, label_at}
use acor.Engine.MapEngine.Insert.{Extends, Arrives, insert_runes-Arrives}
use acor.Engine.MapEngine.Keyed.{IsKeyed, mark_terminal-IsKeyed}

-- Only states inside the slice carry an id.
pub own_inside :
    (t : MapTrie) (labels keys : List Word) (x : ℕ)
    → IsKeyed t labels keys
    → own_at t.out x ≢ 0
    → x < length t.nodes
own_inside t labels keys x K h = elim (Bool-cases (ltb x (length t.nodes))) [
  | inl e ↦ ground arith
  | inr e ↦ absurd (h (get_or-beyond t.out.own x 0 (ground (arith, K.own_length))))
]

IsKeyed-Extends :
    (t t' : MapTrie) (labels labels' keys : List Word)
    → IsKeyed t labels keys
    → Extends t labels t' labels'
    → IsKeyed t' labels' keys
IsKeyed-Extends t t' labels labels' keys K E = record {
  own_length = omega (arith, E.own_length, K.own_length);
  link_length = omega (arith, E.link_length, K.link_length);
  sentinel = omega (arith, ap (length {A = Word}) E.keywords, K.sentinel);
  same_length =
      omega
        (arith, ap (length {A = Word}) E.keywords, ap (length {A = ℕ}) E.rune_lens, K.same_length);
  root = E.own 0 ∙ K.root;
  carries = λ x h.
      let h' : own_at t.out x ≢ 0 = rw (← E.own x) h in
      let c = K.carries x h' in
      let at = E.kept x (own_inside t labels keys x K h') in
      let word : keyword_at t'.out (own_at t.out x) ≡ keyword_at t.out (own_at t.out x) =
        ap (λ (l : List Word). get_or l (own_at t.out x) []) E.keywords in
      rw (E.own x) (record {
        known = omega (arith, c.known, ap (length {A = Word}) E.keywords);
        spells = ap backwards word ∙ c.spells ∙ sym at;
        rune_len =
            ap (λ (l : List ℕ). get_or l (own_at t.out x) 0) E.rune_lens
            ∙ c.rune_len
            ∙ ap length (sym word);
        inserted = subst (λ w. Has w keys) (sym word) c.inserted;
      });
  complete = λ w h n.
      let (x, x_lt, own, spelled) = K.complete w h n in
      (x, omega (arith, E.more), rw (E.own x) own, E.kept x x_lt ∙ spelled);
}

-- A trie with its table, for some labels.
pub record IsBuilt (t : MapTrie) (keys : List Word) : Type 0 where
  pub labels : List Word
  pub trie : IsTrie t.nodes labels
  pub keyed : IsKeyed t labels keys

nodes-mark_terminal : (t : MapTrie) (s : ℕ) (kw : Word) → (mark_terminal t s kw).nodes ≡ t.nodes
unfolding mark_terminal
nodes-mark_terminal t s kw = refl

insert_nonempty-IsBuilt :
    (t : MapTrie) (keys : List Word) (kw : Word) (t' : MapTrie) (s' : ℕ) (labels : List Word)
    → 0 < length kw
    → IsKeyed t labels keys
    → Arrives t labels [] kw t' s'
    → IsBuilt (mark_terminal t' s' kw) (kw ∷ keys)
insert_nonempty-IsBuilt t keys kw t' s' labels nonempty K A = record {
  labels = A.labels';
  trie = rw nodes-mark_terminal A.trie;
  keyed =
      mark_terminal-IsKeyed t' A.labels' keys A.trie
        (IsKeyed-Extends t t' labels A.labels' keys K A.extends) s' kw A.inside A.at nonempty;
}

pub insert_keyword-IsBuilt :
    (t : MapTrie) (keys : List Word) (kw : Word)
    → IsBuilt t keys
    → IsBuilt (insert_keyword t kw) (kw ∷ keys)
unfolding insert_keyword
insert_keyword-IsBuilt t keys [] B = record {
  labels = B.labels;
  trie = B.trie;
  keyed = record {
    own_length = B.keyed.own_length;
    link_length = B.keyed.link_length;
    sentinel = B.keyed.sentinel;
    same_length = B.keyed.same_length;
    root = B.keyed.root;
    carries = λ x h.
        let c = B.keyed.carries x h in
        record {
          known = c.known;
          spells = c.spells;
          rune_len = c.rune_len;
          inserted = inr c.inserted;
        };
    complete = λ w h n. elim h [ inl e ↦ absurd (n e) | inr k ↦ B.keyed.complete w k n ];
  };
}
insert_keyword-IsBuilt t keys (ch ∷ kw) B =
    insert_nonempty-IsBuilt t keys (ch ∷ kw) _ _ B.labels (omega arith) B.keyed (
      subst
        (λ l.
          Arrives t B.labels l (ch ∷ kw) (insert_runes t 0 (ch ∷ kw)).0
            (insert_runes t 0 (ch ∷ kw)).1)
        B.trie.root (insert_runes-Arrives t B.labels 0 (ch ∷ kw) B.trie B.trie.has_root))

pub insert_keywords-IsBuilt :
    (t : MapTrie) (keys keywords : List Word)
    → IsBuilt t keys
    → IsBuilt (insert_keywords t keywords) (rev_onto keywords keys)
unfolding insert_keywords
insert_keywords-IsBuilt t keys [] B = B
insert_keywords-IsBuilt t keys (kw ∷ kws) B =
    insert_keywords-IsBuilt (insert_keyword t kw) (kw ∷ keys) kws
      (insert_keyword-IsBuilt t keys kw B)

pub node_at-root_only : (s : ℕ) → node_at root_only.nodes s ≡ blank
node_at-root_only zero = refl
node_at-root_only (suc s) = refl

pub next-root_only : (s c : ℕ) → next (node_at root_only.nodes s) c ≡ none
unfolding next
next-root_only s c = ap (λ (n : MapNode). next n c) (node_at-root_only s)

edges-root_only : (s : ℕ) → edges (node_at root_only.nodes s) ≡ []
unfolding edges
edges-root_only s = ap edges (node_at-root_only s)

own-root_only : (x : ℕ) → own_at root_only.out x ≡ 0
own-root_only zero = refl
own-root_only (suc x) = refl

root_only-IsTrie : IsTrie root_only.nodes ([] ∷ [])
root_only-IsTrie = record {
  same_length = refl;
  has_root = omega arith;
  root = refl;
  goto = λ s c t h. ground (arith, next-root_only s c);
  parent = no_parent;
  injective = λ s t hs ht e. omega arith;
  edge→next = λ s c t h. elim (rw edges-root_only at h) [ ];
  next→edge = λ s c t h. ground (arith, next-root_only s c);
  distinct = λ s. rw edges-root_only tt;
  depth = λ s h. rw node_at-root_only (let e : s ≡ 0 = omega arith in rw e refl);
}
  where
    no_parent :
        (t c : ℕ) (w : Word)
        → t < 1
        → label_at ([] ∷ []) t ≡ c ∷ w
        → (s : ℕ) × (s < 1)
          × (label_at ([] ∷ []) s ≡ w)
          × (next (node_at root_only.nodes s) c ≡ some t)
    no_parent zero c w h e = cc
    no_parent (suc t) c w h e = absurd (omega arith)

pub root_only-IsBuilt : IsBuilt root_only []
root_only-IsBuilt = record {
  labels = [] ∷ [];
  trie = root_only-IsTrie;
  keyed = record {
    own_length = refl;
    link_length = refl;
    sentinel = omega arith;
    same_length = refl;
    root = refl;
    carries = λ x h. absurd (h (own-root_only x));
    complete = λ kw h n. elim h [ ];
  };
}
