-- ===== src/Engine/MapEngine/Insert.antt =====
-- Inserting a keyword's runes: the trie is kept, and the walk ends at the keyword's own state.
use acor.Prelude.{
  ℕ, ◌+◌, ◌≤◌, ◌<◌, ◌≡◌, refl, sym, ap, ◌∙◌, inl, inr, none, [], ◌∷◌, ◌++◌, Word, List, arith,
  Option-cases, length, length-append, get_or, get_or-push, get_or-beyond, rev_onto, Bool-cases,
  ◌==◌,
}
use acor.Engine.Outputs.{own_at, link_at}
use acor.Engine.MapNode.{next}
use acor.Engine.MapEngine.{MapTrie, node_at, grow, insert_runes}
use acor.Engine.MapEngine.Trie.{IsTrie, label_at, length-grow}
use acor.Engine.MapEngine.Grow.{grown_labels, grow-IsTrie, label_old, label_new}

-- The second trie has the states of the first, and reports what the first reports.
pub record Extends (t : MapTrie) (labels : List Word) (t' : MapTrie) (labels' : List Word)
    : Type 0 where
  pub more : length t.nodes ≤ length t'.nodes
  pub kept : (x : ℕ) → x < length t.nodes → label_at labels' x ≡ label_at labels x
  pub own : (x : ℕ) → own_at t'.out x ≡ own_at t.out x
  pub link : (x : ℕ) → link_at t'.out x ≡ link_at t.out x
  pub keywords : t'.out.keywords ≡ t.out.keywords
  pub rune_lens : t'.out.rune_lens ≡ t.out.rune_lens
  pub own_length : length t'.out.own + length t.nodes ≡ length t.out.own + length t'.nodes
  pub link_length :
      length t'.out.out_link + length t.nodes ≡ length t.out.out_link + length t'.nodes

Extends-refl : (t : MapTrie) (labels : List Word) → Extends t labels t labels
Extends-refl t labels = record {
  more = omega arith;
  kept = λ x h. refl;
  own = λ x. refl;
  link = λ x. refl;
  keywords = refl;
  rune_lens = refl;
  own_length = refl;
  link_length = refl;
}

Extends-trans :
    (a b c : MapTrie) (la lb lc : List Word)
    → Extends a la b lb
    → Extends b lb c lc
    → Extends a la c lc
Extends-trans a b c la lb lc p q = record {
  more = omega (arith, p.more, q.more);
  kept = λ x h. q.kept x (omega (arith, p.more)) ∙ p.kept x h;
  own = λ x. q.own x ∙ p.own x;
  link = λ x. q.link x ∙ p.link x;
  keywords = q.keywords ∙ p.keywords;
  rune_lens = q.rune_lens ∙ p.rune_lens;
  own_length = omega (arith, p.own_length, q.own_length);
  link_length = omega (arith, p.link_length, q.link_length);
}

-- A default pushed at the end is what was read there before.
get_or-push_default {ℓ} :
    {A : Type ℓ} (xs : List A) (d : A) (x : ℕ) → get_or (xs ++ d ∷ []) x d ≡ get_or xs x d
get_or-push_default xs d x = elim (Bool-cases (x == length xs)) [
  | inl e ↦ get_or-push xs d x d ∙ rw e (sym (get_or-beyond xs x d (ground arith)))
  | inr e ↦ get_or-push xs d x d ∙ rw e refl
]

grow-Extends :
    (t : MapTrie) (labels : List Word) (I : IsTrie t.nodes labels) (s ch : ℕ)
    (s_lt : s < length t.nodes) (absent : next (node_at t.nodes s) ch ≡ none)
    → Extends t labels (grow t s ch) (grown_labels t labels I s ch s_lt absent)
unfolding grow
grow-Extends t labels I s ch s_lt absent = record {
  more = omega (arith, length-grow t s ch s_lt);
  kept = label_old t labels I s ch s_lt absent;
  own = get_or-push_default t.out.own 0;
  link = get_or-push_default t.out.out_link none;
  keywords = refl;
  rune_lens = refl;
  own_length = omega (arith, length-grow t s ch s_lt, length-append {0} t.out.own (0 ∷ []));
  link_length =
      omega (arith, length-grow t s ch s_lt, length-append {0} t.out.out_link (none ∷ []));
}

-- Where the walk along `kw` from a state labelled `l` ends, in the trie that it leaves.
pub record Arrives (t : MapTrie) (labels : List Word) (l kw : Word) (t' : MapTrie) (s' : ℕ)
    : Type 0 where
  pub labels' : List Word
  pub trie : IsTrie t'.nodes labels'
  pub inside : s' < length t'.nodes
  pub at : label_at labels' s' ≡ rev_onto kw l
  pub extends : Extends t labels t' labels'

pub insert_runes-Arrives :
    (t : MapTrie) (labels : List Word) (s : ℕ) (kw : Word)
    → IsTrie t.nodes labels
    → s < length t.nodes
    → Arrives t labels (label_at labels s) kw (insert_runes t s kw).0 (insert_runes t s kw).1
unfolding insert_runes
insert_runes-Arrives t labels s [] I h = record {
  labels' = labels;
  trie = I;
  inside = h;
  at = refl;
  extends = Extends-refl t labels;
}
insert_runes-Arrives t labels s (ch ∷ kw) I h = elim (Option-cases (next (node_at t.nodes s) ch)) [
  | inl absent ↦
      let labels₁ : List Word = grown_labels t labels I s ch h absent in
      let at : label_at labels₁ (length t.nodes) ≡ ch ∷ label_at labels s =
        label_new t labels I s ch h absent in
      let rest =
        insert_runes-Arrives (grow t s ch) labels₁ (length t.nodes) kw
          (grow-IsTrie t labels I s ch h absent) (omega (arith, length-grow t s ch h)) in
      rw (absent, insert_runes)
        (record {
          labels' = rest.labels';
          trie = rest.trie;
          inside = rest.inside;
          at = rest.at ∙ ap (rev_onto kw) at;
          extends =
              Extends-trans t (grow t s ch) _ labels labels₁ rest.labels'
                (grow-Extends t labels I s ch h absent) rest.extends;
        })
  | inr (child, e) ↦
      let (_, child_lt, at) = I.goto s ch child e in
      let rest = insert_runes-Arrives t labels child kw I child_lt in
      rw (e, insert_runes)
        (record {
          labels' = rest.labels';
          trie = rest.trie;
          inside = rest.inside;
          at = rest.at ∙ ap (rev_onto kw) at;
          extends = rest.extends;
        })
]
