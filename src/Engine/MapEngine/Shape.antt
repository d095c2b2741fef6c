-- ===== src/Engine/MapEngine/Shape.antt =====
-- Setting links changes neither the trie nor the keywords that its states carry.
use acor.Prelude.{
  get_or, backwards, Has, [], ℕ, ◌≡◌, refl, sym, ap, subst, ◌∙◌, Option, none, some, Word, List,
  arith, length,
}
use acor.Engine.Outputs.{own_at, keyword_at}
use acor.Engine.MapNode.{next, edges}
use acor.Engine.MapEngine.{MapTrie, node_at}
use acor.Engine.MapEngine.Trie.{IsTrie}
use acor.Engine.MapEngine.Keyed.{IsKeyed}
use acor.Engine.MapEngine.Longest.{IsLongest}
use acor.Engine.MapEngine.Links.{IsLinkTo, IsInner}

pub record SameShape (t t' : MapTrie) : Type 0 where
  pub size : length t'.nodes ≡ length t.nodes
  pub gotos : (x c : ℕ) → next (node_at t'.nodes x) c ≡ next (node_at t.nodes x) c
  pub all_edges : (x : ℕ) → edges (node_at t'.nodes x) ≡ edges (node_at t.nodes x)
  pub depths : (x : ℕ) → (node_at t'.nodes x).depth ≡ (node_at t.nodes x).depth
  pub own : t'.out.own ≡ t.out.own
  pub keywords : t'.out.keywords ≡ t.out.keywords
  pub rune_lens : t'.out.rune_lens ≡ t.out.rune_lens
  pub links : length t'.out.out_link ≡ length t.out.out_link

pub SameShape-refl : (t : MapTrie) → SameShape t t
SameShape-refl t = record {
  size = refl;
  gotos = λ x c. refl;
  all_edges = λ x. refl;
  depths = λ x. refl;
  own = refl;
  keywords = refl;
  rune_lens = refl;
  links = refl;
}

pub SameShape-trans : (a b c : MapTrie) → SameShape a b → SameShape b c → SameShape a c
SameShape-trans a b c p q = record {
  size = q.size ∙ p.size;
  gotos = λ x ch. q.gotos x ch ∙ p.gotos x ch;
  all_edges = λ x. q.all_edges x ∙ p.all_edges x;
  depths = λ x. q.depths x ∙ p.depths x;
  own = q.own ∙ p.own;
  keywords = q.keywords ∙ p.keywords;
  rune_lens = q.rune_lens ∙ p.rune_lens;
  links = q.links ∙ p.links;
}

module _ (t t' : MapTrie) (labels : List Word) (S : SameShape t t') where
  pub IsTrie-shape : IsTrie t.nodes labels → IsTrie t'.nodes labels
  IsTrie-shape I = record {
    same_length = I.same_length ∙ sym S.size;
    has_root = rw S.size I.has_root;
    root = I.root;
    goto = λ s c u h.
        let (before, u_lt, at) = I.goto s c u (sym (S.gotos s c) ∙ h) in
        (before, rw S.size u_lt, at);
    parent = λ u c w h e.
        let (s, s_lt, at, to) = I.parent u c w (rw S.size at h) e in
        (s, rw S.size s_lt, at, S.gotos s c ∙ to);
    injective = λ x y hx hy. I.injective x y (rw S.size at hx) (rw S.size at hy);
    edge→next = λ s c u h. S.gotos s c ∙ I.edge→next s c u (rw (S.all_edges s) at h);
    next→edge = λ s c u h. rw (S.all_edges s) (I.next→edge s c u (sym (S.gotos s c) ∙ h));
    distinct = λ s. rw (S.all_edges s) (I.distinct s);
    depth = λ s h. S.depths s ∙ I.depth s (rw S.size at h);
  }

  own_shape : (x : ℕ) → own_at t'.out x ≡ own_at t.out x
  own_shape x = ap (λ (l : List ℕ). get_or l x 0) S.own

  pub IsLongest-shape :
      (bound : ℕ) (rt : Word) (s : ℕ)
      → IsLongest t.nodes labels bound rt s
      → IsLongest t'.nodes labels bound rt s
  IsLongest-shape bound rt s F = record {
    inside = rw S.size F.inside;
    prefix = F.prefix;
    below = F.below;
    longest = λ u h. F.longest u (rw S.size at h);
  }

  IsInner-back :
      (l : Word) (u : ℕ) → IsInner t'.nodes labels t'.out l u → IsInner t.nodes labels t.out l u
  IsInner-back l u (o, u_lt, p, b) = (rw (own_shape u) at o, rw S.size at u_lt, p, b)

  pub IsLinkTo-shape :
      (l : Word) (v : Option ℕ)
      → IsLinkTo t.nodes labels t.out l v
      → IsLinkTo t'.nodes labels t'.out l v
  IsLinkTo-shape l none K = λ u h. K u (IsInner-back l u h)
  IsLinkTo-shape l (some v) ((o, v_lt, p, b), K) =
      ((rw (own_shape v) o, rw S.size v_lt, p, b), λ u h. K u (IsInner-back l u h))

  pub IsKeyed-shape : (keys : List Word) → IsKeyed t labels keys → IsKeyed t' labels keys
  IsKeyed-shape keys K = record {
    own_length = ap (length {A = ℕ}) S.own ∙ K.own_length ∙ sym S.size;
    link_length = S.links ∙ K.link_length ∙ sym S.size;
    sentinel = rw (ap (length {A = Word}) S.keywords) K.sentinel;
    same_length =
        ap (length {A = ℕ}) S.rune_lens ∙ K.same_length ∙ sym (ap (length {A = Word}) S.keywords);
    root = own_shape 0 ∙ K.root;
    carries = λ x h.
        let c = K.carries x (rw (own_shape x) at h) in
        let word : keyword_at t'.out (own_at t.out x) ≡ keyword_at t.out (own_at t.out x) =
          ap (λ (l : List Word). get_or l (own_at t.out x) []) S.keywords in
        rw (own_shape x) (record {
          known = omega (arith, c.known, ap (length {A = Word}) S.keywords);
          spells = ap backwards word ∙ c.spells;
          rune_len =
              ap (λ (l : List ℕ). get_or l (own_at t.out x) 0) S.rune_lens
              ∙ c.rune_len
              ∙ ap length (sym word);
          inserted = subst (λ w. Has w keys) (sym word) c.inserted;
        });
    complete = λ w h n.
        let (x, x_lt, o, spelled) = K.complete w h n in
        (x, rw S.size x_lt, rw (own_shape x) o, spelled);
  }
