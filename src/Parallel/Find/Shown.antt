-- ===== src/Parallel/Find/Shown.antt =====
-- What the chunks of splitAutoChunks report in the parts that they own is what the text holds.
use acor.Prelude.{
  ℕ, zero, suc, ◌+◌, ◌-◌, ◌<◌, ◌≤◌, ◌≡◌, ◌≢◌, refl, sym, ap, ap₂, List, [], ◌∷◌, map, Word, Has,
  Bool, true, false, subst, length, length-drop, length-map, drop, IsPrefix, length-prefix, arith,
}
use acor.Engine.Outputs.{Emission}
use acor.Engine.Handle.{MatchEngine, length-longest_of, longest_of}
use acor.V2.{Result, ok}
use acor.Parallel.{ParallelOptions, Chunk, split_auto_chunks}
use acor.Parallel.Auto.{OccursAt, split_auto_chunks_lem, split_auto_chunks-Agrees}
use acor.Parallel.Find.{normalize_text, collected, scan_chunks}

module _ (lower : ℕ → ℕ) where
  drop-map : (p : ℕ) (l : Word) → drop p (map lower l) ≡ map lower (drop p l)
  drop-map zero l = refl
  drop-map (suc p) [] = refl
  drop-map (suc p) (c ∷ l) = drop-map p l

  prefix-map :
      (kw l : Word)
      → IsPrefix kw (map lower l)
      → (raw : Word) × (length raw ≡ length kw) × IsPrefix raw l × (map lower raw ≡ kw)
  prefix-map [] l h = ([], refl, tt, refl)
  prefix-map (k ∷ kw) [] h = elim h [ ]
  prefix-map (k ∷ kw) (c ∷ l) (e, h) =
      let (raw, n, i, j) = prefix-map kw l h in (c ∷ raw, ap suc n, (refl, i), ap₂ ◌∷◌ (sym e) j)

  prefix-mapped : (raw l : Word) → IsPrefix raw l → IsPrefix (map lower raw) (map lower l)
  prefix-mapped [] l h = tt
  prefix-mapped (r ∷ raw) [] h = elim h [ ]
  prefix-mapped (r ∷ raw) (c ∷ l) (e, h) = (ap lower e, prefix-mapped raw l h)

  -- What a normal form shows at a place is the normal form of what stands there.
  shown_normal :
      (case_sensitive : Bool) (kw text : Word) (p : ℕ)
      → OccursAt kw (normalize_text lower case_sensitive text) p
      → (raw : Word) × (length raw ≡ length kw)
        × OccursAt raw text p
        × (normalize_text lower case_sensitive raw ≡ kw)
  shown_normal true kw text p h = (kw, refl, h, refl)
  shown_normal false kw text p h =
      prefix-map kw (drop p text) (subst (IsPrefix kw) (drop-map p text) h)

  normal_shown :
      (case_sensitive : Bool) (raw text : Word) (p : ℕ)
      → OccursAt raw text p
      → OccursAt
          (normalize_text lower case_sensitive raw)
          (normalize_text lower case_sensitive text)
          p
  normal_shown true raw text p h = h
  normal_shown false raw text p h =
      subst (IsPrefix (map lower raw)) (sym (drop-map p text)) (prefix-mapped raw (drop p text) h)

  -- Two texts that show the same short words at two places do so in their normal forms.
  normal_agrees :
      (case_sensitive : Bool) (longest : ℕ) (text other : Word) (p q : ℕ)
      → ((kw : Word) → length kw ≤ longest → OccursAt kw text p → OccursAt kw other q)
      → (kw : Word) → length kw ≤ longest
      → OccursAt kw (normalize_text lower case_sensitive text) p
      → OccursAt kw (normalize_text lower case_sensitive other) q
  normal_agrees case_sensitive longest text other p q f kw short h =
      let (raw, n, o, e) = shown_normal case_sensitive kw text p h in
      subst (λ k. OccursAt k (normalize_text lower case_sensitive other) q) e
        (normal_shown case_sensitive raw other q (f raw (omega arith) o))

  length-normal :
      (case_sensitive : Bool) (t : Word) → length (normalize_text lower case_sensitive t) ≡ length t
  length-normal true t = refl
  length-normal false t = length-map lower t

pub scan_chunks-ok :
    {A : Type 0} (scan : Chunk → Result A) (g : Chunk → A) (cs : List Chunk)
    → ((c : Chunk) → scan c ≡ ok (g c))
    → scan_chunks scan cs ≡ ok (map g cs)
unfolding scan_chunks
scan_chunks-ok scan g [] e = refl
scan_chunks-ok scan g (c ∷ cs) e = ap₂ collected (e c) (scan_chunks-ok scan g cs e)

module _ (impl : MatchEngine) (keywords : List Word) (lower : ℕ → ℕ) (case_sensitive : Bool)
    (is_space : ℕ → Bool) (text : Word) (opts : ParallelOptions)
    (positive : 0 < opts.chunk_size) where
  abbrev pub normal : Word → Word
  normal t = normalize_text lower case_sensitive t

  abbrev pub longest : ℕ
  longest = longest_of keywords

  abbrev pub chunks : List Chunk
  chunks = split_auto_chunks is_space text opts longest

  abbrev pub reports_of : Chunk → List Emission
  reports_of c = impl.match_string keywords (normal c.text)

  -- A report that begins in the part its chunk owns is an occurrence in the text.
  pub report_shown :
      (c : Chunk) (m : Emission)
      → Has c chunks
      → Has m (reports_of c)
      → m.start < c.owned_runes
      → Has m.keyword keywords
        × (m.keyword ≢ [])
        × OccursAt m.keyword (normal text) (c.text_offset + m.start)
  report_shown c m h i l =
      let (known, n, _, o) = (impl.exact keywords (normal c.text) m).0 i in
      (
        known,
        n,
        normal_agrees lower case_sensitive longest c.text text m.start (c.text_offset + m.start)
            (λ kw short.
              (split_auto_chunks-Agrees is_space text opts positive longest c h kw m.start short
                l).1)
            m.keyword (length-longest_of keywords m.keyword known) o,
      )

  pub place-inside :
      (x : Word) (p : ℕ) → x ≢ [] → IsPrefix x (drop p (normal text)) → p < length text
  place-inside [] p n h = absurd (n refl)
  place-inside (c ∷ x) p n h = omega (
    arith,
    length-prefix (c ∷ x) (drop p (normal text)) h,
    length-drop p (normal text),
    length-normal lower case_sensitive text,
  )

  -- An occurrence in the text is reported by the chunk that owns its place.
  pub occurrence_reported :
      (x : Word) (p : ℕ)
      → Has x keywords
      → x ≢ []
      → OccursAt x (normal text) p
      → (c : Chunk) × Has c chunks
        × ((m : Emission) × Has m (reports_of c)
            × (m.start < c.owned_runes)
            × (x ≡ m.keyword)
            × (p ≡ c.text_offset + m.start))
  occurrence_reported x p known n o =
      let inside : p < length text = place-inside x p n o in
      let (c, h, (low, high), _, _) =
        split_auto_chunks_lem is_space text opts positive longest p inside in
      let at : c.text_offset + (p - c.text_offset) ≡ p = omega arith in
      let here : OccursAt x (normal c.text) (p - c.text_offset) =
        normal_agrees lower case_sensitive longest text c.text p (p - c.text_offset)
          (λ kw short k.
            (split_auto_chunks-Agrees is_space text opts positive longest c h kw (p - c.text_offset)
                short (omega arith)).0
              (subst (OccursAt kw text) (sym at) k))
          x (length-longest_of keywords x known) o in
      let m : Emission = record {
        keyword = x;
        start = p - c.text_offset;
        end = p - c.text_offset + length x;
      } in
      (
        c,
        h,
        (
          m,
          (impl.exact keywords (normal c.text) m).1 (known, n, refl, here),
          omega arith,
          refl,
          sym at,
        ),
      )
