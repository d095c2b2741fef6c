-- ===== src/Matches/Presence.antt =====
-- FindSetContext and ContainsContext of pkg/acor/matches.go, which load the engine and query it once.
use acor.Prelude.{
  none, ℕ, ◌≡◌, ◌≢◌, refl, ap, ◌↔◌, List, [], ◌∷◌, Word, Has, Bool, true, false, if◌then◌else◌,
}
use acor.Plan.{is_empty}
use acor.Engine.Handle.{
  MatchEngine, Engine, build, engine_find_set, contains, contains_iff, engine_find_iff, IsFound,
}
use acor.V2.{Result, ok, err, canceled}
use acor.Parallel.Find.{normalize_text}

-- A query of the loaded engine, unless the context has ended by then.
abbrev pub queried : {A : Type 0} → Bool → Result Engine → (Engine → A) → Result A
queried is_canceled (err e) query = err e
queried is_canceled (ok e) query = if is_canceled then err canceled else ok (query e)

module _ (lower : ℕ → ℕ) (case_sensitive is_canceled : Bool) (load : Result Engine) where
  unfoldable pub find_set_context : Word → Result (List Word)
  find_set_context text =
      let norm = normalize_text lower case_sensitive text in
      if is_empty text then ok [] else queried is_canceled load (λ e. engine_find_set e norm)

  unfoldable pub contains_context : Word → Result Bool
  unfolding contains
  contains_context text =
      let norm = normalize_text lower case_sensitive text in
      if is_empty text then ok false else queried is_canceled load (λ e. contains e norm)

ok_injective : {A : Type 0} {a b : A} → ok a ≡ ok b → a ≡ b
ok_injective e = cc

-- On an engine built from any keywords, without a `contains` of its own, and a text that is not empty,
-- with no cancellation, FindSet returns exactly the keywords that are not empty and occur in the
-- normalized text, and Contains is true exactly if FindSet returns any.
pub find_set_context-contains_context :
    (impl : MatchEngine) (keywords : List Word) (lower : ℕ → ℕ) (case_sensitive : Bool)
    (text : Word)
    → impl.container ≡ none
    → text ≢ []
    → (result : List Word) × (find_set_context lower case_sensitive false
          (ok (build impl keywords))
          text
        ≡ ok result)
      × ((kw : Word)
          → Has kw result ↔ IsFound keywords (normalize_text lower case_sensitive text) kw)
      × ((contains_context lower case_sensitive false (ok (build impl keywords)) text ≡ ok true)
          ↔ ((kw : Word) × Has kw result))
unfolding find_set_context contains_context build
find_set_context-contains_context impl keywords lower case_sensitive [] generic n = absurd (n refl)
find_set_context-contains_context impl keywords lower case_sensitive (c ∷ text) generic n =
    let norm = normalize_text lower case_sensitive (c ∷ text) in
    let same = λ (kw : Word). impl.find_set-find keywords norm kw in
    let found = λ (kw : Word). engine_find_iff impl keywords norm kw in
    let any = contains_iff impl keywords norm generic in
    (
      engine_find_set (build impl keywords) norm,
      refl,
      λ kw. (λ h. (found kw).0 ((same kw).0 h), λ h. (same kw).1 ((found kw).1 h)),
      (
        λ h. let (kw, f) = any.0 (ok_injective h) in (kw, (same kw).1 ((found kw).1 f)),
        λ (kw, h). ap ok (any.1 (kw, (found kw).0 ((same kw).0 h))),
      ),
    )
