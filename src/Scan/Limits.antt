-- ===== src/Scan/Limits.antt =====
-- What scanOptions accepts.
use acor.Prelude.{
  ◌^◌, ℕ, zero, suc, ◌≤◌, ◌≡◌, ◌↔◌, ◌⊎◌, inl, inr, refl, ap, Option, Bool, true, false, ◌||◌, ltb,
  if◌then◌else◌, arith, none, some,
}
use acor.Scan.{
  default_scan_matches, default_scan_candidates, chosen, ℤ, pos, negsuc, ScanOptions, Checked,
  accepted, refused, canceled, negative_limit, invalid_kind, input_limit, given, is_negative,
  is_unknown, or_default, exceeds, default_scan_input_bytes, with_defaults, scan_options,
}

abbrev pub IsLimit : ℤ → Type 0
IsLimit z = (n : ℕ) × (z ≡ pos n)

abbrev pub IsPositive : ℤ → Type 0
IsPositive z = (n : ℕ) × (z ≡ pos (suc n))

-- The size is within the limit, where zero stands for the default.
abbrev pub IsWithin : ℕ → ℕ → ℤ → Type 0
IsWithin default size z =
    ((z ≡ pos 0) × (size ≤ default)) ⊎ ((n : ℕ) × (z ≡ pos (suc n)) × (size ≤ suc n))

is_set : true ≡ false → ⊥
is_set h = cc

is_negative_iff : (z : ℤ) → (is_negative z ≡ false) ↔ IsLimit z
is_negative_iff (pos n) = (λ _. (n, refl), λ _. refl)
is_negative_iff (negsuc n) = (λ h. absurd (is_set h), λ (m, e). ap is_negative e)

none_set_iff : (a b c : Bool) → (a || b || c ≡ false) ↔ ((a ≡ false) × (b ≡ false) × (c ≡ false))
none_set_iff true b c = (λ h. absurd (is_set h), λ (h, _, _). h)
none_set_iff false true c = (λ h. absurd (is_set h), λ (_, h, _). h)
none_set_iff false false c = (λ h. (refl, refl, h), λ (_, _, h). h)

is_unknown_iff : (z : ℤ) → (is_unknown z ≡ false) ↔ ((z ≡ pos 0) ⊎ (z ≡ pos 1))
is_unknown_iff (pos zero) = (λ _. inl refl, λ _. refl)
is_unknown_iff (pos (suc zero)) = (λ _. inr refl, λ _. refl)
is_unknown_iff (pos (suc (suc n))) =
    (λ h. absurd (is_set h), λ h. elim h [ inl e ↦ ap is_unknown e | inr e ↦ ap is_unknown e ])
is_unknown_iff (negsuc n) =
    (λ h. absurd (is_set h), λ h. elim h [ inl e ↦ ap is_unknown e | inr e ↦ ap is_unknown e ])

within_iff : (n size : ℕ) → (ltb n size ≡ false) ↔ (size ≤ n)
within_iff n size = (λ h. ground arith, λ h. ground arith)

pos_injective : {a b : ℕ} → pos a ≡ pos b → a ≡ b
pos_injective e = cc

exceeds_iff :
    (default size : ℕ) (z : ℤ)
    → IsLimit z
    → (exceeds size (or_default z default) ≡ false) ↔ IsWithin default size z
exceeds_iff default size (pos zero) l =
    let within = within_iff default size in
    (
      λ h. inl (refl, within.0 h),
      λ h. elim h [
        | inl (_, k) ↦ within.1 k
        | inr (n, e, _) ↦ absurd (omega (arith, pos_injective e))
      ],
    )
exceeds_iff default size (pos (suc n)) l =
    let within = within_iff (suc n) size in
    (
      λ h. inr (n, refl, within.0 h),
      λ h. elim h [
        | inl (e, _) ↦ absurd (omega (arith, pos_injective e))
        | inr (m, e, k) ↦ within.1 (omega (arith, k, pos_injective e))
      ],
    )
exceeds_iff default size (negsuc n) (m, e) = absurd (is_set (ap is_negative e))

-- What the chain of tests answers: each error stands for the first test that holds.
abbrev outcome : Bool → Bool → Bool → Bool → ScanOptions → Checked
outcome a b c d o =
    if a
    then refused canceled
    else if b
    then refused negative_limit
    else if c
    then refused invalid_kind
    else if d
    then refused input_limit
    else accepted o

abbrev AreLimits : ScanOptions → Type 0
AreLimits o = IsLimit o.max_input_bytes × IsLimit o.max_matches × IsLimit o.max_candidates

abbrev IsKind : ScanOptions → Type 0
IsKind o = (o.kind ≡ pos 0) ⊎ (o.kind ≡ pos 1)

abbrev Fits : ℕ → ScanOptions → Type 0
Fits size o = IsWithin default_scan_input_bytes size o.max_input_bytes

-- A limit that is in force: the default for zero, and else the one asked for.
abbrev pub IsInForce : ℕ → ℤ → ℤ → Type 0
IsInForce default asked limit =
    ((asked ≡ pos 0) × (limit ≡ pos default)) ⊎ (IsPositive asked × (limit ≡ asked))

-- The options in force: each limit is that of its own field.
pub record IsCompleted (is_word_rune : ℕ → Bool) (asked o : ScanOptions) : Type 0 where
  pub input_bytes : IsInForce (2 ^ 20) asked.max_input_bytes o.max_input_bytes
  pub matches : IsInForce 1000 asked.max_matches o.max_matches
  pub candidates : IsInForce 100000 asked.max_candidates o.max_candidates
  pub same_kind : o.kind ≡ asked.kind
  pub same_whole_word : o.whole_word ≡ asked.whole_word
  pub default_rune : asked.word_rune ≡ none → o.word_rune ≡ some is_word_rune
  pub given_rune : (p : ℕ → Bool) → asked.word_rune ≡ some p → o.word_rune ≡ some p

-- The answer to each of the options: the first of cancellation, a negative limit, an unknown kind and a
-- text beyond the limit decides the error.
abbrev pub IsChecked : (ℕ → Bool) → Bool → ℕ → ScanOptions → Checked → Type 0
IsChecked is_word_rune is_canceled size asked (refused canceled) = is_canceled ≡ true
IsChecked is_word_rune is_canceled size asked (refused negative_limit) =
    (is_canceled ≡ false) × (¬ AreLimits asked)
IsChecked is_word_rune is_canceled size asked (refused invalid_kind) =
    (is_canceled ≡ false) × AreLimits asked × (¬ IsKind asked)
IsChecked is_word_rune is_canceled size asked (refused input_limit) =
    (is_canceled ≡ false) × AreLimits asked × IsKind asked × (¬ Fits size asked)
IsChecked is_word_rune is_canceled size asked (accepted o) =
    (is_canceled ≡ false)
    × AreLimits asked
    × IsKind asked
    × Fits size asked
    × IsCompleted is_word_rune asked o

signs_iff :
    (o : ScanOptions)
    → (is_negative o.max_input_bytes || is_negative o.max_matches || is_negative o.max_candidates
        ≡ false)
      ↔ AreLimits o
signs_iff o =
    let signs =
      none_set_iff (is_negative o.max_input_bytes) (is_negative o.max_matches)
        (is_negative o.max_candidates) in
    let bytes = is_negative_iff o.max_input_bytes in
    let matches = is_negative_iff o.max_matches in
    let candidates = is_negative_iff o.max_candidates in
    (
      λ h. let (x, y, z) = signs.0 h in (bytes.0 x, matches.0 y, candidates.0 z),
      λ (x, y, z). signs.1 (bytes.1 x, matches.1 y, candidates.1 z),
    )

or_default-IsInForce :
    (default : ℕ) (z : ℤ) → IsLimit z → IsInForce default z (or_default z default)
or_default-IsInForce default (pos zero) l = inl (refl, refl)
or_default-IsInForce default (pos (suc n)) l = inr ((n, refl), refl)
or_default-IsInForce default (negsuc n) (m, e) = absurd (is_set (ap is_negative e))

with_defaults-IsCompleted :
    (p : ℕ → Bool) (o : ScanOptions) → AreLimits o → IsCompleted p o (with_defaults p o)
with_defaults-IsCompleted p o (x, y, z) = record {
  input_bytes = or_default-IsInForce default_scan_input_bytes o.max_input_bytes x;
  matches = or_default-IsInForce default_scan_matches o.max_matches y;
  candidates = or_default-IsInForce default_scan_candidates o.max_candidates z;
  same_kind = refl;
  same_whole_word = refl;
  default_rune = λ e. ap (λ r. some (chosen p r)) e;
  given_rune = λ q e. ap (λ r. some (chosen p r)) e;
}

outcome-IsChecked :
    (p : ℕ → Bool) (a b c d : Bool) (size : ℕ) (o : ScanOptions)
    → (b ≡ false) ↔ AreLimits o
    → (c ≡ false) ↔ IsKind o
    → (AreLimits o → (d ≡ false) ↔ Fits size o)
    → IsChecked p a size o (outcome a b c d (with_defaults p o))
outcome-IsChecked p true b c d size o limits kind fits = refl
outcome-IsChecked p false true c d size o limits kind fits = (refl, λ l. is_set (limits.1 l))
outcome-IsChecked p false false true d size o limits kind fits =
    (refl, limits.0 refl, λ k. is_set (kind.1 k))
outcome-IsChecked p false false false true size o limits kind fits =
    (refl, limits.0 refl, kind.0 refl, λ f. is_set ((fits (limits.0 refl)).1 f))
outcome-IsChecked p false false false false size o limits kind fits =
    let l = limits.0 refl in
    (refl, l, kind.0 refl, (fits l).0 refl, with_defaults-IsCompleted p o l)

-- The options that a pointer to options asks for: none of them, if it is nil.
abbrev pub IsAsked : Option ScanOptions → ScanOptions → Type 0
IsAsked none o =
    (o.max_input_bytes ≡ pos 0)
    × (o.max_matches ≡ pos 0)
    × (o.max_candidates ≡ pos 0)
    × (o.kind ≡ pos 0)
    × (o.whole_word ≡ false)
    × (o.word_rune ≡ none)
IsAsked (some o) asked = asked ≡ o

given-IsAsked : (opts : Option ScanOptions) → IsAsked opts (given opts)
given-IsAsked none = (refl, refl, refl, refl, refl, refl)
given-IsAsked (some o) = refl

-- Whatever the options, a nil pointer for the zero ones, scanOptions accepts them exactly if the context
-- has not ended, no limit is negative, the kind is one of the two and the text is within the limit of the
-- input; the first of these that fails decides the error. In what it accepts, each limit is the one asked
-- for, or its own default for zero, the predicate is the caller's or isWordRune, and the rest is as asked.
pub scan_options-IsChecked :
    (is_word_rune : ℕ → Bool) (is_canceled : Bool) (size : ℕ) (opts : Option ScanOptions)
    → (asked : ScanOptions) × IsAsked opts asked
      × IsChecked is_word_rune is_canceled size asked
          (scan_options is_word_rune is_canceled size opts)
unfolding scan_options
scan_options-IsChecked p is_canceled size opts =
    let o = given opts in
    (
      o,
      given-IsAsked opts,
      outcome-IsChecked p is_canceled
          (is_negative o.max_input_bytes
            || is_negative o.max_matches
            || is_negative o.max_candidates)
          (is_unknown o.kind) (exceeds size (with_defaults p o).max_input_bytes) size o
          (signs_iff o) (is_unknown_iff o.kind)
          (λ l. exceeds_iff default_scan_input_bytes size o.max_input_bytes l.0),
    )
