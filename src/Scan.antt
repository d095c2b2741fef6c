-- ===== src/Scan.antt =====
-- scanOptions of pkg/acor/scan.go: the limits of a Scan, which are checked before the text is read.
pub mod Limits
use acor.Prelude.{
  ℕ, zero, suc, ◌^◌, Option, none, some, Bool, true, false, ◌||◌, ltb, if◌then◌else◌,
}

-- Go's int.
pub data ℤ : Type 0 where
  pos : ℕ → ℤ
  negsuc : ℕ → ℤ

-- The kind is an int of the caller: 0 is MatchKindOverlapping, 1 is MatchKindLeftmostLongest.
pub record ScanOptions : Type 0 where
  pub max_input_bytes : ℤ
  pub max_matches : ℤ
  pub max_candidates : ℤ
  pub kind : ℤ
  pub whole_word : Bool
  pub word_rune : Option (ℕ → Bool)

pub data ScanError : Type 0 where
  canceled negative_limit invalid_kind input_limit : ScanError

pub data Checked : Type 0 where
  accepted : ScanOptions → Checked
  refused : ScanError → Checked

-- The zero ScanOptions, which stand for a nil pointer.
abbrev pub no_options : ScanOptions
no_options = record {
  max_input_bytes = pos 0;
  max_matches = pos 0;
  max_candidates = pos 0;
  kind = pos 0;
  whole_word = false;
  word_rune = none;
}

abbrev pub given : Option ScanOptions → ScanOptions
given none = no_options
given (some o) = o

abbrev pub is_negative : ℤ → Bool
is_negative (pos n) = false
is_negative (negsuc n) = true

abbrev pub is_unknown : ℤ → Bool
is_unknown (pos zero) = false
is_unknown (pos (suc zero)) = false
is_unknown (pos (suc (suc n))) = true
is_unknown (negsuc n) = true

abbrev pub or_default : ℤ → ℕ → ℤ
or_default (pos zero) default = pos default
or_default (pos (suc n)) default = pos (suc n)
or_default (negsuc n) default = negsuc n

abbrev pub exceeds : ℕ → ℤ → Bool
exceeds size (pos n) = ltb n size
exceeds size (negsuc n) = true

abbrev pub default_scan_input_bytes : ℕ
default_scan_input_bytes = 2 ^ 20

abbrev pub default_scan_matches : ℕ
default_scan_matches = 1000

abbrev pub default_scan_candidates : ℕ
default_scan_candidates = 100000

abbrev pub chosen : (ℕ → Bool) → Option (ℕ → Bool) → ℕ → Bool
chosen is_word_rune none = is_word_rune
chosen is_word_rune (some p) = p

abbrev pub with_defaults : (ℕ → Bool) → ScanOptions → ScanOptions
with_defaults is_word_rune o = record {
  max_input_bytes = or_default o.max_input_bytes default_scan_input_bytes;
  max_matches = or_default o.max_matches default_scan_matches;
  max_candidates = or_default o.max_candidates default_scan_candidates;
  kind = o.kind;
  whole_word = o.whole_word;
  word_rune = some (chosen is_word_rune o.word_rune);
}

-- `size` is the length of the text in bytes. Beside an error, the caller reads no options.
unfoldable pub scan_options : (ℕ → Bool) → Bool → ℕ → Option ScanOptions → Checked
scan_options is_word_rune is_canceled size opts =
    let o = given opts in
    let o' = with_defaults is_word_rune o in
    if is_canceled
    then refused canceled
    else if is_negative o.max_input_bytes
        || is_negative o.max_matches
        || is_negative o.max_candidates
    then refused negative_limit
    else if is_unknown o.kind
    then refused invalid_kind
    else if exceeds size o'.max_input_bytes
    then refused input_limit
    else accepted o'
