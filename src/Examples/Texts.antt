-- ===== src/Examples/Texts.antt =====
-- The theorems about the alphabet coder, streaming, the limits of a scan and the rewriting of a text, at small inputs.
use acor.Prelude.{
  ◌≡◌, refl, ◌↔◌, Option, true, inl, inr, some, List, [], ◌∷◌, Word, AllDistinct, false, leb,
  length, Bool, ◌==◌, get_elem?, if◌then◌else◌, arith,
}
use acor.Engine.Coder.{build_coder, code, code_byte}
use acor.Engine.Coder.Positions.{code_iff}
use acor.Engine.Coder.Bytes.{code_byte-code}
use acor.Rewrite.{
  SourceMatch, Filling, masking, rendered, failed, output_limit, render_rewrite, write_out,
}
use acor.Rewrite.Replaced.{IsReplaced, render_rewrite-IsReplaced}
use acor.Scan.{ℤ, pos, negsuc, ScanOptions, no_options, refused, negative_limit, scan_options}
use acor.Scan.Limits.{IsAsked, IsChecked, scan_options-IsChecked}
use acor.Engine.Outputs.{Emission}
use acor.Engine.MemEfficient.{build_from_sequence, engine_match_string}
use acor.Engine.Stream.{match_stream}
use acor.Engine.Stream.Stopped.{until, match_stream-match_string}
use acor.Examples.Data.{ushers, dictionary, ten_bits}

abbrev alphabet : Word
alphabet = b'e' ∷ b'h' ∷ []

alphabet-AllDistinct : AllDistinct alphabet
alphabet-AllDistinct =
    (λ h. elim h [ inl e ↦ absurd (omega (arith, e)) | inr z ↦ elim z [ ] ], (λ z. elim z [ ], tt))

code_iff_example : (code (build_coder alphabet) b'h' ≡ some 1) ↔ (get_elem? alphabet 1 ≡ some b'h')
code_iff_example = code_iff alphabet alphabet-AllDistinct b'h' 1

code_byte-code_example :
    code_byte (build_coder alphabet) 200 ≡ some (code (build_coder alphabet) 200)
unfolding build_coder
code_byte-code_example = code_byte-code alphabet 200 refl

abbrev she_at_one : List SourceMatch
she_at_one = record { start = 1; end = 4; byte_start = 1; byte_end = 4 } ∷ []

abbrev stars : Filling
stars = masking (b'*' ∷ [])

render_rewrite-IsReplaced_example :
    (out : Word) × IsReplaced stars 0 ushers she_at_one out
    × (render_rewrite ushers stars 10 (λ _. false) she_at_one
        ≡ (if leb (length out) 10 then rendered out else failed output_limit))
render_rewrite-IsReplaced_example =
    render_rewrite-IsReplaced ushers stars 10 (λ _. false) (omega arith) (λ _. refl) she_at_one
      (omega arith, omega arith, omega arith)

masked : write_out ushers stars 0 she_at_one ≡ b'u' ∷ b'*' ∷ b'*' ∷ b'*' ∷ b'r' ∷ b's' ∷ []
unfolding write_out
masked = refl

abbrev stops_at_end : Emission → Bool
stops_at_end m = m.end == 4

match_stream-match_string_example :
    (match_stream (build_from_sequence ten_bits dictionary) stops_at_end ushers).0
    ≡ until stops_at_end (engine_match_string (build_from_sequence ten_bits dictionary) ushers)
match_stream-match_string_example =
    match_stream-match_string (build_from_sequence ten_bits dictionary) stops_at_end ushers

-- A caller that sets one limit, and one that sets a negative one.
abbrev limited : ℤ → Option ScanOptions
limited z = some (record no_options { max_matches = z })

scan_options-IsChecked_example :
    (asked : ScanOptions) × IsAsked (limited (pos 5)) asked
    × IsChecked (λ _. true) false 6 asked (scan_options (λ _. true) false 6 (limited (pos 5)))
scan_options-IsChecked_example = scan_options-IsChecked (λ _. true) false 6 (limited (pos 5))

refused_negative : scan_options (λ _. true) false 6 (limited (negsuc 0)) ≡ refused negative_limit
unfolding scan_options
refused_negative = refl
