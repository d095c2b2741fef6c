-- ===== src/Batch/Account.antt =====
-- What a batch reports: each keyword once.
use acor.Prelude.{
  ℕ, ◌+◌, ◌≡◌, ap, List, [], ◌∷◌, map, Word, Bool, Bool-cases, Option-cases, has_word, length,
  length-append, length-map, arith, ltb, inl, inr,
}
use acor.Plan.{is_empty}
use acor.Plan.Stored.{nil_of_is_empty}
use acor.V2.{Error, Result, ok, err}
use acor.Batch.{
  BatchResult, no_result, Screened, Direction, adding, removing, Ops, note_changed, note_skipped,
  note_failed, partition_applied, note_applied, note_outcome, note_one, each_best_effort,
  many_best_effort, screen_batch,
}
use acor.Batch.Screening.{accounted, screen_batch-IsScreened}

accounted-changed :
    (d : Direction) (result : BatchResult) (kws : List Word)
    → accounted (note_changed d result kws) ≡ accounted result + length kws
accounted-changed adding result kws = omega (arith, length-append result.added kws)
accounted-changed removing result kws = omega (arith, length-append result.removed kws)

accounted-skipped :
    (result : BatchResult) (kws : List Word)
    → accounted (note_skipped result kws) ≡ accounted result + length kws
accounted-skipped result kws = omega (arith, length-append result.skipped kws)

accounted-failed :
    (e : Error) (result : BatchResult) (kws : List Word)
    → accounted (note_failed e result kws) ≡ accounted result + length kws
accounted-failed e result kws = omega (
  arith,
  length-append result.failed (map (λ kw. (kw, e)) kws),
  length-map {B = Word × Error} (λ (kw : Word). (kw, e)) kws,
)

length-partition_applied :
    (kws ns applied : List Word)
    → length (partition_applied kws ns applied).0 + length (partition_applied kws ns applied).1
      ≡ length kws
unfolding partition_applied
length-partition_applied [] ns applied = omega arith
length-partition_applied (kw ∷ kws) [] applied = omega arith
length-partition_applied (kw ∷ kws) (n ∷ ns) applied =
    let rest = length-partition_applied kws ns applied in
    elim (Bool-cases (has_word n applied)) [
      | inl e ↦ rw e (omega (arith, rest))
      | inr e ↦ rw e (omega (arith, rest))
    ]

module _ {S : Type 0} (ops : Ops S) where
  pub accounted-applied :
      (s : Screened) (applied : List Word)
      → accounted (note_applied ops s applied) ≡ accounted s.result + length s.candidates
  unfolding note_applied
  accounted-applied s applied =
      let p = partition_applied s.candidates s.normalized applied in
      omega (
        arith,
        accounted-changed ops.direction s.result p.0,
        accounted-skipped (note_changed ops.direction s.result p.0) p.1,
        length-partition_applied s.candidates s.normalized applied,
      )

  accounted-outcome :
      (s : Screened) (outcome : Result (List Word))
      → accounted (note_outcome ops s outcome) ≡ accounted s.result + length s.candidates
  accounted-outcome s (err e) = accounted-failed e s.result s.candidates
  accounted-outcome s (ok applied) = accounted-applied s applied

  accounted-one :
      (result : BatchResult) (kw : Word) (outcome : Result ℕ)
      → accounted (note_one ops result kw outcome) ≡ accounted result + 1
  accounted-one result kw (err e) = accounted-failed e result (kw ∷ [])
  accounted-one result kw (ok count) = elim (Bool-cases (ltb 0 count)) [
    | inl e ↦ rw e (accounted-changed ops.direction result (kw ∷ []))
    | inr e ↦ rw e (accounted-skipped result (kw ∷ []))
  ]

  accounted-each :
      (s : S) (result : BatchResult) (kws : List Word)
      → accounted (each_best_effort ops s result kws).1 ≡ accounted result + length kws
  unfolding each_best_effort
  accounted-each s result [] = omega arith
  accounted-each s result (kw ∷ kws) =
      let one = ops.one s kw in
      omega (
        arith,
        accounted-each one.0 (note_one ops result kw one.1) kws,
        accounted-one result kw one.1,
      )

-- A batch in best-effort mode reports as many added or removed, failed and skipped keywords as it was
-- asked for, whether or not the mode writes a whole batch at once and whatever fails.
pub accounted-many_best_effort :
    (trim lower : Word → Word) (case_sensitive : Bool) {S : Type 0} (ops : Ops S) (s : S)
    (keywords : List Word)
    → accounted (many_best_effort trim lower case_sensitive ops s keywords no_result).1
      ≡ length keywords
unfolding many_best_effort
accounted-many_best_effort trim lower case_sensitive ops s keywords =
    let screened : Screened = screen_batch trim lower case_sensitive keywords no_result in
    let counted = (screen_batch-IsScreened trim lower case_sensitive keywords no_result).counted in
    elim (Option-cases ops.atomic) [
      | inl e ↦
          rw e (omega (arith, counted, accounted-each ops s screened.result screened.candidates))
      | inr (write, e) ↦ rw e (elim (Bool-cases (is_empty screened.candidates)) [
        | inl k ↦ rw k (omega (arith, counted, ap length (nil_of_is_empty screened.candidates k)))
        | inr k ↦
            rw k (
              omega
                (arith, counted, accounted-outcome ops screened (write s screened.normalized).1))
      ])
    ]
