-- ===== src/V2/Written.antt =====
-- What a planned write promises, for an addition and a removal alike.
use acor.Prelude.{
  ◌≡◌, ◌≢◌, refl, sym, ap, ◌∙◌, ◌↔◌, ◌⊎◌, inl, inr, List, [], ◌∷◌, Word, Has, true, false, subst,
  if◌then◌else◌, ◌++◌,
}
use acor.Plan.{
  Planned, plan_keywords, store_outputs, surviving, live_prefixes, removed_from, TrieSnapshot,
  OutputMap, outputs_at, is_empty, plan_add_many, plan_remove_many,
}
use acor.Plan.Suffixes.{IsSuffix}
use acor.Plan.Stored.{IsConsistent}
use acor.Plan.Add.{plan_add_many_lem}
use acor.Plan.Remove.{plan_remove_many_lem}
use acor.V2.{Write, add, remove, plan_write}

-- The keywords after a write, and those that it changes.
abbrev pub IsKept : Write → List Word → List Word → Word → Type 0
IsKept add keywords asked w = Has w keywords ⊎ ((w ≢ []) × Has w asked)
IsKept remove keywords asked w = Has w keywords × (¬ Has w asked)

abbrev pub IsChanged : Write → List Word → List Word → Word → Type 0
IsChanged add keywords asked w = (w ≢ []) × Has w asked × (¬ Has w keywords)
IsChanged remove keywords asked w = Has w keywords × Has w asked

module _ (write : Write) (snap : TrieSnapshot) (asked : List Word) where
  pub record IsPlanned (after : TrieSnapshot) (outputs : OutputMap) (changed : List Word)
      : Type 0 where
    pub consistent : IsConsistent after.keywords after.prefixes
    pub held : (w : Word) → Has w after.keywords ↔ IsKept write snap.keywords asked w
    pub changes : (w : Word) → Has w changed ↔ IsChanged write snap.keywords asked w
    pub same_version : after.version ≡ snap.version
    pub unchanged : is_empty changed ≡ true → after ≡ snap
    pub sound : (s w : Word) → Has w (outputs_at outputs s) → IsSuffix w s × Has w after.keywords
    pub right :
        is_empty changed ≡ false
        → (s w : Word) → s ≢ []
        → Has s after.prefixes
        → IsSuffix w s
        → Has w after.keywords
        → Has w (outputs_at outputs s)

true_not_false : true ≡ false → ⊥
true_not_false e = cc

-- Nothing changed, and the snapshot is the old one; or something did.
abbrev IsFramed : TrieSnapshot → TrieSnapshot → List Word → Type 0
IsFramed snap after changed =
    (after.version ≡ snap.version) × (is_empty changed ≡ true → after ≡ snap)

framed :
    (snap after : TrieSnapshot) (outputs : OutputMap) (changed : List Word)
    → after.version ≡ snap.version
    → (p : TrieSnapshot × OutputMap × List Word)
    → p ≡ (if is_empty changed then (snap, [], []) else (after, outputs, changed))
    → IsFramed snap p.0 p.2
framed snap after outputs [] v p e = subst (λ q. IsFramed snap q.0 q.2) (sym e) (refl, λ _. refl)
framed snap after outputs (x ∷ l) v p e = subst (λ q. IsFramed snap q.0 q.2) (sym e) (v, λ k. cc)

plan_add_many-IsFramed :
    (snap : TrieSnapshot) (asked : List Word)
    → IsFramed snap (plan_add_many snap asked).0 (plan_add_many snap asked).2
unfolding plan_add_many
plan_add_many-IsFramed snap asked =
    let plan : Planned =
      plan_keywords
        (record {
          keyword_set = snap.keywords;
          prefix_set = snap.prefixes;
          new_prefixes = [];
          added = [];
        })
        asked in
    framed snap
      (record snap {
        keywords = snap.keywords ++ plan.added;
        prefixes = snap.prefixes ++ plan.new_prefixes;
      })
      (store_outputs snap.prefixes plan.prefix_set plan.keyword_set
        (store_outputs plan.new_prefixes plan.prefix_set plan.keyword_set []))
      plan.added refl (plan_add_many snap asked) refl

plan_remove_many-IsFramed :
    (snap : TrieSnapshot) (asked : List Word)
    → IsFramed snap (plan_remove_many snap asked).0 (plan_remove_many snap asked).2
unfolding plan_remove_many
plan_remove_many-IsFramed snap asked =
    let kept = surviving asked snap.keywords in
    let prefixes = [] ∷ live_prefixes kept snap.prefixes in
    framed snap (record snap { keywords = kept; prefixes = prefixes })
      (store_outputs prefixes prefixes kept []) (removed_from asked snap.keywords) refl
      (plan_remove_many snap asked) refl

not_empty : {B : Type 0} (l : List Word) → is_empty l ≡ false → l ≡ [] → B
not_empty l e k = absurd (true_not_false (sym (ap is_empty k) ∙ e))

pub plan_write-IsPlanned :
    (write : Write) (snap : TrieSnapshot) (asked : List Word)
    → IsConsistent snap.keywords snap.prefixes
    → IsPlanned write snap asked
        (plan_write write snap asked).0
        (plan_write write snap asked).1
        (plan_write write snap asked).2
unfolding plan_write
plan_write-IsPlanned add snap asked C =
    let P = plan_add_many_lem snap asked C in
    let (same, unchanged) = plan_add_many-IsFramed snap asked in
    record {
      consistent = P.consistent;
      held = P.held;
      changes = P.new;
      same_version = same;
      unchanged = unchanged;
      sound = P.outputs_sound;
      right = λ e s w n h i k. elim P.outcome [
        | inl (l, _) ↦ not_empty _ e l
        | inr r ↦ (r s w n h).1 (i, k)
      ];
    }
plan_write-IsPlanned remove snap asked C =
    let P = plan_remove_many_lem snap asked C in
    let (same, unchanged) = plan_remove_many-IsFramed snap asked in
    record {
      consistent = P.consistent;
      held = P.held;
      changes = P.gone;
      same_version = same;
      unchanged = unchanged;
      sound = P.outputs_sound;
      right = λ e s w n h i k. elim P.outcome [
        | inl (l, _) ↦ not_empty _ e l
        | inr r ↦ (r s w n h).1 (i, k)
      ];
    }

pub IsKept-nonempty :
    (write : Write) (keywords asked : List Word)
    → (¬ Has [] keywords)
    → ¬ IsKept write keywords asked []
IsKept-nonempty add keywords asked n (inl h) = n h
IsKept-nonempty add keywords asked n (inr (e, h)) = e refl
IsKept-nonempty remove keywords asked n (h, k) = n h
