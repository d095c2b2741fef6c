-- ===== src/Prelude/Reversal.antt =====
-- A word that ends where the part of a text that was read ends, seen from both sides.
use Prim.Native.Nat.{ℕ, zero, suc, ◌+◌, ◌≤◌}
use mathlib.Core.Path.{◌≡◌, refl, sym, ap, ap₂, ◌∙◌}
use mathlib.Core.Logic.{◌↔◌, ◌⊎◌, inl, inr}
use mathlib.Core.List.{List, [], ◌∷◌, ◌++◌, map}
use native.Mathlib.Omega.{arith}
use acor.Prelude.Lists.{length, drop, append-nil}
use acor.Prelude.Member.{Has}
use acor.Prelude.Prefix.{IsPrefix, prefix_eq_of_length, rev_onto, backwards, length-rev_onto}

pub IsPrefix-append : {A : Type 0} (p r : List A) → IsPrefix p (p ++ r)
IsPrefix-append [] r = tt
IsPrefix-append (a ∷ p) r = (refl, IsPrefix-append p r)

rest_of_prefix : {A : Type 0} (p l : List A) → IsPrefix p l → (more : List A) × (l ≡ p ++ more)
rest_of_prefix [] l h = (l, refl)
rest_of_prefix (a ∷ p) [] h = elim h [ ]
rest_of_prefix (a ∷ p) (b ∷ l) (e, h) =
    let (more, q) = rest_of_prefix p l h in (more, ap₂ ◌∷◌ (sym e) q)

rev_onto-append : {A : Type 0} (w l m : List A) → rev_onto w (l ++ m) ≡ rev_onto w l ++ m
rev_onto-append [] l m = refl
rev_onto-append (c ∷ w) l m = rev_onto-append w (c ∷ l) m

rev_onto-rev_onto :
    {A : Type 0} (w more rest : List A)
    → rev_onto (rev_onto w more) rest ≡ rev_onto more (w ++ rest)
rev_onto-rev_onto [] more rest = refl
rev_onto-rev_onto (c ∷ w) more rest = rev_onto-rev_onto w (c ∷ more) rest

pub backwards-injective : {A : Type 0} (v w : List A) → backwards v ≡ backwards w → v ≡ w
backwards-injective v w e =
    sym (rev_onto-rev_onto v [] [] ∙ append-nil v)
    ∙ ap backwards e
    ∙ (rev_onto-rev_onto w [] [] ∙ append-nil w)

drop-rev_onto : {A : Type 0} (w l : List A) → drop (length w) (rev_onto w l) ≡ l
drop-rev_onto w l = go w (length w) l refl
  where
    after : {A : Type 0} (n : ℕ) (w l m : List A) → n ≡ length l → drop n (l ++ m) ≡ m
    after zero w [] m e = refl
    after zero w (c ∷ l) m e = absurd (omega arith)
    after (suc n) w [] m e = absurd (omega arith)
    after (suc n) w (c ∷ l) m e = after n w l m (omega arith)

    go : {A : Type 0} (w : List A) (n : ℕ) (l : List A) → n ≡ length w → drop n (rev_onto w l) ≡ l
    go w n l e =
        rw (rev_onto-append w [] l)
          (after n w (rev_onto w []) l (omega (arith, length-rev_onto w [])))

snoc-rev_onto :
    {A : Type 0} (w : List A) (c : A) (l : List A) → rev_onto (w ++ c ∷ []) l ≡ c ∷ rev_onto w l
snoc-rev_onto [] c l = refl
snoc-rev_onto (d ∷ w) c l = snoc-rev_onto w c (d ∷ l)

length-snoc : {A : Type 0} (w : List A) (c : A) → length (w ++ c ∷ []) ≡ suc (length w)
length-snoc [] c = refl
length-snoc (d ∷ w) c = omega (arith, length-snoc w c)

split :
    {A : Type 0} (n : ℕ) (rt : List A)
    → n ≤ length rt
    → (w more : List A) × (rt ≡ rev_onto w more) × (length w ≡ n)
split zero rt h = ([], rt, refl, refl)
split (suc n) [] h = absurd (omega arith)
split (suc n) (c ∷ rt) h =
    let (w, more, e, k) = split n rt (omega arith) in
    (w ++ c ∷ [], more, ap (◌∷◌ c) e ∙ sym (snoc-rev_onto w c more), omega (arith, length-snoc w c))

module _ {A : Type 0} where
  -- `rt` is what was read, backwards, and `rest` what was not.
  pub ends_here→occurs :
      (kw rt rest : List A) (k : ℕ)
      → IsPrefix (backwards kw) rt
      → k + length kw ≡ length rt
      → IsPrefix kw (drop k (rev_onto rt rest))
  ends_here→occurs kw rt rest k h e =
      let (more, q) = rest_of_prefix (backwards kw) rt h in
      let q' : rt ≡ rev_onto kw more = q ∙ sym (rev_onto-append kw [] more) in
      let n : k ≡ length more = omega (arith, ap length q', length-rev_onto kw more) in
      rw (n, q', rev_onto-rev_onto kw more rest, drop-rev_onto more (kw ++ rest))
        (IsPrefix-append kw rest)

  pub occurs→ends_here :
      (kw rt rest : List A) (k : ℕ)
      → k + length kw ≡ length rt
      → IsPrefix kw (drop k (rev_onto rt rest))
      → IsPrefix (backwards kw) rt
  occurs→ends_here kw rt rest k e h =
      let (w, more, q, l) = split (length kw) rt (omega arith) in
      let n : k ≡ length more = omega (arith, ap length q, length-rev_onto w more) in
      let h' : IsPrefix kw (w ++ rest) =
        rw (n, q, rev_onto-rev_onto w more rest, drop-rev_onto more (w ++ rest)) at h in
      let same : kw ≡ w =
        prefix_eq_of_length kw w (w ++ rest) h' (IsPrefix-append w rest) (omega arith) in
      rw (same, q, rev_onto-append w [] more) (IsPrefix-append (rev_onto w []) more)

pub Has-map :
    {A B : Type 0} (f : A → B) (xs : List A) (b : B)
    → Has b (map f xs) ↔ ((a : A) × Has a xs × (b ≡ f a))
Has-map f [] b = (λ h. elim h [ ], λ (a, h, e). elim h [ ])
Has-map f (x ∷ xs) b = (
  λ h. elim h [
    | inl e ↦ (x, inl refl, e)
    | inr k ↦ let (a, g, e) = (Has-map f xs b).0 k in (a, inr g, e)
  ],
  λ (a, h, e). elim h [ inl q ↦ inl (e ∙ ap f q) | inr k ↦ inr ((Has-map f xs b).1 (a, k, e)) ],
)

pub Has-backwards :
    {A : Type 0} (a : A) (xs ys : List A) → Has a (rev_onto xs ys) ↔ Has a xs ⊎ Has a ys
Has-backwards a [] ys = (λ h. inr h, λ h. elim h [ inl k ↦ elim k [ ] | inr k ↦ k ])
Has-backwards a (x ∷ xs) ys = (
  λ h. elim ((Has-backwards a xs (x ∷ ys)).0 h) [
    | inl k ↦ inl (inr k)
    | inr k ↦ elim k [ inl e ↦ inl (inl e) | inr j ↦ inr j ]
  ],
  λ h.
      (Has-backwards a xs (x ∷ ys)).1
        (elim h [ inl k ↦ elim k [ inl e ↦ inr (inl e) | inr j ↦ inl j ] | inr k ↦ inr (inr k) ]),
)
