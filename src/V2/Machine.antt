-- ===== src/V2/Machine.antt =====
-- The abstract machine that simulates the writers of a collection: its state is a set of keywords.
use acor.Prelude.{ℕ, ◌≡◌, ◌↔◌, some, List, [], Word, Has, Bool, true, false, Option, none}
use acor.V2.{Write, ok, err, concurrency_conflict}
use acor.V2.Written.{IsKept, IsChanged}
use acor.V2.System.{Event, read, gave_up, flushed, attempted, update}

-- A writer of the abstract machine: what it wants, the keywords that stood there when it read, and whether
-- another write or a flush has come since.
pub record Seen : Type 0 where
  pub write : Write
  pub asked : List Word
  pub keywords : List Word
  pub overtaken : Bool

pub record Abstract : Type 0 where
  pub keywords : List Word
  pub pending : ℕ → Option Seen

abbrev pub overtake : Option Seen → Option Seen
overtake none = none
overtake (some q) = some (record q { overtaken = true })

-- The abstract machine: a write that changes keywords acts at once on those that stand there then, and
-- answers which it changed; one that answers without a change found nothing to change when it read; one
-- that fails was overtaken, and changes nothing; a flush leaves no keyword.
pub data IsAtomic : Abstract → Event → Abstract → Type 0 where
  starts :
      {a : Abstract} (i : ℕ) (write : Write) (asked : List Word)
      → IsAtomic a read (record a {
        pending = update a.pending i (
            some
              (record { write = write; asked = asked; keywords = a.keywords; overtaken = false }));
      })
  acts :
      {a : Abstract} (i : ℕ) (q : Seen) (changed after : List Word)
      → a.pending i ≡ some q
      → ((w : Word) → Has w changed ↔ IsChanged q.write a.keywords q.asked w)
      → ((w : Word) → Has w after ↔ IsKept q.write a.keywords q.asked w)
      → IsAtomic a
          (attempted q.write q.asked (ok changed))
          (record { keywords = after; pending = λ j. overtake (update a.pending i none j) })
  finds_nothing :
      {a : Abstract} (i : ℕ) (q : Seen)
      → a.pending i ≡ some q
      → ((w : Word) → ¬ IsChanged q.write q.keywords q.asked w)
      → IsAtomic a
          (attempted q.write q.asked (ok []))
          (record a { pending = update a.pending i none })
  conflicts :
      {a : Abstract} (i : ℕ) (q : Seen)
      → a.pending i ≡ some q
      → q.overtaken ≡ true
      → IsAtomic a
          (attempted q.write q.asked (err concurrency_conflict))
          (record a { pending = update a.pending i none })
  stops :
      {a : Abstract} (i : ℕ) → IsAtomic a gave_up (record a { pending = update a.pending i none })
  empties :
      {a : Abstract}
      → IsAtomic a flushed (record { keywords = []; pending = λ j. overtake (a.pending j) })
