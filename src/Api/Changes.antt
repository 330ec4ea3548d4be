-- ===== src/Api/Changes.antt =====
-- handleChanges and effectiveLimit of internal/api/changes.go, behind the parsing of the query and in
-- front of the encoding of the answer. An absent `Next` is `none`.
use mulligan.Base.{
  ℕ, zero, suc, Bool, Option, none, some, List, [], ◌∷◌, ◌++◌, length, ltb, ◌==◌, if◌then◌else◌,
  Result, ok, ◌>>=◌,
}
use mathlib.Core.Option
use mulligan.Base.Int.{ℤ, pos, negsuc}
use mulligan.Base.Text.{Bytes}
use mulligan.Base.Time.{Time}
use mulligan.Change.Filter.{Filter}
use mulligan.Store.Schema.{Tables, StoreError}
use mulligan.Store.Tx.{Faults}
use mulligan.Store.Read.{Entry, page}

pub record ChangePage : Type 0 where
  pub changes : List Entry
  pub next : Option ℕ

-- `effectiveLimit`
unfoldable pub effective_limit : ℤ → ℕ
effective_limit (negsuc n) = 100
effective_limit (pos n) = if n == 0 then 100 else if ltb 1000 n then 1000 else n

-- The id of the last entry, behind one with the id given.
unfoldable pub last_id : ℕ → List Entry → ℕ
last_id d [] = d
last_id d (e ∷ entries) = last_id e.id entries

unfoldable pub next_cursor : ℤ → List Entry → Option ℕ
next_cursor limit [] = none
next_cursor limit (e ∷ entries) =
    if length (e ∷ entries) == effective_limit limit then some (last_id e.id entries) else none

module _ (equal_fold : Bytes → Bytes → Bool) where
  -- `handleChanges`
  unfoldable pub change_page :
      Filter → ℤ → ℤ → Time → Tables → Faults → Result StoreError ChangePage
  change_page f cursor limit now t fs = do
    entries ← page equal_fold f cursor limit now t fs
    ok (record { changes = entries; next = next_cursor limit entries })

  abbrev pub follow_next :
      List Entry
      → Option ℕ
      → (ℕ → Result StoreError (Option (List Entry)))
      → Result StoreError (Option (List Entry))
  follow_next entries none rest = ok (some entries)
  follow_next entries (some i) rest =
      rest i >>= (λ more. ok (Option.map (λ es. entries ++ es) more))

  -- A client that asks for page after page, each behind the cursor of the one before, at most `fuel`
  -- times. It gives nothing where the last of these pages still has a cursor.
  unfoldable pub follow :
      ℕ → Filter → ℤ → ℤ → Time → Tables → Result StoreError (Option (List Entry))
  follow zero f cursor limit now t = ok none
  follow (suc fuel) f cursor limit now t =
      change_page f cursor limit now t []
      >>= (λ p. follow_next p.changes p.next (λ i. follow fuel f (pos i) limit now t))
