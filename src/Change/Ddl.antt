-- ===== src/Change/Ddl.antt =====
-- internal/change/ddl.go.
use mulligan.Base.{Bool, false, ◌||◌, List, [], ◌∷◌, if◌then◌else◌}
use mulligan.Base.Text.{Bytes, codes, has_prefix, contains}
use mulligan.Base.Unicode.{Unicode}

abbrev pub ddl_prefixes : List Bytes
ddl_prefixes =
    codes "ALTER " ∷ codes "CREATE " ∷ codes "DROP " ∷ codes "RENAME " ∷ codes "TRUNCATE " ∷ []

abbrev pub transaction_words : List Bytes
transaction_words = codes "BEGIN" ∷ codes "COMMIT" ∷ codes "ROLLBACK" ∷ [] ∷ []

unfoldable pub has_any_prefix : Bytes → List Bytes → Bool
has_any_prefix s [] = false
has_any_prefix s (p ∷ prefixes) = has_prefix s p || has_any_prefix s prefixes

-- `IsDDL`
unfoldable pub is_ddl : Unicode → Bytes → Bool
is_ddl u statement =
    let s = u.to_upper (u.trim_space statement) in
    if contains transaction_words s then false else has_any_prefix s ddl_prefixes
