-- ===== src/Source/Preflight.antt =====
-- internal/source/mysql/preflight.go, and serverIdentity of internal/source/mysql/source.go: what a
-- server has to report before a collector starts. The
-- variables of the server are a function, which gives nothing for a variable that is not reported.
pub mod Identity
pub mod Reversible
use mulligan.Base.{
  Bool, Option, none, some, List, [], ◌∷◌, ◌++◌, ◌&&◌, not, Result, ok, err, ◌||◌, if◌then◌else◌,
}
use mulligan.Base.Text.{Bytes, codes, has_prefix, beq}
use mulligan.Base.Unicode.{Unicode}

pub data Flavor : Type 0 where
  mysql mariadb : Flavor

pub record Setting : Type 0 where
  pub name : Bytes
  pub want : Bytes

pub data IdentityError : Type 0 where
  no_server_id no_server_uuid : IdentityError

pub data SettingsError : Type 0 where
  unreported : Setting → SettingsError
  must_be : Setting → Bytes → SettingsError
  partial_json : Bytes → SettingsError

abbrev pub required_settings : List Setting
required_settings =
    record { name = codes "binlog_format"; want = codes "ROW" }
    ∷ record { name = codes "binlog_row_image"; want = codes "FULL" }
    ∷ record { name = codes "binlog_row_metadata"; want = codes "FULL" }
    ∷ []

-- A read of a Go map, which is empty for a missing key.
abbrev pub or_empty : Option Bytes → Bytes
or_empty none = []
or_empty (some v) = v

-- `strings.Contains(s, part)`
unfoldable pub has_part : Bytes → Bytes → Bool
has_part part [] = has_prefix [] part
has_part part (c ∷ s) = has_prefix (c ∷ s) part || has_part part s

module _ (u : Unicode) where
  unfoldable pub check_setting : Setting → Option Bytes → Result SettingsError (Unit {0})
  check_setting s none = err (unreported s)
  check_setting s (some got) = if u.equal_fold got s.want then ok tt else err (must_be s got)

  unfoldable pub check_options : Bytes → Result SettingsError (Unit {0})
  check_options v =
      if has_part (codes "PARTIAL_JSON") (u.to_upper v) then err (partial_json v) else ok tt

  -- The loop over the settings, and what follows it.
  unfoldable pub check_each :
      List Setting → (Bytes → Option Bytes) → Result SettingsError (Unit {0})
  check_each [] vars = check_options (or_empty (vars (codes "binlog_row_value_options")))
  check_each (s ∷ settings) vars = elim (check_setting s (vars s.name)) [
    | ok x ↦ check_each settings vars
    | err e ↦ err e
  ]

  -- `checkSettings`
  unfoldable pub check_settings : (Bytes → Option Bytes) → Result SettingsError (Unit {0})
  check_settings vars = check_each required_settings vars

  -- `statementCapture`
  unfoldable pub statement_capture : Flavor → (Bytes → Option Bytes) → Bool
  statement_capture mysql vars =
      u.equal_fold (or_empty (vars (codes "binlog_rows_query_log_events"))) (codes "ON")
  statement_capture mariadb vars =
      u.equal_fold (or_empty (vars (codes "binlog_annotate_row_events"))) (codes "ON")

  -- `flavorFromVersion`
  unfoldable pub flavor_from_version : Bytes → Flavor
  flavor_from_version version =
      if has_part (codes "mariadb") (u.to_lower version) then mariadb else mysql

  -- `serverIdentity`: what names the server, and the dialect of its GTIDs.
  unfoldable pub gtid_dialect_of : Bytes → Bytes
  gtid_dialect_of mode =
      if not (beq mode [])
        && (not (u.equal_fold mode (codes "OFF"))
            && not (u.equal_fold mode (codes "OFF_PERMISSIVE")))
      then codes "mysql"
      else []

  unfoldable pub identity_mariadb : Bytes → Bytes → Result IdentityError (Bytes × Bytes)
  identity_mariadb domain [] = err no_server_id
  identity_mariadb domain (c ∷ server) =
      ok (codes "mariadb:" ++ (domain ++ b':' ∷ c ∷ server), codes "mariadb")

  unfoldable pub identity_mysql : Bytes → Bytes → Result IdentityError (Bytes × Bytes)
  identity_mysql [] mode = err no_server_uuid
  identity_mysql (c ∷ uuid) mode = ok (codes "mysql:" ++ c ∷ uuid, gtid_dialect_of mode)

  unfoldable pub server_identity :
      Flavor → (Bytes → Option Bytes) → Result IdentityError (Bytes × Bytes)
  server_identity mariadb vars =
      identity_mariadb (or_empty (vars (codes "gtid_domain_id")))
        (or_empty (vars (codes "server_id")))
  server_identity mysql vars =
      identity_mysql (or_empty (vars (codes "server_uuid"))) (or_empty (vars (codes "gtid_mode")))
