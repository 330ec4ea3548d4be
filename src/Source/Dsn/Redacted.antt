-- ===== src/Source/Dsn/Redacted.antt =====
-- What becomes of the password of a connection string.
use mulligan.Base.{◌≡◌, ◌≢◌, refl, [], ◌∷◌, ◌++◌, ok}
use mulligan.Base.Text.{Bytes, codes, split_last-append, split_first-append, Lacks}
use mulligan.Base.Unicode.{Unicode}
use mulligan.Source.Dsn.{
  parse_host, parse_dsn, parse_parts, user_and_password, redact, redact_parts, hide_password,
}

abbrev pub connection_string : Bytes → Bytes → Bytes → Bytes
connection_string user password host = (user ++ b':' ∷ password) ++ b'@' ∷ host

-- A connection string without blanks around it, whose user is not empty and has no colon, and whose
-- host has no at sign and is accepted, is parsed to its user, its password and its address; and its
-- redaction is the same for every password.
pub parse_dsn-redact :
    (u : Unicode) (user password host addr : Bytes)
    → user ≢ []
    → Lacks b':' user
    → Lacks b'@' host
    → u.trim_space (connection_string user password host) ≡ connection_string user password host
    → parse_host u host ≡ ok addr
    → (parse_dsn u (connection_string user password host)
        ≡ ok (record { user = user; password = password; addr = addr }))
      × (redact (connection_string user password host) ≡ user ++ codes ":***" ++ b'@' ∷ host)
unfolding parse_dsn parse_parts user_and_password redact redact_parts hide_password
parse_dsn-redact u [] password host addr hu hc hh ht hp = absurd (hu refl)
parse_dsn-redact u (x ∷ user) password host addr hu hc hh ht hp = (
  rw
      (
        ht,
        split_last-append b'@' ((x ∷ user) ++ b':' ∷ password) host hh,
        split_first-append b':' (x ∷ user) password hc,
        hp,
      )
      refl,
  rw
      (
        split_last-append b'@' ((x ∷ user) ++ b':' ∷ password) host hh,
        split_first-append b':' (x ∷ user) password hc,
      )
      refl,
)
