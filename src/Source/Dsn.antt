-- ===== src/Source/Dsn.antt =====
-- internal/source/mysql/dsn.go, and hostOf and portOf of internal/source/mysql/source.go.
pub mod Ports
pub mod Redacted
use mulligan.Base.{
  ℕ, ◌+◌, ◌-◌, ◌*◌, ◌%◌, ◌^◌, Bool, ◌||◌, Option, none, some, List, [], ◌∷◌, ◌++◌, ltb, ◌==◌,
  if◌then◌else◌, Result, ok, err, ◌>>=◌, ◌>>◌, guard, not,
}
use mulligan.Base.Text.{Bytes, codes, beq, split_first, split_last}
use mulligan.Base.Unicode.{Unicode}

-- One constructor for each message. None carries a text of the string.
pub data DsnError : Type 0 where
  no_string missing_at no_user unclosed_parenthesis no_host : DsnError

-- `dsn`
pub record Dsn : Type 0 where
  pub user : Bytes
  pub password : Bytes
  pub addr : Bytes

abbrev pub default_port : Bytes
default_port = codes "3306"

-- What stands in front of a byte, or all of the text.
abbrev pub front : Bytes → Option (Bytes × Bytes) → Bytes
front s none = s
front s (some (before, after)) = before

unfoldable pub closing : Option (Bytes × Bytes) → Result DsnError Bytes
closing none = err unclosed_parenthesis
closing (some (inside, after)) = ok inside

unfoldable pub in_parentheses : Bytes → Option (Bytes × Bytes) → Result DsnError Bytes
in_parentheses s none = ok s
in_parentheses s (some (before, after)) = closing (split_last b')' after)

unfoldable pub with_port : Bytes → Option (Bytes × Bytes) → Bytes
with_port host none = host ++ b':' ∷ default_port
with_port host (some p) = host

unfoldable pub user_and_password : Bytes → Option (Bytes × Bytes) → Bytes × Bytes
user_and_password credentials none = (credentials, [])
user_and_password credentials (some (user, password)) = (user, password)

module _ (u : Unicode) where
  -- `parseHost`
  unfoldable pub parse_host : Bytes → Result DsnError Bytes
  parse_host text = do
    let host = front text (split_first b'/' text)
    inside ← in_parentheses host (split_first b'(' host)
    guard (not (beq (u.trim_space inside) [])) no_host
    ok (with_port (u.trim_space inside) (split_first b':' (u.trim_space inside)))

  unfoldable pub parse_parts : Option (Bytes × Bytes) → Result DsnError Dsn
  parse_parts none = err missing_at
  parse_parts (some (credentials, host)) = do
    let named = user_and_password credentials (split_first b':' credentials)
    guard (not (beq named.0 [])) no_user
    addr ← parse_host host
    ok (record { user = named.0; password = named.1; addr = addr })

  -- `parseDSN`
  unfoldable pub parse_dsn : Bytes → Result DsnError Dsn
  parse_dsn text = do
    guard (not (beq (u.trim_space text) [])) no_string
    parse_parts (split_last b'@' (u.trim_space text))

unfoldable pub hide_password : Bytes → Option (Bytes × Bytes) → Bytes
hide_password credentials none = credentials
hide_password credentials (some (user, password)) = user ++ codes ":***"

unfoldable pub redact_parts : Bytes → Option (Bytes × Bytes) → Bytes
redact_parts s none = s
redact_parts s (some (credentials, host)) =
    hide_password credentials (split_first b':' credentials) ++ b'@' ∷ host

-- `Redact`
unfoldable pub redact : Bytes → Bytes
redact s = redact_parts s (split_last b'@' s)

-- `hostOf`
unfoldable pub host_of : Bytes → Bytes
host_of addr = front addr (split_last b':' addr)

-- The digits of a port on 16 bits, where all are digits.
unfoldable pub port_digits : ℕ → Bytes → Option ℕ
port_digits p [] = some p
port_digits p (c ∷ s) =
    let rest = port_digits ((p * 10 + (c - b'0')) % 2 ^ 16) s in
    if ltb c b'0' || ltb b'9' c then none else rest

unfoldable pub port_or_default : Option ℕ → ℕ
port_or_default none = 3306
port_or_default (some p) = if p == 0 then 3306 else p

unfoldable pub port_after : Option (Bytes × Bytes) → ℕ
port_after none = 3306
port_after (some (host, port)) = port_or_default (port_digits 0 port)

-- `portOf`
unfoldable pub port_of : Bytes → ℕ
port_of addr = port_after (split_last b':' addr)
