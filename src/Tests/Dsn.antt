-- ===== src/Tests/Dsn.antt =====
-- A connection string with signs in its password, and an address.
use mulligan.Base.{◌≡◌, ◌≢◌, refl, [], ◌∷◌, ◌++◌, ok, arith}
use mulligan.Base.Text.{Bytes, codes, split_first, split_last}
use mulligan.Base.Strings.{format_uint}
use mulligan.Source.Dsn.{
  parse_dsn, parse_host, redact, port_of, host_of, in_parentheses, closing, with_port,
}
use mulligan.Source.Dsn.Redacted.{connection_string, parse_dsn-redact}
use mulligan.Source.Dsn.Ports.{IsPort, port_of-IsPort}
use mulligan.Tests.Change.{ascii}

abbrev user : Bytes
user = codes "me"

abbrev password : Bytes
password = codes "p@:w"

abbrev host : Bytes
host = codes "tcp(db:3307)/shop"

user-filled : user ≢ []
user-filled h = cc

host-accepted : parse_host ascii host ≡ ok (codes "db:3307")
unfolding parse_host in_parentheses split_first closing split_last with_port
host-accepted = refl

without_blanks :
    ascii.trim_space (connection_string user password host) ≡ connection_string user password host
without_blanks = refl

parse_dsn-redact_example :
    (parse_dsn ascii (connection_string user password host)
      ≡ ok (record { user = user; password = password; addr = codes "db:3307" }))
    × (redact (connection_string user password host) ≡ user ++ codes ":***" ++ b'@' ∷ host)
parse_dsn-redact_example =
    parse_dsn-redact ascii user password host (codes "db:3307") user-filled (refl, (refl, tt))
      (
        refl,
        (
          refl,
          (
            refl,
            (
              refl,
              (
                refl,
                (
                  refl,
                  (
                    refl,
                    (
                      refl,
                      (refl, (refl, (refl, (refl, (refl, (refl, (refl, (refl, (refl, tt))))))))),
                    ),
                  ),
                ),
              ),
            ),
          ),
        ),
      )
      without_blanks host-accepted

port_of-IsPort_example :
    IsPort (port_of (codes "db:70000"))
    × (port_of (codes "db" ++ b':' ∷ format_uint 3307) ≡ 3307)
    × (host_of (codes "db" ++ b':' ∷ format_uint 3307) ≡ codes "db")
port_of-IsPort_example =
    port_of-IsPort (codes "db:70000") (codes "db") 3307 (omega arith, omega arith)
