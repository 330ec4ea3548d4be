-- ===== src/Tests/Change.antt =====
-- The changes at concrete texts.
use mulligan.Base.{
  ℕ, ◌-◌, ◌+◌, ◌<◌, ◌≡◌, true, false, ◌&&◌, [], ◌∷◌, map, leb, ltb, ◌==◌, if◌then◌else◌, arith,
  none, some,
}
use mulligan.Base.Text.{Bytes, codes, beq}
use mulligan.Base.Int.{pos}
use mulligan.Base.Time.{unix}
use mulligan.Base.Unicode.{Unicode}
use mulligan.Change.{Op, Event, Value}
use mulligan.Change.Readonly.{mark_read_only}
use mulligan.Change.Readonly.Reference.{mark_read_only-with_named, with_named}

abbrev upper_char : ℕ → ℕ
upper_char c = if leb b'a' c && leb c b'z' then c - 32 else c

abbrev lower_char : ℕ → ℕ
lower_char c = if leb b'A' c && leb c b'Z' then c + 32 else c

abbrev trim_front : Bytes → Bytes
trim_front [] = []
trim_front (c ∷ s) = let rest = trim_front s in if c == b' ' then rest else c ∷ s

abbrev put_front : ℕ → Bytes → Bytes
put_front c [] = if c == b' ' then [] else c ∷ []
put_front c (d ∷ s) = c ∷ (d ∷ s)

abbrev trim_back : Bytes → Bytes
trim_back [] = []
trim_back (c ∷ s) = put_front c (trim_back s)

pub control-unprinted : (c : ℕ) → c < 0x20 → (leb 0x20 c && ltb c 0x7f) ≡ false
control-unprinted c h = ground arith

-- ASCII.
abbrev pub ascii : Unicode
ascii = record {
  to_upper = map upper_char;
  to_lower = map lower_char;
  trim_space = λ s. trim_back (trim_front s);
  equal_fold = λ s t. beq (map lower_char s) (map lower_char t);
  is_print = λ c. leb 0x20 c && ltb c 0x7f;
  is_print_control = control-unprinted;
}

abbrev pub priced : Event
priced = record {
  schema = codes "shop";
  table = codes "orders";
  op = Op.insert;
  columns =
      record { name = codes "id"; primary_key = true; read_only = false }
      ∷ record { name = codes "Total"; primary_key = false; read_only = false }
      ∷ [];
  before = none;
  after = some (Value.int32 (pos 1) ∷ Value.int32 (pos 20) ∷ []);
  log_file = codes "binlog.1";
  log_pos = 546;
  at = unix (pos 100);
  server_id = 1;
  query = [];
}

mark_read_only-with_named_example :
    mark_read_only ascii (priced ∷ []) (codes " orders.total" ∷ [])
    ≡ map (with_named ascii (codes " orders.total" ∷ [])) (priced ∷ [])
mark_read_only-with_named_example =
    mark_read_only-with_named ascii (priced ∷ []) (codes " orders.total" ∷ [])
