-- ===== src/Tests/Reverse.antt =====
-- The reverse engine at concrete events.
use mulligan.Base.{
  ◌≡◌, ◌≢◌, ◌↔◌, refl, Bool, true, false, [], ◌∷◌, ◌++◌, List, some, map, filter, All, ok, err,
  is_ok, all, arith,
}
use mathlib.Core.List.{reverse}
use mulligan.Base.Int.{pos}
use mulligan.Base.Strings.{double, format_int, format_uint, decimal, valid_utf8}
use mulligan.Base.Text.{Bytes, codes, join}
use mulligan.Base.Time.{Time}
use mulligan.Change.{Op, Value, Column, Event, is_schema_change, values}
use mulligan.Change.Raw.{valid_raw}
use mulligan.Change.Raw.Grammar.{IsNumber, IsNumeral, valid_raw-iff-IsNumber, valid_raw-All}
use mulligan.Codec.Encode.{encode_row}
use mulligan.Reverse.Literal.{
  Formats, ReverseError, out_of_range, literal, quote_string, safe_to_quote, plain_bytes,
}
use mulligan.Reverse.Equality.{equal_value}
use mulligan.Reverse.Statement.{
  statement, Reversal, plan, plan_from, plan_one, quote_ident, qualify, validate, validate_op,
  by_op, update_row, assignments, assign, where_clause, where_indexes, primary_key_indexes,
  predicates, predicate, at,
}
use mulligan.Reverse.Reading.{read_text, read_name, read_text-quote_string, read_name-quote_ident}
use mulligan.Reverse.Plan.{
  is_row_change, IsReversal, can_reverse, Blamed, plan-IsPlan, plan-is_ok, plan-Blamed,
}
use mulligan.Reverse.Bounds.{statement-Safe}
use mulligan.Fidelity.Values.{encode_row-iff-literal}
use mulligan.Fidelity.Statements.{stored_images, statement-stored_images}

-- Fixed texts stand for what Go prints of floats and times.
abbrev formats : Formats
formats = record {
  float32_text = λ x. codes "0.5";
  float64_text = λ x. codes "0.5";
  time_text = λ fraction z. codes "2026-07-27 13:15:57";
}

abbrev noon : Time
noon = record { instant = pos 0; zone = 0 }

abbrev column : Bytes → Bool → Column
column name key = record { name = name; primary_key = key; read_only = false }

abbrev update : List Value → List Value → Event
update before after = record {
  schema = codes "shop";
  table = codes "orders";
  op = Op.update;
  columns = column (codes "id") true ∷ column (codes "status") false ∷ [];
  before = some before;
  after = some after;
  log_file = codes "binlog.1";
  log_pos = 546;
  at = noon;
  server_id = 1;
  query = [];
}

abbrev shipped : Event
shipped =
    update (Value.int32 (pos 1) ∷ Value.bytes (codes "it's") ∷ [])
      (Value.int32 (pos 1) ∷ Value.bytes (codes "shipped") ∷ [])

-- An image that is shorter than the column list.
abbrev torn : Event
torn = update [] []

abbrev shipped_sql : Bytes
shipped_sql = codes "UPDATE `shop`.`orders` SET `status` = 'it''s' WHERE `id` = 1 LIMIT 1;"

statement-shipped : statement formats shipped ≡ ok shipped_sql
unfolding statement validate validate_op by_op update_row assignments assign where_clause
    where_indexes primary_key_indexes predicates predicate at equal_value literal quote_string
    safe_to_quote plain_bytes valid_utf8 double quote_ident qualify join format_int format_uint
    decimal
statement-shipped = refl

plan-shipped :
    plan formats (shipped ∷ []) ≡ ok (record { event = shipped; statement = shipped_sql } ∷ [])
unfolding plan plan_from plan_one is_schema_change
plan-shipped = rw statement-shipped

plan-torn : plan formats (torn ∷ shipped ∷ []) ≡ err (ReverseError.event 0 ReverseError.bad_before)
unfolding plan plan_from plan_one is_schema_change
plan-torn = rw statement-shipped (unfold statement validate validate_op in refl)

read_text-quote_string_example :
    read_text (some (λ c. c ∷ [])) (quote_string (codes "it's") ++ codes ", x")
    ≡ some (codes "it's", codes ", x")
read_text-quote_string_example =
    read_text-quote_string (some (λ c. c ∷ [])) (codes "it's") (codes ", x") (omega arith)
      (omega arith)

read_name-quote_ident_example :
    read_name (quote_ident (codes "a`b") ++ codes " = 1") ≡ some (codes "a`b", codes " = 1")
read_name-quote_ident_example = read_name-quote_ident (codes "a`b") (codes " = 1") (omega arith)

plan-IsPlan_example :
    (map (λ (r : Reversal). r.event) (record { event = shipped; statement = shipped_sql } ∷ [])
      ≡ reverse (filter is_row_change (shipped ∷ [])))
    × All (IsReversal formats) (record { event = shipped; statement = shipped_sql } ∷ [])
plan-IsPlan_example = plan-IsPlan formats (shipped ∷ []) plan-shipped

plan-is_ok_example :
    is_ok (plan formats (torn ∷ shipped ∷ [])) ≡ all (can_reverse formats) (torn ∷ shipped ∷ [])
plan-is_ok_example = plan-is_ok formats (torn ∷ shipped ∷ [])

plan-Blamed_example :
    Blamed formats 0 (torn ∷ shipped ∷ []) (ReverseError.event 0 ReverseError.bad_before)
plan-Blamed_example = plan-Blamed formats (torn ∷ shipped ∷ []) plan-torn

statement-Safe_example : statement formats torn ≢ err out_of_range
statement-Safe_example = statement-Safe formats torn

statement-stored_images_example :
    statement formats (stored_images shipped) ≡ statement formats shipped
statement-stored_images_example = statement-stored_images formats shipped (λ _. omega arith)

encode_row-iff-literal_example :
    is_ok (encode_row (values shipped.before))
    ≡ all (λ v. is_ok (literal formats v)) (values shipped.before)
encode_row-iff-literal_example = encode_row-iff-literal formats (values shipped.before)

valid_raw-iff-IsNumber_example : (valid_raw (codes "-1.5e+3") ≡ true) ↔ IsNumber (codes "-1.5e+3")
valid_raw-iff-IsNumber_example = valid_raw-iff-IsNumber (codes "-1.5e+3")

decimal_is_raw : valid_raw (codes "-1.5e+3") ≡ true
unfolding valid_raw
decimal_is_raw = refl

valid_raw-All_example : All IsNumeral (codes "-1.5e+3")
valid_raw-All_example = valid_raw-All (codes "-1.5e+3") decimal_is_raw
