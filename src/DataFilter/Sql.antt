-- ===== src/DataFilter/Sql.antt =====
-- The SQL of one filter: `sql_filter` and the `sql_*` methods of byoda/datamodel/datafilter.py.
use byoda_python.Base.{ℕ, Bool, ◌∷◌, ◌++◌, if◌then◌else◌, Result, ok, raise, value_error, ◌>>=◌}
use byoda_python.Text.{Text, codes}
use byoda_python.Text.Uuid.{uuid_text}
use byoda_python.DataFilter.{
  Platform, Moment, aware, naive, date, time, StringOp, NumberOp, UuidOp, DateOp, Operand,
  string_filter, number_filter, uuid_filter, date_filter, DataFilter, find_op, string_ops,
  number_ops, uuid_ops, date_ops,
}

-- The value that goes with a placeholder.
pub data SqlValue (Num : Type 0) : Type 0 where
  sql_text : Text → SqlValue Num
  sql_number : Num → SqlValue Num

-- The text of the condition, the name of its placeholder, and the value for it.
pub record SqlCondition (Num : Type 0) : Type 0 where
  pub condition : Text
  pub placeholder : Text
  pub value : SqlValue Num

-- `sql_field_placeholder`
unfoldable pub sql_field_placeholder : Text → Bool → Bool → Text
sql_field_placeholder field where_clause is_meta_filter =
    if is_meta_filter
    then if where_clause then codes "_METAWHERE" ++ field else codes "META" ++ field
    else if where_clause
    then codes "_WHERE" ++ field
    else field

-- The operators between the field and the placeholder.
unfoldable pub string_symbol : StringOp → Text
string_symbol StringOp.eq = codes "="
string_symbol StringOp.ne = codes "!="
string_symbol StringOp.vin = codes "IN"
string_symbol StringOp.nin = codes "NOT IN"
string_symbol StringOp.regex = codes "~"
string_symbol StringOp.glob = codes "GLOB"

unfoldable pub number_symbol : NumberOp → Text
number_symbol NumberOp.eq = codes "="
number_symbol NumberOp.ne = codes "!="
number_symbol NumberOp.gt = codes ">"
number_symbol NumberOp.lt = codes "<"
number_symbol NumberOp.egt = codes ">="
number_symbol NumberOp.elt = codes "<="

unfoldable pub uuid_symbol : UuidOp → Text
uuid_symbol UuidOp.eq = codes "="
uuid_symbol UuidOp.ne = codes "!="

unfoldable pub date_symbol : DateOp → Text
date_symbol DateOp.at = codes "="
date_symbol DateOp.nat = codes "!="
date_symbol DateOp.after = codes ">"
date_symbol DateOp.before = codes "<"
date_symbol DateOp.atafter = codes ">="
date_symbol DateOp.atbefore = codes "<="

-- `f'{term} {symbol} :{placeholder}'`
abbrev pub condition_text : Text → Text → Text → Text
condition_text term symbol placeholder = term ++ b' ' ∷ (symbol ++ b' ' ∷ b':' ∷ placeholder)

-- `f'round({sql_field}, 5)'`
abbrev pub rounded : Text → Text
rounded sql_field = codes "round(" ++ (sql_field ++ codes ", 5)")

module _ (p : Platform) where
  open p use {Num, round5, local_timestamp}

  -- `_get_sql_date_type`: only a `datetime` has a timestamp.
  unfoldable pub get_sql_date_type : Moment Num → Result Num
  get_sql_date_type (aware t) = ok t
  get_sql_date_type (naive t) = ok (local_timestamp t)
  get_sql_date_type (date d) = raise value_error
  get_sql_date_type (time t) = raise value_error

  -- The `sql_*` methods of the four classes, on the field as it is called in the table.
  unfoldable pub sql_string : StringOp → Text → Text → Text → SqlCondition Num
  unfolding string_symbol
  sql_string op v sql_field placeholder = record {
    condition = condition_text sql_field (string_symbol op) placeholder;
    placeholder = placeholder;
    value = sql_text v;
  }

  unfoldable pub sql_number_field : NumberOp → Num → Text → Text → SqlCondition Num
  unfolding number_symbol
  sql_number_field op v sql_field placeholder = record {
    condition = condition_text sql_field (number_symbol op) placeholder;
    placeholder = placeholder;
    value = sql_number v;
  }

  unfoldable pub sql_uuid : UuidOp → ℕ → Text → Text → SqlCondition Num
  unfolding uuid_symbol
  sql_uuid op v sql_field placeholder = record {
    condition = condition_text sql_field (uuid_symbol op) placeholder;
    placeholder = placeholder;
    value = sql_text (uuid_text v);
  }

  unfoldable pub sql_date : DateOp → Moment Num → Text → Text → Result (SqlCondition Num)
  unfolding date_symbol get_sql_date_type
  sql_date op v sql_field placeholder = do
    timestamp ← get_sql_date_type v
    ok (record {
      condition = condition_text (rounded sql_field) (date_symbol op) placeholder;
      placeholder = placeholder;
      value = sql_number (round5 timestamp);
    })

  unfoldable pub sql_operand : Text → Operand Num → Text → Text → Result (SqlCondition Num)
  unfolding find_op sql_string sql_number_field sql_uuid sql_date
  sql_operand operator (string_filter v) sql_field placeholder = do
    op ← find_op operator string_ops
    ok (sql_string op v sql_field placeholder)
  sql_operand operator (number_filter v) sql_field placeholder = do
    op ← find_op operator number_ops
    ok (sql_number_field op v sql_field placeholder)
  sql_operand operator (uuid_filter v) sql_field placeholder = do
    op ← find_op operator uuid_ops
    ok (sql_uuid op v sql_field placeholder)
  sql_operand operator (date_filter v) sql_field placeholder = do
    op ← find_op operator date_ops
    sql_date op v sql_field placeholder

  -- `DataFilter.sql_filter`
  unfoldable pub sql_filter : DataFilter Num → Bool → Bool → Result (SqlCondition Num)
  unfolding sql_operand sql_field_placeholder
  sql_filter f where_clause is_meta_filter =
      let sql_field = if is_meta_filter then f.field else b'_' ∷ f.field in
      sql_operand f.operator f.operand sql_field
        (sql_field_placeholder sql_field where_clause is_meta_filter)
