-- ===== src/DataFilter/Conditions.antt =====
-- What the SQL of one filter is, by the filter's field, operator and operand: `sql_filter` of
-- byoda/datamodel/datafilter.py.
use byoda_python.Base.{
  ◌≡◌, refl, ap, map, subst, Bool, true, false, List, [], ◌∷◌, ◌++◌, Option, none, some,
  if◌then◌else◌, ok, ok-injective, Bool-cases, inl, inr, Returns, Returns-ok, Returns-bind,
}
use byoda_python.Text.{Text, codes, text_eq}
use byoda_python.Text.Uuid.{uuid_text}
use byoda_python.DataFilter.{
  Platform, Moment, aware, naive, date, time, DateOp, DataFilter, Operand, string_filter,
  number_filter, uuid_filter, date_filter, find_op, string_ops, number_ops, uuid_ops, date_ops,
}
use byoda_python.DataFilter.Sql.{
  SqlValue, sql_text, sql_number, SqlCondition, sql_field_placeholder, string_symbol, number_symbol,
  uuid_symbol, date_symbol, sql_string, sql_number_field, sql_uuid, sql_date, sql_operand,
  sql_filter, get_sql_date_type,
}

find_op-map :
    {A : Type 0} (name : A → Text) (operator : Text) (ops : List (Text × A)) (op : A)
    → find_op operator ops ≡ ok op
    → find_op operator (map (λ (q : Text × A). (q.0, name q.1)) ops) ≡ ok (name op)
unfolding find_op
find_op-map name operator [] op h = absurd (cc)
find_op-map {A = A} name operator ((key, o) ∷ ops) op h = elim (Bool-cases (text_eq operator key)) [
  | inl same ↦ rw same (ap (λ x. ok (name x)) (ok-injective (at true same)))
  | inr other ↦ rw other (find_op-map name operator ops op (at false other))
]
  where
    at : (b : Bool) → text_eq operator key ≡ b → (if b then ok o else find_op operator ops) ≡ ok op
    at b e = subst (λ (b : Bool). (if b then ok o else find_op operator ops) ≡ ok op) e h

module _ (p : Platform) where
  open p use {Num, round5, local_timestamp}

  -- The name of the placeholder for a field.
  abbrev pub placeholder_of : Text → Bool → Text
  placeholder_of field is_meta =
      if is_meta then codes "_METAWHERE" ++ field else codes "_WHERE_" ++ field

  -- The field of the table, and what is compared of it: of a date, its timestamp to five decimals.
  abbrev pub column : Text → Bool → Text
  column field is_meta = if is_meta then field else b'_' ∷ field

  abbrev pub compared : Operand Num → Text → Text
  compared (date_filter v) name = codes "round(" ++ (name ++ codes ", 5)")
  compared _ name = name

  -- The operators in SQL, by the kind of the operand.
  abbrev pub symbols : Operand Num → List (Text × Text)
  symbols (string_filter v) =
      (codes "eq", codes "=")
      ∷ (codes "ne", codes "!=")
      ∷ (codes "vin", codes "IN")
      ∷ (codes "nin", codes "NOT IN")
      ∷ (codes "regex", codes "~")
      ∷ (codes "glob", codes "GLOB")
      ∷ []
  symbols (number_filter v) =
      (codes "eq", codes "=")
      ∷ (codes "ne", codes "!=")
      ∷ (codes "gt", codes ">")
      ∷ (codes "lt", codes "<")
      ∷ (codes "egt", codes ">=")
      ∷ (codes "elt", codes "<=")
      ∷ []
  symbols (uuid_filter v) = (codes "eq", codes "=") ∷ (codes "ne", codes "!=") ∷ []
  symbols (date_filter v) =
      (codes "at", codes "=")
      ∷ (codes "nat", codes "!=")
      ∷ (codes "after", codes ">")
      ∷ (codes "before", codes "<")
      ∷ (codes "atafter", codes ">=")
      ∷ (codes "atbefore", codes "<=")
      ∷ []

  -- The operand as a value for SQL; a date or a time alone has none.
  abbrev pub operand_value : Operand Num → Option (SqlValue Num)
  operand_value (string_filter v) = some (sql_text v)
  operand_value (number_filter v) = some (sql_number v)
  operand_value (uuid_filter v) = some (sql_text (uuid_text v))
  operand_value (date_filter (aware t)) = some (sql_number (round5 t))
  operand_value (date_filter (naive t)) = some (sql_number (round5 (local_timestamp t)))
  operand_value (date_filter _) = none

  -- The condition compares the field of the filter by the operator of the filter with the placeholder
  -- of the field, and its value is the operand of the filter.
  pub record IsCondition (is_meta : Bool) (f : DataFilter Num) (condition : Text)
      (value : SqlValue Num) : Type 0 where
    pub symbol : Text
    pub is_symbol : find_op f.operator (symbols f.operand) ≡ ok symbol
    pub is_value : operand_value f.operand ≡ some value
    pub is_text :
        condition
        ≡ compared f.operand (column f.field is_meta)
          ++ b' ' ∷ (symbol ++ b' ' ∷ b':' ∷ placeholder_of f.field is_meta)

  placeholder_lem :
      (field : Text) (is_meta : Bool)
      → sql_field_placeholder (column field is_meta) true is_meta ≡ placeholder_of field is_meta
  unfolding sql_field_placeholder
  placeholder_lem field true = refl
  placeholder_lem field false = refl

  -- What a condition of the operand says.
  pub record IsCompared (operator sql_field placeholder : Text) (o : Operand Num)
      (c : SqlCondition Num) : Type 0 where
    pub symbol : Text
    pub is_symbol : find_op operator (symbols o) ≡ ok symbol
    pub is_value : operand_value o ≡ some c.value
    pub is_placeholder : c.placeholder ≡ placeholder
    pub is_text : c.condition ≡ compared o sql_field ++ b' ' ∷ (symbol ++ b' ' ∷ b':' ∷ placeholder)

  dated :
      (operator sql_field placeholder : Text) (v : Moment Num) (op : DateOp) (c : SqlCondition Num)
      → find_op operator (symbols (date_filter v)) ≡ ok (date_symbol op)
      → sql_date p op v sql_field placeholder ≡ ok c
      → IsCompared operator sql_field placeholder (date_filter v) c
  unfolding sql_date get_sql_date_type
  dated operator sql_field placeholder (aware t) op c found h =
      subst (IsCompared operator sql_field placeholder (date_filter (aware t))) (ok-injective h)
        (record {
          symbol = date_symbol op;
          is_symbol = found;
          is_value = refl;
          is_placeholder = refl;
          is_text = refl;
        })
  dated operator sql_field placeholder (naive t) op c found h =
      subst (IsCompared operator sql_field placeholder (date_filter (naive t))) (ok-injective h)
        (record {
          symbol = date_symbol op;
          is_symbol = found;
          is_value = refl;
          is_placeholder = refl;
          is_text = refl;
        })
  dated operator sql_field placeholder (date d) op c found h = absurd (cc)
  dated operator sql_field placeholder (time d) op c found h = absurd (cc)

  sql_operand-IsCompared :
      (operator sql_field placeholder : Text) (o : Operand Num)
      → Returns
          (IsCompared operator sql_field placeholder o)
          (sql_operand p operator o sql_field placeholder)
  unfolding sql_operand sql_string sql_number_field sql_uuid string_symbol number_symbol uuid_symbol
      date_symbol
  sql_operand-IsCompared operator sql_field placeholder (string_filter v) =
      Returns-bind (find_op operator string_ops) _ λ op found. Returns-ok _ (record {
        symbol = string_symbol op;
        is_symbol = find_op-map string_symbol operator string_ops op found;
        is_value = refl;
        is_placeholder = refl;
        is_text = refl;
      })
  sql_operand-IsCompared operator sql_field placeholder (number_filter v) =
      Returns-bind (find_op operator number_ops) _ λ op found. Returns-ok _ (record {
        symbol = number_symbol op;
        is_symbol = find_op-map number_symbol operator number_ops op found;
        is_value = refl;
        is_placeholder = refl;
        is_text = refl;
      })
  sql_operand-IsCompared operator sql_field placeholder (uuid_filter v) =
      Returns-bind (find_op operator uuid_ops) _ λ op found. Returns-ok _ (record {
        symbol = uuid_symbol op;
        is_symbol = find_op-map uuid_symbol operator uuid_ops op found;
        is_value = refl;
        is_placeholder = refl;
        is_text = refl;
      })
  sql_operand-IsCompared operator sql_field placeholder (date_filter v) =
      Returns-bind (find_op operator date_ops) _ λ op found. record {
        at = λ c h.
            dated operator sql_field placeholder v op c
              (find_op-map date_symbol operator date_ops op found) h;
      }

  pub sql_filter-IsCompared :
      (f : DataFilter Num) (is_meta : Bool) (c : SqlCondition Num)
      → sql_filter p f true is_meta ≡ ok c
      → IsCompared f.operator (column f.field is_meta) (placeholder_of f.field is_meta) f.operand c
  unfolding sql_filter
  sql_filter-IsCompared f is_meta c h =
      subst
        (λ (placeholder : Text).
          IsCompared f.operator (column f.field is_meta) placeholder f.operand c)
        (placeholder_lem f.field is_meta)
        ((sql_operand-IsCompared f.operator (column f.field is_meta) _ f.operand).at c h)

  pub placeholder-sql_filter :
      (f : DataFilter Num) (is_meta : Bool) (c : SqlCondition Num)
      → sql_filter p f true is_meta ≡ ok c
      → c.placeholder ≡ placeholder_of f.field is_meta
  placeholder-sql_filter f is_meta c h = (sql_filter-IsCompared f is_meta c h).is_placeholder
