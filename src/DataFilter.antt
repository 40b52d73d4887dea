-- ===== src/DataFilter.antt =====
-- The filters of byoda/datamodel/datafilter.py on one field: their construction, their comparison of
-- a datum, and their SQL.
pub mod Sql
pub mod Sets
pub mod Select
pub mod Exclude
pub mod Conditions
pub mod Where
pub mod Divergence
use byoda_python.Base.{
  ℕ, ◌+◌, Bool, true, false, ◌&&◌, ◌||◌, not, List, [], ◌∷◌, ◌++◌, Option, none, some, ◌==◌,
  if◌then◌else◌, Result, ok, raise, value_error, key_error, type_error, ◌>>=◌, ◌>>◌, require,
  or_raise,
}
use byoda_python.Text.{Text, codes, text_eq, is_empty, starts_with}
use byoda_python.Text.Uuid.{to_uuid, uuid_text}

-- A `datetime`, by its seconds, with a time zone or without; a `date`; a `time`.
pub data Moment (Num : Type 0) : Type 0 where
  aware naive date time : Num → Moment Num

-- What the code takes from elsewhere: Python's numbers (its floats are no ℕ), `datetime`, `re.match`
-- and `re.escape`, and the parser of `dateutil`.
pub record Platform : Type 1 where
  pub Num : Type 0
  pub num_eq : Num → Num → Bool
  pub num_lt : Num → Num → Bool
  pub num_le : Num → Num → Bool
  pub round5 : Num → Num
  pub of_bool : Bool → Num
  pub local_timestamp : Num → Num
  pub parse_date : Text → Result (Moment Num)
  pub re_match : Text → Text → Bool
  pub re_escape : ℕ → Text

-- The values of the language that reach a filter; `boolean` is a `bool`, and `other` a list, a dict or
-- any other object.
pub data Value (Num : Type 0) : Type 0 where
  null : Value Num
  text : Text → Value Num
  number : Num → Value Num
  boolean : Bool → Value Num
  uuid : ℕ → Value Num
  moment : Moment Num → Value Num
  other : Value Num

-- The subclass of a filter, with its value.
pub data Operand (Num : Type 0) : Type 0 where
  string_filter : Text → Operand Num
  number_filter : Num → Operand Num
  uuid_filter : ℕ → Operand Num
  date_filter : Moment Num → Operand Num

pub record DataFilter (Num : Type 0) : Type 0 where
  pub field : Text
  pub operator : Text
  pub operand : Operand Num

-- What `python_type` of a scalar of the schema says to `DataFilter.create`.
pub data PythonType : Type 0 where
  uuid_type date_type other_type : PythonType

pub data StringOp : Type 0 where
  eq ne vin nin regex glob : StringOp

pub data NumberOp : Type 0 where
  eq ne gt lt egt elt : NumberOp

pub data UuidOp : Type 0 where
  eq ne : UuidOp

pub data DateOp : Type 0 where
  at nat after before atafter atbefore : DateOp

-- `compare_functions[operator]` and `sql_functions[operator]`: the first key that fits.
unfoldable pub find_op {ℓ} : {A : Type ℓ} → Text → List (Text × A) → Result A
unfolding text_eq
find_op operator [] = raise key_error
find_op operator ((key, op) ∷ ops) = if text_eq operator key then ok op else find_op operator ops

abbrev pub string_ops : List (Text × StringOp)
string_ops =
    (codes "eq", StringOp.eq)
    ∷ (codes "ne", StringOp.ne)
    ∷ (codes "vin", StringOp.vin)
    ∷ (codes "nin", StringOp.nin)
    ∷ (codes "regex", StringOp.regex)
    ∷ (codes "glob", StringOp.glob)
    ∷ []

abbrev pub number_ops : List (Text × NumberOp)
number_ops =
    (codes "eq", NumberOp.eq)
    ∷ (codes "ne", NumberOp.ne)
    ∷ (codes "gt", NumberOp.gt)
    ∷ (codes "lt", NumberOp.lt)
    ∷ (codes "egt", NumberOp.egt)
    ∷ (codes "elt", NumberOp.elt)
    ∷ []

abbrev pub uuid_ops : List (Text × UuidOp)
uuid_ops = (codes "eq", UuidOp.eq) ∷ (codes "ne", UuidOp.ne) ∷ []

abbrev pub date_ops : List (Text × DateOp)
date_ops =
    (codes "at", DateOp.at)
    ∷ (codes "nat", DateOp.nat)
    ∷ (codes "after", DateOp.after)
    ∷ (codes "before", DateOp.before)
    ∷ (codes "atafter", DateOp.atafter)
    ∷ (codes "atbefore", DateOp.atbefore)
    ∷ []

-- `part in whole` for two texts.
unfoldable pub includes : Text → Text → Bool
unfolding starts_with
includes [] part = starts_with [] part
includes (c ∷ whole) part = starts_with (c ∷ whole) part || includes whole part

module _ (p : Platform) where
  open p use {Num, num_eq, num_lt, num_le, of_bool, parse_date, re_match, re_escape}

  -- The constructor of `UuidDataFilter`: an empty value is refused, a text is parsed.
  unfoldable pub new_uuid : Value Num → Result (Operand Num)
  new_uuid (uuid u) = ok (uuid_filter u)
  new_uuid (text []) = raise value_error
  new_uuid (text (c ∷ s)) = do u ← to_uuid (c ∷ s); ok (uuid_filter u)
  new_uuid _ = raise value_error

  -- The constructor of `DateTimeDataFilter`; a `bool` is an `int`.
  unfoldable pub new_date : Value Num → Result (Operand Num)
  new_date (text s) = do m ← parse_date s; ok (date_filter m)
  new_date (number n) = ok (date_filter (aware n))
  new_date (boolean b) = ok (date_filter (aware (of_bool b)))
  new_date (moment m) = ok (date_filter m)
  new_date _ = raise value_error

  -- The choice by the value alone.
  unfoldable pub new_by_value : Value Num → Result (Operand Num)
  unfolding new_uuid new_date
  new_by_value (uuid u) = new_uuid (uuid u)
  new_by_value (moment m) = new_date (moment m)
  new_by_value (text s) = ok (string_filter s)
  new_by_value (number n) = ok (number_filter n)
  new_by_value _ = raise value_error

  abbrev is_uuid : Value Num → Bool
  is_uuid (uuid u) = true
  is_uuid _ = false

  -- The choice of the subclass: by the schema's type first, then by the value.
  unfoldable pub new_operand : Option PythonType → Value Num → Result (Operand Num)
  unfolding new_by_value
  new_operand none value = new_by_value value
  new_operand (some uuid_type) value = new_uuid value
  new_operand (some date_type) value = if is_uuid value then new_uuid value else new_date value
  new_operand (some other_type) value = new_by_value value

  -- `DataFilter.create`
  unfoldable pub create : Text → Text → Value Num → Option PythonType → Result (DataFilter Num)
  unfolding new_operand
  create field operator value data_class = do
    operand ← new_operand data_class value
    ok (record { field = field; operator = operator; operand = operand })

  -- `_glob2regex`
  glob_items : Text → Text
  glob_items [] = codes "$"
  glob_items (c ∷ s) =
      let rest = glob_items s in
      if c == b'*'
      then codes ".*" ++ rest
      else if c == b'?'
      then b'.' ∷ rest
      else re_escape c ++ rest

  unfoldable pub glob2regex : Text → Text
  unfolding glob_items
  glob2regex value = b'^' ∷ glob_items value

  unfoldable pub compare_text : StringOp → Text → Text → Bool
  unfolding text_eq includes glob2regex
  compare_text StringOp.eq value s = text_eq s value
  compare_text StringOp.ne value s = not (text_eq s value)
  compare_text StringOp.vin value s = includes value s
  compare_text StringOp.nin value s = not (includes value s)
  compare_text StringOp.regex value s = re_match value s
  compare_text StringOp.glob value s = re_match (glob2regex value) s

  -- The comparison of `StringDataFilter`.
  unfoldable pub compare_string : StringOp → Text → Value Num → Result Bool
  unfolding compare_text
  compare_string op value (text s) = ok (compare_text op value s)
  compare_string op value _ = raise value_error

  -- The comparison of `NumberDataFilter`; `elt` tests `<`.
  unfoldable pub compare_num : NumberOp → Num → Num → Bool
  compare_num NumberOp.eq value n = num_eq n value
  compare_num NumberOp.ne value n = not (num_eq n value)
  compare_num NumberOp.gt value n = num_lt value n
  compare_num NumberOp.lt value n = num_lt n value
  compare_num NumberOp.egt value n = num_le value n
  compare_num NumberOp.elt value n = num_lt n value

  unfoldable pub compare_number : NumberOp → Num → Value Num → Result Bool
  unfolding compare_num
  compare_number op value (number n) = ok (compare_num op value n)
  compare_number op value _ = raise value_error

  -- The comparison of `UuidDataFilter`; only `eq` takes a text.
  unfoldable pub compare_uuid : UuidOp → ℕ → Value Num → Result Bool
  compare_uuid UuidOp.eq value (uuid u) = ok (u == value)
  compare_uuid UuidOp.eq value (text s) = do u ← to_uuid s; ok (u == value)
  compare_uuid UuidOp.ne value (uuid u) = ok (not (u == value))
  compare_uuid _ value _ = raise value_error

  -- `_adapt_date_type`: for a text it calls `isinstance` with one argument, a TypeError.
  unfoldable pub adapt_date_type : Value Num → Result (Moment Num)
  adapt_date_type (text s) = raise type_error
  adapt_date_type (number n) = ok (aware n)
  adapt_date_type (moment m) = ok m
  adapt_date_type _ = raise value_error

  -- `a == b`: values of different classes, or a zone on one side only, are not equal.
  abbrev pub moment_eq : Moment Num → Moment Num → Bool
  moment_eq (aware a) (aware b) = num_eq a b
  moment_eq (naive a) (naive b) = num_eq a b
  moment_eq (date a) (date b) = num_eq a b
  moment_eq (time a) (time b) = num_eq a b
  moment_eq _ _ = false

  -- An order between values of different classes, or with a zone on one side only, is a TypeError.
  abbrev pub moment_order : (Num → Num → Bool) → Moment Num → Moment Num → Result Bool
  moment_order test (aware a) (aware b) = ok (test a b)
  moment_order test (naive a) (naive b) = ok (test a b)
  moment_order test (date a) (date b) = ok (test a b)
  moment_order test (time a) (time b) = ok (test a b)
  moment_order test _ _ = raise type_error

  unfoldable pub compare_moment : DateOp → Moment Num → Moment Num → Result Bool
  compare_moment DateOp.at value m = ok (moment_eq m value)
  compare_moment DateOp.nat value m = ok (not (moment_eq m value))
  compare_moment DateOp.after value m = moment_order num_lt value m
  compare_moment DateOp.before value m = moment_order num_lt m value
  compare_moment DateOp.atafter value m = moment_order num_le value m
  compare_moment DateOp.atbefore value m = moment_order num_le m value

  -- The comparison of `DateTimeDataFilter`.
  unfoldable pub compare_date : DateOp → Moment Num → Value Num → Result Bool
  unfolding adapt_date_type compare_moment
  compare_date op value v = do m ← adapt_date_type v; compare_moment op value m

  -- `DataFilter.compare`
  unfoldable pub compare_operand : Text → Operand Num → Value Num → Result Bool
  unfolding find_op compare_string compare_number compare_uuid compare_date
  compare_operand operator (string_filter value) v = do
    op ← find_op operator string_ops
    compare_string op value v
  compare_operand operator (number_filter value) v = do
    op ← find_op operator number_ops
    compare_number op value v
  compare_operand operator (uuid_filter value) v = do
    op ← find_op operator uuid_ops
    compare_uuid op value v
  compare_operand operator (date_filter value) v = do
    op ← find_op operator date_ops
    compare_date op value v

  unfoldable pub compare : DataFilter Num → Value Num → Result Bool
  unfolding compare_operand
  compare f v = compare_operand f.operator f.operand v
