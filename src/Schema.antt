-- ===== src/Schema.antt =====
-- migrations/*.ts: the tables that the migrations create, as data, and what a column admits by its
-- type. Comments, plain indexes and the engine's options are left out; of a default, only whether
-- there is one.
pub mod Texts
pub mod Migrations
pub mod Values
pub mod Fits
pub mod Stored
mod Tests
use package.text.Mathlib.Text.{◌==◌ as str_eq}
use foosball_api.Prelude.{ℕ, Bool, true, false, ◌&&◌, ◌||◌, String, List, [], ◌∷◌, ltb, leb}
use foosball_api.Schema.Texts.{characters, utf8_bytes}

pub data ColumnType : Type 0 where
  bigint_unsigned tinyint_unsigned tinyint text json datetime : ColumnType
  varchar : ℕ → ColumnType
  enum : List String → ColumnType

pub record Column : Type 0 where
  pub name : String
  pub type : ColumnType
  pub nullable : Bool
  -- a default, or AUTO_INCREMENT
  pub has_default : Bool

pub data OnDelete : Type 0 where
  cascade set_null restrict : OnDelete

pub record ForeignKey : Type 0 where
  pub column : String
  pub table : String
  pub on_delete : OnDelete

-- `CHECK (column BETWEEN low AND high)`
pub record Between : Type 0 where
  pub column : String
  pub low : ℕ
  pub high : ℕ

pub record Table : Type 0 where
  pub name : String
  pub columns : List Column
  pub primary_key : List String
  pub unique_keys : List (List String)
  pub foreign_keys : List ForeignKey
  pub checks : List Between

pub data Statement : Type 0 where
  create_table_if_not_exists : Table → Statement
  drop_table_if_exists : String → Statement

pub record Migration : Type 0 where
  pub up : Statement
  pub down : Statement

abbrev pub not_null : String → ColumnType → Column
not_null name type = record { name = name; type = type; nullable = false; has_default = false }

abbrev pub not_null_default : String → ColumnType → Column
not_null_default name type = record {
  name = name;
  type = type;
  nullable = false;
  has_default = true;
}

-- `NULL DEFAULT NULL`
abbrev pub null_default : String → ColumnType → Column
null_default name type = record { name = name; type = type; nullable = true; has_default = true }

abbrev pub references : String → String → OnDelete → ForeignKey
references column table on_delete = record { column = column; table = table; on_delete = on_delete }

-- what a statement writes into a column; `by_default` where it leaves the column out
pub data Value : Type 0 where
  null by_default object : Value
  number : ℕ → Value
  string : String → Value
  time : ℕ → Value

-- 2 ^ 64
abbrev pub bigint_end : ℕ
bigint_end = 18446744073709551616

abbrev pub member : String → List String → Bool
member x [] = false
member x (y ∷ ys) = str_eq x y || member x ys

abbrev pub enum_admits : List String → Value → Bool
enum_admits xs (string s) = member s xs
enum_admits xs _ = false

abbrev pub number_below : ℕ → Value → Bool
number_below n (number x) = ltb x n
number_below n _ = false

abbrev pub string_within : (String → ℕ) → ℕ → Value → Bool
string_within size n (string s) = leb (size s) n
string_within size n _ = false

abbrev pub is_time : Value → Bool
is_time (time t) = true
is_time _ = false

abbrev pub is_object : Value → Bool
is_object object = true
is_object _ = false

-- a value other than NULL, by the type's range in MySQL
unfoldable pub admits : ColumnType → Value → Bool
unfolding characters utf8_bytes
admits bigint_unsigned v = number_below bigint_end v
admits tinyint_unsigned v = number_below 256 v
admits tinyint v = number_below 128 v
admits text v = string_within utf8_bytes 65535 v
admits json v = is_object v
admits datetime v = is_time v
admits (varchar n) v = string_within characters n v
admits (enum xs) v = enum_admits xs v

unfoldable pub fits : Column → Value → Bool
fits c null = c.nullable
fits c by_default = c.has_default
fits c v = admits c.type v

abbrev pub all_fit : List Column → (String → Value) → Bool
all_fit [] row = true
all_fit (c ∷ cs) row = fits c (row c.name) && all_fit cs row

abbrev pub within : ℕ → ℕ → Value → Bool
within low high (number x) = leb low x && leb x high
within low high _ = true

abbrev pub all_pass : List Between → (String → Value) → Bool
all_pass [] row = true
all_pass (k ∷ ks) row = within k.low k.high (row k.column) && all_pass ks row

-- a row, by the value of each column, is one that the table takes: its columns and its checks
abbrev pub row_fits : Table → (String → Value) → Bool
row_fits t row = all_fit t.columns row && all_pass t.checks row
