-- ===== src/Mysql/Params.antt =====
-- The parameters of a statement: Sqlparam and makeparam of MysqlDB, and the loop that binds them.
use learn_git.Base.{
  [], some, List, Bytes, ◌≡◌, Option, map, length, ◌∷◌, false, ℕ, Bool, none, refl,
}
use learn_git.Mysql.Library.{
  FieldType, type_string, type_long, type_bool, type_float, type_double, type_longlong, Value, text,
  int, long, flag, float, double, Bind,
}
use learn_git.Config.Text.{ℤ, pos}

pub data SqlType : Type 0 where
  int_param string_param long_param double_param bool_param float_param : SqlType

pub record Sqlparam : Type 0 where
  pub type : SqlType
  pub int_val : ℤ
  pub string_val : Bytes
  pub long_val : ℤ
  pub double_val : ℕ
  pub bool_val : Bool
  pub float_val : ℕ

-- `Sqlparam p{}`.
abbrev empty_param : Sqlparam
empty_param = record {
  type = int_param;
  int_val = pos 0;
  string_val = [];
  long_val = pos 0;
  double_val = 0;
  bool_val = false;
  float_val = 0;
}

-- One clause for each overload.
unfoldable pub makeparam : Value → Sqlparam
makeparam (text v) = record empty_param { type = string_param; string_val = v }
makeparam (int v) = record empty_param { type = int_param; int_val = v }
makeparam (long v) = record empty_param { type = long_param; long_val = v }
makeparam (float v) = record empty_param { type = float_param; float_val = v }
makeparam (flag v) = record empty_param { type = bool_param; bool_val = v }
makeparam (double v) = record empty_param { type = double_param; double_val = v }

-- The switch of the binding loop.
abbrev bind_as : Sqlparam → SqlType → Bind
bind_as p string_param = record {
  buffer_type = type_string;
  buffer = text p.string_val;
  length = some (length p.string_val);
}
bind_as p int_param = record { buffer_type = type_long; buffer = int p.int_val; length = none }
bind_as p bool_param = record { buffer_type = type_bool; buffer = flag p.bool_val; length = none }
bind_as p float_param = record {
  buffer_type = type_float;
  buffer = float p.float_val;
  length = none;
}
bind_as p double_param = record {
  buffer_type = type_double;
  buffer = double p.double_val;
  length = none;
}
bind_as p long_param = record {
  buffer_type = type_longlong;
  buffer = long p.long_val;
  length = none;
}

unfoldable pub bind_each : List Sqlparam → List Bind
bind_each [] = []
bind_each (p ∷ ps) = bind_as p p.type ∷ bind_each ps

-- The MySQL type of a C++ argument.
abbrev pub type_of : Value → FieldType
type_of (text v) = type_string
type_of (int v) = type_long
type_of (long v) = type_longlong
type_of (flag v) = type_bool
type_of (float v) = type_float
type_of (double v) = type_double

abbrev pub length_of : Value → Option ℕ
length_of (text v) = some (length v)
length_of _ = none

-- An argument as it should be bound.
abbrev pub bound : Value → Bind
bound v = record { buffer_type = type_of v; buffer = v; length = length_of v }

bind_as-makeparam : (v : Value) → bind_as (makeparam v) (makeparam v).type ≡ bound v
unfolding makeparam
bind_as-makeparam (text v) = refl
bind_as-makeparam (int v) = refl
bind_as-makeparam (long v) = refl
bind_as-makeparam (flag v) = refl
bind_as-makeparam (float v) = refl
bind_as-makeparam (double v) = refl

-- The parameters that are made of arguments are bound as the arguments should be.
pub bind_each-makeparam : (vs : List Value) → bind_each (map makeparam vs) ≡ map bound vs
unfolding bind_each
bind_each-makeparam [] = refl
bind_each-makeparam (v ∷ vs) = rw (bind_as-makeparam v, bind_each-makeparam vs) refl
