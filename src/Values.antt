-- ===== src/Values.antt =====
-- Go's `any`, as far as messages hold it: what encoding/json decodes to, and the values of database
-- rows. A float64 and an int64 are their 64-bit patterns.
use sblite.Prelude.{ℕ, Text, str_eq, Option, none, some, Bool, if◌then◌else◌}

mutual
  pub data Any : Type 0 where
    nil : Any
    bool : Bool → Any
    int : ℕ → Any
    int64 : ℕ → Any
    float : ℕ → Any
    text : Text → Any
    arr : Items → Any
    obj : Fields → Any

  pub data Items : Type 0 where
    done : Items
    item : Any → Items → Items

  pub data Fields : Type 0 where
    end : Fields
    field : Text → Any → Fields → Fields

-- v, ok := m[k]
unfoldable pub get_field : Text → Fields → Option Any
get_field k end = none
get_field k (field j v m) = if str_eq j k then some v else get_field k m

-- m[k] = v
unfoldable pub set_field : Text → Any → Fields → Fields
set_field k v end = field k v end
set_field k v (field j w m) = if str_eq j k then field k v m else field j w (set_field k v m)

-- The type assertions, on a value that may be absent: an absent one is nil.
unfoldable pub as_text : Option Any → Option Text
as_text (some (text s)) = some s
as_text _ = none

unfoldable pub as_bool : Option Any → Option Bool
as_bool (some (bool b)) = some b
as_bool _ = none

unfoldable pub as_map : Option Any → Option Fields
as_map (some (obj m)) = some m
as_map _ = none

unfoldable pub as_items : Option Any → Option Items
as_items (some (arr vs)) = some vs
as_items _ = none

-- What the code takes from strconv, fmt, strings and from float64 arithmetic: `none` for an error,
-- and numbers as in `Any`.
pub record Conversions : Type 0 where
  pub parse_float : Text → Option ℕ
  pub parse_int : Text → Option ℕ
  pub atoi : Text → Option ℕ
  pub float_of_int : ℕ → ℕ
  pub float_of_int64 : ℕ → ℕ
  pub float_eq : ℕ → ℕ → Bool
  pub float_lt : ℕ → ℕ → Bool
  pub sprint : Any → Text
  pub trim_space : Text → Text
