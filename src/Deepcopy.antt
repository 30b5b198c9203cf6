-- ===== src/Deepcopy.antt =====
-- helper/deepcopy/deepcopy.go: Map, a copy by way of encoding/gob, for the values that yaml.v3 puts into
-- a map[string]interface{}, and for lists of one basic type. gob encodes a value in an interface only where
-- its type is registered: the basic types and their lists, such as []int, are, and init registers
-- map[string]interface{}; lists of anything ([]interface{}), which is what yaml.v3 makes of every list, maps
-- with other keys (map[interface{}]interface{}) and timestamps (time.Time) are not.
pub mod Copy
pub mod Tests
use fireactions.Prelude.{Text, ℕ, ◌≡◌, Bool, true, false, ◌&&◌, List, Option, none, some, ℤ}

mutual
  pub data Value : Type 0 where
    null : Value
    bool : Bool → Value
    int : ℤ → Value
    float timestamp : ℕ → Value
    string : Text → Value
    ints : List ℤ → Value
    sequence : Values → Value
    table : Table → Value
    mixed : Values → Values → Value

  pub data Values : Type 0 where
    no_values : Values
    with_value : Value → Values → Values

  -- map[string]interface{}, in some order.
  pub data Table : Type 0 where
    no_entries : Table
    entry : Text → Value → Table → Table

abbrev kept_table : Option Table → Option Value
kept_table none = none
kept_table (some t) = some (table t)

abbrev kept_entry : Text → Option Value → Option Table → Option Table
kept_entry k none t = none
kept_entry k (some v) none = none
kept_entry k (some v) (some t) = some (entry k v t)

-- What Decode gives of what Encode has written; `none` is the panic on Encode's error.
unfoldable mutual
  pub copy_value : Value → Option Value
  copy_value null = some null
  copy_value (bool b) = some (bool b)
  copy_value (int n) = some (int n)
  copy_value (float n) = some (float n)
  copy_value (string s) = some (string s)
  copy_value (ints ns) = some (ints ns)
  copy_value (timestamp n) = none
  copy_value (sequence vs) = none
  copy_value (mixed ks vs) = none
  copy_value (table t) = kept_table (copy_map t)

  pub copy_map : Table → Option Table
  copy_map no_entries = some no_entries
  copy_map (entry k v t) = kept_entry k (copy_value v) (copy_map t)
