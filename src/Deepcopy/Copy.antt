-- ===== src/Deepcopy/Copy.antt =====
-- helper/deepcopy/deepcopy.go: a copy is the map itself, or there is none.
use fireactions.Prelude.{
  Text, ◌≡◌, refl, ap, ◌∙◌, Bool, true, false, ◌&&◌, none, some, if◌then◌else◌, arith,
}
use fireactions.Deepcopy.{
  Value, Table, null, bool, int, float, timestamp, string, ints, sequence, table, mixed, no_entries,
  entry, kept_entry, copy_value, copy_map,
}

-- No []interface{}, no timestamp and no map with other keys stands anywhere in the value.
unfoldable mutual
  pub is_plain_value : Value → Bool
  is_plain_value (timestamp n) = false
  is_plain_value (sequence vs) = false
  is_plain_value (mixed ks vs) = false
  is_plain_value (table t) = is_plain t
  is_plain_value _ = true

  pub is_plain : Table → Bool
  is_plain no_entries = true
  is_plain (entry k v t) = is_plain_value v && is_plain t

kept_if :
    (k : Text) (v : Value) (t : Table) (a b : Bool)
    → kept_entry k (if a then some v else none) (if b then some t else none)
      ≡ (if a && b then some (entry k v t) else none)
kept_if k v t true true = refl
kept_if k v t true false = refl
kept_if k v t false b = refl

mutual
  unfolding copy_value is_plain_value

  copies_value : (v : Value) → copy_value v ≡ (if is_plain_value v then some v else none)
  copies_value null = refl
  copies_value (bool b) = refl
  copies_value (int n) = refl
  copies_value (float n) = refl
  copies_value (timestamp n) = refl
  copies_value (string s) = refl
  copies_value (ints ns) = refl
  copies_value (sequence vs) = refl
  copies_value (mixed ks vs) = refl
  copies_value (table t) = ground (arith, copies_map t)

  copies_map : (t : Table) → copy_map t ≡ (if is_plain t then some t else none)
  copies_map no_entries = refl
  copies_map (entry k v t) =
      ap (λ x. kept_entry k x (copy_map t)) (copies_value v)
      ∙ ap (kept_entry k (if is_plain_value v then some v else none)) (copies_map t)
      ∙ kept_if k v t (is_plain_value v) (is_plain t)

-- Map gives a map that is equal to its argument where no []interface{}, no timestamp and no map with keys
-- other than strings stands in it at any depth, and panics where one does.
pub copy_map_lem : (t : Table) → copy_map t ≡ (if is_plain t then some t else none)
copy_map_lem = copies_map
