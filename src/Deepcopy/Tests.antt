-- ===== src/Deepcopy/Tests.antt =====
-- The caller's metadata with and without a list.
use fireactions.Prelude.{codes, ◌≡◌, refl, pos, none, some, [], ◌∷◌}
use fireactions.Deepcopy.{
  Table, no_entries, entry, table, int, string, ints, sequence, with_value, no_values, copy_map,
}

abbrev plain : Table
plain = entry (codes "limits") (table (entry (codes "cpus") (int (pos 2)) no_entries)) no_entries

abbrev listed : Table
listed =
    entry (codes "tags")
      (table
        (entry (codes "all") (sequence (with_value (string (codes "ci")) no_values)) no_entries))
      plain

copies : copy_map plain ≡ some plain
unfolding copy_map
copies = refl

panics : copy_map listed ≡ none
unfolding copy_map
panics = refl

-- The map of deepcopy_test.go.
abbrev original : Table
original = entry (codes "key1") (string (codes "value1")) (
    entry (codes "key2") (int (pos 42)) (
      entry (codes "key3") (ints (pos 1 ∷ pos 2 ∷ pos 3 ∷ [])) (
        entry (codes "key4")
          (table (entry (codes "nestedKey1") (string (codes "nestedValue1")) no_entries))
          no_entries)))

copies_original : copy_map original ≡ some original
unfolding copy_map
copies_original = refl
