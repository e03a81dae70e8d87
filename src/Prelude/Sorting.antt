-- ===== src/Prelude/Sorting.antt =====
-- Sorting of texts, as `sort.Strings` does it.
use Prim.Native.String.{String, compare}
use text.Mathlib.Text.{is_lt}
use mathlib.Core.List.{List, [], ◌∷◌}
use skyl.Prelude.Tests.{if◌then◌else◌}

unfoldable pub insert_sorted : String → List String → List String
insert_sorted s [] = s ∷ []
insert_sorted s (t ∷ ts) = if is_lt (compare t s) then t ∷ insert_sorted s ts else s ∷ t ∷ ts

unfoldable pub sort_strings : List String → List String
unfolding insert_sorted
sort_strings [] = []
sort_strings (s ∷ ss) = insert_sorted s (sort_strings ss)
