-- ===== src/Diff/Tests.antt =====
-- Diffs of two short texts.
use netmantle.Prelude.{◌+◌, ◌≡◌, ◌≤◌, refl, String, false, List, [], ◌∷◌, length}
use netmantle.Diff.Engine.{Edit, delete, add, edits, added, removed, diff}
use netmantle.Diff.Table.{lcs}
use netmantle.Diff.Minimal.{old_lines, new_lines, edits_minimal}

diff_test : diff [] "running-config" "a\nb\nc\n" "a\nc\nd\n" ≡ record {
  unified = "  a\n- b\n  c\n+ d\n";
  added_lines = 1;
  removed_lines = 1;
  identical = false;
}
unfolding diff
diff_test = refl

abbrev before : List String
before = "a" ∷ "b" ∷ "c" ∷ []

abbrev now : List String
now = "a" ∷ "c" ∷ "d" ∷ []

-- A patch that replaces every line.
abbrev rewrite_all : List Edit
rewrite_all = delete "a" ∷ delete "b" ∷ delete "c" ∷ add "a" ∷ add "c" ∷ add "d" ∷ []

edits_minimal_example :
    (removed (edits before now) + lcs before now ≡ length before)
    × (added (edits before now) + lcs before now ≡ length now)
    × (removed (edits before now) ≤ removed rewrite_all)
    × (added (edits before now) ≤ added rewrite_all)
unfolding old_lines new_lines
edits_minimal_example = edits_minimal before now rewrite_all refl refl
