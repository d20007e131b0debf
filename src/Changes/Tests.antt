-- ===== src/Changes/Tests.antt =====
-- A device whose configuration gained a line.
use netmantle.Prelude.{
  Option, ◌≡◌, ◌≢◌, refl, true, none, some, [], ◌∷◌, ◌*◌, ℤ, pos, id_eq, String, str_eq, str_eq_iff,
  arith, if◌then◌else◌, find_first, sort_by,
}
use netmantle.Db.{ok, empty_table, second}
use netmantle.Db.Samples.{calm}
use netmantle.Db.Keys.{IsKeyed}
use netmantle.Diff.Engine.{
  diff, unified, edits, walk, lcs_table, lcs_row, zeros, lines_of, added, removed,
}
use netmantle.Diff.Engine as Engine
use netmantle.Fleet.Tables.{Device, VersionRow}
use netmantle.Fleet.History.{version_of, first_of}
use mathlib.Core.Option.{some_inj}
use netmantle.Changes.Service.{
  EventRow, Event, Store, Reader, previous, old_body, compare_versions, store_change, insert_event,
  record_change, change_diff, device_has, made,
}
use netmantle.Changes.Feed.{change_diff-record_change}

abbrev router : Device
router = record {
  id = pos 1;
  tenant_id = pos 1;
  hostname = "r1";
  address = "10.0.0.1";
  port = pos 22;
  driver = "cisco_ios";
  group_id = none;
  credential_id = none;
  created_at = 900;
}

abbrev version : ℤ → String → VersionRow
version i sha = record {
  id = i;
  device_id = pos 1;
  artifact = "running-config";
  commit_sha = sha;
  size_bytes = 1;
  created_at = 950;
}

abbrev two : Store
two = record {
  devices = router ∷ [];
  versions = version (pos 1) "c1" ∷ version (pos 2) "c2" ∷ [];
  events = empty_table;
}

abbrev shelf : Reader
shelf tenant device artifact sha = if str_eq sha "c1" then ok "a" else ok "b"

abbrev seen : Engine.Result
seen = diff [] "running-config" "a" "b"

abbrev event : Event
event = made (pos 1) "running-config" (some "c1") "c2" seen (1000 * second) (pos 1)

recorded :
    (record_change shelf [] (pos 1) (pos 1) "running-config" "c2" (calm two)).0 ≡ ok (some event)
unfolding record_change compare_versions previous store_change old_body version_of first_of sort_by
    id_eq diff insert_event made
recorded = refl

c1_named : previous (pos 1) "running-config" "c2" two.versions ≢ some ""
unfolding previous version_of first_of sort_by id_eq
c1_named e = let no : str_eq "c1" "" ≡ true = (str_eq_iff "c1" "").1 (some_inj.0 e) in ground arith

events-IsKeyed : IsKeyed (λ (r : EventRow). r.id) two.events
events-IsKeyed = record { unique = tt; below = tt }

owner_there : find_first (device_has (pos 1)) two.devices ≡ some router
unfolding find_first device_has id_eq
owner_there = refl

change_diff-record_change_example :
    (body : String) × (shelf (pos 1) (pos 1) "running-config" "c2" ≡ ok body)
    × ((change_diff shelf [] (pos 1) event.id (
          calm (record_change shelf [] (pos 1) (pos 1) "running-config" "c2" (calm two)).1.store)).0
        ≡ ok
            (diff [] "running-config"
              (old_body shelf
                (pos 1)
                (pos 1)
                "running-config"
                (previous (pos 1) "running-config" "c2" two.versions))
              body).unified)
change_diff-record_change_example =
    change_diff-record_change shelf [] (pos 1) (pos 1) "running-config" "c2" (calm two)
      (calm (record_change shelf [] (pos 1) (pos 1) "running-config" "c2" (calm two)).1.store) event
      router events-IsKeyed c1_named recorded refl refl refl owner_there refl
