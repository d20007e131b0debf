-- ===== src/Audit/Tests.antt =====
-- A log of three entries of two tenants.
use netmantle.Prelude.{
  ◌≡◌, ◌↔◌, refl, Bool, true, false, none, some, [], ◌∷◌, map, ℤ, pos, id_eq, positive, String,
  arith, filter,
}
use mathlib.Core.List.{reverse}
use netmantle.Db.{Table, ok}
use netmantle.Db.Samples.{calm}
use netmantle.Audit.Service.{Row, ListFilter, row_of, scan_entry, holds}
use netmantle.Audit.Filters.{Matches, holds_id}
use netmantle.Audit.Paging.{read_pages, read_pages_lem}

-- A LIKE that no text satisfies; the filters below leave the target empty.
abbrev never : String → String → Bool
never s pattern = false

abbrev entry : ℤ → ℤ → Row
entry i tenant = row_of tenant (pos 7) "" "api" "login" "u" "" 900 i

abbrev log : Table Row
log = record {
  rows = entry (pos 1) (pos 1) ∷ entry (pos 2) (pos 2) ∷ entry (pos 3) (pos 1) ∷ [];
  next_id = 4;
}

abbrev all_entries : ListFilter
all_entries = record {
  tenant_id = pos 0;
  actor_user_id = pos 0;
  action = "";
  target = "";
  request_id = "";
  since = none;
  until = none;
  limit = pos 0;
  offset = pos 0;
}

abbrev of_first : ListFilter
of_first = record all_entries { tenant_id = pos 1 }

abbrev first_tenant : Row → Bool
first_tenant r = holds (λ i. id_eq i (pos 1)) r.tenant_id

only_tenant : (r : Row) → r.tenant_id ≡ some (pos 1) → Matches never of_first r
unfolding positive
only_tenant r h = record {
  tenant = λ _. h;
  actor = λ e. absurd (ground arith);
  action = λ e. absurd (e refl);
  target = λ e. absurd (e refl);
  request = λ e. absurd (e refl);
  since = λ t e. absurd (ground arith);
  until = λ t e. absurd (ground arith);
}

asks_tenant : (r : Row) → (first_tenant r ≡ true) ↔ Matches never of_first r
unfolding positive
asks_tenant r = (
  λ h. only_tenant r ((holds_id (pos 1) r.tenant_id).0 h),
  λ m. (holds_id (pos 1) r.tenant_id).1 (m.tenant refl),
)

-- Two pages of two entries.
read_pages_lem_example :
    (read_pages never of_first 2 0 2 (calm log)).0
    ≡ ok (map scan_entry (reverse (filter first_tenant log.rows)))
read_pages_lem_example =
    read_pages_lem never of_first 2 2 (calm log) first_tenant asks_tenant (omega arith)
      (omega arith) (omega arith) (λ m. refl)
