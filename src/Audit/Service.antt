-- ===== src/Audit/Service.antt =====
-- The methods of Service in internal/audit/audit.go, and the rows of audit_log. The operator LIKE of
-- SQLite is a parameter of the text and the pattern. A zero time in a filter is `none`. The second
-- parse of a time, for older rows, is not modelled: every row here holds seconds.
use Prim.Native.String.{◌++◌ as join_text}
use mathlib.Core.List.{reverse}
use netmantle.Prelude.{
  ℕ, ◌==◌, ◌||◌, ◌&&◌, Bool, true, false, not, Option, none, some, List, [], ◌∷◌, ◌++◌, map, ℤ, pos,
  negsuc, id_eq, positive, String, str_eq, leb, ltb, if◌then◌else◌, filter, take, drop,
}
use netmantle.Db.{
  Db, Table, insert, exec_insert, query, now, pure, ignore, ◌>>=◌, format_time, parse_time,
  nullable_str, coalesce,
}

pub record Row : Type 0 where
  pub id : ℤ
  pub tenant_id : Option ℤ
  pub user_id : Option ℤ
  pub actor_user_id : Option ℤ
  pub action : String
  pub target : Option String
  pub detail : Option String
  pub source : Option String
  pub request_id : Option String
  pub created_at : ℕ

pub record Entry : Type 0 where
  pub id : ℤ
  pub tenant_id : Option ℤ
  pub actor_user_id : Option ℤ
  pub action : String
  pub target : String
  pub detail : String
  pub source : String
  pub request_id : String
  pub created_at : ℕ

-- Zero and less are written as NULL.
unfoldable pub nullable_id : ℤ → Option ℤ
nullable_id i = if positive i then some i else none

unfoldable pub row_of : ℤ → ℤ → String → String → String → String → String → ℕ → ℤ → Row
unfolding nullable_id nullable_str
row_of tenant actor request source action target detail at i = record {
  id = i;
  tenant_id = nullable_id tenant;
  user_id = nullable_id actor;
  actor_user_id = nullable_id actor;
  action = action;
  target = some target;
  detail = some detail;
  source = some source;
  request_id = nullable_str request;
  created_at = at;
}

-- `set` is false for a service without a database.
unfoldable pub record_with_request :
    Bool → ℤ → ℤ → String → String → String → String → String → Db (Table Row) (Unit {0})
unfolding row_of insert
record_with_request set tenant actor request source action target detail =
    if not set then pure tt else do
      t ← now
      ignore (
          exec_insert
            (insert (row_of tenant actor request source action target detail (format_time t))))

unfoldable pub record_entry :
    Bool → ℤ → ℤ → String → String → String → String → Db (Table Row) (Unit {0})
record_entry set tenant actor source action target detail =
    record_with_request set tenant actor "" source action target detail

pub record ListFilter : Type 0 where
  pub tenant_id : ℤ
  pub actor_user_id : ℤ
  pub action : String
  pub target : String
  pub request_id : String
  pub since : Option ℕ
  pub until : Option ℕ
  pub limit : ℤ
  pub offset : ℤ

-- A comparison with NULL is not true.
unfoldable pub holds : {A : Type 0} → (A → Bool) → Option A → Bool
holds p none = false
holds p (some a) = p a

-- A condition that is appended to WHERE only if its field of the filter is set.
unfoldable pub clause : Bool → (Row → Bool) → List (Row → Bool)
clause set p = if set then p ∷ [] else []

unfoldable pub filled : String → Bool
filled s = if str_eq s "" then false else true

unfoldable pub time_clause : Option ℕ → (ℕ → ℕ → Bool) → List (Row → Bool)
unfolding clause format_time
time_clause none p = []
time_clause (some t) p = clause true (λ r. p (format_time t) r.created_at)

unfoldable pub all_hold : List (Row → Bool) → Row → Bool
all_hold [] r = true
all_hold (p ∷ ps) r = p r && all_hold ps r

-- limit <= 0 || limit > 500
unfoldable pub page_size : ℤ → ℕ
page_size (pos n) = if n == 0 || ltb 500 n then 100 else n
page_size (negsuc _) = 100

-- OFFSET: a negative one counts as zero.
unfoldable pub rows_skipped : ℤ → ℕ
rows_skipped (pos n) = n
rows_skipped (negsuc _) = 0

unfoldable pub scan_entry : Row → Entry
unfolding coalesce parse_time
scan_entry r = record {
  id = r.id;
  tenant_id = r.tenant_id;
  actor_user_id = r.actor_user_id;
  action = r.action;
  target = coalesce r.target;
  detail = coalesce r.detail;
  source = coalesce r.source;
  request_id = coalesce r.request_id;
  created_at = parse_time r.created_at;
}

module _ (like : String → String → Bool) where
  unfoldable pub by_time : ListFilter → List (Row → Bool)
  unfolding time_clause
  by_time f =
      time_clause f.since (λ bound at. leb bound at)
      ++ time_clause f.until (λ bound at. leb at bound)

  unfoldable pub by_request : ListFilter → List (Row → Bool)
  unfolding clause holds filled
  by_request f =
      clause (filled f.request_id) (λ r. holds (λ s. str_eq s f.request_id) r.request_id)
      ++ by_time f

  unfoldable pub has_target : ListFilter → Row → Bool
  unfolding holds
  has_target f r = holds (λ s. like s (join_text "%" (join_text f.target "%"))) r.target

  unfoldable pub by_target : ListFilter → List (Row → Bool)
  unfolding clause filled
  by_target f = clause (filled f.target) (has_target f) ++ by_request f

  unfoldable pub by_action : ListFilter → List (Row → Bool)
  unfolding clause filled
  by_action f = clause (filled f.action) (λ r. str_eq r.action f.action) ++ by_target f

  unfoldable pub by_actor : ListFilter → List (Row → Bool)
  unfolding clause holds
  by_actor f =
      clause (positive f.actor_user_id) (λ r. holds (λ i. id_eq i f.actor_user_id) r.actor_user_id)
      ++ by_action f

  unfoldable pub conditions : ListFilter → List (Row → Bool)
  unfolding clause holds
  conditions f =
      clause (positive f.tenant_id) (λ r. holds (λ i. id_eq i f.tenant_id) r.tenant_id)
      ++ by_actor f

  -- ORDER BY id DESC LIMIT ? OFFSET ?
  unfoldable pub select : ListFilter → List Row → List Row
  unfolding all_hold conditions page_size rows_skipped
  select f rows =
      take (page_size f.limit)
        (drop (rows_skipped f.offset) (reverse (filter (all_hold (conditions f)) rows)))

  unfoldable pub list : ListFilter → Db (Table Row) (List Entry)
  unfolding select scan_entry
  list f = do rows ← query (λ s. select f s.rows); pure (map scan_entry rows)
