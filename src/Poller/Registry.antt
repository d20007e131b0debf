-- ===== src/Poller/Registry.antt =====
-- internal/poller/poller.go: the methods of `Service`. The token that is drawn is an argument.
use netmantle.Prelude.{
  ℕ, String, Bool, true, false, not, ◌&&◌, ◌||◌, Option, none, some, List, [], ◌∷◌, map, ℤ, id_eq,
  str_eq, if◌then◌else◌, find_first, filter, update_where,
}
use netmantle.Prelude.Text.{text_leb}
use netmantle.Db.{
  Db, insert, update, exec, exec_insert_unique, query, now, pure, fail, ignore, some_or, ◌>>=◌,
  ◌>>◌, format_time, parse_time, scan_time, invalid_input, no_rows, rand_failed, hash_failed,
  invalid_token,
}
use netmantle.Bcrypt.{Bcrypt}
use netmantle.Poller.Rows.{JobRow, PollerRow, Store}

-- Times are nanoseconds; the zero `LastSeen` is `none`.
pub record Poller : Type 0 where
  pub id : ℤ
  pub tenant_id : ℤ
  pub zone : String
  pub name : String
  pub last_seen : Option ℕ
  pub created_at : ℕ

-- WHERE tenant_id=? AND name=?, which is UNIQUE
abbrev pub named : ℤ → String → PollerRow → Bool
named tenant name p = id_eq p.tenant_id tenant && str_eq p.name name

unfoldable pub poller_row : ℤ → String → String → String → ℕ → ℤ → PollerRow
poller_row tenant zone name hash at i = record {
  id = i;
  tenant_id = tenant;
  zone = zone;
  name = name;
  token_hash = hash;
  last_seen = none;
  created_at = at;
}

unfoldable pub insert_poller : ℤ → String → (ℤ → PollerRow) → Store → Option (ℤ × Store)
unfolding insert
insert_poller tenant name row s = elim (find_first (named tenant name) s.pollers.rows) [
  | some _ ↦ none
  | none ↦ let (i, t) = insert row s.pollers in some (i, record s { pollers = t })
]

unfoldable pub touch_poller : ℤ → ℕ → Store → ℕ × Store
unfolding update
touch_poller i at s =
    let (n, t) =
      update (λ (p : PollerRow). id_eq p.id i) (λ p. record p { last_seen = some at }) s.pollers in
    (n, record s { pollers = t })

unfoldable pub scan_poller : PollerRow → Poller
unfolding scan_time parse_time
scan_poller p = record {
  id = p.id;
  tenant_id = p.tenant_id;
  zone = p.zone;
  name = p.name;
  last_seen = scan_time p.last_seen;
  created_at = parse_time p.created_at;
}

insert_sorted : PollerRow → List PollerRow → List PollerRow
unfolding text_leb
insert_sorted p [] = p ∷ []
insert_sorted p (q ∷ qs) =
    let rest = insert_sorted p qs in
    if str_eq p.zone q.zone
    then if text_leb p.name q.name then p ∷ q ∷ qs else q ∷ rest
    else if text_leb p.zone q.zone
    then p ∷ q ∷ qs
    else q ∷ rest

-- ORDER BY zone, name
by_zone : List PollerRow → List PollerRow
unfolding insert_sorted
by_zone [] = []
by_zone (p ∷ ps) = insert_sorted p (by_zone ps)

unfoldable pub list_pollers : ℤ → Db Store (List Poller)
unfolding by_zone
list_pollers tenant = do
  rows ← query (λ s. by_zone (filter (λ (p : PollerRow). id_eq p.tenant_id tenant) s.pollers.rows))
  pure (map scan_poller rows)

-- The jobs of a deleted poller lose it: ON DELETE SET NULL.
unfoldable pub delete_poller : ℤ → ℤ → Db Store Unit
delete_poller tenant i = exec (λ s.
    let gone : PollerRow → Bool = λ p. id_eq p.tenant_id tenant && id_eq p.id i in
    let lost : JobRow → Bool = λ j. elim j.poller_id [
      | none ↦ false
      | some p ↦ elim (find_first (λ (q : PollerRow). gone q && id_eq q.id p) s.pollers.rows) [
        | none ↦ false
        | some _ ↦ true
      ]
    ] in
    (
      tt,
      record s {
        pollers = record (s.pollers) { rows = filter (λ p. not (gone p)) s.pollers.rows };
        jobs = record (s.jobs) {
          rows = update_where lost (λ j. record j { poller_id = none }) s.jobs.rows;
        };
      },
    ))

module _ (bcrypt : Bcrypt) where
  unfoldable pub register :
      ℤ → String → String → Option String → String → Db Store (Poller × String)
  unfolding insert_poller
  register tenant zone name random salt =
      if str_eq name "" || str_eq zone "" then fail invalid_input else elim random [
        | none ↦ fail rand_failed
        | some token ↦ elim (bcrypt.hash salt token) [
          | none ↦ fail hash_failed
          | some h ↦ do
            t ← now
            i ←
                exec_insert_unique
                  (insert_poller tenant name (poller_row tenant zone name h (format_time t)))
            pure (
              record {
                id = i;
                tenant_id = tenant;
                zone = zone;
                name = name;
                last_seen = none;
                created_at = t;
              },
              token,
            )
        ]
      ]

  unfoldable pub authenticate_poller : PollerRow → String → Db Store Poller
  unfolding touch_poller
  authenticate_poller p token =
      if not (bcrypt.matches p.token_hash token) then fail invalid_token else do
        t ← now
        ignore (exec (touch_poller p.id (format_time t)))
        pure (record (scan_poller p) { last_seen = some t })

  unfoldable pub authenticate : ℤ → String → String → Db Store Poller
  authenticate tenant name token = do
    found ← query (λ s. find_first (named tenant name) s.pollers.rows)
    p ← some_or no_rows found
    authenticate_poller p token
