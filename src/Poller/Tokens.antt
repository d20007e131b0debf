-- ===== src/Poller/Tokens.antt =====
-- The tokens of pollers.
use netmantle.Prelude.{
  ◌≡◌, refl, String, ℤ, pos, false, none, some, List, [], ◌∷◌, ◌++◌, id_eq_iff, str_eq_iff,
  find_first, arith, ap, ◌∙◌, sym, Option-cases, inl, inr,
}
use netmantle.Db.{World, ok, insert, format_time, parse_time}
use netmantle.Bcrypt.{Bcrypt}
use netmantle.Poller.Rows.{PollerRow, Store}
use netmantle.Poller.Registry.{
  Poller, named, poller_row, insert_poller, scan_poller, register, authenticate_poller,
  authenticate,
}

module _ (bcrypt : Bcrypt) where
  registered_found :
      (tenant : ℤ) (name : String) (rows : List PollerRow) (p : PollerRow)
      → find_first (named tenant name) rows ≡ none
      → p.tenant_id ≡ tenant
      → p.name ≡ name
      → find_first (named tenant name) (rows ++ p ∷ []) ≡ some p
  unfolding find_first
  registered_found tenant name [] p free own same =
      ground (arith, id_eq_iff p.tenant_id tenant, str_eq_iff p.name name)
  registered_found tenant name (q ∷ rows) p free own same =
      ground (arith, registered_found tenant name rows p)

  -- What stands after a registration that returns: the hash of the token, in a row under that name.
  register_ok :
      (tenant : ℤ) (zone name token salt : String) (w : World Store) (x : Poller) (given : String)
      → (register bcrypt tenant zone name (some token) salt w).0 ≡ ok (x, given)
      → (h : String) × (bcrypt.hash salt token ≡ some h)
        × ((x.tenant_id ≡ tenant) × (x.zone ≡ zone) × (x.name ≡ name) × (given ≡ token))
        × (find_first
              (named tenant name)
              (register bcrypt tenant zone name (some token) salt w).1.store.pollers.rows
            ≡ some (poller_row tenant zone name h (format_time (w.clock w.reads)) x.id))
  unfolding register insert_poller insert poller_row
  register_ok tenant zone name token salt w x given got =
      elim (Option-cases (bcrypt.hash salt token)) [
        | inl e ↦ ground arith
        | inr (h, e) ↦
            let at = format_time (w.clock w.reads) in
            let free : find_first (named tenant name) w.store.pollers.rows ≡ none = ground arith in
            let key : x.id ≡ pos w.store.pollers.next_id = ground arith in
            let fields : (x.tenant_id ≡ tenant)
                × (x.zone ≡ zone)
                × (x.name ≡ name)
                × (given ≡ token) =
              ground arith in
            let rows : (register bcrypt tenant zone name (some token) salt w).1.store.pollers.rows
                ≡ w.store.pollers.rows
                  ++ poller_row tenant zone name h at (pos w.store.pollers.next_id) ∷ [] =
              ground arith in
            (
              h,
              e,
              fields,
              ap (find_first (named tenant name)) rows
                  ∙ registered_found tenant name w.store.pollers.rows _ free refl refl
                  ∙ ap (λ i. some (poller_row tenant zone name h at i)) (sym key),
            )
      ]

  -- The token that a registration hands out lets the poller in under its key, tenant, zone and name, if
  -- only other tables were written in between and the driver takes the query.
  pub authenticate-register :
      (tenant : ℤ) (zone name token salt : String) (w v : World Store) (x : Poller) (given : String)
      → (register bcrypt tenant zone name (some token) salt w).0 ≡ ok (x, given)
      → v.store ≡ (register bcrypt tenant zone name (some token) salt w).1.store
      → v.fault v.calls ≡ false
      → (authenticate bcrypt tenant name given v).0
        ≡ ok (record {
          id = x.id;
          tenant_id = x.tenant_id;
          zone = x.zone;
          name = x.name;
          last_seen = some (v.clock v.reads);
          created_at = parse_time (format_time (w.clock w.reads));
        })
  unfolding authenticate authenticate_poller scan_poller poller_row
  authenticate-register tenant zone name token salt w v x given got between up =
      let (h, hashed, fields, found) = register_ok tenant zone name token salt w x given got in
      let row = poller_row tenant zone name h (format_time (w.clock w.reads)) x.id in
      let there : find_first (named tenant name) v.store.pollers.rows ≡ some row =
        ap (λ (s : Store). find_first (named tenant name) s.pollers.rows) between ∙ found in
      ground (arith, bcrypt.matches-hash salt token h hashed, there, fields)
