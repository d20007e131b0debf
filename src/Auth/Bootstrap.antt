-- ===== src/Auth/Bootstrap.antt =====
-- The first account: what a start leaves, and what a failed start leaves.
use netmantle.Prelude.{
  ℕ, suc, ◌≡◌, ◌≢◌, refl, true, false, some, List, [], ◌∷◌, ℤ, pos, String, ◌⊎◌, str_eq, str_eq_iff,
  length, ◌==◌, ==_iff, if◌then◌else◌, find_first, find_first_last, arith, ap, sym, ◌∙◌,
  Option-cases, Bool-cases, inl, inr,
}
use netmantle.Db.{World, Error, ok, err, db_failed, insert, format_time}
use netmantle.Bcrypt.{Bcrypt}
use netmantle.Auth.Users.{
  User, UserRow, TenantRow, Store, named, tenant_row, insert_tenant, user_row, insert_user,
  put_admin, create_admin, ensure_bootstrap_admin, check_password, authenticate, has_name,
  scan_user, role_admin,
}

length_zero : (us : List UserRow) → length us ≡ 0 → us ≡ []
length_zero [] h = refl
length_zero (u ∷ us) h = ground arith

module _ (bcrypt : Bcrypt) where
  create_stuck :
      (preset drawn salt : String) (v : World Store) (a : TenantRow)
      → find_first (named "default") v.store.tenants.rows ≡ some a
      → (create_admin bcrypt preset drawn salt v).0 ≡ err db_failed
  unfolding create_admin insert_tenant
  create_stuck preset drawn salt v a there = ground arith

  -- With the tenant in place and no user, the INSERT of the tenant is refused.
  stuck :
      (preset drawn salt : String) (v : World Store) (a : TenantRow)
      → v.store.users.rows ≡ []
      → find_first (named "default") v.store.tenants.rows ≡ some a
      → (ensure_bootstrap_admin bcrypt preset drawn salt v).0 ≡ err db_failed
  unfolding ensure_bootstrap_admin
  stuck preset drawn salt v a empty there =
      ground (arith, create_stuck preset drawn salt (record v { calls = suc v.calls }) a there)

  put_admin_err :
      (tenant : ℤ) (pw salt : String) (t : ℕ) (w : World Store) (e : Error)
      → (put_admin bcrypt tenant pw salt t w).0 ≡ err e
      → (put_admin bcrypt tenant pw salt t w).1.store ≡ w.store
  unfolding put_admin insert_user
  put_admin_err tenant pw salt t w e failed = elim (Option-cases (bcrypt.hash salt pw)) [
    | inl f ↦ ground arith
    | inr (h, f) ↦ ground arith
  ]

  -- A failed attempt leaves all as it was, or no user and the tenant.
  record Leaves (w v : World Store) : Type 0 where
    users : v.store.users ≡ w.store.users
    row : TenantRow
    tenant : find_first (named "default") v.store.tenants.rows ≡ some row

  create_left :
      (preset drawn salt : String) (w : World Store) (e : Error)
      → (create_admin bcrypt preset drawn salt w).0 ≡ err e
      → ((create_admin bcrypt preset drawn salt w).1.store ≡ w.store)
        ⊎ Leaves w (create_admin bcrypt preset drawn salt w).1
  unfolding create_admin insert_tenant insert
  create_left preset drawn salt w e failed = elim (Bool-cases (w.fault w.calls)) [
    | inl down ↦ inl (ground arith)
    | inr up ↦ elim (Option-cases (find_first (named "default") w.store.tenants.rows)) [
      | inr (a, f) ↦ inl (ground arith)
      | inl f ↦
          let row =
            tenant_row "default" (format_time (w.clock w.reads)) (pos w.store.tenants.next_id) in
          let v : World Store = record w {
            store = record w.store {
              tenants =
                  (insert (tenant_row "default" (format_time (w.clock w.reads))) w.store.tenants).1;
            };
            calls = suc w.calls;
            reads = suc w.reads;
            last_rowid = pos w.store.tenants.next_id;
          } in
          let same =
            put_admin_err (pos w.store.tenants.next_id) (if str_eq preset "" then drawn else preset)
              salt (w.clock w.reads) v e in
          inr (record {
            users = ground (arith, same);
            row = row;
            tenant =
                ground
                  (arith, same, find_first_last (named "default") w.store.tenants.rows row f refl);
          })
    ]
  ]

  ensure_left :
      (preset drawn salt : String) (w : World Store) (e : Error)
      → w.store.users.rows ≡ []
      → (ensure_bootstrap_admin bcrypt preset drawn salt w).0 ≡ err e
      → ((ensure_bootstrap_admin bcrypt preset drawn salt w).1.store ≡ w.store)
        ⊎ Leaves w (ensure_bootstrap_admin bcrypt preset drawn salt w).1
  unfolding ensure_bootstrap_admin
  ensure_left preset drawn salt w e empty failed = elim (Bool-cases (w.fault w.calls)) [
    | inl down ↦ inl (ground arith)
    | inr up ↦
        let v : World Store = record w { calls = suc w.calls } in
        elim (create_left preset drawn salt v e (ground arith)) [
          | inl same ↦ inl (ground arith)
          | inr left ↦ inr (record {
            users = ground (arith, left.users);
            row = left.row;
            tenant = ground (arith, left.tenant);
          })
        ]
  ]

  -- A start on tables without users that fails behind its first INSERT leaves a tenant with which every
  -- later start fails too, whatever the password and the driver.
  pub bootstrap_torn :
      (preset drawn salt preset' drawn' salt' : String) (w v : World Store) (e : Error)
      → w.store.users.rows ≡ []
      → (ensure_bootstrap_admin bcrypt preset drawn salt w).0 ≡ err e
      → (ensure_bootstrap_admin bcrypt preset drawn salt w).1.store ≢ w.store
      → v.store ≡ (ensure_bootstrap_admin bcrypt preset drawn salt w).1.store
      → (ensure_bootstrap_admin bcrypt preset' drawn' salt' v).0 ≡ err db_failed
  bootstrap_torn preset drawn salt preset' drawn' salt' w v e empty failed moved between =
      elim (ensure_left preset drawn salt w e empty failed) [
        | inl same ↦ absurd (moved same)
        | inr left ↦
            stuck preset' drawn' salt' v left.row
              (ap (λ (s : Store). s.users.rows) between ∙ ap (λ u. u.rows) left.users ∙ empty)
              (ap (λ (s : Store). find_first (named "default") s.tenants.rows) between
                ∙ left.tenant)
      ]

  put_admin_ok :
      (tenant : ℤ) (pw salt : String) (t : ℕ) (w : World Store) (name given : String)
      → w.store.users.rows ≡ []
      → (put_admin bcrypt tenant pw salt t w).0 ≡ ok (some (name, given))
      → (name ≡ "admin")
        × (given ≡ pw)
        × ((h : String) × (bcrypt.hash salt pw ≡ some h)
            × ((put_admin bcrypt tenant pw salt t w).1.store.users.rows
                ≡ user_row tenant "admin" h role_admin (format_time t) (pos w.store.users.next_id)
                  ∷ []))
  unfolding put_admin insert_user insert
  put_admin_ok tenant pw salt t w name given empty made =
      elim (Option-cases (bcrypt.hash salt pw)) [
        | inl f ↦ ground arith
        | inr (h, f) ↦ (ground arith, ground arith, (h, f, ground arith))
      ]

  -- The row that a start writes.
  record Makes (w v : World Store) (name pw salt : String) : Type 0 where
    tenant : ℤ
    hash : String
    at : ℕ
    key : ℤ
    admin : name ≡ "admin"
    hashed : bcrypt.hash salt pw ≡ some hash
    rows : v.store.users.rows ≡ user_row tenant "admin" hash role_admin at key ∷ []

  create_ok :
      (preset drawn salt : String) (w : World Store) (name pw : String)
      → w.store.users.rows ≡ []
      → (create_admin bcrypt preset drawn salt w).0 ≡ ok (some (name, pw))
      → (pw ≡ (if str_eq preset "" then drawn else preset))
        × Makes w (create_admin bcrypt preset drawn salt w).1 name pw salt
  unfolding create_admin insert_tenant insert
  create_ok preset drawn salt w name pw empty made =
      elim (Option-cases (find_first (named "default") w.store.tenants.rows)) [
        | inr (a, f) ↦ ground arith
        | inl f ↦
            let given = if str_eq preset "" then drawn else preset in
            let v : World Store = record w {
              store = record w.store {
                tenants =
                    (insert (tenant_row "default" (format_time (w.clock w.reads)))
                      w.store.tenants).1;
              };
              calls = suc w.calls;
              reads = suc w.reads;
              last_rowid = pos w.store.tenants.next_id;
            } in
            let put : (put_admin bcrypt (pos w.store.tenants.next_id) given salt (w.clock w.reads)
                  v).0
                ≡ ok (some (name, pw)) =
              ground arith in
            let (n, p, (h, hashed, rows)) =
              put_admin_ok (pos w.store.tenants.next_id) given salt (w.clock w.reads) v name pw
                empty put in
            (
              p,
              record {
                tenant = pos w.store.tenants.next_id;
                hash = h;
                at = format_time (w.clock w.reads);
                key = pos w.store.users.next_id;
                admin = n;
                hashed = ap (bcrypt.hash salt) p ∙ hashed;
                rows = ground (arith, rows);
              },
            )
      ]

  ensure_ok :
      (preset drawn salt : String) (w : World Store) (name pw : String)
      → (ensure_bootstrap_admin bcrypt preset drawn salt w).0 ≡ ok (some (name, pw))
      → (pw ≡ (if str_eq preset "" then drawn else preset))
        × Makes w (ensure_bootstrap_admin bcrypt preset drawn salt w).1 name pw salt
  unfolding ensure_bootstrap_admin
  ensure_ok preset drawn salt w name pw made = elim (Bool-cases (w.fault w.calls)) [
    | inl down ↦ ground arith
    | inr up ↦ elim (Bool-cases (length w.store.users.rows == 0)) [
      | inr more ↦ ground arith
      | inl none_yet ↦
          let empty = length_zero w.store.users.rows ((==_iff _ 0).0 none_yet) in
          let (p, m) =
            create_ok preset drawn salt (record w { calls = suc w.calls }) name pw empty
              (ground arith) in
          (
            p,
            record {
              tenant = m.tenant;
              hash = m.hash;
              at = m.at;
              key = m.key;
              admin = m.admin;
              hashed = m.hashed;
              rows = ground (arith, m.rows);
            },
          )
    ]
  ]

  authenticate_only :
      (name pw : String) (v : World Store) (u : UserRow)
      → v.store.users.rows ≡ u ∷ []
      → v.fault v.calls ≡ false
      → str_eq u.username name ≡ true
      → bcrypt.matches u.password_hash pw ≡ true
      → (authenticate bcrypt name pw v).0 ≡ ok (scan_user u)
  unfolding authenticate check_password has_name find_first
  authenticate_only name pw v u rows up own right =
      let found : find_first (has_name name) v.store.users.rows ≡ some u =
        ap (find_first (has_name name)) rows ∙ rw own refl in
      ground (arith, found)

  -- The name and the password that a start returns let in an administrator, where only other tables
  -- were written in between and the driver takes the query; the password is the preset one, or
  -- the drawn one where that is empty.
  pub authenticate-bootstrap :
      (preset drawn salt : String) (w v : World Store) (name pw : String)
      → (ensure_bootstrap_admin bcrypt preset drawn salt w).0 ≡ ok (some (name, pw))
      → v.store ≡ (ensure_bootstrap_admin bcrypt preset drawn salt w).1.store
      → v.fault v.calls ≡ false
      → (pw ≡ (if str_eq preset "" then drawn else preset))
        × ((u : User) × ((authenticate bcrypt name pw v).0 ≡ ok u)
            × (u.username ≡ "admin")
            × (u.role ≡ role_admin))
  unfolding scan_user user_row
  authenticate-bootstrap preset drawn salt w v name pw made between up =
      let (p, m) = ensure_ok preset drawn salt w name pw made in
      let row = user_row m.tenant "admin" m.hash role_admin m.at m.key in
      let rows = ap (λ (s : Store). s.users.rows) between ∙ m.rows in
      (
        p,
        (
          scan_user row,
          authenticate_only name pw v row rows up ((str_eq_iff "admin" name).1 (sym m.admin))
              (bcrypt.matches-hash salt pw m.hash m.hashed),
          refl,
          refl,
        ),
      )
