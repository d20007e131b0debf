-- ===== src/Fleet/Versions.antt =====
-- Which versions of a configuration can be read again.
use netmantle.Prelude.{
  ℕ, ◌≡◌, ◌≢◌, Bool, false, List, [], ◌∷◌, ◌++◌, ℤ, pos, id_eq_refl, String, str_eq_iff,
  count_where, arith, ap, subst, ◌∙◌, Bool-cases, inl, inr,
}
use netmantle.Db.{World, ok, insert, exec_insert}
use netmantle.Db.Keys.{In, In-append, In-last, count_where-In}
use netmantle.Fleet.Tables.{VersionRow, Store}
use netmantle.Fleet.Backup.{version_row, insert_version, insert_versions}
use netmantle.Fleet.Routes.{Artifact, Plant}
use netmantle.Fleet.History.{version_of, version_at, read_version}

insert_version-In :
    (device : ℤ) (sha : String) (at : ℕ) (a : Artifact) (r : VersionRow) (w : World Store)
    → In r w.store.versions.rows
    → In r (exec_insert (insert_version device sha at a) w).1.store.versions.rows
unfolding insert_version insert
insert_version-In device sha at a r w h = elim (Bool-cases (w.fault w.calls)) [
  | inl e ↦ rw e h
  | inr e ↦ rw e (In-append r w.store.versions.rows _ h)
]

insert_versions-In :
    (device : ℤ) (sha : String) (at : ℕ) (arts : List Artifact) (r : VersionRow) (w : World Store)
    → In r w.store.versions.rows
    → In r (insert_versions device sha at arts w).1.store.versions.rows
unfolding insert_versions
insert_versions-In device sha at [] r w h = h
insert_versions-In device sha at (a ∷ more) r w h =
    insert_versions-In device sha at more r (exec_insert (insert_version device sha at a) w).1
      (insert_version-In device sha at a r w h)

exec_insert_fault :
    (device : ℤ) (sha : String) (at : ℕ) (a : Artifact) (w : World Store)
    → (exec_insert (insert_version device sha at a) w).1.fault ≡ w.fault
exec_insert_fault device sha at a w = ground arith

inserted-In :
    (device : ℤ) (sha : String) (at : ℕ) (a : Artifact) (arts : List Artifact) (w : World Store)
    → ((n : ℕ) → w.fault n ≡ false)
    → In a arts
    → (i : ℤ) × In
        (version_row device sha at a i)
        (insert_versions device sha at arts w).1.store.versions.rows
unfolding insert_versions insert_version insert
inserted-In device sha at a [] w up h = absurd h
inserted-In device sha at a (b ∷ more) w up (inl same) = (
  pos w.store.versions.next_id,
  insert_versions-In device sha at more (version_row device sha at a (pos w.store.versions.next_id))
      (exec_insert (insert_version device sha at b) w).1
      (rw (up w.calls) (
        subst
          (λ c. In (version_row device sha at a (pos w.store.versions.next_id)) (
            w.store.versions.rows
            ++ version_row device sha at c (pos w.store.versions.next_id) ∷ []))
          same (In-last _ w.store.versions.rows))),
)
inserted-In device sha at a (b ∷ more) w up (inr later) =
    inserted-In device sha at a more (exec_insert (insert_version device sha at b) w).1
      (λ n. ap (λ (g : ℕ → Bool). g n) (exec_insert_fault device sha at b w) ∙ up n) later

module _ (plant : Plant) where
  -- Every artifact whose version was inserted for a commit can be read at that commit as long as the
  -- rows of versions that were there then are not deleted, whatever else is written in between: for a
  -- driver that refused no INSERT and takes the query, names and hashes that are not empty, and a
  -- store of configurations that has the artifact at that commit.
  pub read_version-insert_versions :
      (tenant device : ℤ) (sha body : String) (at : ℕ) (a : Artifact) (arts : List Artifact)
      (w v : World Store)
      → ((n : ℕ) → w.fault n ≡ false)
      → In a arts
      → a.name ≢ ""
      → sha ≢ ""
      → ((r : VersionRow)
          → In r (insert_versions device sha at arts w).1.store.versions.rows
          → In r v.store.versions.rows)
      → v.fault v.calls ≡ false
      → plant.read tenant device a.name sha ≡ ok body
      → (read_version plant tenant device a.name sha v).0 ≡ ok body
  unfolding read_version version_at version_of version_row
  read_version-insert_versions tenant device sha body at a arts w v up there named hashed between
        free kept =
      let (i, found) = inserted-In device sha at a arts w up there in
      let rows = between (version_row device sha at a i) found in
      let counted : count_where (version_at device a.name sha) v.store.versions.rows ≢ 0 =
        count_where-In (version_at device a.name sha) (version_row device sha at a i)
          v.store.versions.rows rows
          (ground (arith, id_eq_refl device, str_eq_iff a.name a.name, str_eq_iff sha sha)) in
      ground (arith, counted, kept, str_eq_iff a.name "", str_eq_iff sha "")

  -- What is read is a version of the history of the device, in the tenant's store, whatever the driver
  -- refuses.
  pub read_version_ok :
      (tenant device : ℤ) (artifact sha body : String) (w : World Store)
      → (read_version plant tenant device artifact sha w).0 ≡ ok body
      → (count_where (version_at device artifact sha) w.store.versions.rows ≢ 0)
        × (plant.read tenant device artifact sha ≡ ok body)
  unfolding read_version
  read_version_ok tenant device artifact sha body w h = (ground arith, ground arith)
