-- ===== src/Fleet/Secrets.antt =====
-- Who gets which secret.
use netmantle.Prelude.{
  ℕ, ◌≡◌, ◌≢◌, refl, Bool, false, not, none, some, List, [], ◌∷◌, ℤ, pos, id_eq_iff, String, length,
  find_first, find_first_sound, filter, arith, ap, ◌∙◌, Option-cases, inl, inr,
}
use netmantle.Db.{World, Table, ok, insert, format_time}
use netmantle.Db.Keys.{IsKeyed, find_first-insert}
use netmantle.Db.Rules.{Result-cases}
use netmantle.Fleet.Tables.{CredentialRow, Store, credential_at}
use netmantle.Fleet.Sealer.{Cipher, OpensText, salt_len, nonce_len, seal, open_envelope}
use netmantle.Fleet.Envelopes.{open_envelope-seal}
use netmantle.Fleet.Credentials.{
  Credential, credential_row, insert_credential, create_credential, reveal_row, reveal,
  delete_credential, delete_credential_rows,
}

filter_gone :
    {A : Type 0} (p : A → Bool) (xs : List A) → find_first p (filter (λ x. not (p x)) xs) ≡ none
unfolding find_first
filter_gone p [] = refl
filter_gone p (x ∷ xs) = ground (arith, filter_gone p xs)

module _ (cipher : Cipher) (master : String) where
  -- What stands behind a secret that is revealed.
  pub record Reveals (tenant i : ℤ) (w : World Store) (username secret : String) : Type 0 where
    pub row : CredentialRow
    pub found : find_first (credential_at tenant i) w.store.credentials.rows ≡ some row
    pub owner : row.tenant_id ≡ tenant
    pub own : row.id ≡ i
    pub user : username ≡ row.username
    pub opened : open_envelope cipher master row.secret_envelope ≡ ok secret

  -- A secret is revealed only to the tenant of its row, and is what the envelope of the row opens
  -- to, whatever the driver refuses.
  pub reveal_ok :
      (tenant i : ℤ) (w : World Store) (username secret : String)
      → (reveal cipher master tenant i w).0 ≡ ok (username, secret)
      → Reveals tenant i w username secret
  unfolding reveal reveal_row credential_at
  reveal_ok tenant i w username secret h =
      elim (Option-cases (find_first (credential_at tenant i) w.store.credentials.rows)) [
        | inl e ↦ ground arith
        | inr (r, e) ↦ elim (Result-cases (open_envelope cipher master r.secret_envelope)) [
          | inr (x, f) ↦ ground arith
          | inl (text, f) ↦
              let at = find_first_sound (credential_at tenant i) w.store.credentials.rows r e in
              record {
                row = r;
                found = e;
                owner = ground (arith, at, id_eq_iff r.tenant_id tenant);
                own = ground (arith, at, id_eq_iff r.id i);
                user = ground arith;
                opened = ground arith;
              }
        ]
      ]

  created_row :
      (salt nonce : List ℕ) (c made : Credential) (secret : String) (w : World Store)
      → IsKeyed (λ r. r.id) w.store.credentials
      → (create_credential cipher master (some salt) (some nonce) c secret w).0 ≡ ok made
      → (sealed : String) × (seal cipher master (some salt) (some nonce) secret ≡ ok sealed)
        × (made.id ≡ pos w.store.credentials.next_id)
        × (find_first
              (credential_at c.tenant_id (pos w.store.credentials.next_id))
              (create_credential cipher master
                (some salt)
                (some nonce)
                c
                secret
                w).1.store.credentials.rows
            ≡ some (
                credential_row c sealed
                  (format_time (w.clock w.reads))
                  (pos w.store.credentials.next_id)))
  unfolding create_credential insert_credential credential_at credential_row
  created_row salt nonce c made secret w keyed h =
      elim (Result-cases (seal cipher master (some salt) (some nonce) secret)) [
        | inr (x, e) ↦ ground arith
        | inl (sealed, e) ↦
            let row = credential_row c sealed (format_time (w.clock w.reads)) in
            let n = pos w.store.credentials.next_id in
            let found : find_first (credential_at c.tenant_id n)
                  (insert row w.store.credentials).1.rows
                ≡ some (row n) =
              find_first-insert (λ (r : CredentialRow). r.id) (credential_at c.tenant_id n) row
                w.store.credentials (λ x on. ground (arith, id_eq_iff x.id n))
                (ground (arith, id_eq_iff c.tenant_id c.tenant_id, id_eq_iff n n)) keyed in
            (sealed, e, ground arith, ground (arith, found))
      ]

  -- The secret of a new credential is revealed as it was given, where the keys of the table are unique,
  -- only other tables were written in between, the driver takes the query, and the AEAD opens what it
  -- seals of that text.
  pub reveal-create_credential :
      (salt nonce : List ℕ) (c made : Credential) (secret : String) (w v : World Store)
      → length salt ≡ salt_len
      → length nonce ≡ nonce_len
      → OpensText cipher secret
      → IsKeyed (λ r. r.id) w.store.credentials
      → (create_credential cipher master (some salt) (some nonce) c secret w).0 ≡ ok made
      → v.store.credentials
        ≡ (create_credential cipher master (some salt) (some nonce) c secret w).1.store.credentials
      → v.fault v.calls ≡ false
      → (reveal cipher master c.tenant_id made.id v).0 ≡ ok (c.username, secret)
  unfolding reveal reveal_row credential_row
  reveal-create_credential salt nonce c made secret w v a b opens keyed h between up =
      let (sealed, e, key, found) = created_row salt nonce c made secret w keyed h in
      let there =
        ap (λ j. find_first (credential_at c.tenant_id j) v.store.credentials.rows) key
        ∙ ap
            (λ (t : Table CredentialRow).
              find_first (credential_at c.tenant_id (pos w.store.credentials.next_id)) t.rows)
            between
        ∙ found in
      ground (arith, there, open_envelope-seal cipher master salt nonce secret sealed a b opens e)

  -- Once `delete_credential` has returned without an error, nothing is revealed for that key,
  -- whatever the driver refuses, if only other tables were written in between.
  pub reveal-delete_credential :
      (tenant i : ℤ) (w v : World Store) (username secret : String)
      → (delete_credential tenant i w).0 ≡ ok tt
      → v.store.credentials ≡ (delete_credential tenant i w).1.store.credentials
      → (reveal cipher master tenant i v).0 ≢ ok (username, secret)
  unfolding delete_credential delete_credential_rows
  reveal-delete_credential tenant i w v username secret deleted between h =
      let r = reveal_ok tenant i v username secret h in
      let none_there : find_first (credential_at tenant i) v.store.credentials.rows ≡ none =
        ground (
          arith,
          filter_gone (credential_at tenant i) w.store.credentials.rows,
          ap (λ (t : Table CredentialRow). t.rows) between,
        ) in
      ground (arith, none_there, r.found)
