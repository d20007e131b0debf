-- ===== src/Changes/Previous.antt =====
-- Which version a new one is compared with.
use netmantle.Prelude.{
  ◌≤◌, ◌≡◌, ◌≢◌, ◌↔◌, refl, Bool, true, not, ◌&&◌, Option, none, some, List, [], ◌∷◌, ℤ, String,
  str_eq, str_eq_iff, id_eq_iff, leb, inl, inr, arith, ap, sym, subst, ◌∙◌, All, All-map,
  Bool-cases, filter, if◌then◌else◌, insert_by, sort_by,
}
use netmantle.Db.Keys.{In, All-In, In-filter, In-kept}
use netmantle.Fleet.Tables.{VersionRow}
use netmantle.Fleet.History.{version_of, first_of}
use netmantle.Changes.Service.{previous}

abbrev newer : VersionRow → VersionRow → Bool
newer a b = leb b.created_at a.created_at

first-insert_by :
    (x y : VersionRow) (l : List VersionRow)
    → first_of l ≡ some y
    → first_of (insert_by newer x l) ≡ some (if newer x y then x else y)
unfolding first_of
first-insert_by x y [] h = ground arith
first-insert_by x y (z ∷ zs) h = ground arith

abbrev IsNewest : VersionRow → List VersionRow → Type 0
IsNewest m xs = In m xs × All (λ x. x.created_at ≤ m.created_at) xs

-- The first of the rows, sorted by the time downwards.
some-IsNewest :
    (x : VersionRow) (xs : List VersionRow)
    → (m : VersionRow) × (first_of (sort_by newer (x ∷ xs)) ≡ some m) × IsNewest m (x ∷ xs)
unfolding first_of sort_by
some-IsNewest x [] = (x, refl, (inl refl, (omega arith, tt)))
some-IsNewest x (y ∷ ys) =
    let (m, e, top) = some-IsNewest y ys in
    let there = top.0 in
    let above = top.1 in
    let head = first-insert_by x m (sort_by newer (y ∷ ys)) e in
    elim (Bool-cases (newer x m)) [
      | inl later ↦ (
        x,
        head ∙ ap (λ (b : Bool). some (if b then x else m)) later,
        (
          inl refl,
          (
            omega arith,
            All-map _ _ (y ∷ ys) (λ z (k : z.created_at ≤ m.created_at). ground arith) above,
          ),
        ),
      )
      | inr sooner ↦ (
        m,
        head ∙ ap (λ (b : Bool). some (if b then x else m)) sooner,
        (inr there, (ground arith, above)),
      )
    ]

-- The versions that a new one may be compared with: those of the artifact of the device with another
-- commit.
pub record IsEarlier (device : ℤ) (artifact sha : String) (v : VersionRow) : Type 0 where
  pub device_same : v.device_id ≡ device
  pub artifact_same : v.artifact ≡ artifact
  pub other : v.commit_sha ≢ sha

earlier : ℤ → String → String → VersionRow → Bool
earlier device artifact sha v = version_of device artifact v && not (str_eq v.commit_sha sha)

earlier_iff :
    (device : ℤ) (artifact sha : String) (v : VersionRow)
    → (earlier device artifact sha v ≡ true) ↔ IsEarlier device artifact sha v
unfolding earlier version_of
earlier_iff device artifact sha v = (
  λ h. record {
    device_same = ground (arith, id_eq_iff v.device_id device);
    artifact_same = ground (arith, str_eq_iff v.artifact artifact);
    other = ground (arith, str_eq_iff v.commit_sha sha);
  },
  λ k. ground (
    arith,
    id_eq_iff v.device_id device,
    str_eq_iff v.artifact artifact,
    str_eq_iff v.commit_sha sha,
    k.device_same,
    k.artifact_same,
    k.other,
  ),
)

-- The commit of the newest of them, if there is one.
pub record IsPrevious (device : ℤ) (artifact sha : String) (vs : List VersionRow)
    (old : Option String) : Type 0 where
  pub missing : old ≡ none → (x : VersionRow) → In x vs → IsEarlier device artifact sha x → ⊥
  pub newest :
      (c : String)
      → old ≡ some c
      → (v : VersionRow) × In v vs
        × IsEarlier device artifact sha v
        × (v.commit_sha ≡ c)
        × ((x : VersionRow)
            → In x vs
            → IsEarlier device artifact sha x
            → x.created_at ≤ v.created_at)

previous_of : List VersionRow → Option String
unfolding first_of
previous_of xs = elim (first_of (sort_by newer xs)) [ none ↦ none | some v ↦ some v.commit_sha ]

commit_exists :
    (x : VersionRow) (xs : List VersionRow)
    → (m : VersionRow) × (previous_of (x ∷ xs) ≡ some m.commit_sha) × IsNewest m (x ∷ xs)
unfolding previous_of
commit_exists x xs =
    let (m, e, top) = some-IsNewest x xs in
    (m, ap (λ (o : Option VersionRow). elim o [ none ↦ none | some v ↦ some v.commit_sha ]) e, top)

module _ (device : ℤ) (artifact sha : String) (vs : List VersionRow) where
  kept_rows-IsPrevious :
      (kept : List VersionRow)
      → filter (earlier device artifact sha) vs ≡ kept
      → IsPrevious device artifact sha vs (previous_of kept)
  unfolding previous_of first_of sort_by
  kept_rows-IsPrevious [] e = record {
    missing = λ _ x there is.
        subst (In x) e (In-kept _ x vs there ((earlier_iff device artifact sha x).1 is));
    newest = λ c no. absurd (ground arith);
  }
  kept_rows-IsPrevious (k ∷ ks) e =
      let (m, same, top) = commit_exists k ks in
      let (there, on) = In-filter (earlier device artifact sha) m vs (subst (In m) (sym e) top.0) in
      record {
        missing =
            λ no. absurd (let both : none ≡ some m.commit_sha = sym no ∙ same in ground arith);
        newest = λ c is.
            let named : some m.commit_sha ≡ some c = sym same ∙ is in
            (
              m,
              there,
              (earlier_iff device artifact sha m).0 on,
              ground arith,
              λ x stands other.
                  All-In (λ (y : VersionRow). y.created_at ≤ m.created_at) x (k ∷ ks) top.1
                    (subst (In x) e
                      (In-kept _ x vs stands ((earlier_iff device artifact sha x).1 other))),
            );
      }

  pub previous-IsPrevious : IsPrevious device artifact sha vs (previous device artifact sha vs)
  unfolding previous previous_of earlier
  previous-IsPrevious = kept_rows-IsPrevious (filter (earlier device artifact sha) vs) refl
