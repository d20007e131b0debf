-- ===== src/Audit/Paging.antt =====
-- What a reader of the audit log sees who goes through its pages.
use mathlib.Core.List.{reverse, reverse-append}
use native.Mathlib.Numerals.{unary_clauses}
use netmantle.Prelude.{
  ℕ, zero, suc, ◌+◌, ◌*◌, ◌≤◌, ◌<◌, ◌≡◌, ◌↔◌, refl, Bool, true, false, List, [], ◌∷◌, ◌++◌, map,
  pos, String, filter, take, drop, length, length-append, arith, ap, ◌∙◌,
}
use netmantle.Db.{Db, World, Table, ok, pure, ◌>>=◌}
use netmantle.Audit.Service.{
  Row, Entry, ListFilter, all_hold, page_size, rows_skipped, scan_entry, by_time, by_request,
  has_target, by_target, by_action, by_actor, conditions, select, list,
}
use netmantle.Audit.Filters.{Matches, matched, matching}

module _ {A : Type 0} where
  take_add : (m n : ℕ) (xs : List A) → take (m + n) xs ≡ take m xs ++ take n (drop m xs)
  take_add zero n xs = ap (λ (k : ℕ). take k xs) (omega arith)
  take_add (suc m) zero [] = simp unary_clauses refl
  take_add (suc m) (suc n) [] = simp unary_clauses refl
  take_add (suc m) n (x ∷ xs) =
      let shift : suc m + n ≡ suc (m + n) = omega arith in
      ap (λ (k : ℕ). take k (x ∷ xs)) shift ∙ ap (λ (r : List A). x ∷ r) (take_add m n xs)

  drop_add : (m n : ℕ) (xs : List A) → drop n (drop m xs) ≡ drop (m + n) xs
  drop_add zero n xs = ap (λ (k : ℕ). drop k xs) (omega arith)
  drop_add (suc m) zero [] = simp unary_clauses refl
  drop_add (suc m) (suc n) [] = simp unary_clauses refl
  drop_add (suc m) n (x ∷ xs) =
      let shift : suc (m + n) ≡ suc m + n = omega arith in
      drop_add m n xs ∙ ap (λ (k : ℕ). drop k (x ∷ xs)) shift

  next_pages :
      (n start k : ℕ) (xs : List A)
      → take (suc k * n) (drop start xs)
        ≡ take n (drop start xs) ++ take (k * n) (drop (start + n) xs)
  next_pages n start k xs =
      let one_more : suc k * n ≡ n + k * n = omega arith in
      ap (λ (j : ℕ). take j (drop start xs)) one_more
      ∙ take_add n (k * n) (drop start xs)
      ∙ ap (λ (r : List A). take n (drop start xs) ++ take (k * n) r) (drop_add start n xs)

  take_all : (n : ℕ) (xs : List A) → length xs ≤ n → take n xs ≡ xs
  take_all zero [] h = refl
  take_all zero (x ∷ xs) h = ground arith
  take_all (suc n) [] h = refl
  take_all (suc n) (x ∷ xs) h = ap (λ (r : List A). x ∷ r) (take_all n xs (omega (arith, h)))

  filter_same :
      (p q : A → Bool) (xs : List A)
      → ((x : A) → (p x ≡ true) ↔ (q x ≡ true))
      → filter p xs ≡ filter q xs
  filter_same p q [] h = refl
  filter_same p q (x ∷ xs) h = ground (arith, h x, filter_same p q xs h)

  length-filter : (p : A → Bool) (xs : List A) → length (filter p xs) ≤ length xs
  length-filter p [] = omega arith
  length-filter p (x ∷ xs) = ground (arith, length-filter p xs)

  length-reverse : (xs : List A) → length (reverse xs) ≡ length xs
  length-reverse [] = refl
  length-reverse (x ∷ xs) =
      ap length (reverse-append (x ∷ []) xs)
      ∙ length-append (reverse xs) (x ∷ [])
      ∙ omega (arith, length-reverse xs)

module _ {A B : Type 0} where
  map-append_lists : (f : A → B) (xs ys : List A) → map f (xs ++ ys) ≡ map f xs ++ map f ys
  map-append_lists f [] ys = refl
  map-append_lists f (x ∷ xs) ys = ap (λ (r : List B). f x ∷ r) (map-append_lists f xs ys)

module _ (like : String → String → Bool) where
  unfoldable pub matching_rows : ListFilter → List Row → List Row
  matching_rows f rows = reverse (filter (all_hold (conditions like f)) rows)

  -- A reader who asks for `k` pages of `n` entries from an offset on.
  unfoldable pub read_pages : ListFilter → ℕ → ℕ → ℕ → Db (Table Row) (List Entry)
  read_pages f n start zero = pure []
  read_pages f n start (suc k) = do
    es ← list like (record f { limit = pos n; offset = pos start })
    rest ← read_pages f n (start + n) k
    pure (es ++ rest)

  list_lem :
      (f : ListFilter) (w : World (Table Row))
      → w.fault w.calls ≡ false
      → list like f w
        ≡ (ok (map scan_entry (select like f w.store.rows)), record w { calls = suc w.calls })
  unfolding list
  list_lem f w up = rw up refl

  page_lem :
      (f : ListFilter) (n start : ℕ) (rows : List Row)
      → 0 < n
      → n ≤ 500
      → select like (record f { limit = pos n; offset = pos start }) rows
        ≡ take n (drop start (matching_rows f rows))
  unfolding select rows_skipped page_size matching_rows conditions by_actor by_action by_target
      by_request by_time has_target
  page_lem f n start rows low high =
      ap (λ (j : ℕ). take j (drop start (matching_rows f rows)))
        (let size : page_size (pos n) ≡ n = ground arith in size)

  read_pages_from :
      (f : ListFilter) (n start k : ℕ) (w : World (Table Row))
      → 0 < n
      → n ≤ 500
      → ((m : ℕ) → w.fault m ≡ false)
      → (read_pages f n start k w).0
        ≡ ok (map scan_entry (take (k * n) (drop start (matching_rows f w.store.rows))))
  unfolding read_pages
  read_pages_from f n start zero w low high up =
      let none_left : 0 ≡ 0 * n = omega arith in
      ap (λ (j : ℕ). ok (map scan_entry (take j (drop start (matching_rows f w.store.rows)))))
        none_left
  read_pages_from f n start (suc k) w low high up =
      let rows = matching_rows f w.store.rows in
      let v : World (Table Row) = record w { calls = suc w.calls } in
      let ih = read_pages_from f n (start + n) k v low high up in
      let first = list_lem (record f { limit = pos n; offset = pos start }) w (up w.calls) in
      let page = page_lem f n start w.store.rows low high in
      let split = next_pages n start k rows in
      let parts =
        map-append_lists scan_entry (take n (drop start rows))
          (take (k * n) (drop (start + n) rows)) in
      rw (first, ih, page, split, parts) refl

  -- A reader who goes through the pages of any size up to 500 from the newest entry on gets, while
  -- nothing is written and the driver takes the queries, each row that the filter matches once, the
  -- newest first, and no other row, if the pages are enough for the rows of the table.
  pub read_pages_lem :
      (f : ListFilter) (n k : ℕ) (w : World (Table Row)) (p : Row → Bool)
      → ((r : Row) → (p r ≡ true) ↔ Matches like f r)
      → 0 < n
      → n ≤ 500
      → length w.store.rows ≤ k * n
      → ((m : ℕ) → w.fault m ≡ false)
      → (read_pages f n 0 k w).0 ≡ ok (map scan_entry (reverse (filter p w.store.rows)))
  unfolding matching_rows
  read_pages_lem f n k w p asks low high enough up =
      let conds = all_hold (conditions like f) in
      let same =
        filter_same conds p w.store.rows
          (λ r. (λ h. (asks r).1 (matched like f r h), λ h. matching like f r ((asks r).0 h))) in
      let short : length (matching_rows f w.store.rows) ≤ k * n =
        let one = length-filter conds w.store.rows in
        let two = length-reverse (filter conds w.store.rows) in ground (arith, one, two, enough) in
      read_pages_from f n 0 k w low high up
      ∙ ap (λ (r : List Row). ok (map scan_entry r))
          (take_all (k * n) (matching_rows f w.store.rows) short)
      ∙ ap (λ (r : List Row). ok (map scan_entry (reverse r))) same
