-- ===== src/QueryEngine/Rows.antt =====
-- What the pipeline prints, against the list of the rows that the query asks for.
use iitm.Prelude.{
  ℕ, zero, suc, ◌+◌, ◌-◌, ◌≤◌, ◌<◌, ◌≡◌, refl, sym, ap, ◌∙◌, inl, inr, Bool-cases, Option, some,
  none, List, [], ◌∷◌, length, take, drop, ltb, eqb_text, arith, lt→ltb, ltb→lt, Option-cases,
}
use iitm.QueryEngine.{
  Student, Engine, Row, table_size, limit, chennai, table_scan_next, filter_next, scan_fuel,
  limit_next, counted, projection_next, run_query,
}
use iitm.QueryEngine.Scan.{
  filter_next-row, filter_next-other, of_city, drop-get_elem?, drop_all, Remains, Finds, found,
  take-nil, none_left, table_scan_next-row, filter_next-end, of_city-row, of_city-other,
}

-- the same of `limit_next`, which counts a row
record Limited (students : List Student) (rest : List Row) (k : ℕ) (r : Option Student × Engine)
    : Type 0 where
  counts : (s : Student) → r.0 ≡ some s → r.1.current_limit ≡ k
  rows : Remains students rest r.0 r.1

module _ (students : List Student) (whole : length students ≡ table_size) where
  past_end : (i : ℕ) → table_size ≤ i → of_city (drop i students) ≡ []
  unfolding of_city
  past_end i p = rw (drop_all students i (omega (arith, whole))) refl

  filter_next-Finds :
      (fuel : ℕ) (e : Engine)
      → table_size < e.current_index + fuel
      → Finds students
          (of_city (drop e.current_index students))
          e.current_limit
          (filter_next students fuel e)
  unfolding filter_next
  filter_next-Finds zero e p = record {
    limit_kept = refl;
    rows = past_end e.current_index (omega arith);
  }
  filter_next-Finds (suc fuel) e p = elim (Bool-cases (ltb e.current_index table_size)) [
    | inr f ↦
        rw (filter_next-end students e fuel (ground arith))
          (record { limit_kept = refl; rows = past_end e.current_index (ground arith) })
    | inl t ↦
        let (s, at, step) = drop-get_elem? students e.current_index (ground (arith, whole)) in
        let e' : Engine = record e { current_index = suc e.current_index } in
        let scan : table_scan_next students e ≡ (some s, e') =
          table_scan_next-row students e s (ground arith) at in
        let later = filter_next-Finds fuel e' (omega arith) in
        let after = drop (suc e.current_index) students in
        elim (Bool-cases (eqb_text s.city chennai)) [
          | inl c ↦
              rw (filter_next-row students e fuel s e' scan c, step, of_city-row s after c)
                (record { limit_kept = refl; rows = refl })
          | inr c ↦
              rw (filter_next-other students e fuel s e' scan c, step, of_city-other s after c)
                later
        ]
  ]

  counted-Limited :
      (rest : List Row) (k : ℕ) (r : Option Student × Engine)
      → Finds students rest k r
      → Limited students rest (suc k) (counted r)
  counted-Limited rest k (none, e) f = record { counts = λ s z. cc; rows = f.rows }
  counted-Limited rest k (some s, e) f = record {
    counts = λ s' z. omega (arith, f.limit_kept);
    rows = f.rows;
  }

  -- what `limit_next` does: it is `filter_next` until the limit is reached
  limit_next-Limited :
      (e : Engine)
      → e.current_limit < limit
      → Limited students
          (of_city (drop e.current_index students))
          (suc e.current_limit)
          (limit_next students e)
  unfolding limit_next
  limit_next-Limited e p =
      rw (limit_next, lt→ltb e.current_limit limit p)
        (counted-Limited (of_city (drop e.current_index students)) e.current_limit
          (filter_next students scan_fuel e) (filter_next-Finds scan_fuel e (omega arith)))

  limit_next-reached : (e : Engine) → limit ≤ e.current_limit → limit_next students e ≡ (none, e)
  unfolding limit_next
  limit_next-reached e p = ground arith

  projection_next-none :
      (fuel : ℕ) (e : Engine)
      → (limit_next students e).0 ≡ none
      → (projection_next students (suc fuel) e).0 ≡ []
  unfolding projection_next
  projection_next-none fuel e q = rw (projection_next, q) refl

  projection_next-some :
      (fuel : ℕ) (e : Engine) (s : Student)
      → (limit_next students e).0 ≡ some s
      → (projection_next students (suc fuel) e).0
        ≡ (s.name, s.age) ∷ (projection_next students fuel (limit_next students e).1).0
  unfolding projection_next
  projection_next-some fuel e s q = rw (projection_next, q) refl

  projection_next-rows :
      (fuel : ℕ) (e : Engine)
      → limit < e.current_limit + fuel
      → (projection_next students fuel e).0
        ≡ take (limit - e.current_limit) (of_city (drop e.current_index students))
  unfolding projection_next
  projection_next-rows zero e p = rw (none_left e (omega arith)) refl
  projection_next-rows (suc fuel) e p = elim (Bool-cases (ltb e.current_limit limit)) [
    | inr f ↦
        projection_next-none fuel e (ap (λ r. r.0) (limit_next-reached e (ground arith)))
        ∙ sym (rw (none_left e (ground arith)) refl)
    | inl t ↦
        let r = limit_next students e in
        let l = limit_next-Limited e (ground arith) in
        elim (Option-cases r.0) [
          | inl n ↦
              projection_next-none fuel e n
              ∙ sym (
                  rw (no_row (of_city (drop e.current_index students)) n l.rows)
                    (take-nil (limit - e.current_limit)))
          | inr (s, q) ↦
              let counts = l.counts s q in
              let more : limit - e.current_limit ≡ suc (limit - r.1.current_limit) =
                omega (arith, counts, ltb→lt e.current_limit limit t) in
              projection_next-some fuel e s q
              ∙ rw
                  (
                    projection_next-rows fuel r.1 (omega (arith, counts)),
                    more,
                    one_row (of_city (drop e.current_index students)) s q l.rows,
                  )
                  refl
        ]
  ]
    where
      no_row :
          (rest : List Row)
          → (limit_next students e).0 ≡ none
          → Remains students rest (limit_next students e).0 (limit_next students e).1
          → rest ≡ []
      no_row rest n m = rw n at m

      one_row :
          (rest : List Row) (s : Student)
          → (limit_next students e).0 ≡ some s
          → Remains students rest (limit_next students e).0 (limit_next students e).1
          → rest ≡ (s.name, s.age) ∷ of_city (drop (limit_next students e).1.current_index students)
      one_row rest s q m = rw q at m

  filter_next-limit :
      (e : Engine) → (filter_next students scan_fuel e).1.current_limit ≡ e.current_limit
  filter_next-limit e = (filter_next-Finds scan_fuel e (omega arith)).limit_kept

  counted-limit :
      (k : ℕ) (r : Option Student × Engine)
      → r.1.current_limit ≡ k
      → (counted r).1.current_limit ≡ k + found (counted r).0
  counted-limit k (none, e) p = omega (arith, p)
  counted-limit k (some s, e) p = omega (arith, p)

  -- `limit_next` counts the row that it returns.
  limit_next-counts :
      (e : Engine)
      → (limit_next students e).1.current_limit ≡ e.current_limit + found (limit_next students e).0
  unfolding limit_next
  limit_next-counts e = elim (Bool-cases (ltb e.current_limit limit)) [
    | inl t ↦
        rw (limit_next, t)
          (counted-limit e.current_limit (filter_next students scan_fuel e) (filter_next-limit e))
    | inr f ↦ rw (limit_next, f) (omega arith)
  ]

  -- After a run `currentLimit` has grown by the rows that were printed.
  projection_next-counts :
      (fuel : ℕ) (e : Engine)
      → (projection_next students fuel e).1.current_limit
        ≡ e.current_limit + length (projection_next students fuel e).0
  unfolding projection_next
  projection_next-counts zero e = omega arith
  projection_next-counts (suc fuel) e = elim (Option-cases (limit_next students e).0) [
    | inl n ↦
        let c : (limit_next students e).1.current_limit ≡ e.current_limit + 0 =
          rw n at (limit_next-counts e) in
        rw (projection_next, n) (omega (arith, c))
    | inr (s, q) ↦
        let c : (limit_next students e).1.current_limit ≡ e.current_limit + 1 =
          rw q at (limit_next-counts e) in
        rw (projection_next, q)
          (omega (arith, c, projection_next-counts fuel (limit_next students e).1))
  ]

  printed :
      (e : Engine) → (run_query students e).0 ≡ take (limit - e.current_limit) (of_city students)
  unfolding run_query
  printed e = projection_next-rows (suc limit) (record e { current_index = 0 }) (omega arith)

  -- For a table of five rows, and from any state of the engine, the query prints the first rows of the
  -- city in the order of the table, as many as `LIMIT` less `currentLimit` before it. It leaves
  -- `currentLimit` larger by the number of rows that it printed, so that a second run prints as many
  -- rows as are then left of `LIMIT`: after a run of a fresh engine that printed one row, none.
  pub run_query_lem :
      (e : Engine)
      → let first = run_query students e in
        (first.0 ≡ take (limit - e.current_limit) (of_city students))
        × (first.1.current_limit ≡ e.current_limit + length first.0)
        × ((run_query students first.1).0
            ≡ take (limit - (e.current_limit + length first.0)) (of_city students))
  unfolding run_query
  run_query_lem e =
      let counts = projection_next-counts (suc limit) (record e { current_index = 0 }) in
      (
        printed e,
        counts,
        printed (run_query students e).1 ∙ ap (λ k. take (limit - k) (of_city students)) counts,
      )
