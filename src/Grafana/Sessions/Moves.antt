-- ===== src/Grafana/Sessions/Moves.antt =====
-- internal/tools/grafana: what the handlers that move rows and panels do to the panels of a dashboard.
use Prim.{⊥}
use gooners.Base.{
  pos, ℤ, ℕ, ◌+◌, ◌≡◌, inl, inr, true, ◌&&◌, Option, none, some, List, [], ◌∷◌, ◌++◌, arith,
  if◌then◌else◌, ◌==◌, nat_eq, list_eq, Bool-cases, Sum-cases, Option-cases, get_elem?, is_empty,
  get_or, Text,
}
use gooners.Grafana.{place_panel}
use gooners.Grafana.Sessions.{
  PanelEntry, RowEntry, DashboardSession, find_row, find_panel_in, find_in_rows, find_panel,
  delete_row, move_row, take_panel, put_panel, destination, same_place, move_panel, remove_at,
}
use gooners.Grafana.Sessions.Weights.{
  weight, weight-append, weight-remove_at, weight-insert_at, weight-modify_at, get-modify_at,
  get-find_index,
}

-- The panels of a dashboard that have an id, with what is not their place.
abbrev is_panel : Text → Text → ℕ → PanelEntry → ℕ
is_panel id ptype rest p = if p.id == id && (p.ptype == ptype && p.rest == rest) then 1 else 0

abbrev in_rows : (PanelEntry → ℕ) → List RowEntry → ℕ
in_rows m rows = weight (λ r. weight m r.panels) rows

-- How many panels a dashboard has, in its rows and outside, that have an id, a type and the other fields.
abbrev pub panels_of : Text → Text → ℕ → DashboardSession → ℕ
panels_of id ptype rest s =
    weight (is_panel id ptype rest) s.panels + in_rows (is_panel id ptype rest) s.rows

module _ (id ptype : Text) (rest : ℕ) where
  pub move_row-panels :
      (row_id before_row_id : Text) (s s' : DashboardSession)
      → move_row row_id before_row_id s ≡ inr s'
      → panels_of id ptype rest s' ≡ panels_of id ptype rest s
  unfolding move_row find_row
  move_row-panels row_id before_row_id s s' h = elim (Option-cases (find_row row_id s.rows)) [
    | inl e ↦ ground (arith, e)
    | inr ((src, row), e) ↦
        let m = λ (r : RowEntry). weight (is_panel id ptype rest) r.panels in
        let without = remove_at src s.rows in
        let got = get-find_index (λ r. r.id == row_id) src row s.rows e in
        let taken = weight-remove_at m src row s.rows got in
        elim (Bool-cases (is_empty before_row_id)) [
          | inl f ↦ ground (arith, e, f, taken, weight-append m without (row ∷ []))
          | inr f ↦ elim (Option-cases (find_row before_row_id without)) [
            | inl k ↦ ground (arith, e, f, k)
            | inr ((dst, other), k) ↦
                ground (arith, e, f, k, taken, weight-insert_at m dst row without)
          ]
        ]
  ]

  pub delete_row-panels :
      (row_id : Text) (s s' : DashboardSession)
      → delete_row row_id true s ≡ inr s'
      → panels_of id ptype rest s' ≡ panels_of id ptype rest s
  unfolding delete_row find_row
  delete_row-panels row_id s s' h = elim (Option-cases (find_row row_id s.rows)) [
    | inl e ↦ ground (arith, e)
    | inr ((src, row), e) ↦
        let q = is_panel id ptype rest in
        let m = λ (r : RowEntry). weight q r.panels in
        let got = get-find_index (λ r. r.id == row_id) src row s.rows e in
        ground
          (arith, e, weight-remove_at m src row s.rows got, weight-append q s.panels row.panels)
  ]

-- A panel stands at an index of its container.
abbrev StandsAt : Option ℕ → ℕ → PanelEntry → DashboardSession → Type 0
StandsAt none i p s = get_elem? s.panels i ≡ some p
StandsAt (some k) i p s =
    (r : RowEntry) × (get_elem? s.rows k ≡ some r) × (get_elem? r.panels i ≡ some p)

-- A container is there.
abbrev IsContainer : Option ℕ → DashboardSession → Type 0
IsContainer none s = Unit
IsContainer (some k) s = (r : RowEntry) × (get_elem? s.rows k ≡ some r)

find_in_rows-found :
    (panel_id : Text) (rows : List RowEntry) (k i : ℕ) (p : PanelEntry)
    → find_in_rows panel_id rows ≡ some (k, i, p)
    → (r : RowEntry) × (get_elem? rows k ≡ some r) × (get_elem? r.panels i ≡ some p)
unfolding find_in_rows
find_in_rows-found panel_id [] k i p h = cc
find_in_rows-found panel_id (r ∷ rows) k i p h =
    elim (Option-cases (find_panel_in panel_id r.panels)) [
      | inr ((j, q), e) ↦
          let got = get-find_index (λ x. x.id == panel_id) j q r.panels e in
          (r, ground (arith, e), ground (arith, e, got))
      | inl e ↦ elim (Option-cases (find_in_rows panel_id rows)) [
        | inl f ↦ let no : ⊥ = ground (arith, e, f) in elim no [ ]
        | inr ((l, j, q), f) ↦
            let (row, at, in_row) = find_in_rows-found panel_id rows l j q f in
            (row, ground (arith, e, f, at), ground (arith, e, f, in_row))
      ]
    ]

find_panel-StandsAt :
    (panel_id : Text) (s : DashboardSession) (src : Option ℕ) (i : ℕ) (p : PanelEntry)
    → find_panel panel_id s ≡ some (src, i, p)
    → StandsAt src i p s
unfolding find_panel
find_panel-StandsAt panel_id s none i p h = elim (Option-cases (find_panel_in panel_id s.panels)) [
  | inr ((j, q), e) ↦ ground (arith, e, get-find_index (λ x. x.id == panel_id) j q s.panels e)
  | inl e ↦
      let no : ⊥ = ground (arith, e, Option-cases (find_in_rows panel_id s.rows)) in elim no [ ]
]
find_panel-StandsAt panel_id s (some k) i p h =
    elim (Option-cases (find_panel_in panel_id s.panels)) [
      | inr ((j, q), e) ↦ let no : ⊥ = ground (arith, e) in elim no [ ]
      | inl e ↦ elim (Option-cases (find_in_rows panel_id s.rows)) [
        | inl f ↦ let no : ⊥ = ground (arith, e, f) in elim no [ ]
        | inr ((l, j, q), f) ↦
            let (row, at, in_row) = find_in_rows-found panel_id s.rows l j q f in
            (row, ground (arith, e, f, at), ground (arith, e, f, in_row))
      ]
    ]

destination-IsContainer :
    (row_id : Text) (s : DashboardSession) (dst : Option ℕ)
    → destination row_id s ≡ inr dst
    → IsContainer dst s
unfolding destination find_row
destination-IsContainer row_id s none h = tt
destination-IsContainer row_id s (some k) h = elim (Option-cases (find_row row_id s.rows)) [
  | inl e ↦ let no : ⊥ = ground (arith, e) in elim no [ ]
  | inr ((j, r), e) ↦
      let got = get-find_index (λ x. x.id == row_id) j r s.rows e in (r, ground (arith, e, got))
]

module _ (id ptype : Text) (rest : ℕ) where
  take_panel-panels :
      (src : Option ℕ) (i : ℕ) (p : PanelEntry) (s : DashboardSession)
      → StandsAt src i p s
      → panels_of id ptype rest (take_panel src i s) + is_panel id ptype rest p
        ≡ panels_of id ptype rest s
  take_panel-panels none i p s h =
      omega (arith, weight-remove_at (is_panel id ptype rest) i p s.panels h)
  take_panel-panels (some k) i p s h =
      let (r, at, in_row) = h in
      let q = is_panel id ptype rest in
      let f = λ (x : RowEntry). record x { panels = remove_at i x.panels } in
      omega (
        arith,
        weight-modify_at (λ x. weight q x.panels) k f r s.rows at,
        weight-remove_at q i p r.panels in_row,
      )

  put_panel-panels :
      (dst : Option ℕ) (p : PanelEntry) (x y : Option ℤ) (s : DashboardSession)
      → IsContainer dst s
      → panels_of id ptype rest (put_panel dst p x y s)
        ≡ panels_of id ptype rest s + is_panel id ptype rest p
  unfolding put_panel
  put_panel-panels none p x y s h =
      let placed =
        place_panel s.cursor none p.ptype (some (pos p.grid_pos.w)) (some (pos p.grid_pos.h)) x y in
      omega (
        arith,
        weight-append (is_panel id ptype rest) s.panels (record p { grid_pos = placed.1 } ∷ []),
      )
  put_panel-panels (some k) p x y s h =
      let (row, at) = h in
      let q = is_panel id ptype rest in
      let placed =
        place_panel s.cursor (some row.cursor) p.ptype (some (pos p.grid_pos.w))
          (some (pos p.grid_pos.h)) x y in
      let added = record p { grid_pos = placed.1 } ∷ [] in
      let f = λ (r : RowEntry). record r {
        cursor = get_or placed.0.1 r.cursor;
        panels = r.panels ++ (record p { grid_pos = placed.1 } ∷ []);
      } in
      rw (at, put_panel)
        (omega (
          arith,
          weight-modify_at (λ r. weight q r.panels) k f row s.rows at,
          weight-append q row.panels added,
        ))

  take_panel-IsContainer :
      (src : Option ℕ) (i : ℕ) (dst : Option ℕ) (s : DashboardSession)
      → IsContainer dst s
      → IsContainer dst (take_panel src i s)
  take_panel-IsContainer src i none s h = tt
  take_panel-IsContainer none i (some k) s h = h
  take_panel-IsContainer (some j) i (some k) s h =
      get-modify_at j k (λ r. record r { panels = remove_at i r.panels }) h.0 s.rows h.1

  pub move_panel-panels :
      (panel_id row_id : Text) (x y : Option ℤ) (s s' : DashboardSession)
      → move_panel panel_id row_id x y s ≡ inr s'
      → panels_of id ptype rest s' ≡ panels_of id ptype rest s
  unfolding move_panel
  move_panel-panels panel_id row_id x y s s' h = elim (Option-cases (find_panel panel_id s)) [
    | inl e ↦ ground (arith, e)
    | inr ((src, i, p), e) ↦ elim (Sum-cases (destination row_id s)) [
      | inl (err, f) ↦ ground (arith, e, f)
      | inr (dst, f) ↦ elim (Bool-cases (same_place src dst)) [
        | inl k ↦ ground (arith, e, f, k)
        | inr k ↦
            let at = find_panel-StandsAt panel_id s src i p e in
            let there =
              take_panel-IsContainer src i dst s (destination-IsContainer row_id s dst f) in
            let taken = take_panel-panels src i p s at in
            let given = put_panel-panels dst p x y (take_panel src i s) there in
            let done : s' ≡ put_panel dst p x y (take_panel src i s) = ground (arith, e, f, k) in
            rw done (omega (arith, taken, given))
      ]
    ]
  ]
