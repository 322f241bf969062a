-- ===== src/Grafana/Sessions.antt =====
-- internal/tools/grafana: the sessions in which dashboards are built, and the handlers that move their
-- rows and panels. A session that is given out or changed is a copy. The files are left out.
pub mod Weights
pub mod Moves
pub mod Kept
mod Samples
use gooners.Base.{
  pos, ℤ, ℕ, zero, suc, ◌+◌, ◌-◌, ◌*◌, ◌≤◌, ◌<◌, ◌≡◌, refl, sym, ap, ◌∙◌, ◌≢◌, ◌↔◌, ◌⊎◌, inl, inr,
  Bool, true, false, not, ◌&&◌, ◌||◌, Option, none, some, List, [], ◌∷◌, ◌++◌, map, arith, ltb, leb,
  nat_beq, if◌then◌else◌, Eq, ◌==◌, nat_eq, ==-self, list_beq, list_beq_iff, list_eq, Bool-cases,
  Sum-cases, Option-cases, length, get_elem?, take, drop, keep, is_empty, get_or, is_some, or_else,
  length-append, length-keep-le, keep-append, All, All-append, contains, count, contains-append,
  contains-keep, Text, text, to_lower, has_prefix, has_infix, has_suffix, trim_prefix,
  trim_prefix-append, is_space, fields, trim_left, trim_space, cut_at, join,
}
use gooners.Base.Map
use gooners.Base.Map.{Map}
use gooners.Grafana.{Cursor, GridPos, place_panel}

-- `rest` stands for the fields of a panel that are passed on unread.
pub record PanelEntry : Type 0 where
  pub id : Text
  pub ptype : Text
  pub grid_pos : GridPos
  pub rest : ℕ

pub record RowEntry : Type 0 where
  pub id : Text
  pub title : Text
  pub collapsed : Bool
  pub panels : List PanelEntry
  pub cursor : Cursor

pub record DashboardSession : Type 0 where
  pub dashboard_id : Text
  pub rows : List RowEntry
  pub panels : List PanelEntry
  pub cursor : Cursor
  pub touched_at : ℕ

pub data Error : Type 0 where
  session_not_found row_not_found before_row_not_found panel_not_found : Text → Error

abbrev pub Sessions : Type 0
Sessions = Map Text DashboardSession

-- SessionManager.Update at a time.
unfoldable pub update :
    ℕ → Text → (DashboardSession → Error ⊎ DashboardSession) → Sessions → Sessions × Option Error
update now id fn m = elim (Map.get id m) [
  | none ↦ (m, some (session_not_found id))
  | some s ↦ elim (fn s) [
    | inl e ↦ (m, some e)
    | inr s' ↦ (Map.put id (record s' { touched_at = now }) m, none)
  ]
]

module _ {ℓ} {A : Type ℓ} where
  -- slices.IndexFunc, with the element that it finds.
  abbrev pub find_index : (A → Bool) → List A → Option (ℕ × A)
  find_index p [] = none
  find_index p (x ∷ xs) =
      if p x
      then some (0, x)
      else elim (find_index p xs) [ none ↦ none | some (i, y) ↦ some (suc i, y) ]

  -- append(xs[:i], xs[i+1:]...)
  abbrev pub remove_at : ℕ → List A → List A
  remove_at i xs = take i xs ++ drop (suc i) xs

  abbrev pub insert_at : ℕ → A → List A → List A
  insert_at i x xs = take i xs ++ (x ∷ drop i xs)

  -- A change of the element at an index, through a pointer to it.
  abbrev pub modify_at : ℕ → (A → A) → List A → List A
  modify_at i f [] = []
  modify_at zero f (x ∷ xs) = f x ∷ xs
  modify_at (suc i) f (x ∷ xs) = x ∷ modify_at i f xs

unfoldable pub find_row : Text → List RowEntry → Option (ℕ × RowEntry)
find_row row_id rows = find_index (λ r. r.id == row_id) rows

abbrev pub find_panel_in : Text → List PanelEntry → Option (ℕ × PanelEntry)
find_panel_in panel_id panels = find_index (λ p. p.id == panel_id) panels

-- The loop of findPanel over the rows: the row's index, the panel's index in it, and the panel.
unfoldable pub find_in_rows : Text → List RowEntry → Option (ℕ × ℕ × PanelEntry)
find_in_rows panel_id [] = none
find_in_rows panel_id (r ∷ rows) = elim (find_panel_in panel_id r.panels) [
  | some (i, p) ↦ some (0, i, p)
  | none ↦ elim (find_in_rows panel_id rows) [ none ↦ none | some (k, i, p) ↦ some (suc k, i, p) ]
]

-- findPanel: the row's index, if the panel is in one, the panel's index, and the panel.
unfoldable pub find_panel : Text → DashboardSession → Option (Option ℕ × ℕ × PanelEntry)
unfolding find_in_rows
find_panel panel_id s = elim (find_panel_in panel_id s.panels) [
  | some (i, p) ↦ some (none, i, p)
  | none ↦ elim (find_in_rows panel_id s.rows) [
    | none ↦ none
    | some (k, i, p) ↦ some (some k, i, p)
  ]
]

-- The function that deleteRowHandler gives to Update.
unfoldable pub delete_row : Text → Bool → DashboardSession → Error ⊎ DashboardSession
unfolding find_row
delete_row row_id keep_panels s = elim (find_row row_id s.rows) [
  | none ↦ inl (row_not_found row_id)
  | some (idx, r) ↦ inr (record s {
    panels = if keep_panels then s.panels ++ r.panels else s.panels;
    rows = remove_at idx s.rows;
  })
]

-- The function of moveRowHandler.
unfoldable pub move_row : Text → Text → DashboardSession → Error ⊎ DashboardSession
unfolding find_row
move_row row_id before_row_id s = elim (find_row row_id s.rows) [
  | none ↦ inl (row_not_found row_id)
  | some (src, row) ↦
      let without = remove_at src s.rows in
      if is_empty before_row_id
      then inr (record s { rows = without ++ (row ∷ []) })
      else elim (find_row before_row_id without) [
        | none ↦ inl (before_row_not_found before_row_id)
        | some (dst, _) ↦ inr (record s { rows = insert_at dst row without })
      ]
]

abbrev pub take_panel : Option ℕ → ℕ → DashboardSession → DashboardSession
take_panel none i s = record s { panels = remove_at i s.panels }
take_panel (some k) i s = record s {
  rows = modify_at k (λ r. record r { panels = remove_at i r.panels }) s.rows;
}

-- A panel of its old size gets a place and is appended to its new container.
unfoldable pub put_panel :
    Option ℕ → PanelEntry → Option ℤ → Option ℤ → DashboardSession → DashboardSession
unfolding place_panel
put_panel none p x y s =
    let placed =
      place_panel s.cursor none p.ptype (some (pos p.grid_pos.w)) (some (pos p.grid_pos.h)) x y in
    record s { cursor = placed.0.0; panels = s.panels ++ (record p { grid_pos = placed.1 } ∷ []) }
put_panel (some k) p x y s = elim (get_elem? s.rows k) [
  | none ↦ s
  | some row ↦
      let placed =
        place_panel s.cursor (some row.cursor) p.ptype (some (pos p.grid_pos.w))
          (some (pos p.grid_pos.h)) x y in
      record s {
        cursor = placed.0.0;
        rows =
            modify_at k
              (λ r. record r {
                cursor = get_or placed.0.1 r.cursor;
                panels = r.panels ++ (record p { grid_pos = placed.1 } ∷ []);
              })
              s.rows;
      }
]

abbrev pub same_place : Option ℕ → Option ℕ → Bool
same_place none none = true
same_place (some a) (some b) = a == b
same_place _ _ = false

-- The row to move to; the empty text stands for the dashboard itself.
unfoldable pub destination : Text → DashboardSession → Error ⊎ Option ℕ
unfolding find_row
destination row_id s = if is_empty row_id then inr none else elim (find_row row_id s.rows) [
  | none ↦ inl (row_not_found row_id)
  | some (k, _) ↦ inr (some k)
]

-- The function of movePanelHandler.
unfoldable pub move_panel :
    Text → Text → Option ℤ → Option ℤ → DashboardSession → Error ⊎ DashboardSession
unfolding find_panel destination put_panel
move_panel panel_id row_id x y s = elim (find_panel panel_id s) [
  | none ↦ inl (panel_not_found panel_id)
  | some (src, i, p) ↦ elim (destination row_id s) [
    | inl e ↦ inl e
    | inr dst ↦ if same_place src dst then inr s else inr (put_panel dst p x y (take_panel src i s))
  ]
]
