-- ===== src/Grafana/Sessions/Samples.antt =====
-- A dashboard with a panel in a row and one outside.
use gooners.Base.{ℕ, ◌≡◌, refl, inl, false, none, some, List, [], ◌∷◌, nat_eq, list_eq, Text, text}
use gooners.Base.Map
use gooners.Base.Map.{Map}
use gooners.Grafana.{Cursor}
use gooners.Grafana.Sessions.{
  PanelEntry, RowEntry, DashboardSession, Sessions, update, move_row, move_panel, delete_row,
  before_row_not_found,
}
use gooners.Grafana.Sessions.Kept.{
  Change, row_moved, row_deleted, panel_moved, run, panels_under, run-panels,
}

abbrev cursor : Cursor
cursor = record { next_x = 6; next_y = 4; line_height = 4 }

abbrev panel : Text → PanelEntry
panel id = record {
  id = id;
  ptype = text "stat";
  grid_pos = record { w = 6; h = 4; x = 0; y = 0 };
  rest = 0;
}

abbrev row : Text → List PanelEntry → RowEntry
row id panels = record { id = id; title = []; collapsed = false; panels = panels; cursor = cursor }

abbrev board : DashboardSession
board = record {
  dashboard_id = text "d";
  rows = row (text "r1") (panel (text "p1") ∷ []) ∷ (row (text "r2") [] ∷ []);
  panels = panel (text "p2") ∷ [];
  cursor = cursor;
  touched_at = 0;
}

abbrev sessions : Sessions
sessions = (text "d", board) ∷ []

abbrev changes : List (ℕ × Text × Change)
changes =
    (1, text "d", panel_moved (text "p2") (text "r2") none none)
    ∷ ((2, text "d", row_moved (text "r2") (text "r1"))
        ∷ ((3, text "d", row_deleted (text "r1")) ∷ []))

run-panels_example :
    panels_under (text "p1") (text "stat") 0 (Map.get (text "d") (run changes sessions))
    ≡ panels_under (text "p1") (text "stat") 0 (some board)
unfolding Map.get
run-panels_example = run-panels changes sessions (text "d") (text "p1") (text "stat") 0

-- A row cannot be moved before itself.
before_itself : move_row (text "r1") (text "r1") board ≡ inl (before_row_not_found (text "r1"))
unfolding move_row
before_itself = refl

one_panel : panels_under (text "p1") (text "stat") 0 (Map.get (text "d") (run changes sessions)) ≡ 1
unfolding Map.get Map.put update move_panel move_row delete_row
one_panel = refl
