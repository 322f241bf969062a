-- ===== src/Grafana/Samples.antt =====
-- Three panels that follow the flow, and a panel whose place is given.
use gooners.Base.{
  pos, ℕ, ◌+◌, ◌≤◌, ◌≡◌, refl, none, some, List, [], ◌∷◌, arith, nat_eq, list_eq, All, text,
}
use gooners.Grafana.{add_row, Cursor, GridPos, place_panel_in_dashboard, place_panel}
use gooners.Grafana.Flow.{place_all, IsPairwiseDisjoint, place_all-IsPairwiseDisjoint}

abbrev start : Cursor
start = record { next_x = 0; next_y = 0; line_height = 0 }

abbrev sizes : List (ℕ × ℕ)
sizes = (6, 4) ∷ ((12, 8) ∷ ((24, 8) ∷ []))

place_all-IsPairwiseDisjoint_example :
    IsPairwiseDisjoint (place_all start sizes []).1
    × All (λ p. p.x + p.w ≤ 24) (place_all start sizes []).1
place_all-IsPairwiseDisjoint_example =
    place_all-IsPairwiseDisjoint sizes (omega arith, (omega arith, (omega arith, tt))) (omega arith)

third_line :
    (place_panel_in_dashboard (place_all start ((6, 4) ∷ ((12, 8) ∷ [])) []).0 24 8 none none).1
    ≡ record { w = 24; h = 8; x = 0; y = 8 }
unfolding place_panel_in_dashboard place_all
third_line = refl

-- A panel over the whole width is placed at y = 10 in the middle of a line, and the next panel of the
-- flow is put on top of it.
abbrev given : Cursor × GridPos
given =
    place_panel_in_dashboard (place_panel_in_dashboard start 6 4 none none).0 24 4 (some (pos 0))
      (some (pos 10))

given_at_ten : given.1 ≡ record { w = 24; h = 4; x = 0; y = 10 }
unfolding place_panel_in_dashboard
given_at_ten = refl

flow_overlaps :
    (place_panel_in_dashboard given.0 6 4 none none).1 ≡ record { w = 6; h = 4; x = 6; y = 10 }
unfolding place_panel_in_dashboard
flow_overlaps = refl

stat_is_small :
    (place_panel start none (text "stat") none none none none).1
    ≡ record { w = 6; h = 4; x = 0; y = 0 }
unfolding place_panel
stat_is_small = refl

-- A row that is added in the middle of a line lies under the next panel of that line.
row_is_covered :
    let added = add_row (place_panel_in_dashboard start 6 4 none none).0 in
    (added.1.next_y ≡ 5)
    × ((place_panel_in_dashboard added.0 6 4 none none).1 ≡ record { w = 6; h = 4; x = 6; y = 1 })
unfolding place_panel_in_dashboard add_row
row_is_covered = (refl, refl)
