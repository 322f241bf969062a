-- ===== src/Grafana/Flow.antt =====
-- internal/tools/grafana/panels.go: panels that are placed one after the other without an x or a y.
use gooners.Base.{ℕ, ◌+◌, ◌≤◌, ◌<◌, ◌⊎◌, none, List, [], ◌∷◌, arith, nat_eq, list_eq, All}
use gooners.Grafana.{GridPos, Cursor, next_column, place_panel_in_dashboard}

-- Two places have no cell in common.
abbrev pub IsDisjoint : GridPos → GridPos → Type 0
IsDisjoint p q = (p.x + p.w ≤ q.x) ⊎ (q.x + q.w ≤ p.x) ⊎ (p.y + p.h ≤ q.y) ⊎ (q.y + q.h ≤ p.y)

abbrev pub IsPairwiseDisjoint : List GridPos → Type 0
IsPairwiseDisjoint [] = Unit
IsPairwiseDisjoint (p ∷ ps) = All (IsDisjoint p) ps × IsPairwiseDisjoint ps

-- A place lies above the line of the cursor, or on it to the left of the cursor.
abbrev IsBehind : Cursor → GridPos → Type 0
IsBehind s p =
    ((p.y + p.h) + s.line_height ≤ s.next_y) ⊎ ((p.x + p.w ≤ s.next_x) × (p.y + p.h ≤ s.next_y))

place_step :
    (s : Cursor) (w h : ℕ) (p : GridPos)
    → s.line_height ≤ s.next_y
    → s.next_x ≤ 24
    → w ≤ 24
    → s.next_y + h < 4294967296
    → IsBehind s p
    → let done = place_panel_in_dashboard s w h none none in IsDisjoint done.1 p × IsBehind done.0 p
unfolding place_panel_in_dashboard next_column
place_step s w h p a b c d e = ground arith

-- The cursor keeps its bounds, and the place lies within the columns.
place_bounds :
    (s : Cursor) (w h : ℕ)
    → s.line_height ≤ s.next_y
    → s.next_x ≤ 24
    → w ≤ 24
    → s.next_y + h < 4294967296
    → let done = place_panel_in_dashboard s w h none none in
      (done.0.line_height ≤ done.0.next_y)
      × (done.0.next_x ≤ 24)
      × (done.0.next_y ≤ s.next_y + h)
      × (done.1.x + done.1.w ≤ 24)
      × IsBehind done.0 done.1
unfolding place_panel_in_dashboard next_column
place_bounds s w h a b c d = ground arith

-- Panels of some widths and heights, placed in turn; the latest place comes first.
unfoldable pub place_all : Cursor → List (ℕ × ℕ) → List GridPos → Cursor × List GridPos
place_all s [] ps = (s, ps)
place_all s ((w, h) ∷ sizes) ps =
    let done = place_panel_in_dashboard s w h none none in place_all done.0 sizes (done.1 ∷ ps)

abbrev pub total_height : List (ℕ × ℕ) → ℕ
total_height [] = 0
total_height ((w, h) ∷ sizes) = h + total_height sizes

abbrev IsFine : Cursor → List GridPos → Type 0
IsFine s ps =
    (s.line_height ≤ s.next_y)
    × (s.next_x ≤ 24)
    × All (IsBehind s) ps
    × IsPairwiseDisjoint ps
    × All (λ p. p.x + p.w ≤ 24) ps

place_steps :
    (s : Cursor) (w h : ℕ) (ps : List GridPos)
    → s.line_height ≤ s.next_y
    → s.next_x ≤ 24
    → w ≤ 24
    → s.next_y + h < 4294967296
    → All (IsBehind s) ps
    → let done = place_panel_in_dashboard s w h none none in
      All (IsDisjoint done.1) ps × All (IsBehind done.0) ps
place_steps s w h [] a b c d behind = (tt, tt)
place_steps s w h (p ∷ ps) a b c d behind =
    let one = place_step s w h p a b c d behind.0 in
    let rest = place_steps s w h ps a b c d behind.1 in ((one.0, rest.0), (one.1, rest.1))

place_all-IsFine :
    (s : Cursor) (sizes : List (ℕ × ℕ)) (ps : List GridPos)
    → All (λ x. x.0 ≤ 24) sizes
    → s.next_y + total_height sizes < 4294967296
    → IsFine s ps
    → IsFine (place_all s sizes ps).0 (place_all s sizes ps).1
unfolding place_all
place_all-IsFine s [] ps narrow room fine = fine
place_all-IsFine s ((w, h) ∷ sizes) ps narrow room fine =
    let (a, b, behind, apart, inside) = fine in
    let d : s.next_y + h < 4294967296 = omega (arith, room) in
    let done = place_panel_in_dashboard s w h none none in
    let bounds = place_bounds s w h a b narrow.0 d in
    let step = place_steps s w h ps a b narrow.0 d behind in
    place_all-IsFine done.0 sizes (done.1 ∷ ps) narrow.1 (omega (arith, room, bounds.2))
      (bounds.0, bounds.1, (bounds.4, step.1), (step.0, apart), (bounds.3, inside))

-- Panels that are placed in an empty dashboard without an x or a y, each at most 24 columns wide and
-- together not 2^32 rows high, stay within the 24 columns, and no two of them have a cell in common.
pub place_all-IsPairwiseDisjoint :
    (sizes : List (ℕ × ℕ))
    → All (λ x. x.0 ≤ 24) sizes
    → total_height sizes < 4294967296
    → let placed = place_all (record { next_x = 0; next_y = 0; line_height = 0 }) sizes [] in
      IsPairwiseDisjoint placed.1 × All (λ p. p.x + p.w ≤ 24) placed.1
place_all-IsPairwiseDisjoint sizes narrow room =
    let fine =
      place_all-IsFine (record { next_x = 0; next_y = 0; line_height = 0 }) sizes [] narrow
        (omega (arith, room)) (omega arith, omega arith, tt, tt, tt) in
    (fine.3, fine.4)
