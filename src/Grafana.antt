-- ===== src/Grafana.antt =====
-- internal/tools/grafana/panels.go: where new panels of a dashboard are placed. Numbers are uint32.
pub mod Flow
pub mod Sessions
mod Samples
use gooners.Base.{
  negsuc, pos, ℤ, ℕ, zero, suc, ◌+◌, ◌-◌, ◌*◌, ◌≤◌, ◌<◌, ◌≡◌, refl, sym, ap, ◌∙◌, ◌≢◌, ◌↔◌, ◌⊎◌,
  inl, inr, Bool, true, false, not, ◌&&◌, ◌||◌, Option, none, some, List, [], ◌∷◌, ◌++◌, map, arith,
  ltb, leb, nat_beq, if◌then◌else◌, Eq, ◌==◌, nat_eq, ==-self, list_beq, list_beq_iff, list_eq,
  Bool-cases, Sum-cases, Option-cases, length, get_elem?, take, drop, keep, is_empty, get_or,
  is_some, or_else, length-append, length-keep-le, keep-append, All, All-append, contains, count,
  contains-append, contains-keep, Text, text, to_lower, has_prefix, has_infix, has_suffix,
  trim_prefix, trim_prefix-append, is_space, fields, trim_left, trim_space, cut_at, join,
}
use gooners.Base.Map
use gooners.Base.Map.{Map}
use Prim.Native.Nat.{◌%◌}

abbrev pub wrap : ℕ → ℕ
wrap n = n % 4294967296

-- uint32 of an int
abbrev pub uint32 : ℤ → ℕ
uint32 (pos n) = wrap n
uint32 (negsuc n) = wrap (4294967296 - wrap (suc n))

-- a - b on uint32
abbrev pub minus : ℕ → ℕ → ℕ
minus a b = wrap (a + 4294967296 - b)

pub record GridPos : Type 0 where
  pub w : ℕ
  pub h : ℕ
  pub x : ℕ
  pub y : ℕ

-- The fields NextX, NextY and LineHeight, which a dashboard and a row have.
pub record Cursor : Type 0 where
  pub next_x : ℕ
  pub next_y : ℕ
  pub line_height : ℕ

-- The column, and the cursor with the column after it; a line that is full is left.
unfoldable pub next_column : Cursor → ℕ → Option ℤ → ℕ × Cursor
next_column s w (some x) = (uint32 x, s)
next_column s w none =
    if ltb 24 (wrap (s.next_x + w))
    then (0, record s { next_x = w; line_height = 0 })
    else (s.next_x, record s { next_x = wrap (s.next_x + w) })

abbrev pub next_line : Cursor → Option ℤ → ℕ
next_line s (some y) = uint32 y
next_line s none = if ltb 0 s.line_height then minus s.next_y s.line_height else s.next_y

abbrev pub larger : ℕ → ℕ → ℕ
larger a b = if ltb a b then b else a

unfoldable pub place_panel_in_dashboard : Cursor → ℕ → ℕ → Option ℤ → Option ℤ → Cursor × GridPos
unfolding next_column
place_panel_in_dashboard s w h x_opt y_opt =
    let column = next_column s w x_opt in
    let s' = column.1 in
    let y = next_line s' y_opt in
    (
      record s' { line_height = larger s'.line_height h; next_y = larger s'.next_y (wrap (y + h)) },
      record { w = w; h = h; x = column.0; y = y },
    )

-- The column in a row, whose NextY is the line's start.
unfoldable pub next_row_column : Cursor → ℕ → ℕ → Option ℤ → ℕ × Cursor
next_row_column r w h (some x) = (uint32 x, r)
next_row_column r w h none =
    if ltb 24 (wrap (r.next_x + w))
    then (
      0,
      record {
        next_x = w;
        next_y = wrap (r.next_y + (if r.line_height == 0 then h else r.line_height));
        line_height = larger 0 h;
      },
    )
    else (r.next_x, record r { next_x = wrap (r.next_x + w); line_height = larger r.line_height h })

-- The dashboard, the row and the place.
unfoldable pub place_panel_in_row :
    Cursor → Cursor → ℕ → ℕ → Option ℤ → Option ℤ → (Cursor × Cursor) × GridPos
unfolding next_row_column
place_panel_in_row s r w h x_opt y_opt =
    let r' = if r.next_y == 0 then record r { next_y = s.next_y } else r in
    let column = next_row_column r' w h x_opt in
    let y : ℕ = elim y_opt [ some y ↦ uint32 y | none ↦ column.1.next_y ] in
    (
      (record s { next_y = larger s.next_y (wrap (y + h)) }, column.1),
      record { w = w; h = h; x = column.0; y = y },
    )

-- A new row takes one line below everything: the dashboard, and the cursor of the row.
unfoldable pub add_row : Cursor → Cursor × Cursor
add_row s = (
  record s { next_y = wrap (s.next_y + 1) },
  record { next_x = 0; next_y = wrap (s.next_y + 1); line_height = 0 },
)

abbrev pub is_small : Text → Bool
is_small ptype = ptype == text "stat" || ptype == text "gauge"

abbrev pub size_or : Option ℤ → ℕ → ℕ
size_or none d = d
size_or (some n) d = uint32 n

-- placePanel, for the row that the panel goes to, if any.
unfoldable pub place_panel :
    Cursor
    → Option Cursor
    → Text
    → Option ℤ
    → Option ℤ
    → Option ℤ
    → Option ℤ
    → (Cursor × Option Cursor) × GridPos
unfolding place_panel_in_row place_panel_in_dashboard
place_panel s r ptype w_opt h_opt x_opt y_opt =
    let w = size_or w_opt (if is_small ptype then 6 else 24) in
    let h = size_or h_opt (if is_small ptype then 4 else 8) in
    elim r [
      | none ↦
          let placed = place_panel_in_dashboard s w h x_opt y_opt in ((placed.0, none), placed.1)
      | some row ↦
          let placed = place_panel_in_row s row w h x_opt y_opt in
          ((placed.0.0, some placed.0.1), placed.1)
    ]
