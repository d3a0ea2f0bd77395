-- ===== src/Terminal/Fit.antt =====
-- `fitFullWidth`: the grid fills the pane and no more, if that holds the smallest grid.
use oh_my_terminal.Base.{
  ℕ, ◌+◌, ◌-◌, ◌*◌, ◌/◌, ◌≤◌, ◌<◌, ◌≡◌, ◌⊎◌, inl, inr, some, true, arith, refl, dec_le,
}
use native.Mathlib.Nat.{
  div-mul-le_self, lt-div-mul-add, max-eq_left, max-eq_right, mul-le-mul_right,
}
use oh_my_terminal.Terminal.{Box, cells, min_cols, min_rows, fit_measured, fit_cell, fit_full_width}

-- What `n` cells of the size must satisfy to fill the length.
abbrev pub Fills : ℕ → ℕ → ℕ → ℕ → Type 0
Fills least avail cell n =
    (least ≤ n) × ((n ≡ least) ⊎ (n * cell ≤ avail)) × (avail < n * cell + cell)

cells-Fills : (least avail cell : ℕ) → 0 < cell → Fills least avail cell (cells least avail cell)
unfolding cells
cells-Fills least avail cell pos = elim (dec_le least (avail / cell)) [
  | yes p ↦ rw (max-eq_right p) (p, inr (div-mul-le_self avail cell), lt-div-mul-add pos)
  | no p ↦
      let short : avail / cell ≤ least = omega arith in
      rw (max-eq_left short) (
        omega arith,
        inl refl,
        omega (arith, lt-div-mul-add {a = avail} pos, mul-le-mul_right cell short),
      )
]

-- Where xterm has measured its cells and has a parent, a fit succeeds, and in each direction it
-- gives the smallest grid or more, no more cells than the pane's length without the padding holds,
-- unless it is the smallest grid, and so many that no further one fits.
pub fit_full_width-Fills :
    (b : Box) (w h : ℕ) (grid : ℕ × ℕ)
    → b.cell ≡ some (w, h)
    → b.has_parent ≡ true
    → 0 < w
    → 0 < h
    → let (fitted, ok) = fit_full_width b grid in
      (ok ≡ true)
      × Fills min_cols (b.width - b.pad_h) w fitted.0
      × Fills min_rows (b.height - b.pad_v) h fitted.1
unfolding fit_full_width fit_cell fit_measured
fit_full_width-Fills b w h grid c p pw ph = rw c (
    ground (
      arith,
      cells-Fills min_cols (b.width - b.pad_h) w pw,
      cells-Fills min_rows (b.height - b.pad_v) h ph,
    ))
