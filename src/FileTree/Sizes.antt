-- ===== src/FileTree/Sizes.antt =====
-- The text of a size is near the size.
use oh_my_terminal.Base.{ℕ, ◌+◌, ◌*◌, ◌≤◌, ◌<◌, ◌≡◌, true, false, arith, refl, ltb, if_intro}
use oh_my_terminal.FileTree.{tenths, Size, whole, in_kb, in_mb, in_gb, format_size}

-- So many tenths of the unit differ from so many bytes by half of a tenth of the unit at most.
abbrev pub IsNear : ℕ → ℕ → ℕ → Type 0
IsNear t unit bytes = (2 * (t * unit) ≤ 20 * bytes + unit) × (20 * bytes ≤ 2 * (t * unit) + unit)

-- The unit is one that the size reaches, and the size does not reach the next one.
abbrev pub IsTextOf : Size → ℕ → Type 0
IsTextOf (whole b) bytes = (b ≡ bytes) × (bytes < 1024)
IsTextOf (in_kb t) bytes = (1024 ≤ bytes) × (bytes < 1048576) × IsNear t 1024 bytes
IsTextOf (in_mb t) bytes = (1048576 ≤ bytes) × (bytes < 1073741824) × IsNear t 1048576 bytes
IsTextOf (in_gb t) bytes = (1073741824 ≤ bytes) × IsNear t 1073741824 bytes

below_of : (a b : ℕ) → ltb a b ≡ true → a < b
below_of a b e = ground arith

above_of : (a b : ℕ) → ltb a b ≡ false → b ≤ a
above_of a b e = ground arith

IsNear-kb : (bytes : ℕ) → IsNear (tenths bytes 1024) 1024 bytes
unfolding tenths
IsNear-kb bytes = omega arith

IsNear-mb : (bytes : ℕ) → IsNear (tenths bytes 1048576) 1048576 bytes
unfolding tenths
IsNear-mb bytes = omega arith

IsNear-gb : (bytes : ℕ) → IsNear (tenths bytes 1073741824) 1073741824 bytes
unfolding tenths
IsNear-gb bytes = omega arith

-- A size is shown in whole bytes below 1024, and else in the greatest unit that it reaches, with a
-- number that differs from it by half of a tenth of the unit at most.
pub format_size-IsTextOf : (bytes : ℕ) → IsTextOf (format_size bytes) bytes
unfolding format_size
format_size-IsTextOf bytes =
    let is : Size → Type 0 = λ x. IsTextOf x bytes in
    if_intro is (ltb bytes 1024) (whole bytes) _ (λ b. (refl, below_of bytes 1024 b))
      (λ k.
        if_intro is (ltb bytes 1048576) (in_kb (tenths bytes 1024)) _
          (λ b. (above_of bytes 1024 k, below_of bytes 1048576 b, IsNear-kb bytes))
          (λ m.
            if_intro is (ltb bytes 1073741824) (in_mb (tenths bytes 1048576)) _
              (λ b. (above_of bytes 1048576 m, below_of bytes 1073741824 b, IsNear-mb bytes))
              (λ g. (above_of bytes 1073741824 g, IsNear-gb bytes))))
