-- ===== src/Base/Number.antt =====
-- JavaScript numbers: `nan`, or a value of a linearly ordered type that the program reads only by
-- comparing. The type and its order are an interface; `thousandths` is an instance.
use Prim.Native.Nat.{ℕ}
use mathlib.Core.Path.{◌≡◌, refl}
use mathlib.Core.Bool.{Bool, true}
use mathlib.Core.Logic.{◌⊎◌}
use native.Mathlib.Omega.{arith}
use oh_my_terminal.Base.Tests.{if◌then◌else◌, leb}

-- The values other than NaN, with the constants that the program names.
pub record Reals (R : Type 0) : Type 0 where
  pub le : R → R → Bool
  pub le_refl : (a : R) → le a a ≡ true
  pub le_total : (a b : R) → (le a b ≡ true) ⊎ (le b a ≡ true)
  pub tenth : R
  pub half : R
  pub nine_tenths : R
  pub tenth_le_half : le tenth half ≡ true
  pub half_le_nine_tenths : le half nine_tenths ≡ true
  pub tenth_le_nine_tenths : le tenth nine_tenths ≡ true
  -- `Number.isFinite`; what lies between the constants is finite.
  pub is_finite : R → Bool
  pub is_finite_between : (a : R) → le tenth a ≡ true → le a nine_tenths ≡ true → is_finite a ≡ true

pub data Number (R : Type 0) : Type 0 where
  nan : Number R
  num : R → Number R

-- `Math.min` and `Math.max`: NaN if either argument is.
module _ {R : Type 0} ⦃r : Reals R⦄ where
  abbrev pub math_min : Number R → Number R → Number R
  math_min nan _ = nan
  math_min (num a) nan = nan
  math_min (num a) (num b) = if r.le a b then num a else num b

  abbrev pub math_max : Number R → Number R → Number R
  math_max nan _ = nan
  math_max (num a) nan = nan
  math_max (num a) (num b) = if r.le a b then num b else num a

pub leb_refl : (a : ℕ) → leb a a ≡ true
leb_refl a = ground arith

pub leb_total : (a b : ℕ) → (leb a b ≡ true) ⊎ (leb b a ≡ true)
leb_total a b = ground arith

-- Thousandths, as natural numbers.
instance abbrev pub thousandths : Reals ℕ
thousandths = record {
  le = leb;
  le_refl = leb_refl;
  le_total = leb_total;
  tenth = 100;
  half = 500;
  nine_tenths = 900;
  tenth_le_half = refl;
  half_le_nine_tenths = refl;
  tenth_le_nine_tenths = refl;
  is_finite = λ _. true;
  is_finite_between = λ _ _ _. refl;
}
