-- ===== src/Service/Settings/Display/Balance.antt =====
-- libmaestro/src/service/settings.rs: the shares that a volume asymmetry is shown as.
use pbpctrl.Prelude.{ℕ, ◌+◌, ◌-◌, ◌≤◌, ◌≡◌, refl, ◌⊎◌, inl, inr, ltb, Bool-cases, arith}
use pbpctrl.Service.Settings.{ℤ, pos, negsuc, VolumeAsymmetry, from_normalized}
use pbpctrl.Service.Settings.Display.{
  hundred_minus, hundred_plus, min_hundred, left_volume, right_volume,
}

-- `right - left` is the integer.
abbrev pub IsDifference : ℤ → ℕ → ℕ → Type 0
IsDifference (pos n) left right = right ≡ left + n
IsDifference (negsuc n) left right = left ≡ right + (n + 1)

pub record Shares (v : VolumeAsymmetry) : Type 0 where
  pub left : ℕ
  pub right : ℕ
  pub left_shown : left_volume v ≡ pos left
  pub right_shown : right_volume v ≡ pos right
  pub left_bound : left ≤ 100
  pub right_bound : right ≤ 100
  pub one_full : (left ≡ 100) ⊎ (right ≡ 100)
  pub difference : IsDifference v.value left right

right_Shares : (n : ℕ) → n ≤ 100 → Shares (record { value = pos n })
unfolding hundred_minus hundred_plus min_hundred
right_Shares n h = record {
  left = 100 - n;
  right = 100;
  left_shown = ground (arith, h);
  right_shown = ground (arith, h);
  left_bound = omega arith;
  right_bound = omega arith;
  one_full = inr refl;
  difference = omega arith;
}

left_Shares : (n : ℕ) → n ≤ 99 → Shares (record { value = negsuc n })
unfolding hundred_minus hundred_plus min_hundred
left_Shares n h = record {
  left = 100;
  right = 99 - n;
  left_shown = ground (arith, h);
  right_shown = ground (arith, h);
  left_bound = omega arith;
  right_bound = omega arith;
  one_full = inl refl;
  difference = omega arith;
}

-- A normalized asymmetry is shown as two percentages of at most 100, one of which is 100 and which
-- differ by the asymmetry.
pub from_normalized-Shares : (value : ℤ) → Shares (from_normalized value)
unfolding from_normalized
from_normalized-Shares (pos n) = elim (Bool-cases (ltb 100 n)) [
  | inl large ↦ rw large (right_Shares 100 (omega arith))
  | inr small ↦ rw small (right_Shares n (ground arith))
]
from_normalized-Shares (negsuc n) = elim (Bool-cases (ltb 99 n)) [
  | inl large ↦ rw large (left_Shares 99 (omega arith))
  | inr small ↦ rw small (left_Shares n (ground arith))
]
