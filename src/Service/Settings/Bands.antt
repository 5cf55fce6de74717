-- ===== src/Service/Settings/Bands.antt =====
-- libmaestro/src/service/settings.rs: the bands of the equalizer. They are f32: their type, the clamp
-- to the range of -6.0 to 6.0 and the tests against its ends are a parameter.
use pbpctrl.Prelude.{Bool}

-- What the source uses of f32.
pub record Floats : Type 1 where
  pub F : Type 0
  pub zero_band : F
  pub clamp : F → F
  pub above_max : F → Bool
  pub below_min : F → Bool

pub record EqBands (F : Type 0) : Type 0 where
  pub low_bass : F
  pub bass : F
  pub mid : F
  pub treble : F
  pub upper_treble : F

-- The generated messages.
pub record EqBandsMessage (F : Type 0) : Type 0 where
  pub low_bass : F
  pub bass : F
  pub mid : F
  pub treble : F
  pub upper_treble : F

-- The clamp is made by `new`, the setters and the conversion into the message, not by the
-- conversion from it.
unfoldable pub eq_bands_from : {F : Type 0} → EqBandsMessage F → EqBands F
eq_bands_from m = record {
  low_bass = m.low_bass;
  bass = m.bass;
  mid = m.mid;
  treble = m.treble;
  upper_treble = m.upper_treble;
}

unfoldable pub new_bands :
    (f : Floats) → (low_bass bass mid treble upper_treble : f.F) → EqBands f.F
new_bands f low_bass bass mid treble upper_treble = record {
  low_bass = f.clamp low_bass;
  bass = f.clamp bass;
  mid = f.clamp mid;
  treble = f.clamp treble;
  upper_treble = f.clamp upper_treble;
}

unfoldable pub eq_bands_into : (f : Floats) → EqBands f.F → EqBandsMessage f.F
eq_bands_into f b = record {
  low_bass = f.clamp b.low_bass;
  bass = f.clamp b.bass;
  mid = f.clamp b.mid;
  treble = f.clamp b.treble;
  upper_treble = f.clamp b.upper_treble;
}

abbrev pub default_bands : (f : Floats) → EqBands f.F
default_bands f = record {
  low_bass = f.zero_band;
  bass = f.zero_band;
  mid = f.zero_band;
  treble = f.zero_band;
  upper_treble = f.zero_band;
}

abbrev pub set_low_bass : (f : Floats) → EqBands f.F → f.F → EqBands f.F
set_low_bass f b value = record b { low_bass = f.clamp value }

abbrev pub set_bass : (f : Floats) → EqBands f.F → f.F → EqBands f.F
set_bass f b value = record b { bass = f.clamp value }

abbrev pub set_mid : (f : Floats) → EqBands f.F → f.F → EqBands f.F
set_mid f b value = record b { mid = f.clamp value }

abbrev pub set_treble : (f : Floats) → EqBands f.F → f.F → EqBands f.F
set_treble f b value = record b { treble = f.clamp value }

abbrev pub set_upper_treble : (f : Floats) → EqBands f.F → f.F → EqBands f.F
set_upper_treble f b value = record b { upper_treble = f.clamp value }
