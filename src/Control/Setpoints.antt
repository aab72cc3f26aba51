-- ===== src/Control/Setpoints.antt =====
-- The slots of the setpoint cache of `control_service.cpp`.
use esphome_alpha_hwr.Base.{◌≡◌, ◌≢◌, arith}
use esphome_alpha_hwr.Floats.{Floats}
use esphome_alpha_hwr.Control.{ControlMode, Control, get_setpoint_for_mode, cache_setpoint_for_mode}

module _ {F : Type 0} ⦃fl : Floats F⦄ where
  -- A setpoint that is cached for one mode changes what is read for no other mode.
  pub get-cache_setpoint_for_mode :
      (mode other : ControlMode) (raw : F) (c : Control F)
      → other ≢ mode
      → get_setpoint_for_mode other (cache_setpoint_for_mode mode raw c)
        ≡ get_setpoint_for_mode other c
  unfolding get_setpoint_for_mode cache_setpoint_for_mode
  get-cache_setpoint_for_mode mode other raw c h = ground arith
