-- ===== src/Control.antt =====
-- `components/alpha_hwr/control_service.h` and `.cpp`: what `ControlService` caches of the pump, the
-- writers of that cache, and the reads and commands that fill it. A mode is the byte of its
-- `ControlMode`, since the code casts any byte to the type. An `int8_t` whose -1 is "unknown" is an
-- option.
use esphome_alpha_hwr.Base.{
  ℕ, ◌+◌, Bool, true, false, not, ◌&&◌, ◌||◌, List, [], ◌∷◌, Option, none, some, ltb, leb, ◌==◌,
  if◌then◌else◌, u32, length,
}
use esphome_alpha_hwr.Codec.{byte_at, decode_float_be}
use esphome_alpha_hwr.Floats.{Floats}
pub mod Pending
pub mod GiveUp
pub mod Setpoints
mod Examples

abbrev pub ControlMode : Type 0
ControlMode = ℕ

abbrev pub constant_pressure : ControlMode
constant_pressure = 0

abbrev pub proportional_pressure : ControlMode
proportional_pressure = 1

abbrev pub constant_speed : ControlMode
constant_speed = 2

abbrev pub constant_flow : ControlMode
constant_flow = 8

abbrev pub dhw_on_off : ControlMode
dhw_on_off = 25

abbrev pub temperature_range : ControlMode
temperature_range = 27

abbrev pub no_mode : ControlMode
no_mode = 254

-- The members of `ControlService` that these operations touch. `notified` is the log of the calls of
-- `mode_change_callback_`, newest first: mode, operation mode and setpoint.
pub record Control (F : Type 0) : Type 0 where
  pub current_mode : ControlMode
  pub mode_valid : Bool
  pub commanded_mode : ControlMode
  pub mode_command_pending : Bool
  pub mode_confirm_attempts : ℕ
  pub remote_mode_enabled : Bool
  pub remote_state_valid : Bool
  pub remote_source_observations : ℕ
  pub pump_enabled : Bool
  pub pump_enabled_valid : Bool
  pub cached_operation_mode : ℕ
  pub cached_pressure_setpoint : F
  pub cached_proportional_setpoint : F
  pub cached_speed_setpoint : F
  pub cached_flow_setpoint : F
  pub cached_temp_min : F
  pub cached_temp_max : F
  pub cached_autoadapt : Option Bool
  pub temp_limits_tail_valid : Bool
  pub cached_cycle_time_on : Option ℕ
  pub cached_cycle_time_off : Option ℕ
  pub cached_dhw_setpoint_raw : ℕ
  pub dhw_config_valid : Bool
  pub notified : List (ControlMode × ℕ × F)

-- The header of three bytes before a type's structure, when the first two of them are zero.
unfoldable pub header_offset : List ℕ → ℕ
header_offset payload =
    if leb 3 (length payload) && byte_at payload 0 == 0 && byte_at payload 1 == 0 then 3 else 0

-- `OperationMode::STOP`
abbrev pub op_mode_stop : ℕ
op_mode_stop = 1

abbrev pub max_mode_confirm_attempts : ℕ
max_mode_confirm_attempts = 4

unfoldable pub parse_cycle_time_minutes : ℕ → Option ℕ
parse_cycle_time_minutes raw = if leb 1 raw && leb raw 60 then some raw else none

-- `get_class10_mapping` succeeds: the entry of `CLASS10_CONTROL_MAP` has a mode byte, or is the first.
unfoldable pub has_class10_mapping : ControlMode → Bool
has_class10_mapping mode =
    mode == constant_pressure
    || mode == proportional_pressure
    || mode == constant_speed
    || mode == constant_flow
    || mode == 13
    || mode == 14
    || mode == 15
    || mode == dhw_on_off
    || mode == temperature_range

module _ {F : Type 0} where
  unfoldable pub notify_mode : ControlMode → ℕ → F → Control F → Control F
  notify_mode mode operation_mode setpoint c = record c {
    notified = (mode, operation_mode, setpoint) ∷ c.notified;
  }

  unfoldable pub note_enabled_commanded : Bool → Control F → Control F
  note_enabled_commanded enabled c = record c { pump_enabled = enabled; pump_enabled_valid = true }

  -- The effect of a `control_source` byte on the cache, the same in both readers.
  unfoldable pub note_control_source : ℕ → Control F → Control F
  note_control_source source c =
      if source == 2
      then record c {
        remote_mode_enabled = true;
        remote_state_valid = true;
        remote_source_observations = u32 (c.remote_source_observations + 1);
      }
      else if source == 1
      then record c {
        remote_mode_enabled = false;
        remote_state_valid = true;
        remote_source_observations = u32 (c.remote_source_observations + 1);
      }
      else c

  -- `AUTO` and `USER_DEFINED` run the pump.
  unfoldable pub note_run_state : ℕ → Control F → Control F
  note_run_state operation_mode c = record c {
    pump_enabled = not (operation_mode == op_mode_stop);
    pump_enabled_valid = true;
  }

  -- A notification's mode: kept out while another is pending.
  unfoldable pub take_notified_mode : ControlMode → Control F → Control F
  take_notified_mode mode c =
      if c.mode_command_pending && not (mode == c.commanded_mode)
      then c
      else record c { mode_command_pending = false; current_mode = mode; mode_valid = true }

module _ {F : Type 0} ⦃fl : Floats F⦄ where
  -- The cache as the member initialisers leave it.
  abbrev pub cold : Control F
  cold = record {
    current_mode = no_mode;
    mode_valid = false;
    commanded_mode = no_mode;
    mode_command_pending = false;
    mode_confirm_attempts = 0;
    remote_mode_enabled = false;
    remote_state_valid = false;
    remote_source_observations = 0;
    pump_enabled = false;
    pump_enabled_valid = false;
    cached_operation_mode = 255;
    cached_pressure_setpoint = fl.nan;
    cached_proportional_setpoint = fl.nan;
    cached_speed_setpoint = fl.nan;
    cached_flow_setpoint = fl.nan;
    cached_temp_min = fl.nan;
    cached_temp_max = fl.nan;
    cached_autoadapt = none;
    temp_limits_tail_valid = false;
    cached_cycle_time_on = none;
    cached_cycle_time_off = none;
    cached_dhw_setpoint_raw = 0;
    dhw_config_valid = false;
    notified = [];
  }

  unfoldable pub get_setpoint_for_mode : ControlMode → Control F → F
  get_setpoint_for_mode mode c =
      if mode == constant_pressure
      then c.cached_pressure_setpoint
      else if mode == proportional_pressure
      then c.cached_proportional_setpoint
      else if mode == constant_speed
      then c.cached_speed_setpoint
      else if mode == constant_flow
      then c.cached_flow_setpoint
      else fl.nan

  unfoldable pub cache_setpoint_for_mode : ControlMode → F → Control F → Control F
  cache_setpoint_for_mode mode raw c =
      if mode == constant_pressure
      then record c { cached_pressure_setpoint = fl.div raw (fl.decimal 980665 2) }
      else if mode == proportional_pressure
      then record c { cached_proportional_setpoint = fl.div raw (fl.decimal 980665 2) }
      else if mode == constant_flow
      then record c { cached_flow_setpoint = fl.mul raw (fl.decimal 3600 0) }
      else if mode == constant_speed
      then record c { cached_speed_setpoint = raw }
      else c

  unfoldable pub note_mode_commanded : ControlMode → Control F → Control F
  unfolding notify_mode
  note_mode_commanded mode c = notify_mode mode 0 (fl.decimal 0 0) (record c {
    commanded_mode = mode;
    mode_command_pending = true;
    mode_confirm_attempts = 0;
    current_mode = mode;
    mode_valid = true;
  })

  unfoldable pub notify_current : ℕ → Control F → Control F
  notify_current operation_mode c =
      notify_mode c.current_mode operation_mode (get_setpoint_for_mode c.current_mode c) c

  unfoldable pub update_mode_from_notification :
      (mode operation_mode : ℕ) → F → ℕ → Control F → Control F
  update_mode_from_notification mode operation_mode setpoint source c =
      notify_current operation_mode (
        note_control_source source (
          note_run_state operation_mode (
            take_notified_mode mode (
              cache_setpoint_for_mode mode setpoint
                (record c { cached_operation_mode = operation_mode })))))

  -- A read's mode: kept out while another is pending, and notified once it is taken.
  unfoldable pub take_readback_mode : (mode operation_mode : ℕ) → Control F → Control F
  take_readback_mode mode operation_mode c =
      if c.mode_command_pending && not (mode == c.commanded_mode)
      then c
      else notify_current operation_mode (record c {
        mode_command_pending = false;
        mode_confirm_attempts = 0;
        current_mode = mode;
        mode_valid = true;
      })

  -- The part of the handler of `get_mode_async` behind its checks of the payload.
  unfoldable pub adopt_readback : (source operation_mode mode : ℕ) → F → Control F → Control F
  adopt_readback source operation_mode mode setpoint c = take_readback_mode mode operation_mode (
      cache_setpoint_for_mode mode setpoint (
        note_control_source source
          (note_run_state operation_mode (record c { cached_operation_mode = operation_mode }))))

  -- The handler of `get_mode_async`: `none` is a transport that gave up. It returns the cache and what
  -- `on_complete` is given.
  unfoldable pub handle_mode_reply : Option (List ℕ) → Control F → Control F × Bool × ControlMode
  handle_mode_reply none c = (c, false, c.current_mode)
  handle_mode_reply (some payload) c =
      let offset = header_offset payload in
      if leb 10 (length payload)
        && leb (offset + 7) (length payload)
        && leb (byte_at payload (offset + 2)) no_mode
      then (
        adopt_readback (byte_at payload offset) (byte_at payload (offset + 1))
            (byte_at payload (offset + 2)) (fl.of_bits (decode_float_be payload (offset + 3))) c,
        true,
        byte_at payload (offset + 2),
      )
      else (c, false, c.current_mode)

  -- The handler of the read of `sync_cache_async`, up to the reads of object 91: `true` where it asks
  -- for another attempt in two seconds instead.
  unfoldable pub reconcile_mode :
      (expected : ControlMode) → (reported : ControlMode) → Control F → Control F × Bool
  reconcile_mode expected reported c =
      if not (expected == no_mode) && not (reported == expected)
      then (if c.mode_command_pending && ltb c.mode_confirm_attempts max_mode_confirm_attempts
          then (record c { mode_confirm_attempts = c.mode_confirm_attempts + 1 }, true)
          else (
            notify_mode reported c.cached_operation_mode (get_setpoint_for_mode reported c)
                (record c {
                  mode_command_pending = false;
                  mode_confirm_attempts = 0;
                  current_mode = reported;
                  mode_valid = true;
                }),
            false,
          ))
      else (c, false)

  -- One round of `sync_cache_async` whose read is answered: what it expected is taken before the read.
  unfoldable pub sync_mode : (source operation_mode reported : ℕ) → F → Control F → Control F × Bool
  sync_mode source operation_mode reported setpoint c =
      reconcile_mode (if c.mode_valid then c.current_mode else no_mode) reported
        (adopt_readback source operation_mode reported setpoint c)

  unfoldable pub cache_temp_config : List ℕ → ℕ → Control F → Control F
  cache_temp_config payload offset c =
      if leb (offset + 9) (length payload)
      then record c {
        cached_autoadapt = some (not (byte_at payload offset == 0));
        cached_temp_min = fl.of_bits (decode_float_be payload (offset + 1));
        cached_temp_max = fl.of_bits (decode_float_be payload (offset + 5));
        temp_limits_tail_valid = c.temp_limits_tail_valid || leb (offset + 14) (length payload);
      }
      else c

  -- The handler of `read_obj91_config`.
  unfoldable pub handle_obj91_reply : Option (List ℕ) → Control F → Control F × Bool
  handle_obj91_reply none c = (c, false)
  handle_obj91_reply (some payload) c =
      let offset = header_offset payload in
      if ltb (length payload) 12
      then (c, false)
      else (notify_current c.cached_operation_mode (cache_temp_config payload offset c), true)

  -- The handler of `read_dhw_config`.
  unfoldable pub handle_dhw_reply : Option (List ℕ) → Control F → Control F × Bool
  handle_dhw_reply none c = (c, false)
  handle_dhw_reply (some payload) c =
      let offset = header_offset payload in
      if ltb (length payload) 9 || ltb (length payload) (offset + 6) then (c, false) else (
        record c {
          cached_dhw_setpoint_raw = decode_float_be payload offset;
          dhw_config_valid = true;
          cached_cycle_time_on = parse_cycle_time_minutes (byte_at payload (offset + 4));
          cached_cycle_time_off = parse_cycle_time_minutes (byte_at payload (offset + 5));
        },
        true,
      )

  unfoldable pub get_cached_cycle_flow : Control F → F
  get_cached_cycle_flow c =
      if c.dhw_config_valid
      then fl.mul (fl.of_bits c.cached_dhw_setpoint_raw) (fl.decimal 3600 0)
      else fl.nan

  -- `with_resolved_enabled_state` once a read, if it needed one, is done: `none` is not resolved.
  unfoldable pub resolved_enabled : (success : Bool) → Control F → Option Bool
  resolved_enabled success c =
      if not success || not c.pump_enabled_valid then none else some c.pump_enabled
