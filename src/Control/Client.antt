-- ===== src/Control/Client.antt =====
-- `AfterburnerControlClient` (afterburner/integration/macm.py): the transaction on the mapped region
-- under the mutex, the wait for Afterburner to take the command, and the read-back. What Windows does
-- is a record of calls.
pub mod Mutex
pub mod Wait
use afterburner_gassist_plug.Base.{
  ℕ, zero, suc, ◌+◌, String, Bool, true, false, not, Option, none, some, List, [], ◌∷◌, ltb, leb,
  ◌==◌, if◌then◌else◌,
}
use afterburner_gassist_plug.Int.{ℤ}
use afterburner_gassist_plug.Float.{Float, Rounding, whole}
use afterburner_gassist_plug.Exec.{
  Exec, Result, ok, err, crash, ErrorCode, pure, raise, lift, or_raise, ◌>>=◌, ◌>>◌,
}
use afterburner_gassist_plug.Models.{
  ControlFeature, ControlResult, InterfaceStatus, GpuCapabilities, TuningState,
}
use afterburner_gassist_plug.Control.Words.{Region, u32}
use afterburner_gassist_plug.Control.Layout.{header_size, signature_at, command_at, spec_of}
use afterburner_gassist_plug.Control.Header.{validate_control_region, entry_offset, macm_signature}
use afterburner_gassist_plug.Control.Read.{build_capabilities_from_region, tuning_state_from_region}
use afterburner_gassist_plug.Control.Write.{
  AppliedOutcome, apply_control_to_region, reset_control_region, gated, model_value,
}

-- how `OpenFileMappingW`, or `MapViewOfFile` with `VirtualQuery`, ended: with a last-error number
pub data Opened : Type 0 where
  mapped : Opened
  open_failed map_failed : ℕ → Opened

-- The calls of Windows. `lock` creates the mutex and waits for it (false when either fails);
-- `copy_word o data` moves the word at `o` of the data to the mapped region.
pub record Windows (W : Type 0) : Type 0 where
  pub open_map : W → Opened × W
  pub close_map : W → W
  pub lock : W → Bool × W
  pub unlock : W → W
  pub read_bytes : W → Region × W
  pub copy_word : ℕ → Region → W → W
  pub notify : W → W
  pub elevation_mismatch : W → Option Bool × W
  pub clock : W → ℕ × W
  pub sleep : W → W

-- `_raise_open_error`
abbrev pub open_error : ℕ → ErrorCode
open_error n =
    if n == 2
    then ErrorCode.not_running
    else if n == 5
    then ErrorCode.access_denied
    else ErrorCode.interface_unavailable

-- `_raise_map_error`
abbrev pub map_error : ℕ → ErrorCode
map_error n = if n == 5 then ErrorCode.access_denied else ErrorCode.interface_unavailable

-- the code of `flush_timeout_error`
abbrev pub flush_timeout_error : Option Bool → ErrorCode
flush_timeout_error (some true) = ErrorCode.access_denied
flush_timeout_error (some false) = ErrorCode.interface_unavailable
flush_timeout_error none = ErrorCode.interface_unavailable

-- the handler of `detect`
abbrev pub status_of : ErrorCode → InterfaceStatus
status_of ErrorCode.not_running = InterfaceStatus.not_running
status_of ErrorCode.disconnected = InterfaceStatus.not_running
status_of ErrorCode.unsupported_version = InterfaceStatus.unsupported_version
status_of ErrorCode.access_denied = InterfaceStatus.access_denied
status_of ErrorCode.not_installed = InterfaceStatus.unavailable
status_of ErrorCode.unsupported_gpu = InterfaceStatus.unavailable
status_of ErrorCode.interface_unavailable = InterfaceStatus.unavailable
status_of ErrorCode.invalid_value = InterfaceStatus.unavailable
status_of ErrorCode.comm_failure = InterfaceStatus.unavailable
status_of ErrorCode.stale_telemetry = InterfaceStatus.unavailable
status_of ErrorCode.unsupported_feature = InterfaceStatus.unavailable
status_of ErrorCode.confirmation_required = InterfaceStatus.unavailable

abbrev pub gone : ℕ
gone = 4294967295

module _ {W : Type 0} (os : Windows W) where
  -- the end of `__init__`
  abbrev pub opened : Opened → Exec W (Unit {0})
  opened mapped w = (ok tt, w)
  opened (open_failed n) w = (err (open_error n), w)
  opened (map_failed n) w = (err (map_error n), os.close_map w)

  abbrev pub open_call : Exec W (Unit {0})
  open_call w = opened (os.open_map w).0 (os.open_map w).1

  abbrev pub lock_call : Exec W (Unit {0})
  lock_call w =
      let (b, w1) = os.lock w in (if b then ok tt else err ErrorCode.interface_unavailable, w1)

  -- `with _ControlMap() as view:`
  unfoldable pub with_map : {A : Type 0} → Exec W A → Exec W A
  with_map m = open_call >> λ w. let (r, w1) = m w in (r, os.close_map w1)

  -- `with view.mutex():`
  unfoldable pub with_mutex : {A : Type 0} → Exec W A → Exec W A
  with_mutex m = lock_call >> λ w. let (r, w1) = m w in (r, os.unlock w1)

  abbrev pub read_region : Exec W Region
  read_region w = let (r, w1) = os.read_bytes w in (ok r, w1)

  -- `view.write_words(offsets, data)`
  unfoldable pub copy_words : List ℕ → Region → W → W
  copy_words [] src w = w
  copy_words (o ∷ offsets) src w = copy_words offsets src (os.copy_word o src w)

  abbrev pub blocked : Option Bool → Result (Unit {0})
  blocked none = ok tt
  blocked (some mismatch) = if mismatch then err (flush_timeout_error (some true)) else ok tt

  unfoldable pub raise_if_write_blocked_by_elevation : Exec W (Unit {0})
  raise_if_write_blocked_by_elevation w = let (m, w1) = os.elevation_mismatch w in (blocked m, w1)

  -- the part of a transaction after the change of the copied region
  unfoldable pub commit : Result AppliedOutcome × Region → Exec W AppliedOutcome
  commit (o, region) = lift o >>= λ a.
      if a.applied
      then (raise_if_write_blocked_by_elevation >> λ w. (ok a, copy_words a.word_offsets region w))
      else pure a

  -- the body of a transaction: the change is made on a copy of the region
  unfoldable pub transact : (Region → Result AppliedOutcome × Region) → Exec W AppliedOutcome
  transact change = with_mutex (read_region >>= λ r. commit (change r))

  -- `dwCommand`, or `gone`
  unfoldable pub command_of : Region → ℕ
  command_of r =
      if ltb r.size header_size
      then gone
      else if u32 r signature_at == macm_signature
      then u32 r command_at
      else gone

  unfoldable pub poll_command : Exec W ℕ
  poll_command = with_mutex (read_region >>= λ r. pure (command_of r))

  -- the end of a pass: too late, or a pause
  unfoldable pub pause : ℕ → Exec W Bool
  pause deadline w =
      let (now, w1) = os.clock w in
      let (m, w2) = os.elevation_mismatch w1 in
      if leb deadline now then (err (flush_timeout_error m), w2) else (ok false, os.sleep w1)

  -- One pass of the loop: true when the command is taken, false when to go on.
  unfoldable pub poll_once : ℕ → Exec W Bool
  poll_once deadline = poll_command >>= λ command.
      if command == 0
      then pure true
      else if command == gone
      then raise ErrorCode.disconnected
      else pause deadline

  -- The loop on fuel; false is that the fuel ran out.
  unfoldable pub wait_loop : ℕ → ℕ → Exec W Bool
  wait_loop deadline zero = pure false
  wait_loop deadline (suc fuel) =
      poll_once deadline >>= λ b. if b then pure true else wait_loop deadline fuel

  -- `_wait_for_completion`
  unfoldable pub wait_for_completion : ℕ → ℕ → Exec W Bool
  wait_for_completion fuel flush_timeout w =
      let (now, w1) = os.clock (os.notify w) in wait_loop (now + flush_timeout) fuel w1

  -- `detect`, for a client whose installation is found or not
  unfoldable pub detect : Bool → Exec W InterfaceStatus
  detect installed w =
      if installed
      then (let (r, w1) = with_map (read_region >>= λ r. lift (validate_control_region r)) w in
          (elim r [ ok _ ↦ ok InterfaceStatus.ok | err e ↦ ok (status_of e) | crash ↦ crash ], w1))
      else (ok InterfaceStatus.not_installed, w)

  -- `_region`
  abbrev pub region : Exec W Region
  region = with_map read_region

module _ {W : Type 0} (os : Windows W) (rnd : Rounding) where
  -- `TUNING_MATCH_TOLERANCE`
  abbrev pub match_tolerance : Float
  match_tolerance = whole 1

  unfoldable pub transact_apply : ℤ → ControlFeature → Float → Exec W AppliedOutcome
  transact_apply gpu feature value =
      transact os (apply_control_to_region rnd gpu feature value match_tolerance)

  -- what a verification finds in a region
  unfoldable pub verified_value : ℤ → ControlFeature → Region → Result (Option Float)
  verified_value gpu feature r = elim (validate_control_region r) [
    | ok p ↦ elim (spec_of feature) [
      | some s ↦ elim (entry_offset p gpu) [
        | ok base ↦ ok (if gated r base s then some (model_value rnd r base s s.cur) else none)
        | err e ↦ err e
        | crash ↦ crash
      ]
      | none ↦ crash
    ]
    | err e ↦ err e
    | crash ↦ crash
  ]

  unfoldable pub verified_apply_value : ℤ → ControlFeature → Exec W (Option Float)
  verified_apply_value gpu feature =
      with_mutex os (read_region os >>= λ r. lift (verified_value gpu feature r))

  -- `apply_control`; `none` is that the fuel of the wait ran out.
  unfoldable pub apply_control : ℕ → ℕ → ℤ → ControlFeature → Float → Exec W (Option ControlResult)
  apply_control fuel flush_timeout gpu feature value = with_map os (
      transact_apply gpu feature value >>= λ a.
      if a.applied
      then (wait_for_completion os fuel flush_timeout >>= λ confirmed.
          if confirmed
          then (verified_apply_value gpu feature >>= λ found. pure (
              some record {
                feature = feature;
                requested_value = some value;
                applied_value = found;
                clamped = false;
                applied = true;
                replaced_value = a.replaced;
              }))
          else pure none)
      else pure (
          some record {
            feature = feature;
            requested_value = some value;
            applied_value = some value;
            clamped = false;
            applied = false;
            replaced_value = none;
          }))

  abbrev reset_result : Bool → ControlResult
  reset_result applied = record {
    feature = ControlFeature.profile_reset;
    requested_value = none;
    applied_value = none;
    clamped = false;
    applied = applied;
    replaced_value = none;
  }

  unfoldable pub reset_tuning : ℕ → ℕ → ℤ → Exec W (Option ControlResult)
  reset_tuning fuel flush_timeout gpu = with_map os (
      transact os (reset_control_region rnd gpu match_tolerance) >>= λ a.
      if a.applied
      then (wait_for_completion os fuel flush_timeout >>= λ confirmed.
          if confirmed then pure (some (reset_result true)) else pure none)
      else pure (some (reset_result false)))

  unfoldable pub read_tuning_state : ℤ → Exec W TuningState
  read_tuning_state gpu = region os >>= λ r. lift (tuning_state_from_region rnd r gpu)

  unfoldable pub read_capabilities : (List ℕ → String) → ℤ → Exec W GpuCapabilities
  read_capabilities decode gpu =
      region os >>= λ r. lift (build_capabilities_from_region rnd decode r gpu)
