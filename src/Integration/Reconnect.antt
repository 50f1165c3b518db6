-- ===== src/Integration/Reconnect.antt =====
-- `ReconnectingAfterburner` (afterburner/integration/reconnect.py). The interface in use is part of
-- the state; `factory` is the environment's, and may raise.
pub mod Routing
use afterburner_gassist_plug.Base.{
  ℕ, ◌+◌, Bool, true, false, Option, none, some, ltb, if◌then◌else◌,
}
use afterburner_gassist_plug.Exec.{Exec, Result, ok, err, crash, ErrorCode}
use afterburner_gassist_plug.Models.{InterfaceStatus, is_ok}
use afterburner_gassist_plug.Interface.{Interface, Host}

abbrev pub recoverable : ErrorCode → Bool
recoverable ErrorCode.not_running = true
recoverable ErrorCode.interface_unavailable = true
recoverable ErrorCode.access_denied = true
recoverable ErrorCode.disconnected = true
recoverable ErrorCode.not_installed = false
recoverable ErrorCode.unsupported_version = false
recoverable ErrorCode.unsupported_gpu = false
recoverable ErrorCode.invalid_value = false
recoverable ErrorCode.comm_failure = false
recoverable ErrorCode.stale_telemetry = false
recoverable ErrorCode.unsupported_feature = false
recoverable ErrorCode.confirmation_required = false

-- `last_attempt` is `none` for -inf; `probes` counts the calls of `factory`.
pub record Link (W : Type 0) : Type 0 where
  pub world : W
  pub current : Interface W
  pub last_attempt : Option ℕ
  pub probes : ℕ
  pub swaps : ℕ

-- `on_swapped` is the callback, where there is one; it is given the interface that was in use.
module _ {W : Type 0} (host : Host W) (factory : Exec W (Interface W)) (cooldown : ℕ)
    (on_swapped : Option (Interface W → Exec W (Unit {0}))) where
  abbrev pub Routed : Type 0 → Type 0
  Routed A = Link W → Result A × Link W

  -- a call of the interface in use
  abbrev pub on_current : {A : Type 0} → (Interface W → Exec W A) → Routed A
  on_current f s = let (r, w) = f s.current s.world in (r, record s { world = w })

  -- `self._clock() - self._last_attempt < self._cooldown`
  abbrev pub cooling : Option ℕ → ℕ → Bool
  cooling none now = false
  cooling (some last) now = ltb now (last + cooldown)

  -- the call of `on_swapped`; an exception of its own is dropped
  unfoldable pub swapped : Interface W → W → W
  swapped previous w = elim on_swapped [ none ↦ w | some call ↦ (call previous w).1 ]

  -- A candidate is taken in only if it reports OK; an exception of its own is dropped.
  abbrev pub adopt : Interface W → Result InterfaceStatus → Link W → Link W
  adopt candidate (ok status) s =
      if is_ok status
      then record s { world = swapped s.current s.world; current = candidate; swaps = s.swaps + 1 }
      else s
  adopt candidate (err e) s = s
  adopt candidate crash s = s

  abbrev pub examine : Result (Interface W) → Link W → Link W
  examine (ok candidate) s =
      let (r, w) = candidate.detect s.world in adopt candidate r (record s { world = w })
  examine (err e) s = s
  examine crash s = s

  unfoldable pub probe : Link W → Link W
  probe s =
      let (now, w) = host.clock s.world in
      if cooling s.last_attempt now
      then record s { world = w }
      else (let (attempt, w') = host.clock w in
          let (made, w2) = factory w' in
          examine made
            (record s { world = w2; last_attempt = some attempt; probes = s.probes + 1 }))

  -- `if self.status is not InterfaceStatus.OK: self._probe()`
  abbrev pub probe_if_down : Result InterfaceStatus × Link W → Result (Unit {0}) × Link W
  probe_if_down (ok status, s) = (ok tt, if is_ok status then s else probe s)
  probe_if_down (err e, s) = (err e, s)
  probe_if_down (crash, s) = (crash, s)

  abbrev pub retry :
      {A : Type 0}
      → (Interface W → Exec W A)
      → ErrorCode
      → Result InterfaceStatus × Link W
      → Result A × Link W
  retry f e (ok status, s) = if is_ok status then on_current f s else (err e, s)
  retry f e (err e', s) = (err e', s)
  retry f e (crash, s) = (crash, s)

  -- the `except PluginError` clause
  abbrev pub after_call :
      {A : Type 0} → (Interface W → Exec W A) → Result A × Link W → Result A × Link W
  after_call f (ok a, s) = (ok a, s)
  after_call f (err e, s) =
      if recoverable e then retry f e (on_current (λ i. i.detect) (probe s)) else (err e, s)
  after_call f (crash, s) = (crash, s)

  abbrev pub routed :
      {A : Type 0} → (Interface W → Exec W A) → Result (Unit {0}) × Link W → Result A × Link W
  routed f (ok _, s) = after_call f (on_current f s)
  routed f (err e, s) = (err e, s)
  routed f (crash, s) = (crash, s)

  unfoldable pub route : {A : Type 0} → (Interface W → Exec W A) → Routed A
  route f s = routed f (probe_if_down (on_current (λ i. i.detect) s))

  abbrev pub detected : Result (Unit {0}) × Link W → Result InterfaceStatus × Link W
  detected (ok _, s) = on_current (λ i. i.detect) s
  detected (err e, s) = (err e, s)
  detected (crash, s) = (crash, s)

  unfoldable pub detect : Routed InterfaceStatus
  detect s = detected (probe_if_down (on_current (λ i. i.detect) s))

  -- The router is itself an interface: each method is routed.
  unfoldable pub reconnecting : Interface (Link W)
  reconnecting = record {
    detect = detect;
    get_version = route (λ i. i.get_version);
    read_telemetry = λ gpu. route (λ i. i.read_telemetry gpu);
    read_all_telemetry = route (λ i. i.read_all_telemetry);
    read_capabilities = λ gpu. route (λ i. i.read_capabilities gpu);
    read_tuning_state = λ gpu. route (λ i. i.read_tuning_state gpu);
    list_profiles = route (λ i. i.list_profiles);
    load_profile = λ p. route (λ i. i.load_profile p);
    reset_tuning = λ gpu. route (λ i. i.reset_tuning gpu);
    apply_control = λ gpu f v. route (λ i. i.apply_control gpu f v);
    apply_fan_curve = λ gpu c. route (λ i. i.apply_fan_curve gpu c);
  }
