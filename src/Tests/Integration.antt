-- ===== src/Tests/Integration.antt =====
-- The client and the reconnecting router on the bench.
use afterburner_gassist_plug.Base.{◌≡◌, ◌≢◌, refl, Bool, Option, some, ◌+◌, arith}
use afterburner_gassist_plug.Exec.{Exec, ok, err, crash, ErrorCode}
use afterburner_gassist_plug.Models.{InterfaceStatus, ControlFeature}
use afterburner_gassist_plug.Interface.{Interface}
use afterburner_gassist_plug.Integration.Client.{guard, guard_total}
use afterburner_gassist_plug.Integration.Reconnect.{Link, probe, route}
use afterburner_gassist_plug.Integration.Reconnect.Routing.{
  probe_in_cooldown, Swap, probe-Swap, Within, route_healthy, route_bounded,
}
use afterburner_gassist_plug.Int.{pos}
use afterburner_gassist_plug.Float.{fin}
use afterburner_gassist_plug.Safety.Validator.{validate_and_clamp}
use afterburner_gassist_plug.Integration.Adapters.{unavailable, combined}
use afterburner_gassist_plug.Integration.Adapters.Degraded.{
  validate_and_clamp-unavailable, validate_and_clamp-combined,
}
use afterburner_gassist_plug.Tests.Bench.{Bench, start, telemetry, bench, silent, host, gpu}

guard_total_example : (guard {W = Bench} {A = Bool} (λ w. (crash, w)) start).0 ≢ crash
guard_total_example = guard_total (λ w. (crash, w)) start

abbrev factory : Exec Bench (Interface Bench)
factory w = (ok (bench 3 9 5 1), w)

-- the callback is counted among the resets
abbrev on_swapped : Option (Interface Bench → Exec Bench (Unit {0}))
on_swapped = some (λ previous w. (ok tt, record w { resets = w.resets + 1 }))

-- a link to an Afterburner that is down, last probed at time 3
abbrev down : Link Bench
down = record { world = start; current = silent; last_attempt = some 3; probes = 1; swaps = 0 }

abbrev up : Link Bench
up = record down { current = bench 3 9 5 1 }

probe_in_cooldown_example : probe host factory 10 on_swapped down ≡ record down { world = start }
probe_in_cooldown_example = probe_in_cooldown host factory 10 on_swapped down 3 refl (omega arith)

probe-Swap_example : Swap host factory 1 on_swapped down (probe host factory 1 on_swapped down)
probe-Swap_example = probe-Swap host factory 1 on_swapped down

route_healthy_example :
    route host factory 1 on_swapped (λ i. i.read_telemetry gpu) up
    ≡ (ok (telemetry 2), record up { world = start })
route_healthy_example =
    route_healthy host factory 1 on_swapped (λ i. i.read_telemetry gpu) up InterfaceStatus.ok start
      start (telemetry 2) refl refl refl

route_bounded_example :
    Within host factory 1 on_swapped 2 down
      (route host factory 1 on_swapped (λ i. i.read_telemetry gpu) down).1
route_bounded_example = route_bounded host factory 1 on_swapped (λ i. i.read_telemetry gpu) down

validate_and_clamp-unavailable_example :
    (validate_and_clamp
      (unavailable InterfaceStatus.not_installed)
      host
      10
      gpu
      ControlFeature.fan_percent
      (fin (pos 5))
      start).0
    ≡ err ErrorCode.unsupported_feature
validate_and_clamp-unavailable_example =
    validate_and_clamp-unavailable host 10 InterfaceStatus.not_installed gpu
      ControlFeature.fan_percent (fin (pos 5)) start

validate_and_clamp-combined_example :
    validate_and_clamp
      (combined silent (bench 3 9 5 1))
      host
      10
      gpu
      ControlFeature.fan_percent
      (fin (pos 5))
      start
    ≡ (err ErrorCode.unsupported_feature, start)
validate_and_clamp-combined_example =
    validate_and_clamp-combined host 10 silent (bench 3 9 5 1) gpu ControlFeature.fan_percent
      (fin (pos 5)) start start InterfaceStatus.not_running refl refl
