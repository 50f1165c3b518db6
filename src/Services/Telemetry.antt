-- ===== src/Services/Telemetry.antt =====
-- `TelemetryService` (afterburner/services/telemetry.py): the cache of readings.
pub mod Cache
use afterburner_gassist_plug.Base.{
  ℕ, ◌+◌, ◌-◌, Bool, true, false, Option, none, some, ltb, if◌then◌else◌,
}
use afterburner_gassist_plug.Int.{ℤ, sub_ℕ}
use afterburner_gassist_plug.Dict.{Dict, int_eq, lookup, insert}
use afterburner_gassist_plug.Exec.{Exec, Result, ok, err, crash}
use afterburner_gassist_plug.Models.{GpuTelemetry}
use afterburner_gassist_plug.Interface.{Interface, Host}

-- A reading and the monotonic time at which it was taken.
pub record Entry : Type 0 where
  pub reading : GpuTelemetry
  pub polled_at : ℕ

-- `world` is what the interface and the clocks see.
pub record Telemetry (W : Type 0) : Type 0 where
  pub world : W
  pub cache : Dict ℤ Entry
  pub last_attempt : Dict ℤ ℕ
  pub poll_count : ℕ

-- `_flag`
abbrev pub flag : GpuTelemetry → Bool → GpuTelemetry
flag t stale = record t { is_stale = stale }

module _ {W : Type 0} (i : Interface W) (host : Host W)
    (ttl min_poll_interval stale_threshold : ℕ) where
  -- a successful read: it is stamped, and cached at a second reading of the clock
  abbrev pub record_reading : ℤ → GpuTelemetry → Telemetry W → Result GpuTelemetry × Telemetry W
  record_reading gpu t s =
      let (stamp, w) = host.now s.world in
      let stamped = record t { sampled_at = stamp; is_stale = false } in
      let (polled_at, w') = host.clock w in
      (
        ok stamped,
        record s {
          world = w';
          poll_count = s.poll_count + 1;
          cache = insert gpu (record { reading = stamped; polled_at = polled_at }) s.cache;
        },
      )

  abbrev pub after_poll : ℤ → Result GpuTelemetry → Telemetry W → Result GpuTelemetry × Telemetry W
  after_poll gpu (ok t) s = record_reading gpu t s
  after_poll gpu (err e) s = (err e, s)
  after_poll gpu crash s = (crash, s)

  unfoldable pub poll : ℤ → Telemetry W → Result GpuTelemetry × Telemetry W
  poll gpu s =
      let (start, w) = host.clock s.world in
      let (r, w') = i.read_telemetry gpu w in
      after_poll gpu r (record s { world = w'; last_attempt = insert gpu start s.last_attempt })

  -- The `except PluginError` clause: the last good reading is kept, and flagged.
  abbrev pub or_stale : Option Entry → Result GpuTelemetry → Result GpuTelemetry
  or_stale none r = r
  or_stale (some e) (ok t) = ok t
  or_stale (some e) (err c) = ok (flag e.reading true)
  or_stale (some e) crash = crash

  unfoldable pub poll_or_stale : ℤ → Telemetry W → Result GpuTelemetry × Telemetry W
  poll_or_stale gpu s = let (r, s') = poll gpu s in (or_stale (lookup gpu s'.cache) r, s')

  -- `self._last_attempt.get(gpu_index, 0.0)`
  abbrev pub attempted : Option ℕ → ℕ
  attempted none = 0
  attempted (some t) = t

  abbrev pub serve : ℤ → ℕ → Option Entry → Telemetry W → Result GpuTelemetry × Telemetry W
  serve gpu now none s = poll_or_stale gpu s
  serve gpu now (some e) s =
      if ltb now (e.polled_at + ttl)
      then (ok (flag e.reading false), s)
      else if ltb now (attempted (lookup gpu s.last_attempt) + min_poll_interval)
      then (ok (flag e.reading (ltb (e.polled_at + stale_threshold) now)), s)
      else poll_or_stale gpu s

  unfoldable pub get_status : ℤ → Telemetry W → Result GpuTelemetry × Telemetry W
  get_status gpu s =
      let (now, w) = host.clock s.world in
      serve gpu now (lookup gpu s.cache) (record s { world = w })

  abbrev age_of : Option Entry → Telemetry W → Option ℤ × Telemetry W
  age_of none s = (none, s)
  age_of (some e) s =
      let (now, w) = host.clock s.world in (some (sub_ℕ now e.polled_at), record s { world = w })

  unfoldable pub age_seconds : ℤ → Telemetry W → Option ℤ × Telemetry W
  age_seconds gpu s = age_of (lookup gpu s.cache) s
