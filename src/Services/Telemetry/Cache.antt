-- ===== src/Services/Telemetry/Cache.antt =====
-- What the cache of readings answers (afterburner/services/telemetry.py).
use afterburner_gassist_plug.Base.{ℕ, ◌+◌, ◌<◌, ◌≡◌, ◌⊎◌, not, ◌&&◌, none, some, arith, ltb}
use afterburner_gassist_plug.Int.{ℤ}
use afterburner_gassist_plug.Dict.{int_eq, lookup}
use afterburner_gassist_plug.Exec.{Result, ok, err, crash}
use afterburner_gassist_plug.Models.{GpuTelemetry}
use afterburner_gassist_plug.Interface.{Interface, Host}
use afterburner_gassist_plug.Services.Telemetry.{Entry, Telemetry, flag, attempted, get_status}

module _ {W : Type 0} (i : Interface W) (host : Host W)
    (ttl min_poll_interval stale_threshold : ℕ) where
  -- What a status answers is fresh, or a cached reading with the flag that its age calls for: an
  -- unflagged one is in the cache afterwards.
  abbrev pub Cached : ℤ → Result GpuTelemetry × Telemetry W → Type 0
  Cached gpu (ok t, s) =
      (e : Entry) × (lookup gpu s.cache ≡ some e) × (t ≡ flag e.reading t.is_stale)
  Cached gpu (err c, s) = lookup gpu s.cache ≡ none
  Cached gpu (crash, s) = Unit {0}

  -- A cached reading is served without a read of the interface, and the cache and the attempts stay,
  -- while the reading is younger than the TTL or the last attempt is within the poll interval; it is
  -- then flagged exactly if it is older than the TTL and the threshold.
  pub get_status-flag :
      (gpu : ℤ) (s : Telemetry W) (e : Entry)
      → lookup gpu s.cache ≡ some e
      → (host.clock s.world).0 < e.polled_at + ttl
        ⊎ (host.clock s.world).0
          < attempted i host ttl min_poll_interval stale_threshold (lookup gpu s.last_attempt)
            + min_poll_interval
      → get_status i host ttl min_poll_interval stale_threshold gpu s ≡ (
        ok (
            flag e.reading (
              not (ltb (host.clock s.world).0 (e.polled_at + ttl))
              && ltb (e.polled_at + stale_threshold) (host.clock s.world).0)),
        record s { world = (host.clock s.world).1 },
      )
  unfolding get_status
  get_status-flag gpu s e h recent = ground arith
