-- ===== src/Lib.antt =====
-- The Afterburner G-Assist plugin: an adapter between the G-Assist engine and MSI Afterburner, which
-- reads a GPU's telemetry and, after a confirmation, changes its tuning. The front end dispatches a
-- request to a service; the services reach Afterburner through one interface; every value that is
-- written is validated against the limits that the hardware reports.
--
-- Parts and files:
-- - afterburner/models.py: Models; the error codes are in Exec.
-- - afterburner/integration/interface.py: Interface, a record of operations over a world `W`, which
--   every other part takes as a parameter. Host holds the clocks and `sleep`.
-- - afterburner/safety/capabilities.py, validator.py, policy.py: Safety/Capabilities,
--   Safety/Validator, Safety/Policy; proofs in Safety/Gating, Clamping, FanCurves, Tokens and Frame.
-- - afterburner/integration/client.py, reconnect.py, fake.py: Integration/Client, Reconnect, Fake;
--   fallback.py and combined.py: Integration/Adapters.
-- - afterburner/integration/profiles.py: Integration/ProfileFiles, the reader of the profile files.
-- - afterburner/integration/macm.py: Control/Words and Layout (the shared region), Header (its checks),
--   Read, Write (changes to an injected region) and Client (the transactions on the mapped region);
--   proofs below Write and Client.
-- - afterburner/integration/mahm.py: Monitor/Parse (the monitoring region), View (the copy of the
--   mapped view) and Sample (a reading of one GPU); proofs in View, Bounds, Sources and Reading.
-- - afterburner/services/optimize.py, telemetry.py, diagnostics.py, profiles.py: Services/Optimize,
--   Telemetry, Diagnostics, Profiles, each with its proofs below it; Services/Calls is the relation of
--   a run's calls, with its writes, that the proofs share.
-- - afterburner/protocol/transport.py: Wire/Stream (framing), Request, Message and Loop; Wire/Serving
--   states what the loop is for as a relation; proofs in Wire/Frames, Serving and RoundTrip.
-- - afterburner/protocol/plugin.py: Protocol/Args (arguments), Protocol/Verdict (replies),
--   Protocol/Prompt (what is read before a prompt, with afterburner/services/ownership.py) and
--   Protocol/Confirm (the requests `execute` and `input`); proofs below Protocol/Confirm.
-- - Base, Int, Float, Value, Dict, Exec are shared: numbers, doubles, Python values, dicts, and calls
--   that end in a value, a typed error or another exception, beside the world that they leave. Tests
--   applies the theorems on a small concrete Afterburner.
--
-- A method becomes a function of the same name; a call that reads or writes is `W → Result A × W`, and
-- an object with attributes of its own has them as a record beside the world. A double is a whole
-- multiple of the least positive double, an infinity or NaN; what an operation rounds to is the
-- parameter `Rounding`. Clocks count whole ticks. The raising loop of `optimize_thermal` takes fuel:
-- each round adds 20 points before clamping, so 102 rounds are enough where the fan range ends at 100 %.
-- The wait for a FLUSH takes fuel for one poll more than the ticks of its timeout, the message loop for
-- one pass more than there are frames; reading n bytes takes n passes, as a piece has a byte or more.
--
-- Parameters, as code that is not in the repository: the interface's implementation, the clocks,
-- `secrets.token_hex`, Python's `str` of a value that is no text, rounding, the parsing and formatting of
-- numbers, UTF-8 and JSON, Python's text methods, streams and files, and the calls of Windows (`Windows`).
-- The executors are a parameter of the front end, which finds them by name. Lower case in a reply is
-- that of the ASCII letters. Not modelled: texts for a user, the client and the mapping of the
-- monitoring adapter (afterburner/integration/mahm.py), the layouts of the SDK (sdk_layout.py),
-- nicknames, start-up and packaging.
pub mod Base
pub mod Int
pub mod Float
pub mod Value
pub mod Exec
pub mod Dict
pub mod Models
pub mod Interface
pub mod Safety
pub mod Integration
pub mod Services
pub mod Protocol
pub mod Control
pub mod Monitor
pub mod Tests
pub mod Wire
