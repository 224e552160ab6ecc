-- ===== src/Lib.antt =====
-- The TunerOS backend (backend/src/tuneros): from the bytes of raw CAN frames to telemetry,
-- diagnostics and recordings.
--
-- The parts and how they interact. A gateway sends a header and records of 19 bytes over a socket;
-- `RawCanGatewayClient` turns the stream into raw frames. The DBC decoder gives the signals of a
-- raw frame. The telemetry engine keeps the latest sample and a bounded history of every signal,
-- and shows them in snapshots with their freshness. The diagnostic engine evaluates its rules on
-- each snapshot and moves every trouble code through pending, active, historical and cleared. The
-- explorer keeps a window of raw frames with counts for each identifier. The session recorder
-- writes raw frames with the same 19-byte records, and the reader checks and yields them again; the
-- session catalog finds the artifacts. `TelemetryService` owns a gateway or a replay, whose worker
-- thread feeds the recorder, the explorer, the telemetry engine and the diagnostics, and publishes
-- to the bounded queues of its clients. `InvestigationService` runs a recorded session through
-- engines of its own and collects what lies in a window.
--
-- The files. Each module stands for the Python file that its first comment names:
--   Prelude    shared: Boolean tests, lists and bounded deques, integers, exceptions as values,
--              `dict` as an ordered association list, runtime-typed values, big-endian numbers
--   Can        can/models.py, metadata.py, record_codec.py (Codec), gateway.py (Gateway),
--              decoder.py (Decoder), explorer.py (Explorer)
--   Telemetry  telemetry/models.py, catalog.py, engine.py
--   Diagnostics diagnostics/models.py, rules.py, catalog.py, and engine.py, which is RuleState,
--              FreezeFrame, Lifecycle (one rule) and Engine (all rules, queries and clearing)
--   Session    session/models.py (Models, Manifest, and Document for the JSON object of a
--              manifest), format.py, recorder.py, reader.py, catalog.py, replay.py
--   Service    telemetry/service.py: Config, Models, Subscription and Broadcaster (the clients),
--              Interleaving (one client under any order of events), Ingestion (the state, what a
--              frame does, the reads), Source (starting, stopping and the worker threads)
--   Investigation investigation/models.py (Models) and service.py: Window, Selection, Summary,
--              Analysis (the loop over the frames), Service (queries, comparison and export)
-- A class is a record of its attributes, a method a function that takes the record and returns its
-- result together with the record that it leaves. An exception is a constructor of `Error`, one for
-- each class that the backend raises or handles by class; messages are left out. A generator is the
-- list of what it yields with how it ends. Names are those of the source.
--
-- Parameters. Python's floats are a type `F`, with the operations that the rules use (`FloatOps`).
-- What canmatrix loads and decodes is a field of `DbcFrame`. SHA-256, the collapsing of white space
-- and the canonical form of a UUID are functions that theorems take, as are the sum and the mean of
-- floats; what a socket delivers, and how a write or a rename ends, are arguments.
--
-- Numbers are the native ℕ. Where Python subtracts timestamps, the comparison is written as an
-- addition (`spans`), or the order is checked before; integers that may be negative are ℤ.
--
-- Bounds and fuel. `read_loop` takes a byte at least in each round but the last, so one round more
-- than the size is enough; `frames` of the gateway takes a number of reads, of which one more than
-- there are frames is enough; the reader of a session takes one read more than the file has bytes.
-- Each is part of a theorem: with that fuel the result is never the one of exhaustion.
--
-- Threads. What runs under the service's lock is one step; a step names where the worker stands,
-- and steps of callers and of the worker come in any order. The last section of a stop does not
-- look whether the worker it joined is still the current one; a thread that it forgets goes on.
-- A client's event loop runs one callback or one part of `receive` at a time, and publishers act
-- between them. The recorder of the service is an interface (`RecorderOps`), as in the source,
-- and its operations may raise at any time.
--
-- Not modelled: opening and closing of sockets and files, the text of JSON documents, the
-- timeout of the gateway, waiting for a state, the checks of injected components in the constructor
-- of the service, calibration, the HTTP API, the C++ simulator and gateway, and the frontend.
pub mod Prelude
pub mod Can
pub mod Telemetry
pub mod Diagnostics
pub mod Session
pub mod Service
pub mod Investigation
