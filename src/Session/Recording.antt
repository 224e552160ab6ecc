-- ===== src/Session/Recording.antt =====
-- session: what a recording holds, and what a reader finds in it.
pub mod Scanning
pub mod Holding
pub mod Stored
pub mod Created
pub mod Replayed
use tuner_os.Prelude.{
  ℕ, zero, suc, ◌≡◌, Bool, true, false, Option, none, some, List, [], ◌∷◌, ◌++◌, Result, ok, err,
}
use tuner_os.Prelude.Values.{Bytes}
use tuner_os.Can.Models.{RawCanFrame}
use tuner_os.Can.Codec.Roundtrip.{layout}
use tuner_os.Telemetry.Engine.{precedes}
use tuner_os.Session.Recorder.{SessionRecorder, succeeds, record_frame}
use tuner_os.Session.Reader.{Scan, add_frame}

-- The variables of the reader's loop after the records of some frames.
abbrev pub scanned : Scan → List RawCanFrame → Scan
scanned s [] = s
scanned s (f ∷ fs) = scanned (add_frame s (layout f) f.timestamp_microseconds) fs

abbrev pub start : Bytes → Scan
start header = record { count = 0; first_timestamp = none; last_timestamp = none; hashed = header }

-- No timestamp precedes the one before it.
abbrev pub Ascends : Option ℕ → List RawCanFrame → Type 0
Ascends last [] = Unit
Ascends last (f ∷ fs) =
    (precedes f.timestamp_microseconds last ≡ false) × Ascends (some f.timestamp_microseconds) fs

-- The frames that the recorder accepts, when it is given some frames one after the other and
-- every write of the frame file succeeds.
accepted :
    (SessionRecorder → List RawCanFrame × SessionRecorder)
    → RawCanFrame
    → Result (Unit {0}) × SessionRecorder
    → List RawCanFrame × SessionRecorder
accepted next f (ok u, r) = let (fs, r') = next r in (f ∷ fs, r')
accepted next f (err e, r) = next r

unfoldable pub record_all : List RawCanFrame → SessionRecorder → List RawCanFrame × SessionRecorder
unfolding accepted
record_all [] r = ([], r)
record_all (f ∷ fs) r = accepted (λ r'. record_all fs r') f (record_frame f succeeds r)
