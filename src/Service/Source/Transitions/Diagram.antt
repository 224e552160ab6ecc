-- ===== src/Service/Source/Transitions/Diagram.antt =====
-- telemetry/service.py: the diagram of `TelemetryServiceState`, and that a service keeps to it.
use tuner_os.Prelude.{
  ◌≡◌, refl, sym, Bool, true, false, Option, none, some, List, [], ◌∷◌, ◌++◌, get_last?,
  get_last?-snoc, ◌&&◌, subst, some_injective,
}
use tuner_os.Telemetry.Catalog.{is_some}
use tuner_os.Service.Models.{
  TelemetryServiceState, stopped, connecting, running, completed, failed, Failure,
}
use tuner_os.Service.Ingestion.{
  Worker, gateway_connecting, gateway_streaming, gateway_finishing, replay_waiting,
  replay_streaming, ended,
}
use tuner_os.Service.Ingestion.Kept.{View}

-- The transitions that are meant: a source starts when none is active, a live one by connecting; it
-- ends completed or failed; and a service that is not stopped can be.
abbrev pub follows : TelemetryServiceState → TelemetryServiceState → Bool
follows connecting running = true
follows connecting failed = true
follows connecting stopped = true
follows connecting _ = false
follows running completed = true
follows running failed = true
follows running stopped = true
follows running _ = false
follows stopped connecting = true
follows stopped running = true
follows stopped _ = false
follows completed connecting = true
follows completed running = true
follows completed stopped = true
follows completed _ = false
follows failed connecting = true
follows failed running = true
follows failed stopped = true
follows failed _ = false

abbrev pub is_path : List TelemetryServiceState → Bool
is_path [] = true
is_path (a ∷ []) = true
is_path (a ∷ b ∷ rest) = follows a b && is_path (b ∷ rest)

abbrev pub is_failed : TelemetryServiceState → Bool
is_failed failed = true
is_failed _ = false

-- What a worker that is alive says of the state: it is the one that the worker announced last.
abbrev pub Phase : Option Worker → TelemetryServiceState → Bool → Type 0
Phase none state live = Unit
Phase (some gateway_connecting) state live = (state ≡ connecting) × (live ≡ true)
Phase (some gateway_streaming) state live = (state ≡ running) × (live ≡ true)
Phase (some gateway_finishing) state live = live ≡ true
Phase (some replay_waiting) state live = state ≡ running
Phase (some replay_streaming) state live = state ≡ running
Phase (some ended) state live = Unit

-- The transitions start from STOPPED and follow the diagram up to the state; there is an error
-- exactly in FAILED; and the state fits what the worker is doing.
pub record IsValid (v : View) : Type 0 where
  pub path : is_path v.transitions ≡ true
  pub last : get_last? v.transitions ≡ some v.state
  pub error : is_failed v.state ≡ is_some v.last_error
  pub phase : Phase v.worker v.state v.live_started_once

both : (a b : Bool) → (a && b) ≡ true → (a ≡ true) × (b ≡ true)
both true b h = (refl, h)
both false b h = cc

path_snoc :
    (xs : List TelemetryServiceState) (a b : TelemetryServiceState)
    → is_path xs ≡ true
    → get_last? xs ≡ some a
    → follows a b ≡ true
    → is_path (xs ++ b ∷ []) ≡ true
path_snoc [] a b p l f = refl
path_snoc (x ∷ []) a b p l f = rw (subst (λ z. follows z b ≡ true) (sym (some_injective l)) f) refl
path_snoc (x ∷ y ∷ xs) a b p l f =
    let (first, rest) = both (follows x y) (is_path (y ∷ xs)) p in
    rw first (path_snoc (y ∷ xs) a b rest l f)

-- A transition of the diagram, with an error exactly in FAILED.
pub moved :
    (v : View) (state : TelemetryServiceState) (error : Option Failure) (worker : Option Worker)
    (live stop : Bool)
    → IsValid v
    → follows v.state state ≡ true
    → is_failed state ≡ is_some error
    → Phase worker state live
    → IsValid (record {
      transitions = v.transitions ++ state ∷ [];
      state = state;
      last_error = error;
      worker = worker;
      live_started_once = live;
      stop_requested = stop;
    })
moved v state error worker live stop valid f e phase = record {
  path = path_snoc v.transitions v.state state valid.path valid.last f;
  last = get_last?-snoc v.transitions state;
  error = e;
  phase = phase;
}

-- No transition, with another worker.
pub stayed :
    (v : View) (worker : Option Worker) (live stop : Bool)
    → IsValid v
    → Phase worker v.state live
    → IsValid (record v { worker = worker; live_started_once = live; stop_requested = stop })
stayed v worker live stop valid phase = record {
  path = valid.path;
  last = valid.last;
  error = valid.error;
  phase = phase;
}
