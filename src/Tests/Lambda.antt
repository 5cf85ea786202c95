-- ===== src/Tests/Lambda.antt =====
-- lambda/ at concrete inputs: one tagged function.
use tsserve.Base.{◌≡◌, ◌≢◌, refl, String, false, Option, none, some, [], ◌∷◌, Map, ok}
use tsserve.Discovery.Registrar.{Registrar}
use tsserve.Lambda.Function.{Function, Registration, registration_of}
use tsserve.Lambda.Watcher as Lambda
use tsserve.Lambda.Watcher.Laws.{InService, apply-Settled}
use tsserve.Tests.Registrar.{map_registrar}

function_registrar : Registrar (Map Registration) Function Registration String
function_registrar = map_registrar registration_of

abbrev pub tagging : Lambda.Tagging
tagging token = ok (
  record {
    resource_arn = some "arn:f";
    tags = record { key = some "tsserve.service"; value = some "svc:fn" } ∷ [];
  }
      ∷ [],
  some "",
)

abbrev pub region : Lambda.Config
region = record { poll_interval = 30; retry_interval = 120; account = ""; reader = none }

abbrev blank : Lambda.Watcher (Map Registration)
blank = record {
  cfg = region;
  tracker = record { state = []; active = []; failed = [] };
  healthy = false;
  account_resolved = false;
}

abbrev same_functions : String → Map Registration → Map Registration
same_functions account s = s

tagged : Lambda.Watcher (Map Registration) × Option Lambda.CycleError
unfolding Lambda.cycle function_registrar
tagged =
    elim (Lambda.cycle function_registrar (λ e. "bad tags") tagging 1 none same_functions blank) [
      | none ↦ (blank, none)
      | some r ↦ r
    ]

abbrev fn : Function
fn = record { service = "svc:fn"; caps = []; arn = "arn:f"; qualifier = "" }

apply-Settled_example :
    InService function_registrar "arn:f"
      (registration_of fn)
      (Lambda.apply function_registrar (λ e. "bad tags") fn blank.tracker)
    × ((j : String)
        → j ≢ "arn:f"
        → function_registrar.holds
            (Lambda.apply function_registrar (λ e. "bad tags") fn blank.tracker).state
            j
          ≡ function_registrar.holds blank.tracker.state j)
unfolding registration_of function_registrar map_registrar
apply-Settled_example =
    apply-Settled function_registrar (λ e. "bad tags") (λ f. refl) fn blank.tracker (λ k. refl)
