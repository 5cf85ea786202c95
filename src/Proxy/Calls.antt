-- ===== src/Proxy/Calls.antt =====
-- proxy/manager.go: the calls of the manager's clients. A registration is the goroutine at the head of
-- register's loop, or the one that has returned; a snapshot is read under one lock.
pub mod Laws
use Prim.Native.String.{◌++◌}
use tsserve.Base.{
  ℕ, String, Bool, true, false, Option, none, some, List, [], ◌∷◌, Map, if◌then◌else◌,
}
use tsserve.Base.Text.{itoa, has_colon}
use tsserve.Proxy.Backend.{
  Origin, FunctionInvoker, Backend, scheme_lambda, invoker_target, target_url,
}
use tsserve.Proxy.Caps.{text_le}
use tsserve.Proxy.State.{ServiceDef, AdvertisedService, Manager, serving}
use tsserve.Proxy.Manager.{RegisterError, no_invoker}
use tsserve.Proxy.Goroutine.{Goroutine, registering, returned}

-- `net.JoinHostPort`
unfoldable pub join_host_port : String → String → String
unfolding has_colon
join_host_port host port =
    if has_colon host then "[" ++ host ++ "]:" ++ port else host ++ ":" ++ port

unfoldable pub register_host_port : String → ServiceDef → String → ℕ → Goroutine
unfolding join_host_port itoa
register_host_port key def backend_ip now = registering key def (record {
  key = key;
  addr = join_host_port backend_ip (itoa def.port);
  registered_at = now;
  origin = def.origin;
  invoker = none;
  target = "";
})

pub record FunctionDef : Type 0 where
  pub service : String
  pub caps : List String
  pub origin : Origin
  pub invoker : Option FunctionInvoker

unfoldable pub register_function : String → FunctionDef → ℕ → Goroutine
unfolding invoker_target
register_function key def now = elim def.invoker [
  | none ↦ returned (some (no_invoker key))
  | some f ↦
      registering key
        (record {
          service = def.service;
          port = 0;
          network = "";
          scheme = scheme_lambda;
          caps = def.caps;
          origin = def.origin;
        })
        (record {
          key = key;
          addr = "";
          registered_at = now;
          origin = def.origin;
          invoker = some f;
          target = invoker_target f;
        })
]

pub record BackendView : Type 0 where
  pub backend : String
  pub key : String
  pub registered_at : ℕ
  pub origin : Origin

pub record ServiceView : Type 0 where
  pub service : String
  pub scheme : String
  pub caps : List String
  pub backends : List BackendView

unfoldable pub backend_views : String → List Backend → List BackendView
unfolding target_url
backend_views scheme [] = []
backend_views scheme (b ∷ bs) =
    record {
      backend = target_url b scheme;
      key = b.key;
      registered_at = b.registered_at;
      origin = b.origin;
    }
    ∷ backend_views scheme bs

unfoldable pub view_of : AdvertisedService → ServiceView
unfolding backend_views
view_of r = record {
  service = r.name;
  scheme = r.scheme;
  caps = r.caps;
  backends = backend_views r.scheme r.pool.members;
}

-- The order of `sort.Slice`, on views of different names.
unfoldable pub insert_view : ServiceView → List ServiceView → List ServiceView
insert_view v [] = v ∷ []
insert_view v (w ∷ ws) =
    let rest = insert_view v ws in if text_le v.service w.service then v ∷ w ∷ ws else w ∷ rest

-- The views of the index's serving records, sorted.
unfoldable pub views : (ℕ → AdvertisedService) → Map ℕ → List ServiceView
unfolding view_of insert_view
views records [] = []
views records ((name, id) ∷ rest) =
    let vs = views records rest in
    if serving (records id) then insert_view (view_of (records id)) vs else vs

unfoldable pub snapshot : Manager → List ServiceView
unfolding views
snapshot m = views m.records m.services
