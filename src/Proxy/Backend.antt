-- ===== src/Proxy/Backend.antt =====
-- proxy/pool.go, proxy/invoker.go and proxy/manager.go: one backend of a pool, and where its requests go.
use Prim.Native.String.{◌++◌}
use tsserve.Base.{ℕ, String, Option, none, some, ◌==◌, if◌then◌else◌}

pub record Origin : Type 0 where
  pub account : String
  pub cluster : String
  pub region : String

-- The invoker without its API client, which is an argument of the round trip.
pub record FunctionInvoker : Type 0 where
  pub arn : String
  pub qualifier : String

abbrev pub scheme_lambda : String
scheme_lambda = "lambda"

unfoldable pub invoker_target : FunctionInvoker → String
invoker_target f =
    let t = scheme_lambda ++ "://" ++ f.arn in
    if f.qualifier == "" then t else t ++ ":" ++ f.qualifier

pub record Backend : Type 0 where
  pub key : String
  pub addr : String
  pub registered_at : ℕ
  pub origin : Origin
  pub invoker : Option FunctionInvoker
  pub target : String

unfoldable pub backend_url : String → String → String
backend_url scheme addr = scheme ++ "://" ++ addr

unfoldable pub target_url : Backend → String → String
unfolding backend_url
target_url b scheme = elim b.invoker [ some f ↦ b.target | none ↦ backend_url scheme b.addr ]
