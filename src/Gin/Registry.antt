-- ===== src/Gin/Registry.antt =====
-- routers/ginapi/ginapi_registry.go: `RegisterService`. The calls on gin's router are the list of what
-- was registered; a handler is named by its method. The router's `Handle` panics on some calls, such as
-- one for a verb and a route that it has: which ones, after which earlier ones, is a parameter.
pub mod Laws
pub mod Bookstore
mod Tests
use protoc_gen_apigw.Base.{none, false, [], ◌++◌, some, ◌∷◌, Bool, Option, List}
use protoc_gen_apigw.Base.Outcome.{◌>>=◌, panic, err, ok, Outcome}
use protoc_gen_apigw.Base.Text.{codes, Text}
use protoc_gen_apigw.Gin.{convert_route}

pub record MethodDesc : Type 0 where
  pub name : Text
  pub method : Text
  pub route : Text

-- `r.router.Handle(method, route, handler)`
pub record Registration : Type 0 where
  pub method : Text
  pub route : Text
  pub name : Text

-- the result of `ConvertRoute` in `RegisterService`
unfoldable pub or_panic : Text → Outcome Text → Outcome Text
or_panic route (err e) =
    panic (codes "ginapi: RegisterService unable to convert route " ++ (route ++ (codes ": " ++ e)))
or_panic route r = r

module _ (refuses : List Registration → Registration → Option Text) where
  -- `r.router.Handle`, which panics with a text or registers
  unfoldable pub handle : List Registration → Registration → Outcome (List Registration)
  handle done r = elim (refuses done r) [ none ↦ ok (done ++ r ∷ []) | some e ↦ panic e ]

  -- the loop over the methods
  unfoldable pub register_methods :
      List MethodDesc → List Registration → Outcome (List Registration)
  unfolding convert_route or_panic handle
  register_methods [] done = ok done
  register_methods (m ∷ ms) done = do
    gin_route ← or_panic m.route (convert_route m.route)
    done' ← handle done (record { method = m.method; route = gin_route; name = m.name })
    register_methods ms done'

  -- `RegisterService`; `satisfies` is none for a nil implementation, and otherwise whether the
  -- implementation has the methods of the handler type.
  unfoldable pub register_service : List MethodDesc → Option Bool → Outcome (List Registration)
  unfolding register_methods
  register_service methods (some false) =
      panic (codes "ginapi: RegisterService found the handler of type that does not satisfy")
  register_service methods satisfies = register_methods methods []
