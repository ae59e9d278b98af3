-- ===== src/Config/Order/Tests.antt =====
-- Tests of DependencyOrder of internal/config/config.go: an api on a database and a cache, and two
-- services that depend on each other.
use faultbox.Base.{◌≡◌, refl, List, [], ◌∷◌, String}
use faultbox.Base.Dict.{Dict, lookup}
use faultbox.Base.Names.{has}
use faultbox.Config.Order.{
  ServiceConfig, finished, circular, dependencies, visit_each, visit, dependency_order,
}
use faultbox.Config.Order.Decides.{StartOrder, dependency_order-StartOrder}

abbrev on : List String → ServiceConfig
on names = record { depends_on = names }

abbrev topology : Dict ServiceConfig
topology = ("api", on ("db" ∷ "cache" ∷ [])) ∷ ("db", on []) ∷ ("cache", on ("db" ∷ [])) ∷ []

abbrev ranged : List String
ranged = "cache" ∷ "api" ∷ "db" ∷ []

api_last :
    dependency_order topology ranged
    ≡ finished (record {
      visited = "db" ∷ "cache" ∷ "api" ∷ [];
      visiting = [];
      order = "db" ∷ "cache" ∷ "api" ∷ [];
    })
unfolding dependency_order visit_each visit dependencies lookup has
api_last = refl

each_other :
    dependency_order (("a", on ("b" ∷ [])) ∷ ("b", on ("a" ∷ [])) ∷ []) ("b" ∷ "a" ∷ [])
    ≡ circular "b"
unfolding dependency_order visit_each visit dependencies lookup has
each_other = refl

dependency_order-StartOrder_example : StartOrder topology ranged (dependency_order topology ranged)
dependency_order-StartOrder_example = dependency_order-StartOrder topology ranged
