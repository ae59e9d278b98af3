-- ===== src/Config/Order.antt =====
-- internal/config/config.go (DependencyOrder): the start order of the services. Of a service only
-- its dependencies are kept; the order in which the map is ranged over is an argument, and the
-- recursion of `visit` is on fuel.
pub mod Graph
pub mod Visit
pub mod Decides
pub mod Tests
use faultbox.Base.{
  ℕ, zero, suc, ◌+◌, Bool, true, false, Option, none, some, List, [], ◌∷◌, ◌++◌, String, str_eq,
  length, if◌then◌else◌,
}
use faultbox.Base.Dict.{Dict, lookup}
use faultbox.Base.Names.{has}

pub record ServiceConfig : Type 0 where
  pub depends_on : List String

-- The names for which the two maps hold true, and the order so far.
pub record Dfs : Type 0 where
  pub visited : List String
  pub visiting : List String
  pub order : List String

pub data VisitResult : Type 0 where
  finished : Dfs → VisitResult
  circular : String → VisitResult
  out_of_fuel : VisitResult

abbrev pub depends_on_of : Option ServiceConfig → List String
depends_on_of none = []
depends_on_of (some svc) = svc.depends_on

unfoldable pub dependencies : Dict ServiceConfig → String → List String
dependencies services name = depends_on_of (lookup name services)

abbrev pub remove_name : String → List String → List String
remove_name name [] = []
remove_name name (x ∷ xs) =
    let rest = remove_name name xs in if str_eq x name then rest else x ∷ rest

abbrev pub enter : String → Dfs → Dfs
enter name st = record { visited = st.visited; visiting = name ∷ st.visiting; order = st.order }

abbrev pub leave : String → Dfs → Dfs
leave name st = record {
  visited = st.visited ++ name ∷ [];
  visiting = remove_name name st.visiting;
  order = st.order ++ name ∷ [];
}

abbrev pub then_visit : VisitResult → (Dfs → VisitResult) → VisitResult
then_visit (finished st) next = next st
then_visit (circular name) next = circular name
then_visit out_of_fuel next = out_of_fuel

unfoldable pub visit_each : (String → Dfs → VisitResult) → List String → Dfs → VisitResult
visit_each visit [] st = finished st
visit_each visit (name ∷ names) st = then_visit (visit name st) (visit_each visit names)

unfoldable pub visit : ℕ → Dict ServiceConfig → String → Dfs → VisitResult
unfolding visit_each dependencies
visit zero services name st = out_of_fuel
visit (suc fuel) services name st =
    let below = visit_each (visit fuel services) (dependencies services name) (enter name st) in
    if has name st.visited
    then finished st
    else if has name st.visiting
    then circular name
    else then_visit below (λ inner. finished (leave name inner))

-- The fuel is two more than the number of services: `Decides` shows that it is enough.
unfoldable pub dependency_order : Dict ServiceConfig → List String → VisitResult
unfolding visit visit_each
dependency_order services names =
    visit_each (visit (length services + 2) services) names
      (record { visited = []; visiting = []; order = [] })
