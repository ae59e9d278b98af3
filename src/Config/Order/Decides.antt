-- ===== src/Config/Order/Decides.antt =====
-- internal/config/config.go (DependencyOrder): what the start order is.
use mathlib.Core.Path.{subst}
use faultbox.Base.{
  ℕ, zero, suc, ◌+◌, ◌<◌, ◌≡◌, refl, sym, ap, ◌∙◌, true, List, [], ◌∷◌, String, str_eq, eq_iff,
  length, arith, Bool-cases, inl, inr,
}
use faultbox.Base.Dict.{Dict}
use faultbox.Base.Names.{has, keys}
use faultbox.Config.Order.{
  ServiceConfig, Dfs, VisitResult, finished, circular, out_of_fuel, dependencies, enter, visit_each,
  visit, dependency_order,
}
use faultbox.Config.Order.Graph.{
  Needs, direct, further, Ordered, spare, spare-lt, spare-length, dependencies-absent,
}
use faultbox.Config.Order.Visit.{
  Sound, After, Outcome, Visitor, visit_each-Outcome, enter-Sound, leave-Outcome,
}

-- Every name that is being visited needs this one.
Wanted : Dict ServiceConfig → List String → String → Type 0
Wanted services stack name = (v : String) → has v stack ≡ true → Needs services v name

Wanted-dependency :
    (services : Dict ServiceConfig) (stack : List String) (name d : String)
    → Wanted services stack name
    → has d (dependencies services name) ≡ true
    → Wanted services (name ∷ stack) d
unfolding Wanted has
Wanted-dependency services stack name d h needs v in_stack = elim (Bool-cases (str_eq name v)) [
  | inl same ↦ subst (λ i. Needs services i d) ((eq_iff name v).0 same) (direct needs)
  | inr apart ↦ further (h v (ground (arith, apart, in_stack))) needs
]

seen-Outcome :
    (services : Dict ServiceConfig) (name : String) (st : Dfs)
    → Sound services st
    → has name st.visited ≡ true
    → Outcome services (λ v. v ≡ name) st (finished st)
unfolding Outcome After Sound
seen-Outcome services name st sound seen = (
  sound,
  refl,
  λ v h. h,
  λ v same. ap (λ i. has i st.order) same ∙ (ap (has name) (sym sound.0) ∙ seen),
)

absent-Outcome :
    (services : Dict ServiceConfig) (name : String) (st : Dfs) (f : String → Dfs → VisitResult)
    → dependencies services name ≡ []
    → Sound services (enter name st)
    → Outcome services
        (λ v. has v (dependencies services name) ≡ true)
        (enter name st)
        (visit_each f (dependencies services name) (enter name st))
unfolding Outcome After visit_each has
absent-Outcome services name st f none_needed sound =
    rw (none_needed) (sound, refl, λ v h. h, λ v h. absurd cc)

visit-Visitor :
    (services : Dict ServiceConfig) (fuel : ℕ) (stack : List String)
    → spare (keys services) stack + 1 < fuel
    → Visitor services stack (Wanted services stack) (visit fuel services)
unfolding Visitor visit Wanted
visit-Visitor services zero stack enough name st wanted sound at = absurd (omega (arith, enough))
visit-Visitor services (suc fuel) stack enough name st wanted sound at =
    elim (Bool-cases (has name st.visited)) [
      | inl seen ↦ rw (seen) (seen-Outcome services name st sound seen)
      | inr unseen ↦ elim (Bool-cases (has name st.visiting)) [
        | inl again ↦
            rw (unseen, again) (unfold Outcome in wanted name (ap (has name) (sym at) ∙ again))
        | inr fresh ↦
            rw (unseen, fresh)
              (leave-Outcome services name st
                (visit_each (visit fuel services) (dependencies services name) (enter name st))
                fresh
                (elim (Bool-cases (has name (keys services))) [
                  | inl present ↦
                      visit_each-Outcome services (name ∷ stack) (Wanted services (name ∷ stack))
                        (visit fuel services)
                        (visit-Visitor services fuel (name ∷ stack) (
                          omega (
                            arith,
                            enough,
                            spare-lt (keys services) stack name present
                                (ap (has name) (sym at) ∙ fresh),
                          )))
                        (dependencies services name) (enter name st)
                        (λ v needs. Wanted-dependency services stack name v wanted needs)
                        (enter-Sound services name st sound unseen) (ap (λ xs. name ∷ xs) at)
                  | inr absent ↦
                      absent-Outcome services name st (visit fuel services)
                        (dependencies-absent services name absent)
                        (enter-Sound services name st sound unseen)
                ]))
      ]
    ]

-- What `dependency_order` promises of a result, for the names that it was given.
unfoldable pub StartOrder : Dict ServiceConfig → List String → VisitResult → Type 0
unfolding Ordered
StartOrder services names (finished st) =
    Ordered services [] st.order × ((v : String) → has v names ≡ true → has v st.order ≡ true)
StartOrder services names (circular name) = Needs services name name
StartOrder services names out_of_fuel = ⊥

Outcome-StartOrder :
    (services : Dict ServiceConfig) (names : List String) (st : Dfs) (r : VisitResult)
    → Outcome services (λ v. has v names ≡ true) st r
    → StartOrder services names r
unfolding Outcome After Sound StartOrder
Outcome-StartOrder services names st (finished last) o = (o.0.1, o.3)
Outcome-StartOrder services names st (circular name) o = o
Outcome-StartOrder services names st out_of_fuel o = o

-- In whatever order the services are ranged over, the fuel is enough, and either every one of them
-- is in the start order, where each name comes once and behind all that it depends on, or the error
-- names a service that depends on itself by a chain of dependencies.
pub dependency_order-StartOrder :
    (services : Dict ServiceConfig) (names : List String)
    → StartOrder services names (dependency_order services names)
unfolding dependency_order
dependency_order-StartOrder services names =
    let start : Dfs = record { visited = []; visiting = []; order = [] } in
    let sound : Sound services start = unfold Sound Ordered has in (refl, tt, λ v h. refl) in
    let fuel = length services + 2 in
    Outcome-StartOrder services names start (visit_each (visit fuel services) names start) (
      visit_each-Outcome services [] (Wanted services []) (visit fuel services)
        (visit-Visitor services fuel [] (omega (arith, spare-length services []))) names start
        (λ v h. unfold Wanted has in λ w none_there. absurd cc) sound refl)
