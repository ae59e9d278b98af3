-- ===== src/Config/Order/Visit.antt =====
-- internal/config/config.go (DependencyOrder): what a visit of one name does.
use faultbox.Base.{
  ◌≡◌, refl, sym, ap, ◌∙◌, true, false, List, [], ◌∷◌, ◌++◌, String, str_eq, eq_iff, eq_refl, arith,
  Bool-cases, inl, inr,
}
use faultbox.Base.Dict.{Dict}
use faultbox.Base.Names.{has, has-append}
use faultbox.Config.Order.{
  ServiceConfig, Dfs, VisitResult, finished, circular, out_of_fuel, dependencies, remove_name,
  enter, leave, then_visit, visit_each,
}
use faultbox.Config.Order.Graph.{Needs, Ordered, Ordered-snoc, remove_name-absent, has-last}

-- Between two visits: what is visited is the order, it is in order, and nothing in it is being
-- visited.
unfoldable pub Sound : Dict ServiceConfig → Dfs → Type 0
unfolding Ordered
Sound services st =
    (st.visited ≡ st.order)
    × Ordered services [] st.order
    × ((v : String) → has v st.visiting ≡ true → has v st.order ≡ false)

-- The state after a visit that succeeds, with the names it was to visit.
unfoldable pub After : Dict ServiceConfig → (String → Type 0) → Dfs → Dfs → Type 0
unfolding Sound
After services Visited st st' =
    Sound services st'
    × (st'.visiting ≡ st.visiting)
    × ((v : String) → has v st.order ≡ true → has v st'.order ≡ true)
    × ((v : String) → Visited v → has v st'.order ≡ true)

unfoldable pub Outcome : Dict ServiceConfig → (String → Type 0) → Dfs → VisitResult → Type 0
unfolding After
Outcome services Visited st (finished st') = After services Visited st st'
Outcome services Visited st (circular name) = Needs services name name
Outcome services Visited st out_of_fuel = ⊥

-- What a visit of a name that satisfies `Fit` does, with the given names being visited.
unfoldable pub Visitor :
    Dict ServiceConfig → List String → (String → Type 0) → (String → Dfs → VisitResult) → Type 0
unfolding Outcome Sound
Visitor services stack Fit f =
    (name : String) (st : Dfs)
    → Fit name
    → Sound services st
    → st.visiting ≡ stack
    → Outcome services (λ v. v ≡ name) st (f name st)

Outcome-After :
    (services : Dict ServiceConfig) (name : String) (names : List String) (st st' : Dfs)
    (r : VisitResult)
    → After services (λ v. v ≡ name) st st'
    → Outcome services (λ v. has v names ≡ true) st' r
    → Outcome services (λ v. has v (name ∷ names) ≡ true) st r
unfolding Outcome After has
Outcome-After services name names st st' (circular n) a o = o
Outcome-After services name names st st' out_of_fuel a o = o
Outcome-After services name names st st' (finished last) a o = (
  o.0,
  o.1 ∙ a.1,
  λ v h. o.2 v (a.2 v h),
  λ v h. elim (Bool-cases (str_eq name v)) [
    | inl same ↦ o.2 v (a.3 v (sym ((eq_iff name v).0 same)))
    | inr apart ↦ o.3 v (ground (arith, apart, h))
  ],
)

module _ (services : Dict ServiceConfig) (stack : List String) (Fit : String → Type 0)
    (f : String → Dfs → VisitResult) where
  visit_each-then :
      (name : String) (names : List String) (st : Dfs) (r : VisitResult)
      → Outcome services (λ v. v ≡ name) st r
      → st.visiting ≡ stack
      → ((st' : Dfs)
          → Sound services st'
          → st'.visiting ≡ stack
          → Outcome services (λ v. has v names ≡ true) st' (visit_each f names st'))
      → Outcome services (λ v. has v (name ∷ names) ≡ true) st (then_visit r (visit_each f names))
  unfolding Outcome After
  visit_each-then name names st (circular n) h at rest = h
  visit_each-then name names st out_of_fuel h at rest = h
  visit_each-then name names st (finished st') h at rest =
      Outcome-After services name names st st' (visit_each f names st') h (rest st' h.0 (h.1 ∙ at))

  pub visit_each-Outcome :
      Visitor services stack Fit f
      → (names : List String) (st : Dfs) → ((v : String) → has v names ≡ true → Fit v)
      → Sound services st
      → st.visiting ≡ stack
      → Outcome services (λ v. has v names ≡ true) st (visit_each f names st)
  unfolding Visitor visit_each Outcome After has
  visit_each-Outcome spec [] st fit sound at = (sound, refl, λ v h. h, λ v h. absurd cc)
  visit_each-Outcome spec (name ∷ names) st fit sound at =
      visit_each-then name names st (f name st)
        (spec name st (fit name (ground (arith, eq_refl name))) sound at) at
        (λ st' sound' at'.
          visit_each-Outcome spec names st' (λ v h. fit v (ground (arith, h))) sound' at')

module _ (services : Dict ServiceConfig) (name : String) (st : Dfs) where
  pub enter-Sound : Sound services st → has name st.visited ≡ false → Sound services (enter name st)
  unfolding Sound has
  enter-Sound h fresh =
      let absent : has name st.order ≡ false = ap (has name) (sym h.0) ∙ fresh in
      (
        h.0,
        h.1,
        λ v in_stack. elim (Bool-cases (str_eq name v)) [
          | inl same ↦ ap (λ i. has i st.order) (sym ((eq_iff name v).0 same)) ∙ absent
          | inr apart ↦ h.2 v (ground (arith, apart, in_stack))
        ],
      )

  leave-visiting :
      (visiting : List String)
      → has name st.visiting ≡ false
      → visiting ≡ name ∷ st.visiting
      → remove_name name visiting ≡ st.visiting
  leave-visiting visiting fresh at =
      ap (remove_name name) at ∙ (rw (eq_refl name) (remove_name-absent name st.visiting fresh))

  leave-Sound :
      (inner : Dfs)
      → has name st.visiting ≡ false
      → Sound services inner
      → inner.visiting ≡ name ∷ st.visiting
      → ((d : String) → has d (dependencies services name) ≡ true → has d inner.order ≡ true)
      → Sound services (leave name inner)
  unfolding Sound has
  leave-Sound inner fresh h at ready =
      let top : has name inner.visiting ≡ true = ap (has name) at ∙ ground (arith, eq_refl name) in
      (
        ap (λ xs. xs ++ name ∷ []) h.0,
        Ordered-snoc services [] inner.order name h.1 (h.2 name top) ready,
        λ v in_stack.
            let below : has v st.visiting ≡ true =
              ap (has v) (sym (leave-visiting inner.visiting fresh at)) ∙ in_stack in
            let inside : has v inner.visiting ≡ true = ap (has v) at ∙ ground (arith, below) in
            let apart : str_eq name v ≡ false = elim (Bool-cases (str_eq name v)) [
              | inl same ↦ absurd (
                  ground
                    (arith, below, fresh, ap (λ i. has i st.visiting) ((eq_iff name v).0 same)))
              | inr other ↦ other
            ] in
            has-append v inner.order (name ∷ []) ∙ ground (arith, h.2 v inside, apart),
      )

  pub leave-Outcome :
      (r : VisitResult)
      → has name st.visiting ≡ false
      → Outcome services (λ v. has v (dependencies services name) ≡ true) (enter name st) r
      → Outcome services (λ v. v ≡ name) st (then_visit r (λ inner. finished (leave name inner)))
  unfolding Outcome After
  leave-Outcome (circular n) fresh o = o
  leave-Outcome out_of_fuel fresh o = o
  leave-Outcome (finished inner) fresh o = (
    leave-Sound inner fresh o.0 o.1 o.3,
    leave-visiting inner.visiting fresh o.1,
    λ v h. has-append v inner.order (name ∷ []) ∙ ground (arith, o.2 v h),
    λ v same. has-last v name inner.order same,
  )
