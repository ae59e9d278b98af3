-- ===== src/Config/Order/Graph.antt =====
-- internal/config/config.go (DependencyOrder): the graph of the dependencies.
use mathlib.Core.List.{append_assoc, append-nil}
use faultbox.Base.{
  ℕ, ◌+◌, ◌≤◌, ◌<◌, ◌≡◌, refl, sym, ap, ◌∙◌, true, false, List, [], ◌∷◌, ◌++◌, String, str_eq,
  eq_iff, eq_refl, length, if◌then◌else◌, arith, Bool-cases, inl, inr,
}
use faultbox.Base.Dict.{Dict}
use faultbox.Base.Names.{has, keys, has-append, lookup-absent}
use faultbox.Config.Order.{ServiceConfig, dependencies, depends_on_of, remove_name}

-- `Needs services a b`: a chain of dependencies leads from `a` to `b`.
pub data Needs : Dict ServiceConfig → String → String → Type 0 where
  direct :
      {services : Dict ServiceConfig} {a b : String}
      → has b (dependencies services a) ≡ true
      → Needs services a b
  further :
      {services : Dict ServiceConfig} {a b c : String}
      → Needs services a b
      → has c (dependencies services b) ≡ true
      → Needs services a c

-- Every name comes once, behind `done`, and behind all that it depends on.
unfoldable pub Ordered : Dict ServiceConfig → List String → List String → Type 0
Ordered services before [] = Unit
Ordered services before (name ∷ names) =
    (has name before ≡ false)
    × ((d : String) → has d (dependencies services name) ≡ true → has d before ≡ true)
    × Ordered services (before ++ name ∷ []) names

pub Ordered-snoc :
    (services : Dict ServiceConfig) (before names : List String) (name : String)
    → Ordered services before names
    → has name (before ++ names) ≡ false
    → ((d : String) → has d (dependencies services name) ≡ true → has d (before ++ names) ≡ true)
    → Ordered services before (names ++ name ∷ [])
unfolding Ordered
Ordered-snoc services before [] name h fresh ready = (
  ap (has name) (sym (append-nil before)) ∙ fresh,
  λ d needs. ap (has d) (sym (append-nil before)) ∙ ready d needs,
  tt,
)
Ordered-snoc services before (x ∷ names) name h fresh ready =
    let joined : (before ++ x ∷ []) ++ names ≡ before ++ (x ∷ names) =
      append_assoc before (x ∷ []) names in
    (
      h.0,
      h.1,
      Ordered-snoc services (before ++ x ∷ []) names name h.2 (ap (has name) joined ∙ fresh)
          (λ d needs. ap (has d) joined ∙ ready d needs),
    )

-- How many services are not being visited.
unfoldable pub spare : List String → List String → ℕ
spare [] visiting = 0
spare (k ∷ ks) visiting = let rest = spare ks visiting in if has k visiting then rest else rest + 1

spare-le :
    (ks visiting : List String) (name : String) → spare ks (name ∷ visiting) ≤ spare ks visiting
unfolding spare has
spare-le [] visiting name = omega arith
spare-le (k ∷ ks) visiting name = ground (arith, spare-le ks visiting name)

pub spare-lt :
    (ks visiting : List String) (name : String)
    → has name ks ≡ true
    → has name visiting ≡ false
    → spare ks (name ∷ visiting) < spare ks visiting
unfolding spare has
spare-lt [] visiting name member fresh = absurd cc
spare-lt (k ∷ ks) visiting name member fresh = elim (Bool-cases (str_eq k name)) [
  | inl same ↦
      let e : k ≡ name = (eq_iff k name).0 same in
      let fresh_k : has k visiting ≡ false = ap (λ i. has i visiting) e ∙ fresh in
      let hit : str_eq name k ≡ true = ap (str_eq name) e ∙ eq_refl name in
      ground (arith, fresh_k, hit, spare-le ks visiting name)
  | inr apart ↦
      let other : str_eq name k ≡ false = ground (arith, eq_iff k name, eq_iff name k, apart) in
      ground (arith, other, spare-lt ks visiting name (ground (arith, apart, member)) fresh)
]

pub spare-length :
    (services : Dict ServiceConfig) (visiting : List String)
    → spare (keys services) visiting ≤ length services
unfolding spare
spare-length [] visiting = omega arith
spare-length ((k, svc) ∷ services) visiting = ground (arith, spare-length services visiting)

pub dependencies-absent :
    (services : Dict ServiceConfig) (name : String)
    → has name (keys services) ≡ false
    → dependencies services name ≡ []
unfolding dependencies
dependencies-absent services name absent = ap depends_on_of (lookup-absent name services absent)

pub remove_name-absent :
    (name : String) (names : List String) → has name names ≡ false → remove_name name names ≡ names
unfolding has
remove_name-absent name [] h = refl
remove_name-absent name (x ∷ names) h =
    ground (arith, remove_name-absent name names (ground (arith, h)), h)

pub has-last :
    (v name : String) (names : List String) → v ≡ name → has v (names ++ name ∷ []) ≡ true
unfolding has
has-last v name names same =
    has-append v names (name ∷ []) ∙ ground (arith, eq_iff name v, sym same)
