-- ===== src/Plan/Discovered/Groups.antt =====
-- internal/plan/enumerate.go (groupFaultScenarios): where a fault scenario ends up.
use mathlib.Core.Path.{subst}
use faultbox.Base.{
  ◌≡◌, refl, ap, ◌∙◌, Bool, true, ◌||◌, Option, none, some, List, [], ◌∷◌, ◌++◌, String, str_eq,
  eq_iff, eq_refl, arith, Bool-cases, inl, inr,
}
use faultbox.Base.Dict.{Dict, lookup, insert, lookup-insert, lookup-insert_self}
use faultbox.Base.Names.{has, keys, has-append}
use faultbox.Base.Sort.{names_of, has-sort_by}
use faultbox.Plan.{FaultScenario, Matrix}
use faultbox.Plan.Build.{
  Groups, group_one, group_from, group_fault_scenarios, sorted_cells, scenario_name_of, or_empty,
}

has-insert :
    {V : Type 0} (k q : String) (v : V) (m : Dict V)
    → has q (keys (insert k v m)) ≡ (str_eq k q || has q (keys m))
unfolding has insert
has-insert k q v [] = refl
has-insert k q v ((j, w) ∷ m) =
    ground (arith, has-insert k q v m, eq_iff j k, eq_iff j q, eq_iff k q)

names_of-append :
    (xs ys : List FaultScenario)
    → names_of scenario_name_of (xs ++ ys)
      ≡ names_of scenario_name_of xs ++ names_of scenario_name_of ys
names_of-append [] ys = refl
names_of-append (x ∷ xs) ys = ap (λ ns. x.name ∷ ns) (names_of-append xs ys)

-- A scenario of a matrix is one of its cells.
abbrev pub InCells : String → String → Groups → Type 0
InCells name scenario g =
    (has scenario (keys g.cells_by_matrix) ≡ true)
    × (has name (names_of scenario_name_of (or_empty (lookup scenario g.cells_by_matrix))) ≡ true)

group_one-free :
    (name : String) (fs : FaultScenario) (o : Option Matrix) (g : Groups)
    → has name (keys g.free) ≡ true
    → has name (keys (group_one fs o g).free) ≡ true
group_one-free name fs none g h = ground (arith, h, has-insert fs.name name fs g.free)
group_one-free name fs (some m) g h = h

cell_in : String → Option (List FaultScenario) → Bool
cell_in name cells = has name (names_of scenario_name_of (or_empty cells))

group_one-InCells :
    (name scenario : String) (fs : FaultScenario) (o : Option Matrix) (g : Groups)
    → InCells name scenario g
    → InCells name scenario (group_one fs o g)
unfolding cell_in has
group_one-InCells name scenario fs none g h = h
group_one-InCells name scenario fs (some m) g h =
    let old = or_empty (lookup m.scenario_name g.cells_by_matrix) in
    let new = old ++ fs ∷ [] in
    let found = lookup-insert m.scenario_name scenario new g.cells_by_matrix in
    (
      ground (arith, h.0, has-insert m.scenario_name scenario new g.cells_by_matrix),
      elim (Bool-cases (str_eq m.scenario_name scenario)) [
        | inl same ↦
            let at : lookup scenario (insert m.scenario_name new g.cells_by_matrix) ≡ some new =
              ground (arith, found, same) in
            let before : has name (names_of scenario_name_of old) ≡ true =
              ap (λ i. cell_in name (lookup i g.cells_by_matrix))
                ((eq_iff m.scenario_name scenario).0 same)
              ∙ h.1 in
            ap (cell_in name) at
            ∙ (ap (has name) (names_of-append old (fs ∷ []))
                ∙ (has-append name (names_of scenario_name_of old) (fs.name ∷ [])
                    ∙ ground (arith, before)))
        | inr apart ↦
            let at : lookup scenario (insert m.scenario_name new g.cells_by_matrix)
                ≡ lookup scenario g.cells_by_matrix =
              ground (arith, found, apart) in
            ap (cell_in name) at ∙ h.1
      ],
    )

group_one-own :
    (fs : FaultScenario) (m : Matrix) (g : Groups)
    → InCells fs.name m.scenario_name (group_one fs (some m) g)
unfolding cell_in has
group_one-own fs m g =
    let old = or_empty (lookup m.scenario_name g.cells_by_matrix) in
    let new = old ++ fs ∷ [] in
    let at : lookup m.scenario_name (insert m.scenario_name new g.cells_by_matrix) ≡ some new =
      lookup-insert_self m.scenario_name new g.cells_by_matrix in
    (
      ground (
        arith,
        has-insert m.scenario_name m.scenario_name new g.cells_by_matrix,
        eq_refl m.scenario_name,
      ),
      ap (cell_in fs.name) at
          ∙ (ap (has fs.name) (names_of-append old (fs ∷ []))
              ∙ (has-append fs.name (names_of scenario_name_of old) (fs.name ∷ [])
                  ∙ ground (arith, eq_refl fs.name))),
    )

-- Where a scenario is found: among those of no matrix, or among the cells of a matrix.
pub data Placed (name : String) (g : Groups) : Type 0 where
  placed_free : has name (keys g.free) ≡ true → Placed name g
  placed_cell : (scenario : String) → InCells name scenario g → Placed name g

group_one-Placed :
    (name : String) (fs : FaultScenario) (g : Groups)
    → Placed name g
    → Placed name (group_one fs fs.matrix g)
group_one-Placed name fs g (placed_free h) = placed_free (group_one-free name fs fs.matrix g h)
group_one-Placed name fs g (placed_cell scenario h) =
    placed_cell scenario (group_one-InCells name scenario fs fs.matrix g h)

group_from-Placed :
    (name : String) (l : List FaultScenario) (g : Groups)
    → Placed name g
    → Placed name (group_from g l)
unfolding group_from
group_from-Placed name [] g h = h
group_from-Placed name (fs ∷ l) g h =
    group_from-Placed name l (group_one fs fs.matrix g) (group_one-Placed name fs g h)

group_one-Placed_own :
    (fs : FaultScenario) (o : Option Matrix) (g : Groups) → Placed fs.name (group_one fs o g)
group_one-Placed_own fs none g =
    placed_free (ground (arith, has-insert fs.name fs.name fs g.free, eq_refl fs.name))
group_one-Placed_own fs (some m) g = placed_cell m.scenario_name (group_one-own fs m g)

has-Placed :
    (name : String) (l : List FaultScenario) (g : Groups)
    → has name (names_of scenario_name_of l) ≡ true
    → Placed name (group_from g l)
unfolding group_from has
has-Placed name [] g h = absurd cc
has-Placed name (fs ∷ l) g h = elim (Bool-cases (str_eq fs.name name)) [
  | inl same ↦ group_from-Placed name l (group_one fs fs.matrix g) (
      subst (λ n. Placed n (group_one fs fs.matrix g)) ((eq_iff fs.name name).0 same)
        (group_one-Placed_own fs fs.matrix g))
  | inr apart ↦ has-Placed name l (group_one fs fs.matrix g) (ground (arith, apart, h))
]

keys-sorted_cells : (m : Dict (List FaultScenario)) → keys (sorted_cells m) ≡ keys m
keys-sorted_cells [] = refl
keys-sorted_cells ((k, cells) ∷ m) = ap (λ ks. k ∷ ks) (keys-sorted_cells m)

cell_in-sorted :
    (name scenario : String) (m : Dict (List FaultScenario))
    → cell_in name (lookup scenario (sorted_cells m)) ≡ cell_in name (lookup scenario m)
unfolding lookup cell_in
cell_in-sorted name scenario [] = refl
cell_in-sorted name scenario ((k, cells) ∷ m) = elim (Bool-cases (str_eq k scenario)) [
  | inl same ↦ rw (same) (has-sort_by name scenario_name_of scenario_name_of cells)
  | inr apart ↦ rw (apart) (cell_in-sorted name scenario m)
]

sorted-Placed :
    (name : String) (g : Groups)
    → Placed name g
    → Placed name (record g { cells_by_matrix = sorted_cells g.cells_by_matrix })
unfolding cell_in
sorted-Placed name g (placed_free h) = placed_free h
sorted-Placed name g (placed_cell scenario h) = placed_cell scenario (
  ap (has scenario) (keys-sorted_cells g.cells_by_matrix) ∙ h.0,
  cell_in-sorted name scenario g.cells_by_matrix ∙ h.1,
)

pub group_fault_scenarios-Placed :
    (name : String) (scenarios : List FaultScenario)
    → has name (names_of scenario_name_of scenarios) ≡ true
    → Placed name (group_fault_scenarios scenarios)
unfolding group_fault_scenarios
group_fault_scenarios-Placed name scenarios h =
    let start : Groups = record { cells_by_matrix = []; free = [] } in
    sorted-Placed name (group_from start scenarios) (has-Placed name scenarios start h)
