-- ===== src/Star/Expand/Sites.antt =====
-- internal/star/leaf.go and interleavings.go: the recordings of a discovery run.
use mathlib.Core.List.{map-append}
use faultbox.Base.{
  ◌≡◌, ◌≢◌, refl, sym, ap, ◌∙◌, false, ◌||◌, List, [], ◌∷◌, ◌++◌, map, arith, All, String, str_eq,
  eq_iff, ltb, Bool-cases, inl, inr,
}
use faultbox.Base.Int.{pos, leb_ℤ}
use faultbox.Star.Leaf.{
  ProbFaultSite, ParallelSite, seen_name, record_prob_fault, has_prob_key, record_parallel_site,
  has_site_key,
}

-- Keys that are not empty, each once.
abbrev pub GoodKeys : List String → Type 0
GoodKeys [] = Unit
GoodKeys (k ∷ ks) = (k ≢ "") × All (λ j. k ≢ j) ks × GoodKeys ks

All-snoc :
    (j k : String) (ks : List String)
    → All (λ i. j ≢ i) ks
    → j ≢ k
    → All (λ i. j ≢ i) (ks ++ k ∷ [])
All-snoc j k [] h ne = (ne, tt)
All-snoc j k (i ∷ ks) h ne = (h.0, All-snoc j k ks h.1 ne)

GoodKeys-snoc :
    (ks : List String) (k : String)
    → GoodKeys ks
    → k ≢ ""
    → seen_name k ks ≡ false
    → GoodKeys (ks ++ k ∷ [])
GoodKeys-snoc [] k h ne new = (ne, tt, tt)
GoodKeys-snoc (j ∷ ks) k h ne new = (
  h.0,
  All-snoc j k ks h.1 (λ e. ground (arith, (eq_iff j k).1 e)),
  GoodKeys-snoc ks k h.2 ne (ground arith),
)

has_prob_key-seen :
    (k : String) (sites : List ProbFaultSite)
    → has_prob_key k sites ≡ seen_name k (map (λ s. s.key) sites)
has_prob_key-seen k [] = refl
has_prob_key-seen k (s ∷ sites) = ap (◌||◌ (str_eq s.key k)) (has_prob_key-seen k sites)

has_site_key-seen :
    (k : String) (sites : List ParallelSite)
    → has_site_key k sites ≡ seen_name k (map (λ s. s.key) sites)
has_site_key-seen k [] = refl
has_site_key-seen k (s ∷ sites) = ap (◌||◌ (str_eq s.key k)) (has_site_key-seen k sites)

-- Recording a probability fault keeps the recorded keys named and distinct, whatever is recorded.
pub record_prob_fault-GoodKeys :
    (sites : List ProbFaultSite) (site : ProbFaultSite)
    → GoodKeys (map (λ s. s.key) sites)
    → GoodKeys (map (λ s. s.key) (record_prob_fault sites site))
unfolding record_prob_fault
record_prob_fault-GoodKeys sites site h =
    elim (Bool-cases (str_eq site.key "" || leb_ℤ site.max_fires (pos 0))) [
      | inl skip ↦ rw skip h
      | inr keep ↦ elim (Bool-cases (has_prob_key site.key sites)) [
        | inl old ↦ rw (keep, old) h
        | inr new ↦
            rw (keep, new, map-append)
              (GoodKeys-snoc (map (λ s. s.key) sites) site.key h
                (ground (arith, eq_iff site.key "")) (sym (has_prob_key-seen site.key sites) ∙ new))
      ]
    ]

-- Recording a parallel() site keeps the recorded keys named and distinct, whatever is recorded.
pub record_parallel_site-GoodKeys :
    (sites : List ParallelSite) (site : ParallelSite)
    → GoodKeys (map (λ s. s.key) sites)
    → GoodKeys (map (λ s. s.key) (record_parallel_site sites site))
unfolding record_parallel_site
record_parallel_site-GoodKeys sites site h =
    elim (Bool-cases (str_eq site.key "" || ltb site.branches 2)) [
      | inl skip ↦ rw skip h
      | inr keep ↦ elim (Bool-cases (has_site_key site.key sites)) [
        | inl old ↦ rw (keep, old) h
        | inr new ↦
            rw (keep, new, map-append)
              (GoodKeys-snoc (map (λ s. s.key) sites) site.key h
                (ground (arith, eq_iff site.key "")) (sym (has_site_key-seen site.key sites) ∙ new))
      ]
    ]

-- What a run has recorded after a sequence of calls.
unfoldable pub prob_sites : List ProbFaultSite → List ProbFaultSite → List ProbFaultSite
prob_sites sites [] = sites
prob_sites sites (call ∷ calls) = prob_sites (record_prob_fault sites call) calls

unfoldable pub par_sites : List ParallelSite → List ParallelSite → List ParallelSite
par_sites sites [] = sites
par_sites sites (call ∷ calls) = par_sites (record_parallel_site sites call) calls

pub prob_sites-GoodKeys :
    (sites calls : List ProbFaultSite)
    → GoodKeys (map (λ s. s.key) sites)
    → GoodKeys (map (λ s. s.key) (prob_sites sites calls))
unfolding prob_sites
prob_sites-GoodKeys sites [] h = h
prob_sites-GoodKeys sites (call ∷ calls) h =
    prob_sites-GoodKeys (record_prob_fault sites call) calls
      (record_prob_fault-GoodKeys sites call h)

pub par_sites-GoodKeys :
    (sites calls : List ParallelSite)
    → GoodKeys (map (λ s. s.key) sites)
    → GoodKeys (map (λ s. s.key) (par_sites sites calls))
unfolding par_sites
par_sites-GoodKeys sites [] h = h
par_sites-GoodKeys sites (call ∷ calls) h =
    par_sites-GoodKeys (record_parallel_site sites call) calls
      (record_parallel_site-GoodKeys sites call h)
