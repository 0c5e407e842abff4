-- ===== src/Scheduler/Prefilter/Terms.antt =====
-- The candidates that the index gives for a term, beside the clusters that match the term.
use kumquat.Base.{
  String, ◌≡◌, refl, Bool, true, false, ◌||◌, List, [], ◌∷◌, Option, none, some, Map, lookup,
  lookup_or, contains, add_all, select, is_nil, any, all, ◌=ˢ◌, arith, eq_iff, lookup_or-lookup,
  contains-add_all, contains-select, Option-cases, inl, inr,
}
use kumquat.Api.{Requirement, Term, Operator, in_values, exists}
use kumquat.Cache.Indexer.{
  SimpleIndexer, get_clusters_by_label, get_clusters_by_label_key, all_names,
}
use kumquat.Cache.Indexer.Laws.{clusters_at}
use kumquat.Cache.Indexer.Agreement.{IsIndexed}
use kumquat.Plugins.Affinity.{match_operator, match_expression, match_term}
use kumquat.Scheduler.Prefilter.{
  union_matches, operator_matches, indexed_matches, narrow, narrow_by,
  prefilter_by_term_using_indexer,
}

get_clusters_by_label_lem :
    (ix : SimpleIndexer) (k v : String) → get_clusters_by_label ix k v ≡ clusters_at ix.index k v
unfolding get_clusters_by_label lookup_or
get_clusters_by_label_lem ix k v = elim (Option-cases (lookup k ix.index)) [
  | inl e ↦ ground (arith, lookup_or-lookup [] k ix.index)
  | inr (values, e) ↦ ground (arith, lookup_or-lookup [] k ix.index, lookup_or-lookup [] v values)
]

contains-union_matches :
    (ix : SimpleIndexer) (n key : String) (values set : List String)
    → contains n (union_matches ix key values set)
      ≡ (any (λ v. contains n (clusters_at ix.index key v)) values || contains n set)
unfolding union_matches
contains-union_matches ix n key [] set = refl
contains-union_matches ix n key (v ∷ vs) set = ground (
  arith,
  contains-union_matches ix n key vs (add_all (get_clusters_by_label ix key v) set),
  contains-add_all n (get_clusters_by_label ix key v) set,
  get_clusters_by_label_lem ix key v,
)

all_names_grows :
    (n : String) (values : Map (List String)) (set : List String)
    → contains n set ≡ true
    → contains n (all_names values set) ≡ true
unfolding all_names
all_names_grows n [] set h = h
all_names_grows n ((v, names) ∷ values) set h =
    ground (arith, all_names_grows n values (add_all names set), contains-add_all n names set)

all_names_holds :
    (n v : String) (values : Map (List String)) (set : List String)
    → contains n (lookup_or [] v values) ≡ true
    → contains n (all_names values set) ≡ true
unfolding all_names lookup_or contains
all_names_holds n v [] set h = cc
all_names_holds n v ((w, names) ∷ values) set h = ground (
  arith,
  contains-add_all n names set,
  all_names_grows n values (add_all names set),
  all_names_holds n v values (add_all names set),
)

module _ (ix : SimpleIndexer) (h : IsIndexed ix) (n : String) (labels : Map String)
    (known : lookup n ix.cluster_labels ≡ some labels) where
  holds_any :
      (key value : String) (values : List String)
      → lookup key labels ≡ some value
      → any (λ v. v =ˢ value) values ≡ true
      → any (λ v. contains n (clusters_at ix.index key v)) values ≡ true
  holds_any key value [] e m = m
  holds_any key value (v ∷ vs) e m =
      ground (arith, eq_iff v value, eq_iff value v, h.agrees n key v, holds_any key value vs e)

  holds_key :
      (key value : String)
      → lookup key labels ≡ some value
      → contains n (get_clusters_by_label_key ix key) ≡ true
  unfolding get_clusters_by_label_key lookup_or contains
  holds_key key value e = ground (
    arith,
    h.agrees n key value,
    eq_iff value value,
    lookup_or-lookup [] key ix.index,
    all_names_holds n value (lookup_or [] key ix.index) [],
  )

  -- The cluster is not ruled out.
  abbrev pub keeps : Option (List String) → Bool
  keeps none = true
  keeps (some set) = contains n set

  operator_matches-keeps :
      (op : Operator) (key : String) (values : List String)
      → match_operator op values (lookup key labels) ≡ true
      → keeps (operator_matches ix op key values) ≡ true
  unfolding operator_matches contains
  operator_matches-keeps in_values key values m = elim (Option-cases (lookup key labels)) [
    | inl e ↦ ground arith
    | inr (value, e) ↦
        ground (arith, contains-union_matches ix n key values [], holds_any key value values e)
  ]
  operator_matches-keeps exists key values m = elim (Option-cases (lookup key labels)) [
    | inl e ↦ ground arith
    | inr (value, e) ↦ holds_key key value e
  ]
  operator_matches-keeps _ key values m = refl

  indexed_matches-keeps :
      (expr : Requirement)
      → match_expression expr labels ≡ true
      → keeps (indexed_matches ix expr) ≡ true
  unfolding indexed_matches match_expression
  indexed_matches-keeps expr m = operator_matches-keeps expr.operator expr.key expr.values m

  narrow-keeps :
      (set : Option (List String)) (matches : List String)
      → keeps set ≡ true
      → contains n matches ≡ true
      → contains n (narrow set matches) ≡ true
  unfolding narrow
  narrow-keeps none matches k m = ground (arith, contains-add_all n matches [])
  narrow-keeps (some set) matches k m = ground (
    arith,
    contains-add_all n (select (λ c. contains c set) matches) [],
    contains-select (λ c. contains c set) n matches,
  )

  not_nil_of_contains : (set : List String) → contains n set ≡ true → is_nil set ≡ false
  unfolding contains
  not_nil_of_contains [] m = cc
  not_nil_of_contains (x ∷ xs) m = refl

  narrow_by-keeps :
      (exprs : List Requirement) (set : Option (List String))
      → all (λ e. match_expression e labels) exprs ≡ true
      → keeps set ≡ true
      → keeps (narrow_by ix exprs set) ≡ true
  unfolding narrow_by
  narrow_by-keeps [] set m k = k
  narrow_by-keeps (expr ∷ exprs) set m k = elim (Option-cases (indexed_matches ix expr)) [
    | inl e ↦ rw (e, narrow_by) (narrow_by-keeps exprs set (ground arith) k)
    | inr (matches, e) ↦
        let found : contains n matches ≡ true = ground (arith, indexed_matches-keeps expr) in
        let kept = narrow-keeps set matches k found in
        rw (e, narrow_by)
          (rw (not_nil_of_contains (narrow set matches) kept)
            (narrow_by-keeps exprs (some (narrow set matches)) (ground arith) kept))
  ]

  pub prefilter_by_term-keeps :
      (term : Term)
      → match_term term labels ≡ true
      → keeps (prefilter_by_term_using_indexer term ix) ≡ true
  unfolding prefilter_by_term_using_indexer match_term
  prefilter_by_term-keeps term m = ground (arith, narrow_by-keeps term.match_expressions none)
