-- ===== src/Cache/Indexer/Laws.antt =====
-- What one round of the loops of `Add` and `Remove` does to an entry of the index.
use kumquat.Base.{
  String, ◌≡◌, refl, Bool, false, not, ◌&&◌, ◌||◌, List, [], ◌∷◌, ◌++◌, none, some, Map, lookup,
  lookup_or, has_key, IsMap, select, contains, contains-append, contains-select, ◌=ˢ◌,
  if◌then◌else◌, arith, eq_iff, lookup_or-insert, lookup_or-delete, lookup_or-lookup, lookup_or-nil,
}
use kumquat.Cache.Indexer.{index_label, index_labels, drop_name, unindex_label, unindex_labels}

-- index[k][v]
abbrev pub clusters_at : Map (Map (List String)) → String → String → List String
clusters_at index k v = lookup_or [] v (lookup_or [] k index)

clusters_at-index_label :
    (name k v j w : String) (index : Map (Map (List String)))
    → clusters_at (index_label name k v index) j w
      ≡ (if (k =ˢ j) && (v =ˢ w) then clusters_at index j w ++ name ∷ [] else clusters_at index j w)
unfolding index_label
clusters_at-index_label name k v j w index = simp (lookup_or-insert) (
    ground (
      arith,
      eq_iff k j,
      eq_iff v w,
      lookup_or-insert [] v w (clusters_at index k v ++ name ∷ []) (lookup_or [] k index),
    ))

drop_name_lem :
    (name v w : String) (values : Map (List String))
    → lookup_or [] w (drop_name name v values) ≡ (
        if v =ˢ w
        then select (λ c. not (c =ˢ name)) (lookup_or [] w values)
        else lookup_or [] w values)
unfolding drop_name
drop_name_lem name v w values = ground (
  arith,
  eq_iff v w,
  lookup_or-delete [] v w values,
  lookup_or-insert [] v w (select (λ c. not (c =ˢ name)) (lookup_or [] v values)) values,
  lookup_or-lookup [] v values,
)

drop_name-nil : (name v : String) → drop_name name v [] ≡ []
unfolding drop_name lookup
drop_name-nil name v = refl

clusters_at-unindex_label :
    (name k v j w : String) (index : Map (Map (List String)))
    → clusters_at (unindex_label name k v index) j w ≡ (
        if (k =ˢ j) && (v =ˢ w)
        then select (λ c. not (c =ˢ name)) (clusters_at index j w)
        else clusters_at index j w)
unfolding unindex_label
clusters_at-unindex_label name k v j w index = ground (
  arith,
  eq_iff k j,
  lookup_or-delete [] k j index,
  lookup_or-insert [] k j (drop_name name v (lookup_or [] k index)) index,
  lookup_or-lookup [] k index,
  drop_name_lem name v w (lookup_or [] k index),
  lookup_or-nil {V = List String} [] w,
)

-- Whether the label `k` with the value `v` stands in the list of labels.
abbrev pub has_pair : Map String → String → String → Bool
has_pair [] k v = false
has_pair ((j, w) ∷ labels) k v = ((j =ˢ k) && (w =ˢ v)) || has_pair labels k v

-- labels[k] == v
abbrev pub has_label : Map String → String → String → Bool
has_label labels k v = elim (lookup k labels) [ none ↦ false | some w ↦ w =ˢ v ]

no_pair_of_no_key :
    (labels : Map String) (k v : String) → has_key k labels ≡ false → has_pair labels k v ≡ false
unfolding has_key
no_pair_of_no_key [] k v h = refl
no_pair_of_no_key ((j, w) ∷ labels) k v h = ground (arith, no_pair_of_no_key labels k v)

pub has_pair-has_label :
    (labels : Map String) (k v : String) → IsMap labels → has_pair labels k v ≡ has_label labels k v
unfolding lookup
has_pair-has_label [] k v h = refl
has_pair-has_label ((j, w) ∷ labels) k v (fresh, h) =
    ground (arith, eq_iff j k, has_pair-has_label labels k v h, no_pair_of_no_key labels k v)

pub contains-index_labels :
    (name n k v : String) (labels : Map String) (index : Map (Map (List String)))
    → contains n (clusters_at (index_labels name labels index) k v)
      ≡ (contains n (clusters_at index k v) || (name =ˢ n) && has_pair labels k v)
unfolding index_labels contains
contains-index_labels name n k v [] index = ground arith
contains-index_labels name n k v ((j, w) ∷ labels) index = ground (
  arith,
  contains-index_labels name n k v labels (index_label name j w index),
  clusters_at-index_label name j w k v index,
  contains-append n (clusters_at index k v) (name ∷ []),
)

pub contains-unindex_labels :
    (name n k v : String) (labels : Map String) (index : Map (Map (List String)))
    → contains n (clusters_at (unindex_labels name labels index) k v)
      ≡ (contains n (clusters_at index k v) && not ((name =ˢ n) && has_pair labels k v))
unfolding unindex_labels
contains-unindex_labels name n k v [] index = ground arith
contains-unindex_labels name n k v ((j, w) ∷ labels) index = ground (
  arith,
  eq_iff name n,
  eq_iff n name,
  contains-unindex_labels name n k v labels (unindex_label name j w index),
  clusters_at-unindex_label name j w k v index,
  contains-select (λ c. not (c =ˢ name)) n (clusters_at index k v),
)
