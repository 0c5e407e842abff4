-- ===== src/Cache/Indexer.antt =====
-- The label index of engine/internal/manager/scheduler/cache/interface.go.
pub mod Laws
pub mod Agreement
use kumquat.Base.{
  String, Bool, not, List, [], ◌∷◌, ◌++◌, Option, none, some, Map, lookup, lookup_or, insert,
  delete, is_nil, select, add_all, ◌=ˢ◌, if◌then◌else◌,
}

pub record SimpleIndexer : Type 0 where
  -- key → value → cluster names
  pub index : Map (Map (List String))
  pub cluster_labels : Map (Map String)

unfoldable pub new_indexer : SimpleIndexer
new_indexer = record { index = []; cluster_labels = [] }

-- The body of the loop of `Add`.
index_label : String → String → String → Map (Map (List String)) → Map (Map (List String))
index_label name k v index =
    let values : Map (List String) = lookup_or [] k index in
    insert k (insert v (lookup_or [] v values ++ name ∷ []) values) index

pub index_labels : String → Map String → Map (Map (List String)) → Map (Map (List String))
index_labels name [] index = index
index_labels name ((k, v) ∷ labels) index = index_labels name labels (index_label name k v index)

pub add : String → Map String → SimpleIndexer → SimpleIndexer
unfolding index_labels index_label
add name labels ix = record {
  index = index_labels name labels ix.index;
  cluster_labels = insert name labels ix.cluster_labels;
}

-- values[v] without `name`; an empty list of clusters is deleted.
drop_name : String → String → Map (List String) → Map (List String)
drop_name name v values = elim (lookup v values) [
  | none ↦ values
  | some clusters ↦
      let kept = select (λ c. not (c =ˢ name)) clusters in
      if is_nil kept then delete v values else insert v kept values
]

-- The body of the loop of `Remove`.
unindex_label : String → String → String → Map (Map (List String)) → Map (Map (List String))
unindex_label name k v index = elim (lookup k index) [
  | none ↦ index
  | some values ↦
      let kept = drop_name name v values in
      if is_nil kept then delete k index else insert k kept index
]

pub unindex_labels : String → Map String → Map (Map (List String)) → Map (Map (List String))
unindex_labels name [] index = index
unindex_labels name ((k, v) ∷ labels) index =
    unindex_labels name labels (unindex_label name k v index)

pub remove : String → SimpleIndexer → SimpleIndexer
unfolding unindex_labels unindex_label drop_name
remove name ix = elim (lookup name ix.cluster_labels) [
  | none ↦ ix
  | some labels ↦ record {
    index = unindex_labels name labels ix.index;
    cluster_labels = delete name ix.cluster_labels;
  }
]

unfoldable pub get_clusters_by_label : SimpleIndexer → String → String → List String
get_clusters_by_label ix key value = elim (lookup key ix.index) [
  | none ↦ []
  | some values ↦ elim (lookup value values) [ none ↦ [] | some clusters ↦ clusters ]
]

unfoldable pub all_names : Map (List String) → List String → List String
all_names [] set = set
all_names ((v, clusters) ∷ values) set = all_names values (add_all clusters set)

unfoldable pub get_clusters_by_label_key : SimpleIndexer → String → List String
unfolding all_names
get_clusters_by_label_key ix key = elim (lookup key ix.index) [
  | none ↦ []
  | some values ↦ all_names values []
]
