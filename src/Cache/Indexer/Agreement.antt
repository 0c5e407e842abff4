-- ===== src/Cache/Indexer/Agreement.antt =====
-- The index beside the labels of the clusters, under Add and Remove of SimpleIndexer.
use kumquat.Base.{
  subst, lookup_or, delete, String, ◌≡◌, refl, Bool, false, Option, none, some, Map, lookup,
  contains, IsMap, lookup-insert, lookup-delete, ◌=ˢ◌, if◌then◌else◌, arith, eq_iff, Option-cases,
  =ˢ-cases, inl, inr,
}
use kumquat.Cache.Indexer.{SimpleIndexer, new_indexer, add, remove, unindex_labels}
use kumquat.Cache.Indexer.Laws.{
  clusters_at, has_label, has_pair-has_label, contains-index_labels, contains-unindex_labels,
}

-- Whether the cluster with these labels, if it is known, has the label.
abbrev pub is_labelled : Option (Map String) → String → String → Bool
is_labelled none k v = false
is_labelled (some labels) k v = has_label labels k v

-- index[k][v] holds exactly the clusters whose label k has the value v.
pub record IsIndexed (ix : SimpleIndexer) : Type 0 where
  pub agrees :
      (n k v : String)
      → contains n (clusters_at ix.index k v) ≡ is_labelled (lookup n ix.cluster_labels) k v
  pub maps :
      (n : String) (labels : Map String) → lookup n ix.cluster_labels ≡ some labels → IsMap labels

pub new_indexer-IsIndexed : IsIndexed new_indexer
unfolding new_indexer lookup contains lookup_or
new_indexer-IsIndexed = record { agrees = λ n k v. refl; maps = λ n labels h. cc }

pub add-IsIndexed :
    (name : String) (labels : Map String) (ix : SimpleIndexer)
    → IsIndexed ix
    → lookup name ix.cluster_labels ≡ none
    → IsMap labels
    → IsIndexed (add name labels ix)
unfolding add
add-IsIndexed name labels ix h fresh m = record {
  agrees = λ n k v. ground (
    arith,
    eq_iff name n,
    h.agrees n k v,
    contains-index_labels name n k v labels ix.index,
    has_pair-has_label labels k v m,
    lookup-insert name n labels ix.cluster_labels,
  );
  maps = λ n ls e. stored n ls (rw lookup-insert at e);
}
  where
    stored :
        (n : String) (ls : Map String)
        → (if name =ˢ n then some labels else lookup n ix.cluster_labels) ≡ some ls
        → IsMap ls
    stored n ls e = elim (=ˢ-cases name n) [
      | inl (t, _) ↦ let q : labels ≡ ls = cc (rw t at e) in subst IsMap q m
      | inr (f, _) ↦ h.maps n ls (rw f at e)
    ]

module _ (name : String) (ix : SimpleIndexer) (h : IsIndexed ix) where
  remove_known-IsIndexed :
      (labels : Map String)
      → lookup name ix.cluster_labels ≡ some labels
      → IsIndexed (record {
        index = unindex_labels name labels ix.index;
        cluster_labels = delete name ix.cluster_labels;
      })
  remove_known-IsIndexed labels known = record {
    agrees = λ n k v. ground (
      arith,
      eq_iff name n,
      h.agrees n k v,
      contains-unindex_labels name n k v labels ix.index,
      has_pair-has_label labels k v (h.maps name labels known),
      lookup-delete name n ix.cluster_labels,
    );
    maps = λ n ls e. stored n ls (rw lookup-delete at e);
  }
    where
      stored :
          (n : String) (ls : Map String)
          → (if name =ˢ n then none else lookup n ix.cluster_labels) ≡ some ls
          → IsMap ls
      stored n ls e = elim (=ˢ-cases name n) [
        | inl (t, _) ↦ cc (rw t at e)
        | inr (f, _) ↦ h.maps n ls (rw f at e)
      ]

  pub remove-IsIndexed : IsIndexed (remove name ix)
  unfolding remove
  remove-IsIndexed = elim (Option-cases (lookup name ix.cluster_labels)) [
    | inl e ↦ rw (e, remove) h
    | inr (labels, e) ↦ rw (e, remove) (remove_known-IsIndexed labels e)
  ]

  -- A removed cluster is no longer known, and every other keeps its labels.
  pub lookup-remove :
      (n : String)
      → lookup n (remove name ix).cluster_labels
        ≡ (if name =ˢ n then none else lookup n ix.cluster_labels)
  unfolding remove
  lookup-remove n = ground (arith, eq_iff name n, lookup-delete name n ix.cluster_labels)

pub lookup-add :
    (name n : String) (labels : Map String) (ix : SimpleIndexer)
    → lookup n (add name labels ix).cluster_labels
      ≡ (if name =ˢ n then some labels else lookup n ix.cluster_labels)
unfolding add
lookup-add name n labels ix = lookup-insert name n labels ix.cluster_labels
