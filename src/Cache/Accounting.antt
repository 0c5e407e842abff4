-- ===== src/Cache/Accounting.antt =====
-- The requested resources under AssumeApplication and ForgetApplication of scheduler/cache/cache.go.
use kumquat.Base.{
  +ℤ-zero, +ℤ-sub, lookup_or_absent, lookup_or-delete, insert-IsMap, still_new, String, ◌≡◌, refl,
  sym, ap, ◌∙◌, Bool, true, false, ◌||◌, [], ◌∷◌, Option, none, some, ℤ, pos, neg_part, ◌+ℤ◌, ◌-ℤ◌,
  lookup, lookup_or, insert, delete, has_key, IsMap, lookup_or-insert, lookup-insert, eq_refl, ◌=ˢ◌,
  eq_iff, if◌then◌else◌, arith, All, Bool-cases, inl, inr,
}
use kumquat.Api.{Application, Resources, ResourceList, IsExact}
use kumquat.Cache.Requests.{calculate_pod_resources}
use kumquat.Cache.Store.{
  ClusterCache, assume_application, forget_application, ClusterInfo, assume_in, assume_requests,
  add_times, rounds_after_first, forget_in, forget_requests,
}

eq_of : (k n : String) → (k =ˢ n) ≡ true → k ≡ n
eq_of k n e = ground (arith, eq_iff k n)

module _ (r : Resources) (x : IsExact r) where
  -- How much a list has of a resource.
  unfoldable pub amount_of : String → ResourceList r.Quantity → ℤ
  amount_of n list = x.amount (lookup_or r.none_of n list)

  amount_of-absent :
      (n : String) (list : ResourceList r.Quantity)
      → has_key n list ≡ false
      → amount_of n list ≡ pos 0
  unfolding amount_of
  amount_of-absent n list h = ap x.amount (lookup_or_absent r.none_of n list h) ∙ x.amount-none_of

  amount-if :
      (b : Bool) (p q : r.Quantity)
      → x.amount (if b then p else q) ≡ (if b then x.amount p else x.amount q)
  amount-if true p q = refl
  amount-if false p q = refl

  amount_of-insert :
      (k n : String) (q : r.Quantity) (list : ResourceList r.Quantity)
      → amount_of n (insert k q list) ≡ (if k =ˢ n then x.amount q else amount_of n list)
  unfolding amount_of
  amount_of-insert k n q list =
      ap x.amount (lookup_or-insert r.none_of k n q list)
      ∙ amount-if (k =ˢ n) q (lookup_or r.none_of n list)

  amount_of-delete :
      (k n : String) (list : ResourceList r.Quantity)
      → amount_of n (delete k list) ≡ (if k =ˢ n then pos 0 else amount_of n list)
  unfolding amount_of
  amount_of-delete k n list =
      ap x.amount (lookup_or-delete r.none_of k n list)
      ∙ amount-if (k =ˢ n) r.none_of (lookup_or r.none_of n list)
      ∙ ap (λ z. if k =ˢ n then z else x.amount (lookup_or r.none_of n list)) x.amount-none_of

  -- The aggregate is what was requested before and the total.
  IsAggregate : ResourceList r.Quantity → ResourceList r.Quantity → ResourceList r.Quantity → Type 0
  unfolding amount_of
  IsAggregate before total requested =
      (n : String) → amount_of n requested ≡ amount_of n before +ℤ amount_of n total

  record IsAssumed (before total requested : ResourceList r.Quantity) : Type 0 where
    is_map : IsMap total
    aggregate : IsAggregate before total requested

  none_yet :
      (before total requested : ResourceList r.Quantity) (k n : String)
      → has_key k total ≡ false
      → IsAggregate before total requested
      → k ≡ n
      → amount_of k requested ≡ amount_of n before
  unfolding IsAggregate
  none_yet before total requested k n new h same =
      h k
      ∙ ap (λ z. amount_of k before +ℤ z) (amount_of-absent k total new)
      ∙ +ℤ-zero (amount_of k before)
      ∙ ap (λ s. amount_of s before) same

  one_more :
      (before total requested : ResourceList r.Quantity) (k : String) (q : r.Quantity)
      → has_key k total ≡ false
      → IsAggregate before total requested
      → IsAggregate before
          (insert k q total)
          (insert k (r.add (lookup_or r.none_of k requested) q) requested)
  unfolding IsAggregate
  one_more before total requested k q new h n = elim (Bool-cases (k =ˢ n)) [
    | inl e ↦
        rw
          (
            amount_of-insert k n q total,
            amount_of-insert k n (r.add (lookup_or r.none_of k requested) q) requested,
            e,
          )
          (x.amount-add (lookup_or r.none_of k requested) q
            ∙ ap (λ z. z +ℤ x.amount q) (none_yet before total requested k n new h (eq_of k n e)))
    | inr e ↦
        rw
          (
            amount_of-insert k n q total,
            amount_of-insert k n (r.add (lookup_or r.none_of k requested) q) requested,
            e,
          )
          (h n)
  ]

  assume_requests-IsAssumed :
      (replicas : ℤ) (before reqs total requested : ResourceList r.Quantity)
      → IsMap reqs
      → All (λ e. has_key e.0 total ≡ false) reqs
      → IsAssumed before total requested
      → IsAssumed before
          (assume_requests r replicas reqs (total, requested)).0
          (assume_requests r replicas reqs (total, requested)).1
  unfolding assume_requests
  assume_requests-IsAssumed replicas before [] total requested m new h = h
  assume_requests-IsAssumed replicas before ((k, quantity) ∷ reqs) total requested m new h =
      let q : r.Quantity = add_times r (rounds_after_first replicas) quantity quantity in
      assume_requests-IsAssumed replicas before reqs (insert k q total)
        (insert k (r.add (lookup_or r.none_of k requested) q) requested) m.1
        (still_new k q total reqs m.0 new.1)
        (record {
          is_map = insert-IsMap k q total h.is_map;
          aggregate = one_more before total requested k q new.0 h.aggregate;
        })

  amount_of-first :
      (k : String) (q : r.Quantity) (total : ResourceList r.Quantity)
      → amount_of k ((k, q) ∷ total) ≡ x.amount q
  unfolding amount_of lookup_or
  amount_of-first k q total = rw (eq_refl k, amount_of) refl

  amount_of-rest :
      (k n : String) (q : r.Quantity) (total : ResourceList r.Quantity)
      → (k =ˢ n) ≡ false
      → amount_of n ((k, q) ∷ total) ≡ amount_of n total
  unfolding amount_of lookup_or
  amount_of-rest k n q total e = rw (e, amount_of) refl

  no_key : (n : String) → has_key {V = r.Quantity} n [] ≡ false
  unfolding has_key
  no_key n = refl

  one_less :
      (before total requested : ResourceList r.Quantity) (k : String) (q : r.Quantity)
      → IsAggregate before ((k, q) ∷ total) requested
      → (x.amount (r.sub (lookup_or r.none_of k requested) q) ≡ amount_of k before)
  unfolding IsAggregate
  one_less before total requested k q h =
      x.amount-sub (lookup_or r.none_of k requested) q
      ∙ ap (λ z. z -ℤ x.amount q)
          (h k ∙ ap (λ z. amount_of k before +ℤ z) (amount_of-first k q total))
      ∙ +ℤ-sub (amount_of k before) (x.amount q)

  -- After the deletion of what is used up, or the insertion of what is left.
  left_over :
      (before total requested : ResourceList r.Quantity) (k : String) (q : r.Quantity)
      (changed : ResourceList r.Quantity)
      → has_key k total ≡ false
      → IsAggregate before ((k, q) ∷ total) requested
      → ((n : String)
          → amount_of n changed ≡ (if k =ˢ n then amount_of k before else amount_of n requested))
      → IsAggregate before total changed
  unfolding IsAggregate
  left_over before total requested k q changed new h change n = elim (Bool-cases (k =ˢ n)) [
    | inl e ↦
        rw e at (change n)
        ∙ sym (+ℤ-zero (amount_of k before))
        ∙ ap (λ z. amount_of k before +ℤ z) (sym (amount_of-absent k total new))
        ∙ ap (λ s. amount_of s before +ℤ amount_of s total) (eq_of k n e)
    | inr e ↦
        rw e at (change n) ∙ h n ∙ ap (λ z. amount_of n before +ℤ z) (amount_of-rest k n q total e)
  ]

  used_up :
      (q : r.Quantity)
      → (r.is_zero q || r.is_negative q) ≡ true
      → neg_part (x.amount q) ≡ 0
      → x.amount q ≡ pos 0
  used_up q h natural = ground (arith, x.is_zero_lem q, x.is_negative_lem q)

  forget_requests-restores :
      (before total requested : ResourceList r.Quantity)
      → IsMap total
      → ((n : String) → neg_part (amount_of n before) ≡ 0)
      → IsAggregate before total requested
      → (n : String) → amount_of n (forget_requests r total requested) ≡ amount_of n before
  unfolding forget_requests IsAggregate
  forget_requests-restores before [] requested m natural h n =
      h n
      ∙ ap (λ z. amount_of n before +ℤ z) (amount_of-absent n [] (no_key n))
      ∙ +ℤ-zero (amount_of n before)
  forget_requests-restores before ((k, q) ∷ total) requested m natural h n =
      let agg : r.Quantity = r.sub (lookup_or r.none_of k requested) q in
      let left : x.amount agg ≡ amount_of k before = one_less before total requested k q h in
      elim (Bool-cases (r.is_zero agg || r.is_negative agg)) [
        | inl e ↦ rw e (
            forget_requests-restores before total (delete k requested) m.1 natural
              (left_over before total requested k q (delete k requested) m.0 h (λ j.
                amount_of-delete k j requested
                ∙ ap (λ z. if k =ˢ j then z else amount_of j requested)
                    (sym (used_up agg e (ap neg_part left ∙ natural k)) ∙ left)))
              n)
        | inr e ↦ rw e (
            forget_requests-restores before total (insert k agg requested) m.1 natural
              (left_over before total requested k q (insert k agg requested) m.0 h (λ j.
                amount_of-insert k j agg requested
                ∙ ap (λ z. if k =ˢ j then z else amount_of j requested) left))
              n)
      ]

  start-IsAssumed : (before : ResourceList r.Quantity) → IsAssumed before [] before
  unfolding IsAggregate
  start-IsAssumed before = record {
    is_map = tt;
    aggregate = λ n.
        sym (+ℤ-zero (amount_of n before))
        ∙ ap (λ z. amount_of n before +ℤ z) (sym (amount_of-absent n [] (no_key n)));
  }

  none_assumed :
      (reqs : ResourceList r.Quantity) → All (λ e. has_key {V = r.Quantity} e.0 [] ≡ false) reqs
  none_assumed [] = tt
  none_assumed ((n, q) ∷ reqs) = (no_key n, none_assumed reqs)

  forget_in-assume_in :
      (key : String) (replicas : ℤ) (reqs : ResourceList r.Quantity) (info : ClusterInfo r.Quantity)
      → IsMap reqs
      → ((n : String) → neg_part (amount_of n info.requested_resources) ≡ 0)
      → (n : String)
      → amount_of n (forget_in r key (assume_in r key replicas reqs info)).requested_resources
        ≡ amount_of n info.requested_resources
  forget_in-assume_in key replicas reqs info m natural n =
      let a =
        assume_requests-IsAssumed replicas info.requested_resources reqs [] info.requested_resources
          m (none_assumed reqs) (start-IsAssumed info.requested_resources) in
      rw
        (
          lookup-insert key key
              (record {
                resources = (assume_requests r replicas reqs ([], info.requested_resources)).0;
                replicas = replicas;
              })
              info.assumed_applications,
          eq_refl key,
          forget_in,
        )
        (forget_requests-restores info.requested_resources _ _ a.is_map natural a.aggregate n)

  lookup-forget_application :
      (key name : String) (info : ClusterInfo r.Quantity) (c : ClusterCache r.Quantity)
      → lookup name c.clusters ≡ some info
      → lookup name (forget_application r key name c).0.clusters ≡ some (forget_in r key info)
  unfolding forget_application
  lookup-forget_application key name info c e =
      rw
        (
          e,
          forget_application,
          lookup-insert name name (forget_in r key info) c.clusters,
          eq_refl name,
        )
        refl

  -- How much of a resource the applications of a cluster request.
  abbrev pub requested_in : String → Option (ClusterInfo r.Quantity) → ℤ
  requested_in n none = pos 0
  requested_in n (some info) = amount_of n info.requested_resources

  module _ (app : Application) (key name : String) (replicas : ℤ) (c : ClusterCache r.Quantity)
      (info : ClusterInfo r.Quantity) (reqs : ResourceList r.Quantity)
      (known : lookup name c.clusters ≡ some info)
      (requests : calculate_pod_resources r app ≡ some reqs) (proper : IsMap reqs)
      (unassumed : has_key key info.assumed_applications ≡ false)
      (natural : (n : String) → neg_part (amount_of n info.requested_resources) ≡ 0) where
    lookup-assume_application :
        lookup name (assume_application r app key name replicas c).0.clusters
        ≡ some (assume_in r key replicas reqs info)
    unfolding assume_application
    lookup-assume_application =
        rw
          (
            known,
            requests,
            unassumed,
            assume_application,
            lookup-insert name name (assume_in r key replicas reqs info) c.clusters,
            eq_refl name,
          )
          refl

    -- Assuming an application on a cluster and forgetting it again leaves the amounts that the
    -- cluster's applications request as they were, where the cluster is known, the application has
    -- requests and is not assumed there, no amount is negative, and quantities are exact.
    pub forget-assume_application :
        (n : String)
        → requested_in n (
            lookup name
              (forget_application r key name
                (assume_application r app key name replicas c).0).0.clusters)
          ≡ requested_in n (lookup name c.clusters)
    forget-assume_application n =
        ap (requested_in n) (
          lookup-forget_application key name (assume_in r key replicas reqs info)
            (assume_application r app key name replicas c).0 lookup-assume_application)
        ∙ forget_in-assume_in key replicas reqs info proper natural n
        ∙ ap (requested_in n) (sym known)
