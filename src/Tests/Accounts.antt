-- ===== src/Tests/Accounts.antt =====
-- A test of the accounting of requested resources.
use kumquat.Base.{
  String, ◌≡◌, refl, [], ◌∷◌, some, ℤ, pos, neg_part, lookup, lookup_or, insert, has_key, arith,
}
use kumquat.Api.{IsExact}
use kumquat.Cache.Indexer.{new_indexer}
use kumquat.Cache.Requests.{calculate_pod_resources}
use kumquat.Cache.Store.{ClusterCache, ClusterInfo, assume_application, forget_application}
use kumquat.Cache.Accounting.{amount_of, requested_in, forget-assume_application}
use kumquat.Tests.Samples.{whole_units, in_zone, stateful_app}

abbrev whole_units_exact : IsExact whole_units
whole_units_exact = record {
  amount = λ a. a;
  amount-none_of = refl;
  amount-add = λ a b. refl;
  amount-sub = λ a b. refl;
  is_zero_lem = λ a. refl;
  is_negative_lem = λ a. refl;
  less_lem = λ a b. refl;
}

abbrev busy : ClusterInfo ℤ
busy = record {
  cluster = in_zone "east" "a";
  requested_resources = ("cpu", pos 3) ∷ [];
  assumed_applications = [];
}

abbrev one_busy : ClusterCache ℤ
one_busy = record { clusters = ("east", busy) ∷ []; indexer = new_indexer }

db_requests :
    calculate_pod_resources whole_units (stateful_app 3 [])
    ≡ some (("cpu", pos 2) ∷ ("memory", pos 2) ∷ [])
unfolding calculate_pod_resources lookup insert
db_requests = refl

busy-natural :
    (n : String) → neg_part (amount_of whole_units whole_units_exact n busy.requested_resources) ≡ 0
unfolding amount_of lookup_or
busy-natural n = ground arith

forget-assume_application_example :
    requested_in whole_units whole_units_exact "cpu" (
      lookup "east"
        (forget_application whole_units "prod/db" "east"
          (assume_application whole_units
            (stateful_app 3 [])
            "prod/db"
            "east"
            (pos 3)
            one_busy).0).0.clusters)
    ≡ requested_in whole_units whole_units_exact "cpu" (lookup "east" one_busy.clusters)
unfolding lookup has_key
forget-assume_application_example =
    forget-assume_application whole_units whole_units_exact (stateful_app 3 []) "prod/db" "east"
      (pos 3) one_busy busy (("cpu", pos 2) ∷ ("memory", pos 2) ∷ []) refl db_requests
      (refl, (refl, tt)) refl busy-natural "cpu"
