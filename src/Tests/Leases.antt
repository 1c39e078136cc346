-- ===== src/Tests/Leases.antt =====
-- A dispatch.
use persistent_atp.Prelude.{String, ◌≡◌, refl, Option, none, some, List, [], ◌∷◌, lookup}
use persistent_atp.Json.{Json}
use persistent_atp.Store.{Store, LeaseRow, empty_store, granted, ok, write}
use persistent_atp.Store.Head.{head}
use persistent_atp.Store.Leases.{dispatch_lease, walk, Order, dispatched_row}
use persistent_atp.Store.Rows.{expire_due_leases, next_lease_id}
use persistent_atp.Decimal.{decimal}
use persistent_atp.Store.Leases.Dispatch.{dispatch_lease-Grants, Grants}

abbrev moves : List (String × Option Json)
moves = ("p/m1", none) ∷ ("p/m2", none) ∷ []

abbrev order : Order
order = record { worker_class = "prover"; ttl_seconds = 5 }

abbrev row : LeaseRow
row = dispatched_row "p" "p/ls-1" (some "p/m1") order 0 3 []

abbrev dispatched : Store
dispatched = (dispatch_lease granted "p" moves order 3 3 empty_store).1

first_dispatch :
    dispatch_lease granted "p" moves order 3 3 empty_store ≡ (ok (some row), dispatched)
unfolding dispatch_lease expire_due_leases next_lease_id walk decimal write head lookup
first_dispatch = refl

dispatch_lease-Grants_example :
    Grants "p" order 3 moves (expire_due_leases "p" 3 empty_store) dispatched (some row)
dispatch_lease-Grants_example =
    dispatch_lease-Grants granted "p" moves order 3 3 empty_store dispatched (some row)
      first_dispatch
