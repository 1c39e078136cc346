-- ===== src/Tests/Histories.antt =====
-- A history of the gate: a commit, and then a lease.
use persistent_atp.Prelude.{refl, All}
use persistent_atp.Store.{Store, empty_store, granted}
use persistent_atp.Store.Calls.{acquires, step}
use persistent_atp.Store.Calls.Chained.{IsChained}
use persistent_atp.Commit.{commit}
use persistent_atp.Commit.History.{Reaches, here, later, submits, works, IsVetted, reached-IsVetted}
use persistent_atp.Tests.{toy_hash, first_claim, nothing_committed}

abbrev after_commit : Store
after_commit =
    (commit toy_hash (λ _. granted) granted granted first_claim nothing_committed 0 0 empty_store).1

abbrev after_lease : Store
after_lease = step toy_hash after_commit (acquires granted "p" "l1" 60 1 1)

reaches : Reaches toy_hash empty_store after_lease
reaches =
    later
      (later here (submits (λ _. granted) granted granted first_claim nothing_committed 0 0 refl))
      (works (acquires granted "p" "l1" 60 1 1) refl refl)

reached-IsVetted_example : All IsVetted after_lease.journal × IsChained toy_hash after_lease
reached-IsVetted_example = reached-IsVetted toy_hash after_lease reaches
