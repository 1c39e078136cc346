-- ===== src/Tests/Journal.antt =====
-- The journal, and histories of the store.
use Prim.Native.String
use persistent_atp.Prelude.{ℕ, ◌<◌, ◌+◌, String, ◌≡◌, ◌≢◌, refl, some, [], ◌⊎◌, In}
use persistent_atp.Json.{Json}
use persistent_atp.Json.Equality.{Json-discrete}
use persistent_atp.Gate.Ops.{op_to_dict, ops_to_dicts}
use persistent_atp.Gate.Proposal.{Proposal, to_dict}
use persistent_atp.Store.{Store, empty_store, granted, ok, write}
use persistent_atp.Store.Head.{head, genesis_hash, rows_of}
use persistent_atp.Store.Leases.{acquire_lease}
use persistent_atp.Store.Rows.{expire_due_leases, upsert}
use persistent_atp.Store.Leases.Exclusive.{IsExclusive}
use persistent_atp.Store.Journal.{append, append_body, after_append, verify_chain, verify_from}
use persistent_atp.Store.Journal.Append.{append-verify_chain, Extended}
use persistent_atp.Store.Journal.Tamper.{head_fixes_events, Collision, IsReadable, event_texts}
use persistent_atp.Store.Fencing.{append-Holds, Holds}
use persistent_atp.Store.Shutout.{acquire_fences}
use persistent_atp.Store.Calls.{run}
use persistent_atp.Store.Calls.Chained.{run-IsChained, IsChained, empty-IsChained}
use persistent_atp.Store.Calls.Grows.{Extends}
use persistent_atp.Store.Calls.AppendOnly.{run-Extends}
use persistent_atp.Store.Calls.Exclusive.{run-IsExclusive}
use persistent_atp.Store.Calls.Fresh.{acquired_tokens_rise}
use persistent_atp.Tests.{toy_hash, first_claim, new_claim, history}

abbrev appended : Store
appended = (append toy_hash granted granted first_claim 0 0 empty_store).1

empty-verify_chain : verify_chain toy_hash "p" empty_store ≡ ok 0
unfolding verify_chain verify_from
empty-verify_chain = refl

first_append :
    append toy_hash granted granted first_claim 0 0 empty_store
    ≡ (ok (1, String.◌++◌ genesis_hash "x"), appended)
unfolding append append_body after_append write
first_append = refl

append-verify_chain_example :
    ((base : ℕ) → first_claim.base_revision ≡ some base → base ≡ 0)
    × (1 ≡ 0 + 1)
    × Extended first_claim 1 (String.◌++◌ genesis_hash "x") empty_store appended
    × (head "p" appended ≡ (1, String.◌++◌ genesis_hash "x"))
    × (verify_chain toy_hash "p" appended ≡ ok (0 + 1))
    × ((pid : String)
        → pid ≢ "p"
        → verify_chain toy_hash pid appended ≡ verify_chain toy_hash pid empty_store)
append-verify_chain_example =
    append-verify_chain toy_hash granted granted first_claim 0 0 empty_store appended 0 1
      (String.◌++◌ genesis_hash "x") empty-verify_chain first_append

run-IsChained_example : IsChained toy_hash (run toy_hash empty_store history)
run-IsChained_example = run-IsChained toy_hash history empty_store (empty-IsChained toy_hash)

run-Extends_example : Extends empty_store (run toy_hash empty_store history)
run-Extends_example = run-Extends toy_hash history empty_store

run-IsExclusive_example : IsExclusive (run toy_hash empty_store history)
run-IsExclusive_example = run-IsExclusive toy_hash history empty_store tt

appended-verify_chain : verify_chain toy_hash "p" appended ≡ ok 1
unfolding verify_chain verify_from append append_body after_append write to_dict ops_to_dicts
    op_to_dict
appended-verify_chain = refl

-- A tree as its own text.
tree : Json → Json
tree j = j

tree-IsReadable : IsReadable tree
unfolding tree
tree-IsReadable h k x y e = (cc, cc)

head_fixes_events_example :
    (event_texts tree "p" appended ≡ event_texts tree "p" appended)
    ⊎ Collision tree toy_hash (rows_of "p" appended.journal) (rows_of "p" appended.journal)
unfolding tree
head_fixes_events_example =
    head_fixes_events Json-discrete tree toy_hash "p" appended appended 1 1 tree-IsReadable
      appended-verify_chain appended-verify_chain refl

abbrev leased_store : Store
leased_store = (acquire_lease granted "p" "l1" 60 0 0 empty_store).1

first_lease : acquire_lease granted "p" "l1" 60 0 0 empty_store ≡ (ok 1, leased_store)
unfolding acquire_lease expire_due_leases upsert write head
first_lease = refl

abbrev held_claim : Proposal
held_claim = new_claim "p/c1" 0 (some "l1") (some 1)

abbrev held_store : Store
held_store = (append toy_hash granted granted held_claim 1 1 leased_store).1

held_append :
    append toy_hash granted granted held_claim 1 1 leased_store
    ≡ (ok (1, String.◌++◌ genesis_hash "x"), held_store)
unfolding append append_body after_append write acquire_lease expire_due_leases upsert head
held_append = refl

append-Holds_example : (r : _) × In r leased_store.leases × Holds held_claim 1 r
append-Holds_example =
    append-Holds toy_hash granted granted held_claim 1 1 leased_store held_store 1
      (String.◌++◌ genesis_hash "x") held_append refl

acquire_fences_example : (held_claim.lease_id ≡ some "l1") × (held_claim.fencing_token ≡ some 1)
acquire_fences_example =
    acquire_fences toy_hash granted granted granted "l1" 60 0 0 1 1 empty_store leased_store
      held_store 1 held_claim 1 (String.◌++◌ genesis_hash "x") tt first_lease held_append refl

abbrev twice_leased : Store
twice_leased = (acquire_lease granted "p" "l2" 60 2 2 leased_store).1

second_lease :
    acquire_lease granted "p" "l2" 60 2 2 (run toy_hash leased_store []) ≡ (ok 2, twice_leased)
unfolding acquire_lease expire_due_leases upsert write head run
second_lease = refl

acquired_tokens_rise_example : 1 < 2
acquired_tokens_rise_example =
    acquired_tokens_rise toy_hash granted granted "p" "l1" "l2" 60 60 0 0 2 2 empty_store
      leased_store twice_leased [] 1 2 first_lease second_lease
