-- ===== src/Tests/Ids.antt =====
-- Local ids and an allocator.
use persistent_atp.Prelude.{
  String, none, some, List, [], ◌∷◌, ◌≡◌, refl, ◌↔◌, All, Distinct, true, lookup, insert,
}
use persistent_atp.Decimal.{decimal, read_serial}
use persistent_atp.Decimal.RoundTrip.{Spells}
use persistent_atp.Gate.Validate.Local.{is_scoped}
use persistent_atp.Store.{empty_store}
use persistent_atp.Store.Rows.{next_lease_id, next_serial}
use persistent_atp.Mathproof.Ids.{
  Kind, typed, named, claim, lease, local_id, full_id, parse_local_id, next_id, IdAllocator,
}
use persistent_atp.Mathproof.Ids.Parse.{parse_local_id_iff}
use persistent_atp.Mathproof.Ids.Fresh.{issue, issue-Distinct}
use persistent_atp.Mathproof.Ids.Scope.{issue-is_scoped, next_lease_id-full_id}

forty_second : local_id (named "fs") 42 ≡ some "fs-42"
unfolding local_id decimal
forty_second = refl

no_zeroth : local_id (typed claim) 0 ≡ none
unfolding local_id
no_zeroth = refl

-- Leading zeros and full ids are refused, a line feed at the end is not.
canonical :
    (parse_local_id "fs-042" ≡ none)
    × (parse_local_id "p1/c-1" ≡ none)
    × (parse_local_id "c-1\n" ≡ some (claim, 1))
unfolding parse_local_id read_serial
canonical = (refl, refl, refl)

parse_local_id_iff_example :
    parse_local_id "c-1\n" ≡ some (claim, 1)
    ↔ ((text : String) × (local_id (typed claim) 1 ≡ some text) × Spells "c-1\n" text)
parse_local_id_iff_example = parse_local_id_iff "c-1\n" claim 1

abbrev kinds : List Kind
kinds = typed claim ∷ named "fs" ∷ named "c" ∷ named "nothing" ∷ typed claim ∷ []

abbrev allocator_at_two : IdAllocator
allocator_at_two = record { proof_id = "p1"; counters = ("fs", 2) ∷ [] }

issued_ids : issue kinds allocator_at_two ≡ "p1/c-1" ∷ "p1/fs-3" ∷ "p1/c-2" ∷ "p1/c-3" ∷ []
unfolding issue next_id lookup decimal insert
issued_ids = refl

issue-Distinct_example : Distinct (issue kinds allocator_at_two)
issue-Distinct_example = issue-Distinct kinds allocator_at_two

issue-is_scoped_example : All (λ id. is_scoped "p1" id ≡ true) (issue kinds allocator_at_two)
issue-is_scoped_example = issue-is_scoped kinds allocator_at_two

next_lease_id-full_id_example :
    full_id "p" (typed lease) (next_serial "p" empty_store) ≡ some (next_lease_id "p" empty_store).0
next_lease_id-full_id_example = next_lease_id-full_id "p" empty_store
