-- ===== src/Tests/Dispatch.antt =====
-- Ids for results.
use persistent_atp.Prelude.{
  String, Option, none, some, List, [], ◌∷◌, ◌≡◌, ◌≢◌, refl, In, inl, str_eq, eq_iff, true,
}
use persistent_atp.Json.{str}
use persistent_atp.Decimal.{decimal, read_serial}
use persistent_atp.Gate.Ops.{Op, upsert_node, add_edge, set_field}
use persistent_atp.Mathproof.Dispatch.{
  CriticResult, next_serial, minted_id, critic_result_to_ops, research_result_to_ops,
}
use persistent_atp.Gate.State.{MemoryView, NodeRecord, ReadView, empty_view, update}
use persistent_atp.Gate.State
use persistent_atp.Gate.Apply.{apply_ops, apply_op}
use persistent_atp.Mathproof.Scheduler.Frontier.Eligible.{Eligible}
use persistent_atp.Mathproof.Dispatch.Reviewed.{critic_result_to_ops-Eligible}
use persistent_atp.Mathproof.Dispatch.Fresh.{next_serial-minted_id}

abbrev ids : List String
ids = "p/at-2" ∷ "p/c-7" ∷ "q/at-10" ∷ "p/at-03" ∷ []

-- The serials of all proofs count.
eleventh : minted_id "p" "at" (next_serial "at" ids) ≡ "p/at-11"
unfolding minted_id next_serial decimal read_serial
eleventh = refl

-- Below a proof id with a slash no serial counts, and the first id is minted again.
first_again : minted_id "a/p" "at" (next_serial "at" ("a/p/at-1" ∷ [])) ≡ "a/p/at-1"
unfolding minted_id next_serial decimal
first_again = refl

other_id : ◌≢◌ {A = String} "p/at-11" "p/c-7"
other_id e =
    let same : str_eq "p/at-11" "p/c-7" ≡ true = (eq_iff "p/at-11" "p/c-7").1 e in absurd (cc)

next_serial-minted_id_example : ¬ In (minted_id "p" "at" (next_serial "at" ids)) ids
next_serial-minted_id_example = next_serial-minted_id "p" "at" ids refl (λ e. absurd (cc))

abbrev claim : NodeRecord
claim = record { node_id = "p/c-7"; label = "Claim"; fields = ("status", str "provisional") ∷ [] }

abbrev before : MemoryView
before = record empty_view { nodes = update empty_view.nodes "p/c-7" (some claim) }

abbrev favorable : CriticResult
favorable = record { verdict = some "supported"; actor = none; review_edge_id = none }

abbrev favorable_ops : List Op
favorable_ops =
    upsert_node "Attempt" "p/at-11"
      (("actor", str "critic") ∷ ("worker_class", str "critic") ∷ ("status", str "supported") ∷ [])
    ∷ add_edge "REVIEWS_CLAIM" "p/at-11" "p/c-7" "p/at-11-reviews" []
    ∷ set_field "Claim" "p/c-7" "status" (str "critic-accepted") (some (str "provisional"))
    ∷ []

abbrev view_of : Option MemoryView → MemoryView
view_of none = empty_view
view_of (some m) = m

abbrev after : MemoryView
after = view_of (apply_ops before favorable_ops)

abbrev shown : ReadView
shown = record {
  node = after.nodes;
  edge = after.edges;
  edges_from = λ n rel. [];
  edges_to = λ n rel. [];
}

critic_result_to_ops-Eligible_example : ¬ Eligible shown "p" ("p/c-7" ∷ []) "p/c-7"
unfolding critic_result_to_ops apply_ops apply_op State.add_node State.add_edge State.set_field
critic_result_to_ops-Eligible_example =
    critic_result_to_ops-Eligible favorable "p/c-7" "p/at-11" "supported" favorable_ops before after
      claim shown "p" ("p/c-7" ∷ []) refl (inl refl) refl other_id refl refl refl refl

proposed :
    research_result_to_ops
      (record { parent_state_id = some "p/rs-1"; move_id = none; detail = str "" })
      "p"
      ids
    ≡ some (
        upsert_node "ResearchMove" "p/rm-1" (("status", str "queued") ∷ ("detail", str "") ∷ [])
        ∷ add_edge "PROPOSES" "p/rs-1" "p/rm-1" "p/rm-1-proposed" []
        ∷ [])
unfolding research_result_to_ops next_serial minted_id decimal
proposed = refl
