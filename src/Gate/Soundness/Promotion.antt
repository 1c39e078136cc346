-- ===== src/Gate/Soundness/Promotion.antt =====
-- commit_gate/validate.py: what the soundness gates ask of a claim that becomes lean-verified.
use persistent_atp.Prelude.{String, List, ◌≡◌, true, false, In, eq_iff, ap}
use persistent_atp.Json.{Value, str, bool, null, num, is_text, is_null, value_eq}
use persistent_atp.Gate.Ops.{Op}
use persistent_atp.Gate.Proposal.{Proposal}
use persistent_atp.Gate.State.{ReadView}
use persistent_atp.Gate.Validate.Evidence.{field_at, edge_targets, edge_sources}

pub is_text-eq : (t : String) (v : Value) → is_text t v ≡ true → v ≡ str t
is_text-eq t null h = absurd (cc)
is_text-eq t (bool b) h = absurd (cc)
is_text-eq t (num z k) h = absurd (cc)
is_text-eq t (str s) h = ap str ((eq_iff s t).0 h)

-- A certificate of the claim, and a verified replay of it that is free of `sorry`; both name an actor,
-- and not the same.
pub record IndependentlyReplayed (claim : String) (ops : List Op) (view : ReadView) : Type 0 where
  pub certificate : String
  pub replay : String
  pub proves : In certificate (edge_targets claim "PROVED_BY" ops view)
  pub replays : In replay (edge_targets certificate "REPLAYED_BY" ops view)
  pub verified : field_at replay "status" ops view ≡ str "verified"
  pub sorry_free : field_at replay "sorry_detected" ops view ≡ bool false
  pub replayed_by : is_null (field_at replay "actor" ops view) ≡ false
  pub named : is_null (field_at certificate "actor" ops view) ≡ false
  pub independent :
      value_eq (field_at replay "actor" ops view) (field_at certificate "actor" ops view) ≡ false

-- An alignment of the claim that was reviewed and found it aligned.
pub record Aligned (claim : String) (ops : List Op) (view : ReadView) : Type 0 where
  pub alignment : String
  pub aligns : In alignment (edge_sources claim "ALIGNS_CLAIM" ops view)
  pub reviewed : field_at alignment "lifecycle" ops view ≡ str "reviewed"
  pub verdict : field_at alignment "verdict" ops view ≡ str "aligned"
