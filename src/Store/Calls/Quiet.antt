-- ===== src/Store/Calls/Quiet.antt =====
-- Every call but an append leaves the journal, and only adds to the lease events and the rejections.
use mathlib.Core.List.{append-nil}
use persistent_atp.Prelude.{
  ℕ, String, Option, none, some, List, [], ◌∷◌, ◌≡◌, refl, sym, subst, Bool, Bool-cases, inl, inr,
  any, ltb, str_eq, ◌&&◌,
}
use persistent_atp.Json.{Json}
use persistent_atp.Gate.Reasons.{Reason}
use persistent_atp.Store.{Store, LeaseRow, Lock, ok, is_superseded}
use persistent_atp.Store.Write.{write-cases, ok_parts, eq_of_ok, >>=-eq-ok, if-eq-ok}
use persistent_atp.Store.Head.{head}
use persistent_atp.Store.Leases.{
  acquire_lease, issue_lease, dispatch_lease, release_lease, active_leases, walk, grant, taken,
  Order, chosen_id, rivals, listed_rivals, others, acquire_body, issue_body, release_body,
  active_body, releasable, insert_lease, dispatched_row, acquired_row, revision_or_head,
}
use persistent_atp.Store.Rows.{expire_due_leases, next_lease_id, supersede, issued, upsert, has_key}
use persistent_atp.Store.Journal.{record_rejection, rejection_body}
use persistent_atp.Store.Calls.Grows.{
  Quiet, Quiet-refl, Quiet-trans, Quiet-events, expire-Quiet, next_lease_id-Quiet, supersede-Quiet,
  issued-Quiet,
}

pub acquire_lease-Quiet :
    (lock : Lock) (pid lid : String) (ttl due now : ℕ) (s : Store)
    → Quiet s (acquire_lease lock pid lid ttl due now s).1
unfolding acquire_lease
acquire_lease-Quiet lock pid lid ttl due now s =
    write-cases (Quiet s) lock (acquire_body pid lid ttl due now) s (Quiet-refl s) (λ a s' e.
      let listed : LeaseRow → Bool = (λ r. str_eq r.proof_id pid && is_superseded r.status) in
      let s₀ = expire_due_leases pid due s in
      let s₁ = supersede (others pid lid) listed s₀ in
      let row = acquired_row pid lid ttl now s₁ in
      subst (Quiet s) (ok_parts e).1 (
        Quiet-trans s s₁ _
          (Quiet-trans s s₀ s₁ (expire-Quiet pid due s)
            (supersede-Quiet (others pid lid) listed s₀))
          (issued-Quiet (upsert row s₁.leases) (issued row none none) s₁)))

pub chosen_id-Quiet :
    (pid : String) (lid : Option String) (s : Store) → Quiet s (chosen_id pid lid s).1
chosen_id-Quiet pid none s = next_lease_id-Quiet pid s
chosen_id-Quiet pid (some lid) s = Quiet-refl s

pub issue_lease-Quiet :
    (lock : Lock) (pid : String) (lid move : Option String) (base : Option ℕ) (o : Order)
    (score : Option Json) (due now : ℕ) (s : Store)
    → Quiet s (issue_lease lock pid lid move base o score due now s).1
unfolding issue_lease
issue_lease-Quiet lock pid lid move base o score due now s =
    elim (Bool-cases (ltb 0 o.ttl_seconds)) [
      | inr e ↦ rw e (Quiet-refl s)
      | inl e ↦ rw e (
          write-cases (Quiet s) lock (issue_body pid lid move base o score due now) s (Quiet-refl s)
            (λ a s' q.
              let s₀ = expire_due_leases pid due s in
              let c = chosen_id pid lid s₀ in
              let s₂ = supersede (rivals pid c.0 move) (listed_rivals pid c.0 move) c.1 in
              let row =
                dispatched_row pid c.0 move o (revision_or_head base pid s₂) now s₂.leases in
              subst (Quiet s) (ok_parts q).1 (
                Quiet-trans s s₀ _ (expire-Quiet pid due s) (
                  Quiet-trans s₀ c.1 _ (chosen_id-Quiet pid lid s₀) (
                    Quiet-trans c.1 s₂ _
                      (supersede-Quiet (rivals pid c.0 move) (listed_rivals pid c.0 move) c.1)
                      (issued-Quiet (upsert row s₂.leases) (issued row (some o.worker_class) score)
                        s₂))))))
    ]

pub grant-Quiet :
    (pid : String) (o : Order) (now : ℕ) (move : String) (score : Option Json) (s s' : Store)
    (a : Option LeaseRow)
    → grant pid o now move score s ≡ ok (a, s')
    → Quiet s s'
unfolding next_lease_id
grant-Quiet pid o now move score s s' a h =
    let (lid, s₁) = next_lease_id pid s in
    let row = dispatched_row pid lid (some move) o (head pid s₁).0 now s₁.leases in
    let (s₂, e, k) = >>=-eq-ok (insert_lease row s₁) _ h in
    let (_, i) = if-eq-ok (any (has_key row.proof_id row.lease_id) s₁.leases) _ _ e in
    let kept = Quiet-events s₁ _ [] refl (sym (append-nil s₁.lease_events)) refl in
    let made : Quiet s₁ s₂ = subst (Quiet s₁) (eq_of_ok i) kept in
    subst (Quiet s) (ok_parts k).1 (
      Quiet-trans s s₁ _ (next_lease_id-Quiet pid s) (
        Quiet-trans s₁ s₂ _ made
          (issued-Quiet s₂.leases (issued row (some o.worker_class) score) s₂)))

pub walk-Quiet :
    (pid : String) (o : Order) (now : ℕ) (moves : List (String × Option Json)) (s s' : Store)
    (a : Option LeaseRow)
    → walk pid o now moves s ≡ ok (a, s')
    → Quiet s s'
unfolding walk
walk-Quiet pid o now [] s s' a h = subst (Quiet s) (ok_parts h).1 (Quiet-refl s)
walk-Quiet pid o now ((move, score) ∷ moves) s s' a h =
    elim (Bool-cases (taken pid s.leases move)) [
      | inl e ↦ walk-Quiet pid o now moves s s' a (rw e at h)
      | inr e ↦ grant-Quiet pid o now move score s s' a (rw e at h)
    ]

pub dispatch_lease-Quiet :
    (lock : Lock) (pid : String) (moves : List (String × Option Json)) (o : Order) (due now : ℕ)
    (s : Store)
    → Quiet s (dispatch_lease lock pid moves o due now s).1
unfolding dispatch_lease
dispatch_lease-Quiet lock pid moves o due now s = elim (Bool-cases (ltb 0 o.ttl_seconds)) [
  | inr e ↦ rw e (Quiet-refl s)
  | inl e ↦ rw e (
      write-cases (Quiet s) lock (λ s'. walk pid o now moves (expire_due_leases pid due s')) s
        (Quiet-refl s)
        (λ a s' q.
          Quiet-trans s _ s' (expire-Quiet pid due s)
            (walk-Quiet pid o now moves (expire_due_leases pid due s) s' a q)))
]

pub release_lease-Quiet :
    (lock : Lock) (pid lid : String) (s : Store) → Quiet s (release_lease lock pid lid s).1
unfolding release_lease
release_lease-Quiet lock pid lid s =
    write-cases (Quiet s) lock (release_body pid lid) s (Quiet-refl s) released
  where
    released : (a : Bool) (s' : Store) → release_body pid lid s ≡ ok (a, s') → Quiet s s'
    released a s' e = elim (Bool-cases (any (releasable pid lid) s.leases)) [
      | inl t ↦ subst (Quiet s) (ok_parts (rw t at e)).1 (Quiet-events s _ _ refl refl refl)
      | inr t ↦ subst (Quiet s) (ok_parts (rw t at e)).1 (Quiet-refl s)
    ]

pub active_leases-Quiet :
    (lock : Lock) (pid : String) (now : ℕ) (s : Store) → Quiet s (active_leases lock pid now s).1
unfolding active_leases
active_leases-Quiet lock pid now s =
    write-cases (Quiet s) lock (active_body pid now) s (Quiet-refl s)
      (λ a s' e. subst (Quiet s) (ok_parts e).1 (expire-Quiet pid now s))

pub record_rejection-Quiet :
    (lock : Lock) (pid : String) (reason : Reason) (payload : Option Json) (s : Store)
    → Quiet s (record_rejection lock pid reason payload s).1
unfolding record_rejection
record_rejection-Quiet lock pid reason payload s =
    write-cases (Quiet s) lock (rejection_body pid reason payload) s (Quiet-refl s) (λ a s' e.
      subst (Quiet s) (ok_parts e).1 (record {
        journal = refl;
        events = ([], sym (append-nil s.lease_events));
        rejections = (_, refl);
      }))
