-- ===== src/Mathproof/Scheduler/LeaseNext/Progress.antt =====
-- When lease_next must hand out a lease.
use persistent_atp.Prelude.{
  ℕ, ◌<◌, String, true, false, ◌≡◌, refl, ap, ap₂, ◌∙◌, inl, inr, Option, none, some, is_some,
  is_some-some, List, [], ◌∷◌, map, ◌++◌, any, keep, lookup, ltb, arith, Bool-cases, In, All,
}
use persistent_atp.Json.{Json}
use persistent_atp.Store.{Store, LeaseRow, Result, ok, granted, write, conclude, ◌>>=◌}
use persistent_atp.Store.Head.{head}
use persistent_atp.Store.Rows.{held_by, has_key, expire_due_leases, next_lease_id, issued}
use persistent_atp.Store.Leases.{
  Order, taken, walk, grant, insert_lease, active_leases, dispatch_lease, dispatched_row,
}
use persistent_atp.Store.Leases.Dispatch.{dispatch_lease-Grants}
use persistent_atp.Mathproof.Scheduler.Numbers.{Float}
use persistent_atp.Mathproof.Scheduler.Statistics.{Outcomes}
use persistent_atp.Mathproof.Scheduler.Scoring.{
  Features, Candidate, SchedulerPolicy, features, neutral_defaults, snapshot_of, weighted, times,
  summed, priced, with_priority, given, entered, score, feature_vector,
}
use persistent_atp.Mathproof.Scheduler.Frontier.{build_frontier}
use persistent_atp.Mathproof.Scheduler.Ranking.{
  Scored, is_active_move, scored, score_one, add_scored, score_all, rank,
}
use persistent_atp.Mathproof.Scheduler.LeaseNext.{
  Lease, from_row, answers, encoded, handed, leased, dispatched, Setup, scheduled, lease_next,
}
use persistent_atp.Mathproof.Scheduler.LeaseNext.Outcome.{Grants-none, Grants-some, Granted-split}
use persistent_atp.Mathproof.Scheduler.LeaseNext.Choice.{Free, busy}

-- The policy weighs each of the names.
abbrev pub Weighs : {W : Type 0} → SchedulerPolicy W → List String → Type 0
Weighs policy names = All (λ name. is_some (lookup name policy.weights) ≡ true) names

module _ {W : Type 0} ⦃f : Float W⦄ where
  -- A snapshot over the names, in their order, and its weighted values.
  snapshot_of-weighted :
      (policy : SchedulerPolicy W) (fs : Features W) (names : List String)
      → All (λ name. is_some (lookup name (neutral_defaults {W = W})) ≡ true) names
      → Weighs policy names
      → (snapshot : Features W) × (snapshot_of fs names ≡ some snapshot)
        × ((products : List W) × (weighted policy.weights snapshot ≡ some products))
  snapshot_of-weighted policy fs [] n w = ([], refl, ([], refl))
  snapshot_of-weighted policy fs (name ∷ names) n w =
      let (x, e) = is_some-some (lookup name (neutral_defaults {W = W})) n.0 in
      let (k, q) = is_some-some (lookup name policy.weights) w.0 in
      let (rest, r, (products, t)) = snapshot_of-weighted policy fs names n.1 w.1 in
      let here = given x (lookup name fs) in
      (
        (name, here) ∷ rest,
        ap₂ (entered name (lookup name fs)) e r,
        (f.mul k here ∷ products, ap₂ (λ w ps. times w here ps) q t),
      )

  score_one-some :
      (d : Outcomes) (policy : SchedulerPolicy W) (worker_class : String) (c : Candidate W)
      → Weighs policy features
      → (x : Scored W) × (score_one d policy worker_class c ≡ some x)
  unfolding score_one score lookup
  score_one-some d policy worker_class c w =
      let fs = feature_vector d c worker_class in
      let (snapshot, e, (products, t)) =
        snapshot_of-weighted policy fs features
          (refl, (refl, (refl, (refl, (refl, (refl, (refl, (refl, (refl, (refl, tt)))))))))) w in
      (
        record { priority = f.sum products; move_id = c.move_id; snapshot = snapshot },
        ap (λ z. scored c (priced policy.weights z)) e
            ∙ ap (λ z. scored c (with_priority snapshot (summed z))) t,
      )

  score_all-some :
      (d : Outcomes) (policy : SchedulerPolicy W) (worker_class : String) (rows : List LeaseRow)
      (cs : List (Candidate W))
      → Weighs policy features
      → (xs : List (Scored W)) × (score_all d policy worker_class rows cs ≡ some xs)
  unfolding score_all
  score_all-some d policy worker_class rows [] w = ([], refl)
  score_all-some d policy worker_class rows (c ∷ cs) w =
      let (xs, e) = score_all-some d policy worker_class rows cs w in
      let (x, q) = score_one-some d policy worker_class c w in
      elim (Bool-cases (is_active_move rows c.move_id)) [
        | inl h ↦ (xs, rw (score_all, h) e)
        | inr h ↦ (x ∷ xs, rw (score_all, h) (ap₂ add_scored q e))
      ]

insert_lease-ok :
    (row : LeaseRow) (s : Store)
    → any (has_key row.proof_id row.lease_id) s.leases ≡ false
    → insert_lease row s ≡ ok (record s { leases = s.leases ++ row ∷ [] })
insert_lease-ok row s h = rw (insert_lease, h) refl

grant-ok :
    (pid : String) (o : Order) (now : ℕ) (move : String) (snapshot : Option Json) (s : Store)
    → any (has_key pid (next_lease_id pid s).0) s.leases ≡ false
    → (a : Option LeaseRow) × (s' : Store) × (grant pid o now move snapshot s ≡ ok (a, s'))
unfolding next_lease_id
grant-ok pid o now move snapshot s h =
    let (lid, t) = next_lease_id pid s in
    let row = dispatched_row pid lid (some move) o (head pid t).0 now t.leases in
    let last = record t { leases = t.leases ++ row ∷ [] } in
    (
      some row,
      record last {
        lease_events = last.lease_events ++ issued row (some o.worker_class) snapshot ∷ [];
      },
      ap
          (λ (r : Result Store). r >>= λ (z : Store). ok (
            some row,
            record z {
              lease_events = z.lease_events ++ issued row (some o.worker_class) snapshot ∷ [];
            },
          ))
          (insert_lease-ok row t h),
    )

-- A walk with a fresh lease id comes to an end.
walk-ok :
    (pid : String) (o : Order) (now : ℕ) (moves : List (String × Option Json)) (s : Store)
    → any (has_key pid (next_lease_id pid s).0) s.leases ≡ false
    → (a : Option LeaseRow) × (s' : Store) × (walk pid o now moves s ≡ ok (a, s'))
unfolding walk
walk-ok pid o now [] s h = (none, s, refl)
walk-ok pid o now ((move, snapshot) ∷ moves) s h = elim (Bool-cases (taken pid s.leases move)) [
  | inl e ↦ let (a, s', q) = walk-ok pid o now moves s h in (a, s', rw (walk, e) q)
  | inr e ↦ let (a, s', q) = grant-ok pid o now move snapshot s h in (a, s', rw (walk, e) q)
]

dispatch_lease-ok :
    (pid : String) (o : Order) (due now : ℕ) (moves : List (String × Option Json)) (s : Store)
    → 0 < o.ttl_seconds
    → any
        (has_key pid (next_lease_id pid (expire_due_leases pid due s)).0)
        (expire_due_leases pid due s).leases
      ≡ false
    → (a : Option LeaseRow) × (s' : Store) × (dispatch_lease granted pid moves o due now s
        ≡ (ok a, s'))
unfolding dispatch_lease write
dispatch_lease-ok pid o due now moves s ttl h =
    let (a, s', e) = walk-ok pid o now moves (expire_due_leases pid due s) h in
    let positive : ltb 0 o.ttl_seconds ≡ true = ground arith in
    (a, s', rw (dispatch_lease, positive) (ap (conclude granted s) e))

-- A dispatch that returns ends the call with a lease, if some candidate is free.
leased-lease :
    {W : Type 0} ⦃f : Float W⦄ (u : Setup W) (pid : String) (o : Order) (due now : ℕ) (t : Store)
    (cs : List (Candidate W)) (xs : List (Scored W)) (c : Candidate W)
    → score_all u.statistics u.policy o.worker_class (keep (held_by pid) t.leases) cs ≡ some xs
    → In c cs
    → Free pid t (expire_due_leases pid due t) c.move_id
    → (a : Option LeaseRow) (s' : Store)
    → dispatch_lease granted pid (map encoded (rank xs)) o due now t ≡ (ok a, s')
    → (lease : Lease W) × (leased u.policy.name (rank xs) (ok a, s') ≡ (answers (some lease), s'))
leased-lease u pid o due now t cs xs c q i free none s' r =
    let moves = map encoded (rank xs) in
    let (all, same) =
      Grants-none pid o now moves (expire_due_leases pid due t) s' none
        (dispatch_lease-Grants granted pid moves o due now t s' none r) refl in
    absurd (busy u.statistics u.policy o pid due cs t xs q all c i free)
leased-lease u pid o due now t cs xs c q i free (some row) s' r =
    let moves = map encoded (rank xs) in
    let (b, x, a, split, before, unheld, m, j, snap) =
      Granted-split pid (expire_due_leases pid due t) s' row (rank xs) (
        Grants-some pid o now moves (expire_due_leases pid due t) s' (some row) row
          (dispatch_lease-Grants granted pid moves o due now t s' (some row) r) refl) in
    (from_row row x.snapshot u.policy.name, ap (λ z. (handed u.policy.name row z, s')) snap)

-- Where the store's lock is granted, the time to live is positive, the policy has all ten weights and
-- the id to be minted is in no row, a call returns a lease as soon as some candidate of the frontier is
-- free: no active lease covers its move as the scheduler looks and as the store dispatches.
pub lease_next-leases :
    {W : Type 0} ⦃f : Float W⦄ (u : Setup W) (pid : String) (o : Order) (due₁ due₂ now : ℕ)
    (s : Store) (cs : List (Candidate W)) (c : Candidate W)
    → build_frontier u.view pid ≡ some cs
    → Weighs u.policy features
    → 0 < o.ttl_seconds
    → any
        (has_key pid
          (next_lease_id pid (expire_due_leases pid due₂ (expire_due_leases pid due₁ s))).0)
        (expire_due_leases pid due₂ (expire_due_leases pid due₁ s)).leases
      ≡ false
    → In c cs
    → Free pid
        (expire_due_leases pid due₁ s)
        (expire_due_leases pid due₂ (expire_due_leases pid due₁ s))
        c.move_id
    → (lease : Lease W) × (s' : Store) × (lease_next granted granted u pid o due₁ due₂ now s
        ≡ (answers (some lease), s'))
unfolding lease_next active_leases write
lease_next-leases u pid o due₁ due₂ now s cs c e weights ttl fresh i free =
    let t = expire_due_leases pid due₁ s in
    let rows = keep (held_by pid) t.leases in
    let (xs, q) = score_all-some u.statistics u.policy o.worker_class rows cs weights in
    let (a, s', r) = dispatch_lease-ok pid o due₂ now (map encoded (rank xs)) t ttl fresh in
    let (lease, k) = leased-lease u pid o due₂ now t cs xs c q i free a s' r in
    (
      lease,
      s',
      ap (scheduled granted u pid o due₂ now rows t) e
          ∙ ap (dispatched granted u.policy.name pid o due₂ now t) q
          ∙ ap (leased u.policy.name (rank xs)) r
          ∙ k,
    )
