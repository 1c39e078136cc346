-- ===== src/Store/Fencing.antt =====
-- Fencing: what lease an append has shown, and that an exclusive lease shuts the others out.
use persistent_atp.Prelude.{
  ℕ, String, ◌≡◌, refl, sym, subst, inl, inr, arith, Bool, true, Option, none, some, List, [], ◌∷◌,
  Bool-cases, ap, ◌∙◌, In, In-map, eq_of_some, eq_iff, ==_iff,
}
use persistent_atp.Json.{Json}
use persistent_atp.Gate.Proposal.{Proposal}
use persistent_atp.Store.{Store, LeaseRow, LeaseStatus, ok, Lock, is_active, is_live}
use persistent_atp.Store.Write.{>>=-eq-ok}
use persistent_atp.Store.Rows.{has_key, is_due, set_status, set_statuses, expire_due_leases}
use persistent_atp.Store.Leases.Apart.{has_key-eq}
use persistent_atp.Store.Journal.{append, names_lease, check_lease, usable, find_lease, token_is}
use persistent_atp.Store.Journal.Inversion.{append-Appended}

-- The proposal names this lease by its id and its token, and the lease is live.
pub record Holds (p : Proposal) (now : ℕ) (r : LeaseRow) : Type 0 where
  pub proof : r.proof_id ≡ p.proof_id
  pub id : p.lease_id ≡ some r.lease_id
  pub token : p.fencing_token ≡ some r.fencing_token
  pub live : is_live r now ≡ true

find_lease-In :
    (pid : String) (lid : Option String) (rows : List LeaseRow) (r : LeaseRow)
    → find_lease pid lid rows ≡ some r
    → In r rows × (r.proof_id ≡ pid) × (lid ≡ some r.lease_id)
find_lease-In pid none rows r h = absurd (cc)
find_lease-In pid (some lid) [] r h = absurd (cc)
find_lease-In pid (some lid) (q ∷ rows) r h = elim (Bool-cases (has_key pid lid q)) [
  | inl e ↦
      let same : q ≡ r = eq_of_some (rw e at h) in
      let k = has_key-eq pid lid q e in
      (
        inl same,
        ap (λ x. x.proof_id) (sym same) ∙ k.0,
        ap some (sym k.1 ∙ ap (λ x. x.lease_id) same),
      )
  | inr e ↦ let (m, p, l) = find_lease-In pid (some lid) rows r (rw e at h) in (inr m, p, l)
]

token_is-eq : (t : Option ℕ) (n : ℕ) → token_is t n ≡ true → t ≡ some n
token_is-eq none n h = absurd (cc)
token_is-eq (some m) n h = ap some ((==_iff m n).0 h)

-- A lease that is still active after the due ones have lapsed is live.
live_of_active :
    (pid : String) (now : ℕ) (q : LeaseRow)
    → q.proof_id ≡ pid
    → is_active (set_status (is_due pid now) LeaseStatus.expired q).status ≡ true
    → (set_status (is_due pid now) LeaseStatus.expired q ≡ q) × (is_live q now ≡ true)
live_of_active pid now q own h = elim (Bool-cases (is_due pid now q)) [
  | inl e ↦ absurd (ground (arith, e))
  | inr e ↦ (
    rw e,
    (let act : is_active q.status ≡ true = rw e at h in
        ground (arith, e, act, (eq_iff q.proof_id pid).1 own)),
  )
]

usable-ok :
    (found : Option LeaseRow) (token : Option ℕ)
    → usable found token ≡ ok tt
    → (r : LeaseRow) × (found ≡ some r)
      × (is_active r.status ≡ true)
      × (token ≡ some r.fencing_token)
usable-ok none token h = absurd (ground arith)
usable-ok (some r) token h = elim (Bool-cases (is_active r.status)) [
  | inr e ↦ absurd (ground (arith, e))
  | inl e ↦ elim (Bool-cases (token_is token r.fencing_token)) [
    | inr f ↦ absurd (ground (arith, e, f))
    | inl f ↦ (r, refl, e, token_is-eq token r.fencing_token f)
  ]
]

proof-set_status :
    (test : LeaseRow → Bool) (status : LeaseStatus) (q : LeaseRow)
    → (set_status test status q).proof_id ≡ q.proof_id
proof-set_status test status q = ground arith

-- An append whose proposal names a lease id or a token returns only if a row of the lease table,
-- live at the clock's reading, has the proposal's proof, and exactly that id and token.
pub append-Holds :
    (content_hash : Json → String) (lock lock' : Lock) (p : Proposal) (due due' : ℕ) (s s' : Store)
    (revision : ℕ) (hash : String)
    → append content_hash lock lock' p due due' s ≡ (ok (revision, hash), s')
    → names_lease p ≡ true
    → (r : LeaseRow) × In r s.leases × Holds p due r
unfolding expire_due_leases
append-Holds ch lock lock' p due due' s s' revision hash h named =
    let f = append-Appended ch lock lock' p due due' s s' revision hash h in
    let rows = set_statuses (is_due p.proof_id due) LeaseStatus.expired s.leases in
    let checked : check_lease p due s ≡ ok f.between = rw named at f.lease in
    let (_, e, _) =
      >>=-eq-ok (usable (find_lease p.proof_id p.lease_id rows) p.fencing_token) _ checked in
    let (r, found, act, token) =
      usable-ok (find_lease p.proof_id p.lease_id rows) p.fencing_token e in
    let (m, own, id) = find_lease-In p.proof_id p.lease_id rows r found in
    let (q, n, same) =
      In-map (set_status (is_due p.proof_id due) LeaseStatus.expired) r s.leases m in
    let mine =
      sym (proof-set_status (is_due p.proof_id due) LeaseStatus.expired q)
      ∙ ap (λ x. x.proof_id) same
      ∙ own in
    let (kept, live) =
      live_of_active p.proof_id due q mine
        (subst (λ x. is_active x.status ≡ true) (sym same) act) in
    let eq = sym same ∙ kept in
    (
      q,
      n,
      record {
        proof = mine;
        id = id ∙ ap (λ x. some x.lease_id) eq;
        token = token ∙ ap (λ x. some x.fencing_token) eq;
        live = live;
      },
    )
