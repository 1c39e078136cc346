-- ===== src/Store/Journal/Tamper.antt =====
-- Tamper evidence: the head hash of a verified chain fixes its payloads, up to a collision of SHA-256.
-- `canonical_json` and `sha256`, of which commit_gate/canon.py composes `content_hash`, are parameters.
use persistent_atp.Prelude.{
  ℕ, suc, String, ◌≡◌, ◌≢◌, refl, sym, ◌⊎◌, inl, inr, arith, true, List, [], ◌∷◌, eq_iff, ap, ap₂,
  ◌∙◌, length, map, In,
}
use persistent_atp.Json.{Json, obj, member, end}
use persistent_atp.Gate.Ops.{text}
use persistent_atp.Store.{JournalRow, Store, ok}
use persistent_atp.Store.Head.{rows_of, genesis_hash, head}
use persistent_atp.Store.Journal.{verify_from, verify_chain, chain_hash, read_events}
use persistent_atp.Store.Journal.Chain.{verify_from-Link, end_hash, head_of-verified}
use persistent_atp.Store.Journal.Append.{verify_chain-ok}

-- What `chain_hash` hashes.
abbrev pub envelope : String → Json → Json
envelope prev body = obj (member "prev" (text prev) (member "body" body end))

module _ {Bytes : Type 0} (canonical_json : Json → Bytes) where
  -- The text of an object fixes its members: the previous hash, and the text of the body.
  abbrev pub IsReadable : Type 0
  IsReadable =
      (h k : String) (x y : Json)
      → canonical_json (envelope h x) ≡ canonical_json (envelope k y)
      → (h ≡ k) × (canonical_json x ≡ canonical_json y)

  abbrev pub text_of : JournalRow → Bytes
  text_of r = canonical_json (envelope r.prev_hash r.payload)

  -- The texts of a proof's events, in order.
  abbrev pub event_texts : String → Store → List Bytes
  event_texts pid s = map canonical_json (read_events pid s)

  -- Two rows of one revision, one in each list, whose hashed texts differ and have one SHA-256.
  pub record Collision (sha256 : Bytes → String) (rs qs : List JournalRow) : Type 0 where
    pub one : JournalRow
    pub other : JournalRow
    pub in_one : In one rs
    pub in_other : In other qs
    pub same_revision : one.revision ≡ other.revision
    pub distinct : text_of one ≢ text_of other
    pub same : sha256 (text_of one) ≡ sha256 (text_of other)

module _ {Bytes : Type 0} (decide : Discrete Bytes) (canonical_json : Json → Bytes)
    (sha256 : Bytes → String) (reads : IsReadable canonical_json) where
  abbrev content_hash : Json → String
  content_hash j = sha256 (canonical_json j)

  abbrev texts : List JournalRow → List Bytes
  texts rs = map canonical_json (map (λ (r : JournalRow). r.payload) rs)

  wider :
      (r q : JournalRow) (rs qs : List JournalRow)
      → Collision canonical_json sha256 rs qs
      → Collision canonical_json sha256 (r ∷ rs) (q ∷ qs)
  wider r q rs qs c = record {
    one = c.one;
    other = c.other;
    in_one = inr c.in_one;
    in_other = inr c.in_other;
    same_revision = c.same_revision;
    distinct = c.distinct;
    same = c.same;
  }

  -- Two rows of one revision and one hash.
  rows_agree :
      (r q : JournalRow) (rs qs : List JournalRow)
      → r.revision ≡ q.revision
      → sha256 (text_of canonical_json r) ≡ sha256 (text_of canonical_json q)
      → ((r.prev_hash ≡ q.prev_hash) × (canonical_json r.payload ≡ canonical_json q.payload))
        ⊎ Collision canonical_json sha256 (r ∷ rs) (q ∷ qs)
  rows_agree r q rs qs n e = elim (decide (text_of canonical_json r) (text_of canonical_json q)) [
    | yes p ↦ inl (reads r.prev_hash q.prev_hash r.payload q.payload p)
    | no ne ↦ inr (record {
      one = r;
      other = q;
      in_one = inl refl;
      in_other = inl refl;
      same_revision = n;
      distinct = ne;
      same = e;
    })
  ]

  agree :
      (n : ℕ) (h k : String) (rs qs : List JournalRow)
      → verify_from content_hash n h rs ≡ true
      → verify_from content_hash n k qs ≡ true
      → length rs ≡ length qs
      → end_hash h rs ≡ end_hash k qs
      → ((h ≡ k) × (texts rs ≡ texts qs)) ⊎ Collision canonical_json sha256 rs qs
  agree n h k [] [] t u l e = inl (e, refl)
  agree n h k [] (q ∷ qs) t u l e = absurd (omega (arith, l))
  agree n h k (r ∷ rs) [] t u l e = absurd (omega (arith, l))
  agree n h k (r ∷ rs) (q ∷ qs) t u l e =
      let a = verify_from-Link content_hash n h r rs t in
      let b = verify_from-Link content_hash n k q qs u in
      elim (agree (suc n) r.event_hash q.event_hash rs qs a.rest b.rest (omega (arith, l)) e) [
        | inr c ↦ inr (wider r q rs qs c)
        | inl (same, rest) ↦
            elim (rows_agree r q rs qs (a.revision ∙ sym b.revision) (
              (eq_iff (chain_hash content_hash r.prev_hash r.payload) r.event_hash).0 a.own
              ∙ same
              ∙ sym (
                  (eq_iff (chain_hash content_hash q.prev_hash q.payload) q.event_hash).0 b.own))) [
                    | inr c ↦ inr c
                    | inl (p, x) ↦ inl (sym a.prev ∙ p ∙ b.prev, ap₂ (◌∷◌) x rest)
                  ]
      ]

-- Two stores in which a proof's chain verifies and that agree on its head hold the same canonical
-- texts of its events, in the same order, unless two events of one revision, one in each chain, have
-- different hashed texts with one SHA-256. Of the canonical text it is assumed that the text of an
-- object of a previous hash and a body fixes that hash and the text of the body.
pub head_fixes_events :
    {Bytes : Type 0} (decide : Discrete Bytes) (canonical_json : Json → Bytes)
    (sha256 : Bytes → String) (pid : String) (s t : Store) (n m : ℕ)
    → IsReadable canonical_json
    → verify_chain (λ j. sha256 (canonical_json j)) pid s ≡ ok n
    → verify_chain (λ j. sha256 (canonical_json j)) pid t ≡ ok m
    → head pid s ≡ head pid t
    → (event_texts canonical_json pid s ≡ event_texts canonical_json pid t)
      ⊎ Collision canonical_json sha256 (rows_of pid s.journal) (rows_of pid t.journal)
unfolding read_events head
head_fixes_events decide cj sha pid s t n m reads a b e =
    let ch : Json → String = λ j. sha (cj j) in
    let rs = rows_of pid s.journal in
    let qs = rows_of pid t.journal in
    let (v, _) = verify_chain-ok ch pid s n a in
    let (w, _) = verify_chain-ok ch pid t m b in
    let both = sym (head_of-verified ch rs v) ∙ e ∙ head_of-verified ch qs w in
    elim (agree decide cj sha reads 1 genesis_hash genesis_hash rs qs v w (ap (λ k. k.0) both)
      (ap (λ k. k.1) both)) [ inl (_, same) ↦ inl same | inr c ↦ inr c ]
