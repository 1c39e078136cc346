-- ===== src/Store/Journal/Chain.antt =====
-- The hash chain: an append extends a chain that verifies to one that verifies.
use persistent_atp.Prelude.{
  ℕ, suc, String, ◌+◌, ◌≤◌, ◌≡◌, refl, arith, true, List, [], ◌∷◌, ◌++◌, str_eq, eq_iff, All,
  All-map, ap, ◌∙◌, length, last?, and_true, ◌==◌, ==_iff,
}
use persistent_atp.Json.{Json}
use persistent_atp.Store.{JournalRow}
use persistent_atp.Store.Head.{head_of, genesis_hash}
use persistent_atp.Store.Journal.{verify_from, verifies}

abbrev pub end_hash : String → List JournalRow → String
end_hash h [] = h
end_hash h (r ∷ rs) = end_hash r.event_hash rs

module _ (content_hash : Json → String) where
  -- What the loop of `verify_chain` checks of the row that it reads first.
  pub record Link (n : ℕ) (h : String) (r : JournalRow) (rs : List JournalRow) : Type 0 where
    pub revision : r.revision ≡ n
    pub prev : r.prev_hash ≡ h
    pub own : verifies content_hash r ≡ true
    pub rest : verify_from content_hash (suc n) r.event_hash rs ≡ true

  pub verify_from-Link :
      (n : ℕ) (h : String) (r : JournalRow) (rs : List JournalRow)
      → verify_from content_hash n h (r ∷ rs) ≡ true
      → Link n h r rs
  unfolding verify_from
  verify_from-Link n h r rs t =
      let (a, t₁) = and_true (r.revision == n) _ t in
      let (b, t₂) = and_true (str_eq r.prev_hash h) _ t₁ in
      let (c, d) = and_true (verifies content_hash r) _ t₂ in
      record {
        revision = (==_iff r.revision n).0 a;
        prev = (eq_iff r.prev_hash h).0 b;
        own = c;
        rest = d;
      }

  Link-verify_from :
      (n : ℕ) (h : String) (r : JournalRow) (rs : List JournalRow)
      → Link n h r rs
      → verify_from content_hash n h (r ∷ rs) ≡ true
  unfolding verify_from
  Link-verify_from n h r rs l =
      rw ((==_iff r.revision n).1 l.revision, (eq_iff r.prev_hash h).1 l.prev, l.own, l.rest)

  -- The revisions of a verified chain do not pass its length.
  pub verify_from-le :
      (n : ℕ) (h : String) (rs : List JournalRow)
      → verify_from content_hash (suc n) h rs ≡ true
      → All (λ q. q.revision ≤ n + length rs) rs
  verify_from-le n h [] t = tt
  verify_from-le n h (r ∷ rs) t =
      let l = verify_from-Link (suc n) h r rs t in
      (
        omega (arith, l.revision),
        All-map (λ q. q.revision ≤ suc n + length rs) (λ q. q.revision ≤ n + suc (length rs)) rs
            (λ q b. omega arith) (verify_from-le (suc n) r.event_hash rs l.rest),
      )

  pub verify_from-snoc :
      (n : ℕ) (h : String) (rs : List JournalRow) (z : JournalRow)
      → verify_from content_hash n h rs ≡ true
      → z.revision ≡ n + length rs
      → z.prev_hash ≡ end_hash h rs
      → verifies content_hash z ≡ true
      → verify_from content_hash n h (rs ++ z ∷ []) ≡ true
  verify_from-snoc n h [] z t a b c =
      Link-verify_from n h z [] (record {
        revision = omega (arith, a);
        prev = b;
        own = c;
        rest = unfold verify_from in refl;
      })
  verify_from-snoc n h (r ∷ rs) z t a b c =
      let l = verify_from-Link n h r rs t in
      Link-verify_from n h r (rs ++ z ∷ []) (record {
        revision = l.revision;
        prev = l.prev;
        own = l.own;
        rest = verify_from-snoc (suc n) r.event_hash rs z l.rest (omega (arith, a)) b c;
      })

  -- The head of a verified chain is its length and its last hash.
  pub head_of-last :
      (n : ℕ) (h : String) (r : JournalRow) (rs : List JournalRow)
      → verify_from content_hash (suc n) h (r ∷ rs) ≡ true
      → head_of (last? (r ∷ rs)) ≡ (n + length (r ∷ rs), end_hash h (r ∷ rs))
  head_of-last n h r [] t =
      let l = verify_from-Link (suc n) h r [] t in
      ap (λ k. (k, r.event_hash)) (omega (arith, l.revision))
  head_of-last n h r (q ∷ rs) t =
      let l = verify_from-Link (suc n) h r (q ∷ rs) t in
      head_of-last (suc n) r.event_hash q rs l.rest
      ∙ ap (λ k. (k, end_hash q.event_hash rs)) (omega arith)

  pub head_of-verified :
      (rs : List JournalRow)
      → verify_from content_hash 1 genesis_hash rs ≡ true
      → head_of (last? rs) ≡ (length rs, end_hash genesis_hash rs)
  head_of-verified [] t = refl
  head_of-verified (r ∷ rs) t =
      head_of-last 0 genesis_hash r rs t ∙ ap (λ k. (k, end_hash r.event_hash rs)) (omega arith)
