-- ===== src/Gate/State/Queries.antt =====
-- The answers of `MemoryView` about a node's edges.
use persistent_atp.Prelude.{
  String, Option, some, List, [], ◌∷◌, ◌≡◌, refl, sym, ap, subst, ◌∙◌, ◌↔◌, In, inl, inr,
  eq_of_some,
}
use persistent_atp.Gate.State.{MemoryView, EdgeRecord, records, edges_from, edges_to}
use persistent_atp.Gate.State.Index.{Indexes, IsIndexed}

-- Listed edges that are all known are read, and are what is read.
records-total :
    (edges : String → Option EdgeRecord) (es : List String)
    → ((e : String) → In e es → (r : EdgeRecord) × (edges e ≡ some r))
    → (rs : List EdgeRecord) × (records edges es ≡ some rs)
      × ((r : EdgeRecord) → In r rs ↔ ((e : String) × In e es × (edges e ≡ some r)))
unfolding records
records-total edges [] known = ([], refl, λ r. (λ m. absurd m, λ (e, m, q). absurd m))
records-total edges (e ∷ es) known =
    let (r, there) = known e (inl refl) in
    let (rs, read, same) = records-total edges es (λ e' m. known e' (inr m)) in
    (
      r ∷ rs,
      rw (there, read),
      λ r'. (
        λ m. elim m [
          | inl q ↦ (e, inl refl, there ∙ ap some q)
          | inr n ↦ let (e', n', q) = (same r').0 n in (e', inr n', q)
        ],
        λ (e', m, q). elim m [
          | inl p ↦ inl (eq_of_some (sym there ∙ ap edges p ∙ q))
          | inr n ↦ inr ((same r').1 (e', n, q))
        ],
      ),
    )

-- What the index lists at a node and type is read without fault, and is that end's edges of the type.
answers :
    (key : EdgeRecord → String) (edges : String → Option EdgeRecord)
    (index : String → String → List String) (n rel : String)
    → Indexes key edges index
    → (rs : List EdgeRecord) × (records edges (index n rel) ≡ some rs)
      × ((r : EdgeRecord)
          → In r rs ↔ ((e : String) × (edges e ≡ some r) × (key r ≡ n) × (r.rel_type ≡ rel)))
answers key edges index n rel ix =
    let (rs, read, same) =
      records-total edges (index n rel) (λ e m. let (r, q, _, _) = ix.sound n rel e m in (r, q)) in
    (
      rs,
      read,
      λ r. (
        λ m.
            let (e, listed, q) = (same r).0 m in
            let (r', q', at, of_type) = ix.sound n rel e listed in
            let one : r' ≡ r = eq_of_some (sym q' ∙ q) in
            (e, q, ap key (sym one) ∙ at, ap (λ x. x.rel_type) (sym one) ∙ of_type),
        λ (e, q, at, of_type). (same r).1 (
          e,
          subst (λ k. In e (index k rel)) at
              (subst (λ k. In e (index (key r) k)) of_type (ix.complete e r q)),
          q,
        ),
      ),
    )

-- A view with true indexes answers both questions about a node's edges of a type without fault:
-- with the edges of that type that leave the node, and those that enter it, and no others.
pub edges_from-edges_to :
    (m : MemoryView) (n rel : String)
    → IsIndexed m
    → ((rs : List EdgeRecord) × (edges_from m n rel ≡ some rs)
        × ((r : EdgeRecord)
            → In r rs
              ↔ ((e : String) × (m.edges e ≡ some r) × (r.src_id ≡ n) × (r.rel_type ≡ rel))))
      × ((rs : List EdgeRecord) × (edges_to m n rel ≡ some rs)
          × ((r : EdgeRecord)
              → In r rs
                ↔ ((e : String) × (m.edges e ≡ some r) × (r.dst_id ≡ n) × (r.rel_type ≡ rel))))
unfolding edges_from edges_to
edges_from-edges_to m n rel ix = (
  answers (λ r. r.src_id) m.edges m.out n rel ix.out,
  answers (λ r. r.dst_id) m.edges m.into n rel ix.into,
)
