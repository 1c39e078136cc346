-- ===== src/Gate/State/Remove.antt =====
-- `list.remove` on a list of distinct names.
use persistent_atp.Prelude.{
  String, some, List, [], ◌∷◌, ◌≡◌, ◌≢◌, sym, subst, inl, inr, str_eq, eq_iff, In, Distinct,
  Bool-cases, none, Option-cases, eq_of_some, ap, ◌∙◌, arith, if◌then◌else◌,
}
use persistent_atp.Gate.State.{
  remove, remove_edge, remove_found, drop_edge, MemoryView, EdgeRecord, update,
}

-- What a removal gives: the list without the name, and nothing else lost.
pub record Removes (x : String) (xs : List String) (ys : List String) : Type 0 where
  pub gone : ¬ In x ys
  pub kept : (y : String) → y ≢ x → In y xs → In y ys
  pub from : (y : String) → In y ys → In y xs
  pub distinct : Distinct ys

Removes-head : (x : String) (xs : List String) → Distinct (x ∷ xs) → Removes x (x ∷ xs) xs
Removes-head x xs d = record {
  gone = d.0;
  kept = λ z ne. elim [ inl p ↦ absurd (ne (sym p)) | inr q ↦ q ];
  from = λ z h. inr h;
  distinct = d.1;
}

Removes-cons :
    (x y : String) (xs ys : List String)
    → y ≢ x
    → ¬ In y xs
    → Removes x xs ys
    → Removes x (y ∷ xs) (y ∷ ys)
Removes-cons x y xs ys ne fresh r = record {
  gone = elim [ inl p ↦ ne p | inr q ↦ r.gone q ];
  kept = λ z nz. elim [ inl p ↦ inl p | inr q ↦ inr (r.kept z nz q) ];
  from = λ z. elim [ inl p ↦ inl p | inr q ↦ inr (r.from z q) ];
  distinct = (λ h. fresh (r.from y h), r.distinct);
}

In-tail : (x y : String) (xs : List String) → y ≢ x → In x (y ∷ xs) → In x xs
In-tail x y xs ne (inl p) = absurd (ne p)
In-tail x y xs ne (inr q) = q

pub remove-Removes :
    (x : String) (xs : List String)
    → In x xs
    → Distinct xs
    → (ys : List String) × (remove x xs ≡ some ys) × Removes x xs ys
unfolding remove
remove-Removes x [] m d = elim m [ ]
remove-Removes x (y ∷ xs) m d = elim (Bool-cases (str_eq y x)) [
  | inl e ↦ (xs, rw e, subst (λ z. Removes z (y ∷ xs) xs) ((eq_iff y x).0 e) (Removes-head y xs d))
  | inr e ↦
      let ne : y ≢ x = (λ p. cc ((eq_iff y x).1 p)) in
      let (ys, p, r) = remove-Removes x xs (In-tail x y xs ne m) d.1 in
      (y ∷ ys, rw (e, p), Removes-cons x y xs ys ne d.0 r)
]

drop_edge-edges :
    (r : EdgeRecord) (e : String) (m m' : MemoryView)
    → drop_edge r e m ≡ some m'
    → (m'.nodes ≡ m.nodes) × (m'.edges ≡ update m.edges e none)
unfolding remove
drop_edge-edges r e m m' h = elim (Option-cases (remove e (m.out r.src_id r.rel_type))) [
  | inl q ↦ absurd (ground (arith, q))
  | inr (o, q) ↦ elim (Option-cases (remove e (m.into r.dst_id r.rel_type))) [
    | inl q' ↦ absurd (ground (arith, q, q'))
    | inr (i, q') ↦
        let same = eq_of_some (rw (drop_edge, q, q') at h) in
        (sym (ap (λ (x : MemoryView). x.nodes) same), sym (ap (λ (x : MemoryView). x.edges) same))
  ]
]

-- Removing an edge leaves the nodes, and every other edge.
pub remove_edge-edges :
    (e : String) (m m' : MemoryView)
    → remove_edge e m ≡ some m'
    → (m'.nodes ≡ m.nodes) × ((x : String) → m'.edges x ≡ (if str_eq e x then none else m.edges x))
unfolding remove_edge
remove_edge-edges e m m' h = elim (Option-cases (m.edges e)) [
  | inl q ↦
      let same : m ≡ m' = eq_of_some (rw (remove_found, q) at h) in
      (
        sym (ap (λ (x : MemoryView). x.nodes) same),
        λ x. ap (λ (y : MemoryView). y.edges x) (sym same) ∙ ground (arith, q, eq_iff e x),
      )
  | inr (r, q) ↦
      let (nodes, edges) = drop_edge-edges r e m m' (rw (remove_found, q) at h) in
      (nodes, λ x. ap (λ f. f x) edges)
]
