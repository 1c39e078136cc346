-- ===== src/Gate/State/Index.antt =====
-- The indexes of `MemoryView` against its edges.
use persistent_atp.Prelude.{
  String, Option, none, some, List, [], ◌∷◌, ◌++◌, ◌≡◌, ◌≢◌, eq_of_some, ap, ◌∙◌, sym, subst, inl,
  inr, ◌&&◌, str_eq, eq_iff, eq_refl, In, Distinct, arith, Bool-cases, true, In-append,
  In-append_left, In-append_right, Distinct-snoc, and_true,
}
use mathlib.Core.Bool.{false≢true}
use persistent_atp.Gate.State.{MemoryView, EdgeRecord, update, update₂}
use persistent_atp.Gate.State.Remove.{Removes}

-- `index` lists, at each node and type, the edges whose `key` end is that node, each once.
pub record Indexes (key : EdgeRecord → String) (edges : String → Option EdgeRecord)
    (index : String → String → List String) : Type 0 where
  pub sound :
      (n rel e : String)
      → In e (index n rel)
      → (r : EdgeRecord) × (edges e ≡ some r) × (key r ≡ n) × (r.rel_type ≡ rel)
  pub complete : (e : String) (r : EdgeRecord) → edges e ≡ some r → In e (index (key r) r.rel_type)
  pub distinct : (n rel : String) → Distinct (index n rel)

pub record IsIndexed (m : MemoryView) : Type 0 where
  pub keyed : (e : String) (r : EdgeRecord) → m.edges e ≡ some r → r.edge_id ≡ e
  pub out : Indexes (λ r. r.src_id) m.edges m.out
  pub into : Indexes (λ r. r.dst_id) m.edges m.into

update_self {ℓ} : {A : Type ℓ} (d : String → A) (k : String) (v : A) → update d k v k ≡ v
update_self d k v = rw (eq_refl k)

update-ne {ℓ} : {A : Type ℓ} (d : String → A) (k j : String) (v : A) → k ≢ j → update d k v j ≡ d j
update-ne d k j v ne = elim (Bool-cases (str_eq k j)) [
  | inl e ↦ absurd (ne ((eq_iff k j).0 e))
  | inr e ↦ rw e
]

-- A slot of an updated table holds the new value, at its own place, or what it held.
update₂-cases :
    (P : List String → Type 0) (d : String → String → List String) (k r : String) (v : List String)
    (j s : String)
    → (k ≡ j → r ≡ s → P v)
    → (¬ ((k ≡ j) × (r ≡ s)) → P (d j s))
    → P (update₂ d k r v j s)
update₂-cases P d k r v j s hit miss = elim (Bool-cases (str_eq k j && str_eq r s)) [
  | inl e ↦
      let b = and_true (str_eq k j) (str_eq r s) e in
      rw e (hit ((eq_iff k j).0 b.0) ((eq_iff r s).0 b.1))
  | inr e ↦ rw e (miss (λ h. false≢true (sym e ∙ both h)))
]
  where
    both : (k ≡ j) × (r ≡ s) → (str_eq k j && str_eq r s) ≡ true
    both h = rw ((eq_iff k j).1 h.0, (eq_iff r s).1 h.1)

update₂-self :
    (d : String → String → List String) (k r : String) (v : List String) → update₂ d k r v k r ≡ v
update₂-self d k r v = rw (eq_refl k, eq_refl r)

abbrev Entry :
    (EdgeRecord → String) → (String → Option EdgeRecord) → String → String → String → Type 0
Entry key edges n rel e = (r : EdgeRecord) × (edges e ≡ some r) × (key r ≡ n) × (r.rel_type ≡ rel)

module _ (key : EdgeRecord → String) (edges : String → Option EdgeRecord)
    (index : String → String → List String) (ix : Indexes key edges index) (e : String)
    (r : EdgeRecord) where
  abbrev slot : List String
  slot = index (key r) r.rel_type

  Entry-old :
      (n rel e' : String)
      → e ≢ e'
      → (v : Option EdgeRecord) → Entry key edges n rel e'
      → Entry key (update edges e v) n rel e'
  Entry-old n rel e' ne v (r', p, q, t) = (r', update-ne edges e e' v ne ∙ p, q, t)

  Entry-kept :
      edges e ≡ none
      → (n rel e' : String) → In e' (index n rel)
      → Entry key (update edges e (some r)) n rel e'
  Entry-kept new n rel e' m =
      let x = ix.sound n rel e' m in
      Entry-old n rel e' (λ p. cc (subst (λ z. edges z ≡ some x.0) (sym p) x.1)) (some r) x

  Entry-new :
      (e' : String)
      → e ≡ e'
      → (n rel : String) → key r ≡ n
      → r.rel_type ≡ rel
      → Entry key (update edges e (some r)) n rel e'
  Entry-new e' p n rel a b =
      subst (Entry key (update edges e (some r)) n rel) p (r, update_self edges e (some r), a, b)

  insert_sound :
      edges e ≡ none
      → (n rel e' : String) → In e' (update₂ index (key r) r.rel_type (slot ++ e ∷ []) n rel)
      → Entry key (update edges e (some r)) n rel e'
  insert_sound new n rel e' =
      update₂-cases (λ l. In e' l → Entry key (update edges e (some r)) n rel e') index (key r)
        r.rel_type (slot ++ e ∷ []) n rel
        (λ a b m. elim (In-append e' slot (e ∷ []) m) [
          | inl old ↦
              Entry-kept new n rel e'
                (subst (λ z. In e' (index z rel)) a (subst (λ z. In e' (index (key r) z)) b old))
          | inr (inl p) ↦ Entry-new e' p n rel a b
          | inr (inr q) ↦ absurd q
        ])
        (λ _ m. Entry-kept new n rel e' m)

  insert_complete :
      (e' : String) (r' : EdgeRecord)
      → update edges e (some r) e' ≡ some r'
      → In e' (update₂ index (key r) r.rel_type (slot ++ e ∷ []) (key r') r'.rel_type)
  insert_complete e' r' p = elim (Bool-cases (str_eq e e')) [
    | inl q ↦
        let same : r ≡ r' = ground (arith, q) in
        subst (λ z. In e' (update₂ index (key r) r.rel_type (slot ++ e ∷ []) (key z) z.rel_type))
          same
          (rw (update₂-self index (key r) r.rel_type (slot ++ e ∷ []))
            (In-append_right e' slot (e ∷ []) (inl ((eq_iff e e').0 q))))
    | inr q ↦
        let old : In e' (index (key r') r'.rel_type) = ix.complete e' r' (ground (arith, q)) in
        update₂-cases (λ l. In e' l) index (key r) r.rel_type (slot ++ e ∷ []) (key r') r'.rel_type
          (λ a b. In-append_left e' slot (e ∷ []) (
            subst (λ z. In e' (index z r.rel_type)) (sym a)
              (subst (λ z. In e' (index (key r') z)) (sym b) old)))
          (λ _. old)
  ]

  insert-Distinct :
      edges e ≡ none
      → (n rel : String) → Distinct (update₂ index (key r) r.rel_type (slot ++ e ∷ []) n rel)
  insert-Distinct new n rel =
      update₂-cases Distinct index (key r) r.rel_type (slot ++ e ∷ []) n rel
        (λ _ _. Distinct-snoc slot e (ix.distinct (key r) r.rel_type) (λ m.
          let x = ix.sound (key r) r.rel_type e m in let q : none ≡ some x.0 = sym new ∙ x.1 in cc))
        (λ _. ix.distinct n rel)

  -- A new edge, listed last in its slot.
  pub Indexes-insert :
      edges e ≡ none
      → Indexes key (update edges e (some r)) (update₂ index (key r) r.rel_type (slot ++ e ∷ []))
  Indexes-insert new = record {
    sound = insert_sound new;
    complete = insert_complete;
    distinct = insert-Distinct new;
  }

  Entry-slot :
      (n rel e' : String)
      → edges e ≡ some r
      → Entry key edges n rel e'
      → e ≡ e'
      → (key r ≡ n) × (r.rel_type ≡ rel)
  Entry-slot n rel e' there x p =
      let same : r ≡ x.0 = eq_of_some (sym there ∙ ap edges p ∙ x.1) in
      (ap key same ∙ x.2, ap (λ z. z.rel_type) same ∙ x.3)

  remove_sound :
      (l : List String)
      → Removes e slot l
      → edges e ≡ some r
      → (n rel e' : String) → In e' (update₂ index (key r) r.rel_type l n rel)
      → Entry key (update edges e none) n rel e'
  remove_sound l rm there n rel e' =
      update₂-cases (λ l'. In e' l' → Entry key (update edges e none) n rel e') index (key r)
        r.rel_type l n rel
        (λ a b m.
          Entry-old n rel e' (λ p. rm.gone (subst (λ z. In z l) (sym p) m)) none
            (let x = ix.sound (key r) r.rel_type e' (rm.from e' m) in (x.0, x.1, x.2 ∙ a, x.3 ∙ b)))
        (λ miss m.
          let x = ix.sound n rel e' m in
          Entry-old n rel e' (λ p. miss (Entry-slot n rel e' there x p)) none x)

  remove_complete :
      (l : List String)
      → Removes e slot l
      → (e' : String) (r' : EdgeRecord) → update edges e none e' ≡ some r'
      → In e' (update₂ index (key r) r.rel_type l (key r') r'.rel_type)
  remove_complete l rm e' r' p = elim (Bool-cases (str_eq e e')) [
    | inl q ↦ ground (arith, q)
    | inr q ↦
        let old : In e' (index (key r') r'.rel_type) = ix.complete e' r' (ground (arith, q)) in
        update₂-cases (λ l'. In e' l') index (key r) r.rel_type l (key r') r'.rel_type
          (λ a b.
            rm.kept e' (λ h. false≢true (sym q ∙ (eq_iff e e').1 (sym h)))
              (subst (λ z. In e' (index z r.rel_type)) (sym a)
                (subst (λ z. In e' (index (key r') z)) (sym b) old)))
          (λ _. old)
  ]

  -- The edge's name leaves its slot, and only that.
  pub Indexes-remove :
      (l : List String)
      → Removes e slot l
      → edges e ≡ some r
      → Indexes key (update edges e none) (update₂ index (key r) r.rel_type l)
  Indexes-remove l rm there = record {
    sound = remove_sound l rm there;
    complete = remove_complete l rm;
    distinct = λ n rel.
        update₂-cases Distinct index (key r) r.rel_type l n rel (λ _ _. rm.distinct)
          (λ _. ix.distinct n rel);
  }
