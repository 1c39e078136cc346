-- ===== src/Mathproof/Ids/Scope.antt =====
-- What the rest of the program makes of the full ids.
use Prim.Native.String
use text.Mathlib.TextLemmas.{append_assoc, cons-append, nil-append}
use text.Mathlib.TextPositions.{starts_with-append}
use persistent_atp.Prelude.{
  String, Bool, true, false, ◌||◌, some, List, All, All-map, ◌≡◌, refl, sym, ap, subst, ◌∙◌, arith,
}
use persistent_atp.Decimal.{decimal}
use persistent_atp.Gate.Validate.Local.{is_scoped, is_content_addressed}
use persistent_atp.Mathproof.Ids.{
  Kind, lease, typed, spelled, full_id, scoped, scoped_in, IdAllocator,
}
use persistent_atp.Mathproof.Ids.Parse.{local_id-typed}
use persistent_atp.Mathproof.Ids.Fresh.{issue, issue-Above, Above}
use persistent_atp.Store.{Store}
use persistent_atp.Store.Rows.{next_lease_id, next_serial}

or-right : (b c : Bool) → c ≡ true → (b || c) ≡ true
or-right true c h = refl
or-right false c h = h

-- The gate's namespace check takes every id that a run of `next` returns as one of the allocator's
-- proof.
pub issue-is_scoped :
    (kinds : List Kind) (a : IdAllocator)
    → All (λ id. is_scoped a.proof_id id ≡ true) (issue kinds a)
issue-is_scoped kinds a =
    All-map (Above a) (λ id. is_scoped a.proof_id id ≡ true) (issue kinds a)
      (λ id (t, n, lt, e).
        subst (λ x. is_scoped a.proof_id x ≡ true) (sym e)
          (or-right (is_content_addressed (scoped a.proof_id (spelled t n))) _
            (starts_with-append (String.◌++◌ a.proof_id "/") (spelled t n))))
      (issue-Above kinds a)

lease_text :
    (d : String) → String.◌++◌ "/ls-" d ≡ String.◌++◌ "/" (String.◌++◌ "ls" (String.◌∷◌ "-" d))
lease_text d =
    append_assoc "/" "ls-" d
    ∙ ap (String.◌++◌ "/") (
        append_assoc "ls" "-" d
        ∙ ap (String.◌++◌ "ls") (cons-append "-" "" d ∙ ap (String.◌∷◌ "-") (nil-append d)))

-- The id that the journal store mints for a lease is the full id of type `lease` with the serial
-- that it takes.
pub next_lease_id-full_id :
    (pid : String) (s : Store)
    → full_id pid (typed lease) (next_serial pid s) ≡ some (next_lease_id pid s).0
unfolding full_id next_lease_id
next_lease_id-full_id pid s =
    ap (scoped_in pid) (local_id-typed lease (next_serial pid s) (omega arith))
    ∙ ap some (append_assoc pid "/" (spelled lease (next_serial pid s)))
    ∙ ap (λ x. some (String.◌++◌ pid x)) (sym (lease_text (decimal (next_serial pid s))))
