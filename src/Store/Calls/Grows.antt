-- ===== src/Store/Calls/Grows.antt =====
-- The audit tables are append-only: whatever the calls, no row of them is changed or lost.
use mathlib.Core.List.{append-nil, append_assoc}
use persistent_atp.Prelude.{ℕ, String, List, [], ◌∷◌, ◌++◌, ◌≡◌, refl, sym, ◌∙◌, ap, Bool}
use persistent_atp.Store.{Store, JournalRow, LeaseEvent, RejectionRow, LeaseRow}
use persistent_atp.Store.Rows.{expire_due_leases, next_lease_id, supersede}

-- The tables of `t` that audits read are those of `s`, and more.
pub record Extends (s t : Store) : Type 0 where
  pub journal : (more : List JournalRow) × (t.journal ≡ s.journal ++ more)
  pub events : (more : List LeaseEvent) × (t.lease_events ≡ s.lease_events ++ more)
  pub rejections : (more : List RejectionRow) × (t.rejections ≡ s.rejections ++ more)

abbrev More : {A : Type 0} → List A → List A → Type 0
More {A} xs ys = (more : List A) × (ys ≡ xs ++ more)

More-refl : {A : Type 0} (xs : List A) → More xs xs
More-refl xs = ([], sym (append-nil xs))

More-trans : {A : Type 0} (xs ys zs : List A) → More xs ys → More ys zs → More xs zs
More-trans xs ys zs (a, p) (b, q) = (a ++ b, q ∙ ap (λ l. l ++ b) p ∙ append_assoc xs a b)

pub Extends-refl : (s : Store) → Extends s s
Extends-refl s = record {
  journal = More-refl s.journal;
  events = More-refl s.lease_events;
  rejections = More-refl s.rejections;
}

pub Extends-trans : (s t u : Store) → Extends s t → Extends t u → Extends s u
Extends-trans s t u a b = record {
  journal = More-trans s.journal t.journal u.journal a.journal b.journal;
  events = More-trans s.lease_events t.lease_events u.lease_events a.events b.events;
  rejections = More-trans s.rejections t.rejections u.rejections a.rejections b.rejections;
}

-- A call that leaves the journal, and adds to the other two.
pub record Quiet (s t : Store) : Type 0 where
  pub journal : t.journal ≡ s.journal
  pub events : (more : List LeaseEvent) × (t.lease_events ≡ s.lease_events ++ more)
  pub rejections : (more : List RejectionRow) × (t.rejections ≡ s.rejections ++ more)

pub Quiet-Extends : (s t : Store) → Quiet s t → Extends s t
Quiet-Extends s t q = record {
  journal = ([], q.journal ∙ sym (append-nil s.journal));
  events = q.events;
  rejections = q.rejections;
}

pub Quiet-refl : (s : Store) → Quiet s s
Quiet-refl s = record {
  journal = refl;
  events = More-refl s.lease_events;
  rejections = More-refl s.rejections;
}

pub Quiet-trans : (s t u : Store) → Quiet s t → Quiet t u → Quiet s u
Quiet-trans s t u a b = record {
  journal = b.journal ∙ a.journal;
  events = More-trans s.lease_events t.lease_events u.lease_events a.events b.events;
  rejections = More-trans s.rejections t.rejections u.rejections a.rejections b.rejections;
}

-- A step that leaves the journal and the rejections, and adds lease events.
pub Quiet-events :
    (s t : Store) (more : List LeaseEvent)
    → t.journal ≡ s.journal
    → t.lease_events ≡ s.lease_events ++ more
    → t.rejections ≡ s.rejections
    → Quiet s t
Quiet-events s t more j e r = record {
  journal = j;
  events = (more, e);
  rejections = ([], r ∙ sym (append-nil s.rejections));
}

pub expire-Quiet : (pid : String) (now : ℕ) (s : Store) → Quiet s (expire_due_leases pid now s)
unfolding expire_due_leases
expire-Quiet pid now s = Quiet-events s _ _ refl refl refl

pub next_lease_id-Quiet : (pid : String) (s : Store) → Quiet s (next_lease_id pid s).1
unfolding next_lease_id
next_lease_id-Quiet pid s = Quiet-events s _ [] refl (sym (append-nil s.lease_events)) refl

pub supersede-Quiet : (out listed : LeaseRow → Bool) (s : Store) → Quiet s (supersede out listed s)
supersede-Quiet out listed s = Quiet-events s _ _ refl refl refl

-- A lease table of any content, and one event more.
pub issued-Quiet :
    (rows : List LeaseRow) (e : LeaseEvent) (s : Store)
    → Quiet s (record s { leases = rows; lease_events = s.lease_events ++ e ∷ [] })
issued-Quiet rows e s = Quiet-events s _ (e ∷ []) refl refl refl
