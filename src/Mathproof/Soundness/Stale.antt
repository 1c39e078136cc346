-- ===== src/Mathproof/Soundness/Stale.antt =====
-- mathproof/soundness.py: which certificates are reported stale.
use persistent_atp.Prelude.{
  String, Bool, true, false, not, ◌||◌, Bool-cases, Option, none, some, List, [], ◌∷◌, ◌≡◌, refl,
  ap, subst, inl, inr, arith, In, ◌↔◌, ◌⊎◌, eq_iff, sym, is_some, and_three,
}
use persistent_atp.Json.{value_eq, is_null}
use persistent_atp.Mathproof.Soundness.{Certificate, drifts, text_eq, check_environment_staleness}

text_eq_iff : (o u : Option String) → (text_eq o u ≡ true) ↔ (o ≡ u)
text_eq_iff none none = (λ h. refl, λ h. refl)
text_eq_iff none (some t) = (λ h. absurd (cc), λ h. absurd (cc))
text_eq_iff (some s) none = (λ h. absurd (cc), λ h. absurd (cc))
text_eq_iff (some s) (some t) =
    (λ h. ap some ((eq_iff s t).0 h), λ h. let q : s ≡ t = cc in (eq_iff s t).1 q)

-- A prior certificate of the candidate's declaration, or any where that has none, that names another
-- environment than the candidate.
pub record IsAgainst (candidate prior : Certificate) : Type 0 where
  pub concerns :
      (candidate.declaration_id ≡ none) ⊎ (prior.declaration_id ≡ candidate.declaration_id)
  pub names : is_null prior.environment_hash ≡ false
  pub differs : value_eq prior.environment_hash candidate.environment_hash ≡ false

or_cases : (a b : Bool) → (a || b) ≡ true → (a ≡ true) ⊎ (b ≡ true)
or_cases true b h = inl refl
or_cases false b h = inr h

of_not : (b : Bool) → not b ≡ true → b ≡ false
of_not b h = ground arith

drifts_iff : (c p : Certificate) → (drifts c p ≡ true) ↔ IsAgainst c p
drifts_iff c p = (
  λ h.
      let (same, named, apart) = (and_three _ _ _).0 h in
      record {
        concerns = elim (or_cases (text_eq c.declaration_id none) _ same) [
          | inl q ↦ inl ((text_eq_iff c.declaration_id none).0 q)
          | inr q ↦ inr ((text_eq_iff p.declaration_id c.declaration_id).0 q)
        ];
        names = of_not _ named;
        differs = of_not _ apart;
      },
  λ a. elim a.concerns [
    | inl q ↦
        let any : text_eq c.declaration_id none ≡ true = (text_eq_iff c.declaration_id none).1 q in
        let named = a.names in let apart = a.differs in ground (arith, any, named, apart)
    | inr q ↦
        let same : text_eq p.declaration_id c.declaration_id ≡ true =
          (text_eq_iff p.declaration_id c.declaration_id).1 q in
        let named = a.names in let apart = a.differs in ground (arith, same, named, apart)
  ],
)

found :
    (priors : List Certificate) (c : Certificate)
    → is_some (check_environment_staleness priors c) ≡ true
    → (p : Certificate) × In p priors × IsAgainst c p
unfolding check_environment_staleness
found [] c h = absurd (cc)
found (p ∷ priors) c h = elim (Bool-cases (drifts c p)) [
  | inl e ↦ (p, inl refl, (drifts_iff c p).0 e)
  | inr e ↦ let (q, i, a) = found priors c (rw e at h) in (q, inr i, a)
]

reported :
    (priors : List Certificate) (c p : Certificate)
    → In p priors
    → IsAgainst c p
    → is_some (check_environment_staleness priors c) ≡ true
unfolding check_environment_staleness
reported [] c p m a = absurd m
reported (x ∷ priors) c p m a = elim (Bool-cases (drifts c x)) [
  | inl e ↦ rw e refl
  | inr e ↦ rw e (elim m [
    | inr i ↦ reported priors c p i a
    | inl q ↦
        let against : drifts c x ≡ true =
          subst (λ y. drifts c y ≡ true) (sym q) ((drifts_iff c p).1 a) in
        absurd (cc)
  ])
]

-- A candidate certificate is reported stale exactly when one of the prior certificates is of its
-- declaration, or any is where the candidate has no declaration, and names an environment, and another
-- than the candidate's.
pub check_environment_staleness-IsAgainst :
    (priors : List Certificate) (candidate : Certificate)
    → (is_some (check_environment_staleness priors candidate) ≡ true)
      ↔ ((prior : Certificate) × In prior priors × IsAgainst candidate prior)
check_environment_staleness-IsAgainst priors c =
    (λ h. found priors c h, λ x. reported priors c x.0 x.1 x.2)
