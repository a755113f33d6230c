-- ===== src/Engine/Filter/Policies.antt =====
-- What the policy `fail_on` decides.
use lifeline.Prelude.{String, true, List, [], ◌∷◌, ◌∈◌, ◌≡◌, ◌⊎◌, ◌↔◌, inl, inr}
use lifeline.Prelude.{or_iff, and_iff, str_eq_iff}
use lifeline.Prelude.{refl, subst}
use lifeline.Engine.Diagnostics.{Diagnostic, Verdict}
use lifeline.Engine.Filter.{is_warning, fails_at, fails_policy}

-- A rule of the policy matches a diagnostic: it names its rule, or is "all" and it is a warning.
abbrev pub Matches : Diagnostic → String → Type 0
Matches d id = (id ≡ d.rule_id) ⊎ ((id ≡ "all") × (d.verdict ≡ Verdict.warning))

is_warning_iff : (v : Verdict) → (is_warning v ≡ true) ↔ (v ≡ Verdict.warning)
unfolding is_warning
is_warning_iff Verdict.warning = (λ h. refl, λ h. refl)
is_warning_iff Verdict.unknown = (λ h. absurd (cc), λ h. absurd (cc))

fails_at_iff :
    (d : Diagnostic) (ids : List String)
    → (fails_at d ids ≡ true) ↔ ((id : String) × (id ∈ ids) × Matches d id)
unfolding fails_at
fails_at_iff d [] = (λ h. absurd (cc), λ (id, m, q). absurd m)
fails_at_iff d (id ∷ ids) =
    let here =
      or_iff _ _ (str_eq_iff id d.rule_id)
        (and_iff _ _ (str_eq_iff id "all") (is_warning_iff d.verdict)) in
    let both = or_iff _ _ here (fails_at_iff d ids) in
    (
      λ h. elim (both.0 h) [ inl q ↦ (id, inl refl, q) | inr (x, m, q) ↦ (x, inr m, q) ],
      λ (x, m, q).
          both.1 (elim m [ inl e ↦ inl (subst (Matches d) e q) | inr later ↦ inr (x, later, q) ]),
    )

-- A run fails the policy `fail_on` just when some diagnostic shown has a rule that the policy names,
-- or is a warning while the policy names "all": LL9001 alone does not fail "all".
pub fails_policy_iff :
    (ds : List Diagnostic) (ids : List String)
    → (fails_policy ds ids ≡ true)
      ↔ ((d : Diagnostic) × (id : String) × (d ∈ ds) × (id ∈ ids) × Matches d id)
unfolding fails_policy
fails_policy_iff [] ids = (λ h. absurd (cc), λ (d, id, m, n, q). absurd m)
fails_policy_iff (d ∷ ds) ids =
    let both = or_iff _ _ (fails_at_iff d ids) (fails_policy_iff ds ids) in
    (
      λ h. elim (both.0 h) [
        | inl (id, n, q) ↦ (d, id, inl refl, n, q)
        | inr (e, id, m, n, q) ↦ (e, id, inr m, n, q)
      ],
      λ (e, id, m, n, q). both.1 (elim m [
        | inl same ↦ inl (id, n, subst (λ x. Matches x id) same q)
        | inr later ↦ inr (e, id, later, n, q)
      ]),
    )
