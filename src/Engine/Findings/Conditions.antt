-- ===== src/Engine/Findings/Conditions.antt =====
-- Which bindings and groups are reported, and that a report on a group names every failed question.
use lifeline.Prelude.{String, Bool, true, false, not, ◌&&◌, ◌||◌, Option, none, some, List, [], ◌∷◌}
use lifeline.Prelude.{◌∈◌, ◌≡◌, ◌≢◌, ◌⊎◌, ◌↔◌, inl, inr, refl, subst, arith}
use lifeline.Prelude.{
  mem-append_cases, mem-append_left, mem-append_right, Bool-cases, str_eq, str_eq→≡,
}
use lifeline.Prelude.{str_eq→≢, if◌then◌else◌}
use lifeline.Prelude.{◌==◌, ◌++◌}
use lifeline.Model.Facts.{CancelBinding, JoinGroup, Function, Program}
use lifeline.Config.{Config}
use lifeline.Engine.Diagnostics.{Diagnostic, Format}
use lifeline.Engine.Findings.{join_finding, stop_finding, group_findings}
use lifeline.Engine.Findings.{nil_or_true, cancel_ok, cancel_finding, cancel_findings, group_joined}

-- The known truth of a binding whose cancellation may be lost: it stays with its owner, it is
-- discarded or has a name, and it is not called or is known to be missed on some path.
abbrev pub IsLost : CancelBinding → Type 0
IsLost c =
    (c.escapes ≡ false)
    × ((c.discarded ≡ true) ⊎ (c.cancel_name ≢ ""))
    × ((c.called ≡ false) ⊎ (c.called_on_all_paths ≡ some false))

abbrev pub IsUnjoined : JoinGroup → Type 0
IsUnjoined g =
    (g.joined ≡ false)
    ⊎ ((g.joined_on_all_paths ≡ some false)
        ⊎ ((g.count_mismatch ≡ true) ⊎ (g.unjoined_round ≡ true)))

lost_tests :
    (called escapes discarded nameless : Bool) (all : Option Bool)
    → (((called && nil_or_true all) || (escapes || (not discarded && nameless))) ≡ false) ↔ (
        (escapes ≡ false)
        × ((discarded ≡ true) ⊎ (nameless ≡ false))
        × ((called ≡ false) ⊎ (all ≡ some false)))
lost_tests called true discarded nameless all = (λ h. ground arith, λ h. ground (arith, h.0))
lost_tests called false false true all =
    (λ h. ground arith, λ (a, b, c). elim b [ inl e ↦ absurd (cc) | inr e ↦ absurd (cc) ])
lost_tests true false true nameless none =
    (λ h. absurd (cc), λ (a, b, c). elim c [ inl e ↦ absurd (cc) | inr e ↦ absurd (cc) ])
lost_tests true false true nameless (some true) = (
  λ h. absurd (cc),
  λ (a, b, c). elim c [ inl e ↦ absurd (cc) | inr e ↦ absurd (ground (arith, e)) ],
)
lost_tests true false true nameless (some false) = (λ h. (refl, inl refl, inr refl), λ h. refl)
lost_tests false false true nameless all = (λ h. (refl, inl refl, inl refl), λ h. refl)
lost_tests true false false false none =
    (λ h. absurd (cc), λ (a, b, c). elim c [ inl e ↦ absurd (cc) | inr e ↦ absurd (cc) ])
lost_tests true false false false (some true) = (
  λ h. absurd (cc),
  λ (a, b, c). elim c [ inl e ↦ absurd (cc) | inr e ↦ absurd (ground (arith, e)) ],
)
lost_tests true false false false (some false) = (λ h. (refl, inr refl, inr refl), λ h. refl)
lost_tests false false false false all = (λ h. (refl, inr refl, inl refl), λ h. refl)

unjoined_tests :
    (joined mismatch round : Bool) (all : Option Bool)
    → ((joined && (nil_or_true all && (not mismatch && not round))) ≡ false)
      ↔ ((joined ≡ false) ⊎ ((all ≡ some false) ⊎ ((mismatch ≡ true) ⊎ (round ≡ true))))
unjoined_tests false mismatch round all = (λ h. inl refl, λ h. refl)
unjoined_tests true mismatch round (some false) = (λ h. inr (inl refl), λ h. refl)
unjoined_tests true true round all = (λ h. inr (inr (inl refl)), λ h. ground arith)
unjoined_tests true false true all = (λ h. inr (inr (inr refl)), λ h. ground arith)
unjoined_tests true false false none = (
  λ h. absurd (cc),
  λ h. elim h [
    | inl e ↦ absurd (cc)
    | inr (inl e) ↦ absurd (cc)
    | inr (inr (inl e)) ↦ absurd (cc)
    | inr (inr (inr e)) ↦ absurd (cc)
  ],
)
unjoined_tests true false false (some true) = (
  λ h. absurd (cc),
  λ h. elim h [
    | inl e ↦ absurd (cc)
    | inr (inl e) ↦ absurd (ground (arith, e))
    | inr (inr (inl e)) ↦ absurd (cc)
    | inr (inr (inr e)) ↦ absurd (cc)
  ],
)

-- A test on a name that is empty, as a proposition.
named : (s : String) → (str_eq s "" ≡ false) ↔ (s ≢ "")
named s = (
  str_eq→≢ s "",
  λ no. elim (Bool-cases (str_eq s "")) [ inl e ↦ absurd (no (str_eq→≡ s "" e)) | inr e ↦ e ],
)

cancel_ok_iff : (c : CancelBinding) → (cancel_ok c ≡ false) ↔ IsLost c
unfolding cancel_ok
cancel_ok_iff c =
    let tests =
      lost_tests c.called c.escapes c.discarded (str_eq c.cancel_name "") c.called_on_all_paths in
    (
      λ h.
          let (a, b, d) = tests.0 h in
          (a, elim b [ inl e ↦ inl e | inr e ↦ inr ((named c.cancel_name).0 e) ], d),
      λ (a, b, d).
          tests.1
            (a, elim b [ inl e ↦ inl e | inr other ↦ inr ((named c.cancel_name).1 other) ], d),
    )

group_joined_iff : (g : JoinGroup) → (group_joined g ≡ false) ↔ IsUnjoined g
unfolding group_joined
group_joined_iff g = unjoined_tests g.joined g.count_mismatch g.unjoined_round g.joined_on_all_paths

-- Membership in a list that is empty or has one element, by a test.
pub mem-unless :
    {A : Type 0} (b : Bool) (a x : A) → (x ∈ (if b then [] else a ∷ [])) ↔ ((b ≡ false) × (x ≡ a))
mem-unless true a x = (λ m. absurd m, λ h. absurd (cc (h.0)))
mem-unless false a x = (λ m. elim m [ inl e ↦ (refl, e) | inr n ↦ absurd n ], λ h. inl h.1)

mem-when :
    {A : Type 0} (b : Bool) (a x : A) → (x ∈ (if b then a ∷ [] else [])) ↔ ((b ≡ true) × (x ≡ a))
mem-when false a x = (λ m. absurd m, λ h. absurd (cc (h.0)))
mem-when true a x = (λ m. elim m [ inl e ↦ (refl, e) | inr n ↦ absurd n ], λ h. inl h.1)

module _ (fmt : Format) (p : Program) (cfg : Config) (fn : Function) where
  -- LL1001 is reported for a binding, and only then, when the function stays with its owner, is
  -- discarded or has a name, and either is never called or is known to be missed on some path. An
  -- all-paths answer that is not known counts as good.
  pub cancel_findings_iff :
      (cs : List CancelBinding) (d : Diagnostic)
      → (d ∈ cancel_findings fmt p cfg fn cs)
        ↔ ((c : CancelBinding) × (c ∈ cs) × IsLost c × (d ≡ cancel_finding fmt p cfg fn c))
  unfolding cancel_findings
  cancel_findings_iff [] d = (λ m. absurd m, λ (c, m, l, e). absurd m)
  cancel_findings_iff (c ∷ cs) d =
      let rest = cancel_findings_iff cs d in
      let here = mem-unless (cancel_ok c) (cancel_finding fmt p cfg fn c) d in
      let lost = cancel_ok_iff c in
      (
        λ m.
            elim (mem-append_cases d
              (if cancel_ok c then [] else cancel_finding fmt p cfg fn c ∷ []) _ m) [
                | inl a ↦ (c, inl refl, lost.0 (here.0 a).0, (here.0 a).1)
                | inr b ↦ let (x, y, z, w) = rest.0 b in (x, inr y, z, w)
              ],
        λ (x, y, z, w). elim y [
          | inl e ↦ mem-append_left d _ (cancel_findings fmt p cfg fn cs) (
              here.1
                (lost.1 (subst IsLost e z), subst (λ u. d ≡ cancel_finding fmt p cfg fn u) e w))
          | inr later ↦
              mem-append_right d (if cancel_ok c then [] else cancel_finding fmt p cfg fn c ∷ []) _
                (rest.1 (x, later, z, w))
        ],
      )

  -- What one group gives, when it is looked at.
  OfGroup : JoinGroup → Diagnostic → Type 0
  OfGroup g d =
      (IsUnjoined g × (d ≡ join_finding fmt p cfg fn g))
      ⊎ ((g.stop_after_wait ≡ true) × (d ≡ stop_finding fmt p cfg fn g))

  mem-group :
      (g : JoinGroup) (d : Diagnostic)
      → (d ∈ (
          (if group_joined g then [] else join_finding fmt p cfg fn g ∷ [])
          ++ (if g.stop_after_wait then stop_finding fmt p cfg fn g ∷ [] else [])))
        ↔ OfGroup g d
  unfolding OfGroup
  mem-group g d =
      let first = if group_joined g then [] else join_finding fmt p cfg fn g ∷ [] in
      let second = if g.stop_after_wait then stop_finding fmt p cfg fn g ∷ [] else [] in
      let join = mem-unless (group_joined g) (join_finding fmt p cfg fn g) d in
      let stop = mem-when g.stop_after_wait (stop_finding fmt p cfg fn g) d in
      let open_group = group_joined_iff g in
      (
        λ m. elim (mem-append_cases d first second m) [
          | inl a ↦ inl (open_group.0 (join.0 a).0, (join.0 a).1)
          | inr b ↦ inr (stop.0 b)
        ],
        λ h. elim h [
          | inl (u, e) ↦ mem-append_left d first second (join.1 (open_group.1 u, e))
          | inr b ↦ mem-append_right d first second (stop.1 b)
        ],
      )

  mem-looked_at :
      (b : Bool) (ds : List Diagnostic) (d : Diagnostic)
      → (d ∈ (if b then [] else ds)) ↔ ((b ≡ false) × (d ∈ ds))
  mem-looked_at true ds d = (λ m. absurd m, λ h. absurd (cc (h.0)))
  mem-looked_at false ds d = (λ m. (refl, m), λ h. h.1)

  -- LL1003, LL1004 and LL1005 are reported for a group, and only then, when it starts a worker, stays
  -- with its owner, and: for the first two, no join is seen, or one is known to be missed on some
  -- path, or the accounting fails, or a further round is not joined; for the last, the stop comes
  -- after the wait. A group may give both.
  pub group_findings_iff :
      (gs : List JoinGroup) (d : Diagnostic)
      → (d ∈ group_findings fmt p cfg fn gs) ↔ (
          (g : JoinGroup) × (g ∈ gs)
          × (((g.starts == 0) || g.escapes) ≡ false)
          × ((IsUnjoined g × (d ≡ join_finding fmt p cfg fn g))
              ⊎ ((g.stop_after_wait ≡ true) × (d ≡ stop_finding fmt p cfg fn g))))
  unfolding group_findings OfGroup
  group_findings_iff [] d = (λ m. absurd m, λ (g, m, o, h). absurd m)
  group_findings_iff (g ∷ gs) d =
      let rest = group_findings_iff gs d in
      let both = mem-group g d in
      let own =
        (if group_joined g then [] else join_finding fmt p cfg fn g ∷ [])
        ++ (if g.stop_after_wait then stop_finding fmt p cfg fn g ∷ [] else []) in
      let skipped = (g.starts == 0) || g.escapes in
      let here = mem-looked_at skipped own d in
      (
        λ m. elim (mem-append_cases d (if skipped then [] else own) _ m) [
          | inl a ↦ (g, inl refl, (here.0 a).0, both.0 (here.0 a).1)
          | inr b ↦ let (x, y, z, w) = rest.0 b in (x, inr y, z, w)
        ],
        λ (x, y, z, w). elim y [
          | inl e ↦
              mem-append_left d (if skipped then [] else own) (group_findings fmt p cfg fn gs) (
                here.1 (
                  subst (λ u. ((u.starts == 0) || u.escapes) ≡ false) e z,
                  both.1 (subst (λ u. OfGroup u d) e w),
                ))
          | inr later ↦
              mem-append_right d (if skipped then [] else own) (group_findings fmt p cfg fn gs)
                (rest.1 (x, later, z, w))
        ],
      )
