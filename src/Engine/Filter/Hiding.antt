-- ===== src/Engine/Filter/Hiding.antt =====
-- Which diagnostics the filter of `AnalyzeWithStatus` hides, and that the status cannot be hidden.
use lifeline.Prelude.{ℕ, String, Bool, true, false, not, ◌&&◌, ◌||◌, Option, none, some}
use lifeline.Prelude.{List, [], ◌∷◌, ◌∈◌, ◌≡◌, ◌⊎◌, ◌↔◌, inl, inr, refl, ◌∙◌, sym, subst}
use lifeline.Prelude.{str_eq, str_eq→≡, if◌then◌else◌}
use lifeline.Prelude.{or_iff, str_eq_iff, false_iff}
use lifeline.Model.Source.{Span, Evidence}
use lifeline.Model.Facts.{Program}
use lifeline.Config.{Config}
use lifeline.Engine.Diagnostics.{Diagnostic, Format}
use lifeline.Engine.Status.{
  Fate, Suppressed, note, nothing_suppressed, status_of, units_of, stopped_after,
}
use lifeline.Engine.Filter.{
  Filtered, ignored, names_rule, line_suppressed, span_suppressed, evidence_suppressed,
  suppressed_by_comment, fate, keep, filter_loop, insert, sort_stable, less, report,
  fails_status_policy,
}

-- A list of ignored rules hides a rule that it names, and every rule if it names "all".
abbrev pub Ignores : List String → String → Type 0
Ignores items id = ("all" ∈ items) ⊎ (id ∈ items)

-- A comment at a line hides a rule that it names, and every rule if it names "*".
abbrev pub Silences : (String → ℕ → List String) → Span → String → Type 0
Silences suppressions s rule =
    ("*" ∈ suppressions s.file s.start_line) ⊎ (rule ∈ suppressions s.file s.start_line)

-- A comment hides a diagnostic at its own line or at the line of some piece of evidence.
abbrev pub Silenced : (String → ℕ → List String) → Diagnostic → Type 0
Silenced suppressions d =
    Silences suppressions d.position d.rule_id
    ⊎ ((e : Evidence) × (s : Span) × (e ∈ d.evidence)
        × (e.span ≡ some s)
        × Silences suppressions s d.rule_id)

-- What the report shows: a diagnostic whose rule is not ignored, and that is either the notice of an
-- incomplete analysis or not hidden by a comment.
abbrev pub Visible : List String → (String → ℕ → List String) → Diagnostic → Type 0
Visible ignore suppressions d =
    (Ignores ignore d.rule_id → ⊥) × ((d.rule_id ≡ "LL9001") ⊎ (Silenced suppressions d → ⊥))

named : (item name : String) → (str_eq item name ≡ true) ↔ (name ≡ item)
named item name = (λ h. sym ((str_eq_iff item name).0 h), λ e. (str_eq_iff item name).1 (sym e))

-- A loop that looks for either of two names.
search_iff :
    (search : List String → String → Bool) (any : String)
    → ((id : String) → search [] id ≡ false)
    → ((id item : String) (items : List String)
        → search (item ∷ items) id ≡ ((str_eq item any || str_eq item id) || search items id))
    → (items : List String) (id : String)
    → (search items id ≡ true) ↔ ((any ∈ items) ⊎ (id ∈ items))
search_iff search any nil cons [] id =
    (λ h. absurd (cc (h, nil id)), λ h. elim h [ inl x ↦ absurd x | inr x ↦ absurd x ])
search_iff search any nil cons (item ∷ items) id =
    let rest = search_iff search any nil cons items id in
    let here = or_iff (str_eq item any) (str_eq item id) (named item any) (named item id) in
    let both = or_iff (str_eq item any || str_eq item id) (search items id) here rest in
    (
      λ h. elim (both.0 (sym (cons id item items) ∙ h)) [
        | inl (inl e) ↦ inl (inl e)
        | inl (inr e) ↦ inr (inl e)
        | inr (inl m) ↦ inl (inr m)
        | inr (inr m) ↦ inr (inr m)
      ],
      λ h.
          cons id item items
          ∙ both.1 (elim h [
            | inl (inl e) ↦ inl (inl e)
            | inl (inr m) ↦ inr (inl m)
            | inr (inl e) ↦ inl (inr e)
            | inr (inr m) ↦ inr (inr m)
          ]),
    )

ignored_iff : (items : List String) (id : String) → (ignored items id ≡ true) ↔ Ignores items id
unfolding ignored
ignored_iff = search_iff ignored "all" (λ id. refl) (λ id item items. refl)

names_rule_iff :
    (items : List String) (id : String)
    → (names_rule items id ≡ true) ↔ (("*" ∈ items) ⊎ (id ∈ items))
unfolding names_rule
names_rule_iff = search_iff names_rule "*" (λ id. refl) (λ id item items. refl)

span_suppressed_iff :
    (suppressions : String → ℕ → List String) (o : Option Span) (rule : String)
    → (span_suppressed suppressions o rule ≡ true)
      ↔ ((s : Span) × (o ≡ some s) × Silences suppressions s rule)
unfolding span_suppressed line_suppressed
span_suppressed_iff suppressions none rule = (λ h. absurd (cc), λ (s, e, q). absurd (cc))
span_suppressed_iff suppressions (some s) rule = (
  λ h. (s, refl, (names_rule_iff _ rule).0 h),
  λ (t, e, q).
      (names_rule_iff _ rule).1 (subst (λ u. Silences suppressions u rule) (some_inj s t e) q),
)
  where
    some_inj : (s t : Span) → some s ≡ some t → t ≡ s
    some_inj s t e = cc

evidence_suppressed_iff :
    (suppressions : String → ℕ → List String) (es : List Evidence) (rule : String)
    → (evidence_suppressed suppressions es rule ≡ true)
      ↔ ((e : Evidence) × (s : Span) × (e ∈ es) × (e.span ≡ some s) × Silences suppressions s rule)
unfolding evidence_suppressed
evidence_suppressed_iff suppressions [] rule = (λ h. absurd (cc), λ (e, s, m, q, r). absurd m)
evidence_suppressed_iff suppressions (e ∷ es) rule =
    let both =
      or_iff _ _ (span_suppressed_iff suppressions e.span rule)
        (evidence_suppressed_iff suppressions es rule) in
    (
      λ h. elim (both.0 h) [
        | inl (s, q, r) ↦ (e, s, inl refl, q, r)
        | inr (f, s, m, q, r) ↦ (f, s, inr m, q, r)
      ],
      λ (f, s, m, q, r). both.1 (elim m [
        | inl same ↦ inl (s, subst (λ x. x.span ≡ some s) same q, r)
        | inr later ↦ inr (f, s, later, q, r)
      ]),
    )

suppressed_by_comment_iff :
    (suppressions : String → ℕ → List String) (d : Diagnostic)
    → (suppressed_by_comment suppressions d ≡ true) ↔ Silenced suppressions d
unfolding suppressed_by_comment line_suppressed
suppressed_by_comment_iff suppressions d =
    or_iff _ _ (names_rule_iff _ d.rule_id)
      (evidence_suppressed_iff suppressions d.evidence d.rule_id)

-- The test of the filter, as the propositions that it stands for.
fate_tests :
    (i n c : Bool)
    → ((if i then Fate.by_configuration else if not n && c then Fate.by_a_comment else Fate.shown)
        ≡ Fate.shown)
      ↔ ((i ≡ false) × ((n ≡ true) ⊎ (c ≡ false)))
fate_tests true n c = (λ h. absurd (cc), λ h. absurd (cc (h.0)))
fate_tests false true c = (λ h. (refl, inl refl), λ h. refl)
fate_tests false false true =
    (λ h. absurd (cc), λ (a, q). elim q [ inl e ↦ absurd (cc) | inr e ↦ absurd (cc) ])
fate_tests false false false = (λ h. (refl, inr refl), λ h. refl)

fate_iff :
    (ignore : List String) (suppressions : String → ℕ → List String) (d : Diagnostic)
    → (fate ignore suppressions d ≡ Fate.shown) ↔ Visible ignore suppressions d
unfolding fate
fate_iff ignore suppressions d =
    let tests =
      fate_tests (ignored ignore d.rule_id) (str_eq d.rule_id "LL9001")
        (suppressed_by_comment suppressions d) in
    let config = false_iff _ (ignored_iff ignore d.rule_id) in
    let comment = false_iff _ (suppressed_by_comment_iff suppressions d) in
    (
      λ h.
          let (a, q) = tests.0 h in
          (
            config.0 a,
            elim q [ inl e ↦ inl (str_eq→≡ d.rule_id "LL9001" e) | inr e ↦ inr (comment.0 e) ],
          ),
      λ (a, q). tests.1 (
        config.1 a,
        elim q [
          | inl e ↦ inl (sym (subst (λ u. str_eq u "LL9001" ≡ str_eq d.rule_id "LL9001") e refl))
          | inr e ↦ inr (comment.1 e)
        ],
      ),
    )

mem-insert : (x d : Diagnostic) (es : List Diagnostic) → (x ∈ insert d es) ↔ (x ∈ (d ∷ es))
unfolding insert
mem-insert x d [] = (λ m. m, λ m. m)
mem-insert x d (e ∷ es) = placed (less e d) (mem-insert x d es)
  where
    placed :
        (t : Bool)
        → (x ∈ insert d es) ↔ (x ∈ (d ∷ es))
        → (x ∈ (if t then e ∷ insert d es else d ∷ e ∷ es)) ↔ (x ∈ (d ∷ e ∷ es))
    placed false rest = (λ m. m, λ m. m)
    placed true rest = (
      λ m. elim m [
        | inl here ↦ inr (inl here)
        | inr later ↦ elim (rest.0 later) [ inl a ↦ inl a | inr b ↦ inr (inr b) ]
      ],
      λ m. elim m [
        | inl a ↦ inr (rest.1 (inl a))
        | inr (inl here) ↦ inl here
        | inr (inr b) ↦ inr (rest.1 (inr b))
      ],
    )

mem-sort_stable : (x : Diagnostic) (ds : List Diagnostic) → (x ∈ sort_stable ds) ↔ (x ∈ ds)
unfolding sort_stable
mem-sort_stable x [] = (λ m. m, λ m. m)
mem-sort_stable x (d ∷ ds) =
    let here = mem-insert x d (sort_stable ds) in
    let rest = mem-sort_stable x ds in
    (
      λ m. elim (here.0 m) [ inl a ↦ inl a | inr b ↦ inr (rest.0 b) ],
      λ m. here.1 (elim m [ inl a ↦ inl a | inr b ↦ inr (rest.1 b) ]),
    )

mem-keep :
    (x d : Diagnostic) (way : Fate) (f : Filtered)
    → (x ∈ (keep way d f).kept) ↔ (((x ≡ d) × (way ≡ Fate.shown)) ⊎ (x ∈ f.kept))
unfolding keep
mem-keep x d Fate.shown f = (
  λ m. elim m [ inl e ↦ inl (e, refl) | inr b ↦ inr b ],
  λ m. elim m [ inl (e, w) ↦ inl e | inr b ↦ inr b ],
)
mem-keep x d Fate.by_configuration f =
    (λ m. inr m, λ m. elim m [ inl (e, w) ↦ absurd (cc) | inr b ↦ b ])
mem-keep x d Fate.by_a_comment f =
    (λ m. inr m, λ m. elim m [ inl (e, w) ↦ absurd (cc) | inr b ↦ b ])

module _ (ignore : List String) (suppressions : String → ℕ → List String) where
  mem-filter_loop :
      (x : Diagnostic) (ds : List Diagnostic) (s : Suppressed)
      → (x ∈ (filter_loop ignore suppressions ds s).kept)
        ↔ ((x ∈ ds) × Visible ignore suppressions x)
  unfolding filter_loop
  mem-filter_loop x [] s = (λ m. absurd m, λ m. m.0)
  mem-filter_loop x (d ∷ ds) s =
      let rest = mem-filter_loop x ds (note (fate ignore suppressions d) d.rule_id s) in
      let one = mem-keep x d (fate ignore suppressions d) (filter_loop ignore suppressions ds _) in
      (
        λ m. elim (one.0 m) [
          | inl (e, w) ↦ (
            inl e,
            subst (Visible ignore suppressions) (sym e) ((fate_iff ignore suppressions d).0 w),
          )
          | inr b ↦ (inr (rest.0 b).0, (rest.0 b).1)
        ],
        λ (m, v). one.1 (elim m [
          | inl e ↦
              inl (e, (fate_iff ignore suppressions d).1 (subst (Visible ignore suppressions) e v))
          | inr b ↦ inr (rest.1 (b, v))
        ]),
      )

-- The report shows exactly the diagnostics found whose rule no entry of `ignore` names, "all"
-- included, and that either are the notice LL9001 or have no comment, at their line or at the line of
-- some evidence, that names their rule or "*".
pub report-shows :
    (fmt : Format) (p : Program) (cfg : Config) (out : List Diagnostic) (d : Diagnostic)
    → (d ∈ (report fmt p cfg out).diagnostics) ↔ ((d ∈ out) × Visible cfg.ignore p.suppressions d)
unfolding report status_of
report-shows fmt p cfg out d =
    let order =
      mem-sort_stable d (filter_loop cfg.ignore p.suppressions out nothing_suppressed).kept in
    let kept = mem-filter_loop cfg.ignore p.suppressions d out nothing_suppressed in
    (λ m. kept.0 (order.0 m), λ m. order.1 (kept.1 m))

-- A program whose comments are replaced.
abbrev pub with_comments : (String → ℕ → List String) → Program → Program
with_comments suppressions p = record p { suppressions = suppressions }

-- Hiding cannot reach the status: with other comments, another configuration and other findings the
-- status of a program differs in the counts of suppressed diagnostics alone, so the status policy of
-- any configuration decides alike.
pub report-status :
    (fmt : Format) (p : Program) (comments : String → ℕ → List String) (cfg other : Config)
    (out found : List Diagnostic)
    → let here = (report fmt p cfg out).status in
      let there = (report fmt (with_comments comments p) other found).status in
      (record here { suppressed = there.suppressed } ≡ there)
      × ((policy : Config) → fails_status_policy here policy ≡ fails_status_policy there policy)
unfolding report status_of units_of stopped_after fails_status_policy
report-status fmt p comments cfg other out found = (refl, λ policy. refl)
