-- ===== src/Engine/Filter/Conservation.antt =====
-- The filter and the sort of `AnalyzeWithStatus` lose nothing: what is not reported is counted.
use lifeline.Prelude.{ℕ, suc, ◌+◌, String, List, [], ◌∷◌}
use lifeline.Prelude.{◌≡◌, refl, ap, ◌∙◌, arith, length, str_eq, if◌then◌else◌}
use lifeline.Model.Facts.{Program}
use lifeline.Config.{Config}
use lifeline.Engine.Diagnostics.{Diagnostic, Format}
use lifeline.Engine.Status.{Fate, Suppressed, suppressed_total, nothing_suppressed, note, status_of}
use lifeline.Engine.Filter.{Filtered, fate, keep, filter_loop, insert, sort_stable, report}

-- How many diagnostics of a list have a rule.
abbrev pub count_rule : String → List Diagnostic → ℕ
count_rule r [] = 0
count_rule r (d ∷ ds) = (if str_eq d.rule_id r then 1 else 0) + count_rule r ds

count_rule-insert :
    (r : String) (d : Diagnostic) (es : List Diagnostic)
    → count_rule r (insert d es) ≡ count_rule r (d ∷ es)
unfolding insert
count_rule-insert r d [] = refl
count_rule-insert r d (e ∷ es) = ground (arith, count_rule-insert r d es)

count_rule-sort_stable :
    (r : String) (ds : List Diagnostic) → count_rule r (sort_stable ds) ≡ count_rule r ds
unfolding sort_stable
count_rule-sort_stable r [] = refl
count_rule-sort_stable r (d ∷ ds) =
    omega (arith, count_rule-insert r d (sort_stable ds), count_rule-sort_stable r ds)

length-insert : (d : Diagnostic) (es : List Diagnostic) → length (insert d es) ≡ length (d ∷ es)
unfolding insert
length-insert d [] = refl
length-insert d (e ∷ es) = ground (arith, length-insert d es)

pub length-sort_stable : (ds : List Diagnostic) → length (sort_stable ds) ≡ length ds
unfolding sort_stable
length-sort_stable [] = refl
length-sort_stable (d ∷ ds) = length-insert d (sort_stable ds) ∙ ap suc (length-sort_stable ds)

-- One round: a diagnostic is kept, or noted.
length-keep :
    (way : Fate) (d : Diagnostic) (s : Suppressed) (f : Filtered) (n : ℕ)
    → length f.kept + suppressed_total f.hidden ≡ n + suppressed_total (note way d.rule_id s)
    → length (keep way d f).kept + suppressed_total (keep way d f).hidden
      ≡ suc n + suppressed_total s
unfolding keep note
length-keep Fate.shown d s f n h = omega arith
length-keep Fate.by_configuration d s f n h = omega arith
length-keep Fate.by_a_comment d s f n h = omega arith

count_rule-keep :
    (r : String) (way : Fate) (d : Diagnostic) (s : Suppressed) (f : Filtered) (n : ℕ)
    → count_rule r f.kept + f.hidden.by_rule r ≡ n + (note way d.rule_id s).by_rule r
    → count_rule r (keep way d f).kept + (keep way d f).hidden.by_rule r
      ≡ ((if str_eq d.rule_id r then 1 else 0) + n) + s.by_rule r
unfolding keep note
count_rule-keep r Fate.shown d s f n h = omega arith
count_rule-keep r Fate.by_configuration d s f n h = omega arith
count_rule-keep r Fate.by_a_comment d s f n h = omega arith

module _ (ignore : List String) (suppressions : String → ℕ → List String) where
  filter_loop-length :
      (ds : List Diagnostic) (s : Suppressed)
      → length (filter_loop ignore suppressions ds s).kept
          + suppressed_total (filter_loop ignore suppressions ds s).hidden
        ≡ length ds + suppressed_total s
  unfolding filter_loop
  filter_loop-length [] s = refl
  filter_loop-length (d ∷ ds) s =
      length-keep (fate ignore suppressions d) d s _ (length ds) (filter_loop-length ds _)

  filter_loop-rule :
      (r : String) (ds : List Diagnostic) (s : Suppressed)
      → count_rule r (filter_loop ignore suppressions ds s).kept
          + (filter_loop ignore suppressions ds s).hidden.by_rule r
        ≡ count_rule r ds + s.by_rule r
  unfolding filter_loop
  filter_loop-rule r [] s = refl
  filter_loop-rule r (d ∷ ds) s =
      count_rule-keep r (fate ignore suppressions d) d s _ (count_rule r ds)
        (filter_loop-rule r ds _)

-- Whatever was found, the number of reported diagnostics and the number of suppressed ones in the
-- status add up to the number found, and so they do for each rule by itself.
pub report-conserves :
    (fmt : Format) (p : Program) (cfg : Config) (out : List Diagnostic)
    → (length (report fmt p cfg out).diagnostics
          + suppressed_total (report fmt p cfg out).status.suppressed
        ≡ length out)
      × ((r : String)
          → count_rule r (report fmt p cfg out).diagnostics
              + (report fmt p cfg out).status.suppressed.by_rule r
            ≡ count_rule r out)
unfolding report status_of
report-conserves fmt p cfg out = (
  omega (
    arith,
    length-sort_stable (filter_loop cfg.ignore p.suppressions out nothing_suppressed).kept,
    filter_loop-length cfg.ignore p.suppressions out nothing_suppressed,
  ),
  λ r. omega (
    arith,
    count_rule-sort_stable r (filter_loop cfg.ignore p.suppressions out nothing_suppressed).kept,
    filter_loop-rule cfg.ignore p.suppressions r out nothing_suppressed,
  ),
)
