-- ===== src/Engine/Status/Counts.antt =====
-- The counts of a status against the coverage of the same program.
use lifeline.Prelude.{ℕ, ◌+◌, ◌≤◌, String, Bool, Option}
use lifeline.Prelude.{
  none, some, List, [], ◌∷◌, ◌++◌, ◌≡◌, ◌⊎◌, inl, inr, Bool-cases, ◌-◌, refl, ◌∙◌, arith, length,
  ltb,
}
use lifeline.Prelude.{length-append, if◌then◌else◌}
use lifeline.Model.Source.{Evidence}
use lifeline.Model.Facts.{CancelBinding, Goroutine, JoinGroup, Function, Program}
use lifeline.Engine.Coverage.{
  UnsupportedTarget, Coverage, no_coverage, recognized, target_of, targets_of, summarize_function,
  summarize_functions, summarize,
}
use lifeline.Engine.Diagnostics.{Format}
use lifeline.Engine.Status.{
  Unsupported, unsupported_total, nothing_unsupported, unsupported_reason, obligation,
  count_cancels, count_groups, target, count_goroutines, count_functions, status_of, units_of,
}

-- The obligations that are credited without having been verified.
abbrev assumed : Unsupported → ℕ
assumed u = u.handed_off + u.unestablished_path_checks

obligation-counts :
    (escapes observed : Bool) (all_paths : Option Bool) (es : List Evidence) (u : Unsupported)
    → ((obligation escapes observed all_paths es u).targets ≡ u.targets)
      × (assumed (obligation escapes observed all_paths es u) ≤ 1 + assumed u)
unfolding obligation
obligation-counts escapes observed all_paths es u = (ground arith, ground arith)

count_cancels-counts :
    (cs : List CancelBinding) (u : Unsupported)
    → ((count_cancels cs u).targets ≡ u.targets)
      × (assumed (count_cancels cs u) ≤ length cs + assumed u)
unfolding count_cancels
count_cancels-counts [] u = (refl, omega arith)
count_cancels-counts (c ∷ cs) u =
    let one = obligation-counts c.escapes c.called c.called_on_all_paths c.evidence u in
    let rest =
      count_cancels-counts cs (obligation c.escapes c.called c.called_on_all_paths c.evidence u) in
    (rest.0 ∙ one.0, omega (arith, one.1, rest.1))

count_groups-counts :
    (gs : List JoinGroup) (u : Unsupported)
    → ((count_groups gs u).targets ≡ u.targets)
      × (assumed (count_groups gs u) ≤ length gs + assumed u)
unfolding count_groups
count_groups-counts [] u = (refl, omega arith)
count_groups-counts (g ∷ gs) u =
    let one = obligation-counts g.escapes g.joined g.joined_on_all_paths g.evidence u in
    let rest =
      count_groups-counts gs (obligation g.escapes g.joined g.joined_on_all_paths g.evidence u) in
    (rest.0 ∙ one.0, omega (arith, one.1, rest.1))

-- One goroutine: it is a target for the status just when the coverage lists it.
target-counts :
    (name : String) (g : Goroutine) (o : Option String) (u : Unsupported)
    → ((target o u).targets ≡ length (target_of name g o) + u.targets)
      × (assumed (target o u) ≡ assumed u)
      × (length (target_of name g o) ≤ 1)
unfolding target target_of
target-counts name g none u = (omega arith, refl, omega arith)
target-counts name g (some m) u = (omega arith, refl, omega arith)

count_goroutines-counts :
    (name : String) (gs : List Goroutine) (u : Unsupported) (acc : List UnsupportedTarget)
    → ((count_goroutines gs u).targets + length acc ≡ length (targets_of name gs acc) + u.targets)
      × (assumed (count_goroutines gs u) ≡ assumed u)
      × (length (targets_of name gs acc) ≤ length gs + length acc)
unfolding count_goroutines targets_of
count_goroutines-counts name [] u acc = (omega arith, refl, omega arith)
count_goroutines-counts name (g ∷ gs) u acc =
    let o = unsupported_reason g in
    let (now, same, one) = target-counts name g o u in
    let (rest, later, bound) =
      count_goroutines-counts name gs (target o u) (acc ++ target_of name g o) in
    let sizes = length-append acc (target_of name g o) in
    (omega (arith, now, rest, sizes), later ∙ same, omega (arith, bound, one, sizes))

-- What both loops have counted, from counts and a coverage that agree.
AgreeAt : Unsupported → Coverage → Type 0
AgreeAt u c =
    (u.targets ≡ length c.unsupported_targets)
    × (length c.unsupported_targets ≤ c.goroutines)
    × (assumed u ≤ c.cancel_bindings + c.groups)

count_functions-AgreeAt :
    (fns : List Function) (u : Unsupported) (c : Coverage)
    → AgreeAt u c
    → AgreeAt (count_functions fns u) (summarize_functions fns c)
unfolding AgreeAt count_functions summarize_functions summarize_function
count_functions-AgreeAt [] u c h = h
count_functions-AgreeAt (fn ∷ fns) u c (h, k, l) =
    let v = count_cancels fn.cancels u in
    let w = count_groups fn.groups v in
    let a = count_cancels-counts fn.cancels u in
    let b = count_groups-counts fn.groups v in
    let (d, e, f) = count_goroutines-counts fn.name fn.goroutines w c.unsupported_targets in
    count_functions-AgreeAt fns (count_goroutines fn.goroutines w) (summarize_function fn c)
      (omega (arith, h, a.0, b.0, d), omega (arith, k, f), omega (arith, l, a.1, b.1, e))

skipped :
    (analyzed discovered : ℕ)
    → let rest = if ltb analyzed discovered then discovered - analyzed else 0 in
      (analyzed + rest ≡ discovered) ⊎ ((rest ≡ 0) × (discovered ≤ analyzed))
skipped analyzed discovered = elim (Bool-cases (ltb analyzed discovered)) [
  | inl less ↦ inl (ground (arith, less))
  | inr more ↦ inr (ground (arith, more), ground (arith, more))
]

-- The status and the coverage of one program, which two loops compute, agree: the status counts as
-- many uninspected targets as the coverage lists, no more than there are goroutines; the approximated
-- places are at most as many as the constructs recognised; and the skipped functions are those
-- discovered beyond the ones analysed, and none if not fewer were analysed than discovered.
pub status_of-summarize :
    (fmt : Format) (p : Program) (assumptions : List String)
    → let status = status_of fmt p assumptions in
      let coverage = summarize p in
      (status.unsupported.targets ≡ length coverage.unsupported_targets)
      × (length coverage.unsupported_targets ≤ coverage.goroutines)
      × (unsupported_total status.unsupported ≤ recognized coverage)
      × ((status.units.analyzed + status.units.skipped ≡ status.units.discovered)
          ⊎ ((status.units.skipped ≡ 0) × (status.units.discovered ≤ status.units.analyzed)))
unfolding AgreeAt status_of summarize units_of
status_of-summarize fmt p assumptions =
    let (targets, listed, others) =
      count_functions-AgreeAt p.functions nothing_unsupported no_coverage
        (refl, omega arith, omega arith) in
    let units = skipped (length p.functions) p.function_count in
    (targets, listed, omega (arith, targets, listed, others), units)
