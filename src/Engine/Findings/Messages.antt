-- ===== src/Engine/Findings/Messages.antt =====
-- What the message about a group that is not joined says.
use lifeline.Prelude.{
  String, Bool, true, false, not, ◌&&◌, some, ◌≡◌, arith, if◌then◌else◌, Bool-cases, inl, inr, refl,
}
use lifeline.Prelude.{subst, sym}
use lifeline.Model.Facts.{JoinGroup, Function, Program}
use lifeline.Config.{Config}
use lifeline.Engine.Diagnostics.{Format, base}
use lifeline.Engine.Findings.{
  JoinFailure, text, join_failure, also_mismatch, also_round, is_errgroup, join_message,
  full_join_message, join_finding,
}
use Prim.Native.String.{◌++◌ as cat}

-- A text that a part of another one is.
pub data Mentions (part : String) : String → Type 0 where
  itself : Mentions part part
  in_first : (s t : String) → Mentions part s → Mentions part (cat s t)
  in_second : (s t : String) → Mentions part t → Mentions part (cat s t)

within : (before part after : String) → Mentions part (cat before (cat part after))
within before part after = in_second before (cat part after) (in_first part after itself)

-- An addition keeps what is said, and is said where it is made.
kept_by :
    (part : String) (c : Bool) (s t : String)
    → Mentions part s
    → Mentions part (if c then cat s t else s)
kept_by part true s t h = in_first s t h
kept_by part false s t h = h

added_by :
    (part : String) (c : Bool) (s t : String)
    → c ≡ true
    → Mentions part t
    → Mentions part (if c then cat s t else s)
added_by part true s t e h = in_second s t h
added_by part false s t e h = absurd (cc (e))

not_replaced :
    (part : String) (c : Bool) (s t : String)
    → c ≡ false
    → Mentions part t
    → Mentions part (if c then s else t)
not_replaced part false s t e h = h
not_replaced part true s t e h = absurd (cc (e))

module _ (fmt : Format) (g : JoinGroup) where
  opening :
      (f : JoinFailure)
      → join_failure g ≡ f
      → (part : String) → Mentions part (join_message fmt g f)
      → (is_errgroup g && not g.joined) ≡ false
      → Mentions part (full_join_message fmt g)
  unfolding full_join_message
  opening f e part h kept = not_replaced part (is_errgroup g && not g.joined) _ _ kept (
      kept_by part (also_round g) _ _ (
        kept_by part (also_mismatch g) _ _
          (subst (λ x. Mentions part (join_message fmt g x)) (sym e) h)))

  says_unjoined :
      Mentions "no Wait or ownership transfer is observed" (join_message fmt g JoinFailure.unjoined)
  unfolding join_message text
  says_unjoined = in_second _ _ (
      in_second _ _ (
        in_second _ _ (
          in_second _ _ (
            in_second _ _
              (within " worker start(s) but " "no Wait or ownership transfer is observed" "")))))

  says_some_paths : Mentions "not every path" (join_message fmt g JoinFailure.some_paths)
  unfolding join_message text
  says_some_paths = in_second _ _ (
      in_second _ _ (
        in_second _ _
          (within " is joined on some but " "not every path" " back to the owner's return")))

  says_further_round :
      Mentions "a further round of work" (join_message fmt g JoinFailure.further_round)
  unfolding join_message text
  says_further_round = in_second _ _ (
      in_second _ _ (
        in_second _ _ (
          within " starts " "a further round of work"
            " after its last observed Wait call, with no further Wait to join it")))

  says_outstanding :
      Mentions "literal Add/Done accounting" (join_message fmt g JoinFailure.outstanding)
  unfolding join_message text
  says_outstanding = in_second _ _ (
      in_second _ _ (
        in_second _ _ (
          within " is joined on every path, but " "literal Add/Done accounting"
            " proves an outstanding worker; Wait may never return")))

  accounting_added :
      also_mismatch g ≡ true
      → (is_errgroup g && not g.joined) ≡ false
      → Mentions "literal Add/Done accounting" (full_join_message fmt g)
  unfolding full_join_message
  accounting_added added kept = not_replaced _ (is_errgroup g && not g.joined) _ _ kept (
      kept_by _ (also_round g) _ _ (
        added_by _ (also_mismatch g) _ _ added (
          within "; independently, " "literal Add/Done accounting"
            " also shows an outstanding worker")))

  round_added :
      also_round g ≡ true
      → (is_errgroup g && not g.joined) ≡ false
      → Mentions "a further round of work" (full_join_message fmt g)
  unfolding full_join_message
  round_added added kept = not_replaced _ (is_errgroup g && not g.joined) _ _ kept (
      added_by _ (also_round g) _ _ added (
        within "; independently, " "a further round of work"
          " after the last Wait call is never joined"))

  first_unjoined : g.joined ≡ false → join_failure g ≡ JoinFailure.unjoined
  unfolding join_failure
  first_unjoined h = rw h refl

  first_some_paths :
      g.joined ≡ true → g.joined_on_all_paths ≡ some false → join_failure g ≡ JoinFailure.some_paths
  unfolding join_failure
  first_some_paths h k = rw h (rw k refl)

  first_further_round :
      g.unjoined_round ≡ true → also_round g ≡ false → join_failure g ≡ JoinFailure.further_round
  unfolding join_failure also_round
  first_further_round h k = ground (arith, h, k)

  first_outstanding :
      g.count_mismatch ≡ true → also_mismatch g ≡ false → join_failure g ≡ JoinFailure.outstanding
  unfolding join_failure also_mismatch
  first_outstanding h k = ground (arith, h, k)

module _ (fmt : Format) (p : Program) (cfg : Config) (fn : Function) where
  -- The message about a group that is not joined, unless it is an errgroup without a Wait, whose message is another,
  -- names every question that failed for the group, not only the first one: that no Wait was seen, or that
  -- not every path meets one, that the literal accounting shows a worker outstanding, and that a further
  -- round of work is not joined.
  pub join_finding-Mentions :
      (g : JoinGroup)
      → (is_errgroup g && not g.joined) ≡ false
      → let message = (join_finding fmt p cfg fn g).message in
        (g.joined ≡ false → Mentions "no Wait or ownership transfer is observed" message)
        × (g.joined ≡ true → g.joined_on_all_paths ≡ some false → Mentions "not every path" message)
        × (g.count_mismatch ≡ true → Mentions "literal Add/Done accounting" message)
        × (g.unjoined_round ≡ true → Mentions "a further round of work" message)
  unfolding join_finding base
  join_finding-Mentions g kept = (
    (λ h. opening fmt g JoinFailure.unjoined (first_unjoined fmt g h) _ (says_unjoined fmt g) kept),
    (λ h k.
        opening fmt g JoinFailure.some_paths (first_some_paths fmt g h k) _ (says_some_paths fmt g)
          kept),
    (λ h. elim (Bool-cases (also_mismatch g)) [
      | inl added ↦ accounting_added fmt g added kept
      | inr alone ↦
          opening fmt g JoinFailure.outstanding (first_outstanding fmt g h alone) _
            (says_outstanding fmt g) kept
    ]),
    (λ h. elim (Bool-cases (also_round g)) [
      | inl added ↦ round_added fmt g added kept
      | inr alone ↦
          opening fmt g JoinFailure.further_round (first_further_round fmt g h alone) _
            (says_further_round fmt g) kept
    ]),
  )
