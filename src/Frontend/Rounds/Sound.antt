-- ===== src/Frontend/Rounds/Sound.antt =====
-- A mismatch that the accounting by rounds reports concerns a Wait that cannot return.
use lifeline.Prelude.{ℕ, zero, suc, ◌+◌, ◌-◌, ◌≤◌, ◌<◌, ◌≡◌, refl, sym, ap, ◌∙◌, subst, arith}
use lifeline.Prelude.{Bool, true, false, ◌&&◌, some, List, [], ◌∷◌, ◌++◌, take, drop, ltb}
use lifeline.Prelude.{if◌then◌else◌, get_elem?, take-split, take-suc, Bool-cases, inl, inr}
use lifeline.Model.Facts.{JoinGroup}
use lifeline.Engine.Diagnostics.{Format}
use lifeline.Frontend.Balance.{
  Stmt, Stmts, wait_call, no_stmts, Balance, no_balance, walk_stmts, walk_body, mentions,
  block_stmt, labeled_stmt, more_stmts,
}
use lifeline.Frontend.Balance.Runs.{
  falls, RunsList, nothing, in_order, cut_short, waits, is_plain, list_is_plain,
}
use lifeline.Frontend.Balance.Sound.{walk_body-bound}
use lifeline.Frontend.Balance.Index.{walk_body-index}
use lifeline.Frontend.Rounds.{
  flatten_stmt, flatten_top_level_stmts, is_wait, wait_positions, stmts_of, slice, Progress,
  accumulate, note_round, close_round, close_rounds, note_trailing, rounds_from,
  compute_group_round_balance,
}

-- The runs of two lists in a row are sums of runs.
abbrev Split : List Stmt → List Stmt → ℕ → ℕ → Type 0
Split xs ys a d =
    (a₁ : ℕ) × (d₁ : ℕ) × (a₂ : ℕ) × (d₂ : ℕ) × RunsList (stmts_of xs) falls a₁ d₁
    × RunsList (stmts_of ys) falls a₂ d₂
    × (a₁ + a₂ ≡ a)
    × (d₁ + d₂ ≡ d)

cut_run : (xs ys : List Stmt) (a d : ℕ) → RunsList (stmts_of (xs ++ ys)) falls a d → Split xs ys a d
cut_run [] ys a d r = (0, 0, a, d, nothing, r, omega arith, omega arith)
cut_run (x ∷ xs) ys _ _ (cut_short r n) = absurd (n refl)
cut_run (x ∷ xs) ys _ _ (in_order {a} {d} {b} {e} r q) =
    let (a₁, d₁, a₂, d₂, r₁, r₂, ea, ed) = cut_run xs ys b e q in
    (a + a₁, d + d₁, a₂, d₂, in_order r r₁, r₂, omega (arith, ea), omega (arith, ed))

-- The runs of a list that consists of one call of Wait.
RunsList-wait : (a d : ℕ) → RunsList (stmts_of (wait_call ∷ [])) falls a d → (a ≡ 0) × (d ≡ 0)
RunsList-wait _ _ (in_order waits nothing) = (omega arith, omega arith)
RunsList-wait _ _ (cut_short r n) = absurd (n refl)

-- Positions of calls of Wait, in order, none before `start`.
ArePositions : List Stmt → ℕ → List ℕ → Type 0
ArePositions top start [] = Unit
ArePositions top start (p ∷ ps) =
    (start ≤ p) × (get_elem? top p ≡ some wait_call) × ArePositions top (suc p) ps

ArePositions-earlier :
    (top : List Stmt) (start : ℕ) (ps : List ℕ)
    → ArePositions top (suc start) ps
    → ArePositions top start ps
unfolding ArePositions
ArePositions-earlier top start [] h = tt
ArePositions-earlier top start (p ∷ ps) (l, e, h) = (omega (arith, l), e, h)

is_wait-eq : (s : Stmt) → is_wait s ≡ true → s ≡ wait_call
is_wait-eq wait_call h = refl
is_wait-eq _ h = absurd (cc)

ArePositions-if :
    (top : List Stmt) (pos : ℕ) (s : Stmt) (later : List ℕ)
    → get_elem? top pos ≡ some s
    → ArePositions top (suc pos) later
    → ArePositions top pos (if is_wait s then pos ∷ later else later)
unfolding ArePositions
ArePositions-if top pos s later e h = by_test (is_wait s) refl
  where
    by_test : (b : Bool) → is_wait s ≡ b → ArePositions top pos (if b then pos ∷ later else later)
    by_test true w = (omega arith, e ∙ ap some (is_wait-eq s w), h)
    by_test false w = ArePositions-earlier top pos later h

wait_positions-ArePositions :
    (top : List Stmt) (pos : ℕ) (rest : List Stmt)
    → ((i : ℕ) → get_elem? top (pos + i) ≡ get_elem? rest i)
    → ArePositions top pos (wait_positions pos rest)
unfolding wait_positions ArePositions
wait_positions-ArePositions top pos [] h = tt
wait_positions-ArePositions top pos (s ∷ rest) h =
    ArePositions-if top pos s (wait_positions (suc pos) rest)
      (ap (get_elem? top) (omega arith) ∙ h 0)
      (wait_positions-ArePositions top (suc pos) rest
        (λ i. ap (get_elem? top) (omega arith) ∙ h (suc i)))

-- What is known of the counter after the first statements.
Bounded : List Stmt → Balance → ℕ → Type 0
Bounded top running n =
    (a d : ℕ)
    → running.fully_known ≡ true
    → RunsList (stmts_of (take n top)) falls a d
    → running.add_total + d ≤ running.done_total + a

-- A call of Wait before which every run adds more than is taken off.
abbrev pub BlockedWait : List Stmt → Type 0
BlockedWait top =
    (p : ℕ) × (get_elem? top p ≡ some wait_call)
    × ((a d : ℕ) → RunsList (stmts_of (take p top)) falls a d → d < a)

Bounded-wait :
    (top : List Stmt) (running : Balance) (p : ℕ)
    → get_elem? top p ≡ some wait_call
    → Bounded top running p
    → Bounded top running (suc p)
unfolding Bounded
Bounded-wait top running p e h a d known r =
    let (a₁, d₁, a₂, d₂, r₁, r₂, ea, ed) =
      cut_run (take p top) (wait_call ∷ []) a d
        (subst (λ xs. RunsList (stmts_of xs) falls a d) (take-suc p top wait_call e) r) in
    let (za, zd) = RunsList-wait a₂ d₂ r₂ in omega (arith, h a₁ d₁ known r₁, ea, ed, za, zd)

plain-take :
    (n : ℕ) (ss : List Stmt)
    → list_is_plain (stmts_of ss) ≡ true
    → list_is_plain (stmts_of (take n ss)) ≡ true
unfolding list_is_plain
plain-take zero ss h = refl
plain-take (suc n) [] h = refl
plain-take (suc n) (s ∷ ss) h = ground (arith, h, plain-take n ss)

plain-drop :
    (n : ℕ) (ss : List Stmt)
    → list_is_plain (stmts_of ss) ≡ true
    → list_is_plain (stmts_of (drop n ss)) ≡ true
unfolding list_is_plain
plain-drop zero ss h = h
plain-drop (suc n) [] h = refl
plain-drop (suc n) (s ∷ ss) h = plain-drop n ss (ground (arith, h))

plain-append :
    (xs ys : List Stmt)
    → list_is_plain (stmts_of xs) ≡ true
    → list_is_plain (stmts_of ys) ≡ true
    → list_is_plain (stmts_of (xs ++ ys)) ≡ true
unfolding list_is_plain
plain-append [] ys h k = k
plain-append (x ∷ xs) ys h k = ground (arith, h, plain-append xs ys, k)

plain_one : (s : Stmt) → is_plain s ≡ true → list_is_plain (stmts_of (s ∷ [])) ≡ true
unfolding list_is_plain
plain_one s h = ground (arith, h)

mutual
  unfolding flatten_stmt flatten_top_level_stmts is_plain list_is_plain

  plain-flatten_stmt :
      (s : Stmt) → is_plain s ≡ true → list_is_plain (stmts_of (flatten_stmt s)) ≡ true
  plain-flatten_stmt (block_stmt body) h = plain-flatten body h
  plain-flatten_stmt (labeled_stmt s) h = plain-flatten_stmt s h
  plain-flatten_stmt s h = plain_one s h

  plain-flatten :
      (ss : Stmts)
      → list_is_plain ss ≡ true
      → list_is_plain (stmts_of (flatten_top_level_stmts ss)) ≡ true
  plain-flatten no_stmts h = refl
  plain-flatten (more_stmts s rest) h =
      plain-append (flatten_stmt s) (flatten_top_level_stmts rest)
        (plain-flatten_stmt s (ground (arith, h))) (plain-flatten rest (ground (arith, h)))

module _ (top : List Stmt) (plain : list_is_plain (stmts_of top) ≡ true) where
  plain-slice : (start pos : ℕ) → list_is_plain (slice top start pos) ≡ true
  plain-slice start pos = plain-take (pos - start) (drop start top) (plain-drop start top plain)

  segment_bound :
      (ss : Stmts) (a d : ℕ)
      → list_is_plain ss ≡ true
      → (walk_stmts mentions ss no_balance).fully_known ≡ true
      → RunsList ss falls a d
      → (walk_stmts mentions ss no_balance).add_total + d
        ≤ (walk_stmts mentions ss no_balance).done_total + a
  unfolding walk_body
  segment_bound ss a d even_so =
      subst (λ b. b.fully_known ≡ true → RunsList ss falls a d → b.add_total + d ≤ b.done_total + a)
        (sym (walk_body-index ss)) (walk_body-bound ss a d even_so)

  Bounded-accumulate :
      (running : Balance) (start pos : ℕ)
      → start ≤ pos
      → Bounded top running start
      → Bounded top (accumulate running (walk_stmts mentions (slice top start pos) no_balance)) pos
  unfolding Bounded accumulate
  Bounded-accumulate running start pos l h a d known r =
      let (a₁, d₁, a₂, d₂, r₁, r₂, ea, ed) =
        cut_run (take start top) (take (pos - start) (drop start top)) a d (
          subst (λ xs. RunsList (stmts_of xs) falls a d)
            (take-split start (pos - start) pos top (omega arith)) r) in
      let segment =
        segment_bound (slice top start pos) a₂ d₂ (plain-slice start pos) (ground (arith, known))
          r₂ in
      let before = h a₁ d₁ (ground (arith, known)) r₁ in omega (arith, segment, before, ea, ed)

  -- The test of a round is met only at a call of Wait that is blocked.
  note_round-Blocked :
      (fmt : Format) (running : Balance) (round pos : ℕ) (g : JoinGroup)
      → get_elem? top pos ≡ some wait_call
      → Bounded top running pos
      → g.count_mismatch ≡ false
      → (note_round fmt top running round g).count_mismatch ≡ true
      → BlockedWait top
  unfolding Bounded note_round
  note_round-Blocked fmt running round pos g e h unset set =
      elim (Bool-cases (running.fully_known && ltb running.done_total running.add_total)) [
        | inl found ↦ (pos, e, λ a d r. ground (arith, found, h a d (ground (arith, found)) r))
        | inr missed ↦ absurd (ground (arith, missed, set, unset))
      ]

  close_rounds-Blocked :
      (fmt : Format) (ps : List ℕ) (p : Progress)
      → ArePositions top p.start ps
      → Bounded top p.running p.start
      → p.group.count_mismatch ≡ false
      → (close_rounds fmt top ps p).group.count_mismatch ≡ true
      → BlockedWait top
  unfolding ArePositions close_rounds close_round
  close_rounds-Blocked fmt [] p h k unset set = absurd (cc)
  close_rounds-Blocked fmt (pos ∷ rest) p (l, e, h) k unset set =
      let running = accumulate p.running (walk_stmts mentions (slice top p.start pos) no_balance) in
      let here = Bounded-accumulate p.running p.start pos l k in
      elim (Bool-cases (note_round fmt top running p.round p.group).count_mismatch) [
        | inl now ↦ note_round-Blocked fmt running p.round pos p.group e here unset now
        | inr later ↦
            close_rounds-Blocked fmt rest (close_round fmt top pos p) h
              (Bounded-wait top running pos e here) later set
      ]

  note_trailing-same :
      (fmt : Format) (trailing : Balance) (g : JoinGroup)
      → (note_trailing fmt top trailing g).count_mismatch ≡ g.count_mismatch
  unfolding note_trailing
  note_trailing-same fmt trailing g = ground arith

  rounds_from-Blocked :
      (fmt : Format) (ps : List ℕ) (g : JoinGroup)
      → ArePositions top 0 ps
      → g.count_mismatch ≡ false
      → (rounds_from fmt top ps g).count_mismatch ≡ true
      → BlockedWait top
  unfolding rounds_from Bounded
  rounds_from-Blocked fmt [] g h unset set = absurd (cc)
  rounds_from-Blocked fmt (pos ∷ rest) g h unset set =
      close_rounds-Blocked fmt (pos ∷ rest)
        (record { running = no_balance; start = 0; round = 0; group = g }) h
        (λ a d known r. nothing_run a d r) unset (sym (note_trailing-same fmt _ _) ∙ set)
    where
      nothing_run : (a d : ℕ) → RunsList no_stmts falls a d → 0 + d ≤ 0 + a
      nothing_run _ _ nothing = omega arith

-- A count mismatch that `computeGroupRoundBalances` reports is real for a body that the accounting reads whole: one
-- without break, continue and goto, that defers no Add, and in which nothing else changes the counter, no
-- worker by more than one Done. Among the statements at the top of the function there is then a bare call of
-- Wait such that every run that comes to it has added more units than calls of Done can take off, so that
-- call never returns.
pub compute_group_round_balance-IsSound :
    (fmt : Format) (body : Stmts) (g : JoinGroup)
    → list_is_plain body ≡ true
    → g.count_mismatch ≡ false
    → (compute_group_round_balance fmt (some body) g).count_mismatch ≡ true
    → BlockedWait (flatten_top_level_stmts body)
unfolding compute_group_round_balance
compute_group_round_balance-IsSound fmt body g plain unset set =
    let top = flatten_top_level_stmts body in
    rounds_from-Blocked top (plain-flatten body plain) fmt (wait_positions 0 top) g
      (wait_positions-ArePositions top 0 top (λ i. ap (get_elem? top) (omega arith))) unset
      (ground (arith, set, unset))
