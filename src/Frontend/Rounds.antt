-- ===== src/Frontend/Rounds.antt =====
-- The rounds of one sync.WaitGroup in internal/frontend/frontend.go: the top-level statements of a
-- function, cut at the bare calls of Wait.
pub mod Sound
use lifeline.Prelude.{
  ℕ, zero, suc, ◌+◌, ◌-◌, String, Bool, true, false, not, ◌&&◌, Option, none, some,
}
use lifeline.Prelude.{List, [], ◌∷◌, ◌++◌, take, drop, ltb, str_eq, if◌then◌else◌}
use lifeline.Model.Source.{Evidence}
use lifeline.Model.Facts.{JoinGroup}
use lifeline.Engine.Diagnostics.{Format}
use lifeline.Engine.Findings.{text}
use lifeline.Frontend.Balance.{
  Stmt, Stmts, wait_call, block_stmt, labeled_stmt, no_stmts, more_stmts, Balance, no_balance,
  walk_stmts, mentions,
}

-- `flattenTopLevelStmts`, on a statement and on a list.
unfoldable mutual
  pub flatten_stmt : Stmt → List Stmt
  flatten_stmt (block_stmt body) = flatten_top_level_stmts body
  flatten_stmt (labeled_stmt s) = flatten_stmt s
  flatten_stmt s = s ∷ []

  pub flatten_top_level_stmts : Stmts → List Stmt
  flatten_top_level_stmts no_stmts = []
  flatten_top_level_stmts (more_stmts s rest) = flatten_stmt s ++ flatten_top_level_stmts rest

abbrev pub is_wait : Stmt → Bool
is_wait wait_call = true
is_wait _ = false

-- The positions of the bare calls of Wait, from `pos` on, as `buildGroupBalanceIndex` records them.
unfoldable pub wait_positions : ℕ → List Stmt → List ℕ
wait_positions pos [] = []
wait_positions pos (s ∷ rest) =
    let later = wait_positions (suc pos) rest in if is_wait s then pos ∷ later else later

-- A slice of statements as a list of the syntax.
abbrev pub stmts_of : List Stmt → Stmts
stmts_of [] = no_stmts
stmts_of (s ∷ rest) = more_stmts s (stmts_of rest)

abbrev pub slice : List Stmt → ℕ → ℕ → Stmts
slice top lo hi = stmts_of (take (hi - lo) (drop lo top))

-- The locals of the loop over the positions, and the group.
pub record Progress : Type 0 where
  pub running : Balance
  pub start : ℕ
  pub round : ℕ
  pub group : JoinGroup

unfoldable pub accumulate : Balance → Balance → Balance
accumulate running bal = record running {
  add_total = running.add_total + bal.add_total;
  done_total = running.done_total + bal.done_total;
  fully_known = bal.fully_known && running.fully_known;
}

module _ (fmt : Format) (top : List Stmt) where
  unfoldable pub note_round : Balance → ℕ → JoinGroup → JoinGroup
  note_round running round g =
      if running.fully_known && (ltb running.done_total running.add_total && not g.count_mismatch)
      then record g {
        count_mismatch = true;
        evidence =
            g.evidence
            ++ (record {
              kind = "count-mismatch";
              message = text (
                  "literal accounting shows "
                  ∷ fmt.decimal (running.add_total - running.done_total)
                  ∷ " more Add than Done by this group's Wait call "
                  ∷ fmt.decimal (suc round)
                  ∷ "; that call may never return"
                  ∷ []);
              span = none;
            })
              ∷ [];
      }
      else g

  unfoldable pub close_round : ℕ → Progress → Progress
  close_round pos p =
      let running = accumulate p.running (walk_stmts mentions (slice top p.start pos) no_balance) in
      record {
        running = running;
        start = suc pos;
        round = suc p.round;
        group = note_round running p.round p.group;
      }

  unfoldable pub close_rounds : List ℕ → Progress → Progress
  close_rounds [] p = p
  close_rounds (pos ∷ rest) p = close_rounds rest (close_round pos p)

  -- The statements after the last Wait.
  unfoldable pub note_trailing : Balance → JoinGroup → JoinGroup
  note_trailing trailing g =
      if ltb 0 trailing.spawned
      then record g {
        unjoined_round = true;
        evidence =
            g.evidence
            ++ (record {
              kind = "unjoined-round";
              message =
                  "a further round of work is started after this group's last Wait call, with no further Wait to join it";
              span = none;
            })
              ∷ [];
      }
      else g

  unfoldable pub trailing_of : ℕ → Balance
  trailing_of start = walk_stmts mentions (stmts_of (drop start top)) no_balance

  unfoldable pub rounds_from : List ℕ → JoinGroup → JoinGroup
  rounds_from [] g = g
  rounds_from (pos ∷ rest) g =
      let p =
        close_rounds (pos ∷ rest)
          (record { running = no_balance; start = 0; round = 0; group = g }) in
      note_trailing (trailing_of p.start) p.group

-- A round of `computeGroupRoundBalances`; the body is as the group's object sees it, and none where the
-- group has no object.
unfoldable pub compute_group_round_balance : Format → Option Stmts → JoinGroup → JoinGroup
compute_group_round_balance fmt none g = g
compute_group_round_balance fmt (some body) g =
    let top = flatten_top_level_stmts body in
    if str_eq g.kind "waitgroup" then rounds_from fmt top (wait_positions 0 top) g else g
