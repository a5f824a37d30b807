-- ===== src/Planner/Grouping/Ranked.antt =====
-- crates/hyperindex-planner/src/result_grouping.rs: the order of the groups, and their ids.
use repo_hyperindex.Base.{
  ◌≡◌, Bool, true, ◌&&◌, ◌||◌, List, [], ◌∷◌, All, All-imp, any, arith, ltb, ◌==◌,
}
use repo_hyperindex.Base.Order.{beq, not_gt}
use repo_hyperindex.Base.Sort.{IsSorted}
use repo_hyperindex.Base.Text.{text_ord, Text}
use repo_hyperindex.Base.Dict.{Dict, contains_key, get, get-insert}
use repo_hyperindex.Planner.Fusion.{FusedCandidate}
use repo_hyperindex.Planner.Grouping.{
  PlannerResultGroup, grouping_key, pushed, push_member, push_members, score_or_zero, group_order,
}

-- The better group stands first: a higher score, or the lesser id where the scores are equal.
abbrev pub is_before : PlannerResultGroup → PlannerResultGroup → Bool
is_before g h =
    ltb (score_or_zero h) (score_or_zero g)
    || (score_or_zero g == score_or_zero h && not_gt (text_ord.cmp g.group_id h.group_id))

abbrev pub AreBestFirst : List PlannerResultGroup → Type 0
AreBestFirst [] = Unit
AreBestFirst (g ∷ groups) = All (λ h. is_before g h ≡ true) groups × AreBestFirst groups

group_order-is_before :
    (g h : PlannerResultGroup) → not_gt (group_order g h) ≡ true → is_before g h ≡ true
unfolding group_order
group_order-is_before g h first = ground arith

pub IsSorted-AreBestFirst :
    (groups : List PlannerResultGroup) → IsSorted group_order groups → AreBestFirst groups
IsSorted-AreBestFirst [] h = tt
IsSorted-AreBestFirst (g ∷ groups) h = (
  All-imp (λ x first. group_order-is_before g x first) groups h.0,
  IsSorted-AreBestFirst groups h.1,
)

-- A group has the id exactly if a candidate has it as its key.
abbrev pub has_id : Text → List PlannerResultGroup → Bool
has_id id groups = any (λ g. beq g.group_id id) groups

abbrev pub has_key : Text → List FusedCandidate → Bool
has_key id cs = any (λ c. beq (grouping_key c) id) cs

pub push_members-has_key :
    (d : Dict Text (List FusedCandidate)) (cs : List FusedCandidate) (id : Text)
    → contains_key (push_members d cs) id ≡ (contains_key d id || has_key id cs)
unfolding push_members push_member
push_members-has_key d [] id = ground arith
push_members-has_key d (c ∷ cs) id = ground (
  arith,
  push_members-has_key (push_member d c) cs id,
  get-insert d (grouping_key c) id (pushed (get d (grouping_key c)) c),
)
