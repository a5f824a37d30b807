-- ===== src/Planner/Grouping/Answer.antt =====
-- crates/hyperindex-planner/src/result_grouping.rs: what the groups of an answer are.
use mathlib.Core.List.{Perm}
use mathlib.Core.List.Perm
use repo_hyperindex.Base.{
  ℕ, zero, suc, ◌≡◌, refl, ap, sym, false, any, any-map, Option, none, some, List, [], ◌∷◌, map,
  All, flat_map, inl, inr, Bool-cases, arith, length, ◌≤◌, count, take, compare, ap₂, length-append,
  length-map, count-map,
}
use repo_hyperindex.Base.Order.{nat_ord, beq, beq_iff}
use repo_hyperindex.Base.Text.{text_ord, Text}
use repo_hyperindex.Base.Sort.{
  sort_by, sort_by-IsSorted, count-sort_by, any-sort_by, length-sort_by, by_key, by_key-IsWeak,
  flip-IsWeak, both-IsWeak, IsWeak,
}
use repo_hyperindex.Base.Dict.{Dict, empty, get, get-empty, keys-get, insert, insert_entry}
use repo_hyperindex.Base.Ascending.{IsAscending-Distinct}
use repo_hyperindex.Base.Distinct.{Distinct, contains}
use repo_hyperindex.Base.Gather.{flat_map-sort_by}
use repo_hyperindex.Planner.Fusion.{FusedCandidate}
use repo_hyperindex.Planner.Grouping.{
  PlannerResultGroup, grouping_key, member_order, group_sorted, build_group, pushed, push_member,
  push_members, build_groups, score_or_zero, group_order, group,
}
use repo_hyperindex.Planner.Grouping.Ranked.{
  AreBestFirst, IsSorted-AreBestFirst, has_id, has_key, push_members-has_key,
}
use repo_hyperindex.Planner.Grouping.Entries.{
  Entry, members_evidence, entry_evidence, entry_keys, push_members-IsOrdered, push_members-len,
  push_members-evidence,
}

module _ {ℓ} {A : Type ℓ} where
  take-all : (n : ℕ) (xs : List A) → length xs ≤ n → take n xs ≡ xs
  take-all zero [] h = refl
  take-all zero (x ∷ xs) h = absurd (omega (arith, h))
  take-all (suc n) [] h = refl
  take-all (suc n) (x ∷ xs) h = ap (λ ys. x ∷ ys) (take-all n xs (omega (arith, h)))

sorted-has_key :
    (cs : List FusedCandidate) (gs : List PlannerResultGroup) (id : Text)
    → map (λ (g : PlannerResultGroup). g.group_id) gs ≡ entry_keys (push_members empty cs).entries
    → has_id id (sort_by group_order gs) ≡ has_key id cs
sorted-has_key cs gs id named = ground (
  arith,
  any-sort_by group_order (λ g. beq g.group_id id) gs,
  any-map (λ (g : PlannerResultGroup). g.group_id) (λ x. beq x id) gs,
  ap (any (λ x. beq x id)) named,
  keys-get (push_members empty cs) id,
  push_members-has_key empty cs id,
  get-empty {V = List FusedCandidate} id,
)

group_order-IsWeak : IsWeak group_order
unfolding group_order
group_order-IsWeak =
    both-IsWeak (λ a b. compare (score_or_zero b) (score_or_zero a)) _
      (flip-IsWeak (by_key score_or_zero) (by_key-IsWeak score_or_zero))
      (by_key-IsWeak (λ g. g.group_id))

-- A key with members.
abbrev IsFull : Entry → Type 0
IsFull e = 1 ≤ length e.1

group_sorted-some :
    (group_id : Text) (members : List FusedCandidate)
    → 1 ≤ length members
    → (g : PlannerResultGroup) × (group_sorted group_id members ≡ some g)
      × (g.evidence ≡ members_evidence members)
      × (g.group_id ≡ group_id)
unfolding group_sorted
group_sorted-some group_id [] h = absurd (omega (arith, h))
group_sorted-some group_id (m ∷ members) h = (_, refl, refl, refl)

build_groups-some :
    (m : List Entry)
    → All IsFull m
    → (groups : List PlannerResultGroup) × (build_groups m ≡ some groups)
      × Perm (flat_map (λ (g : PlannerResultGroup). g.evidence) groups) (flat_map entry_evidence m)
      × (map (λ (g : PlannerResultGroup). g.group_id) groups ≡ entry_keys m)
unfolding build_group
build_groups-some [] h = ([], refl, Perm.refl [], refl)
build_groups-some ((k, members) ∷ m) h =
    let sorted = sort_by member_order members in
    let (g, built, same, named) =
      group_sorted-some k sorted (omega (arith, h.0, length-sort_by member_order members)) in
    let (gs, all_built, all_same, all_named) = build_groups-some m h.1 in
    (
      g ∷ gs,
      rw (built, all_built) refl,
      rw same (
          Perm.append
            (flat_map-sort_by (λ (c : FusedCandidate). c.merged_evidence) member_order members)
            all_same),
      ap₂ (λ x xs. x ∷ xs) named all_named,
    )

insert_entry-IsFull :
    (k : Text) (ms : List FusedCandidate) (m : List Entry)
    → 1 ≤ length ms
    → All IsFull m
    → All IsFull (insert_entry k ms m)
unfolding insert_entry
insert_entry-IsFull k ms [] p h = (p, tt)
insert_entry-IsFull k ms ((i, w) ∷ m) p h = ground (arith, insert_entry-IsFull k ms m)

pushed-full : (old : Option (List FusedCandidate)) (c : FusedCandidate) → 1 ≤ length (pushed old c)
pushed-full none c = omega arith
pushed-full (some ms) c = omega (arith, length-append ms (c ∷ []))

push_members-IsFull :
    (d : Dict Text (List FusedCandidate)) (cs : List FusedCandidate)
    → All IsFull d.entries
    → All IsFull (push_members d cs).entries
unfolding push_members push_member insert
push_members-IsFull d [] h = h
push_members-IsFull d (c ∷ cs) h =
    push_members-IsFull (push_member d c) cs
      (insert_entry-IsFull (grouping_key c) _ d.entries (pushed-full (get d (grouping_key c)) c) h)

at_most_once : (ks : List Text) (k : Text) → Distinct ks → count (λ x. beq x k) ks ≤ 1
at_most_once [] k d = omega arith
at_most_once (x ∷ ks) k d = elim (Bool-cases (beq x k)) [
  | inl e ↦ rw e (omega (arith, none_left ks k (rw (sym ((beq_iff x k).0 e)) d.0)))
  | inr e ↦ rw e (at_most_once ks k d.1)
]
  where
    none_left : (ks : List Text) (k : Text) → contains ks k ≡ false → count (λ x. beq x k) ks ≡ 0
    none_left [] k h = refl
    none_left (x ∷ ks) k h = ground (arith, none_left ks k)

-- All groups of some candidates, the best first.
abbrev ranked : List PlannerResultGroup → List PlannerResultGroup
ranked groups = sort_by group_order groups

-- Grouping always returns. There is one list of all groups, of which an answer has the first `limit`,
-- and the whole for a limit of the number of candidates. It goes from the highest score to the lowest
-- and by id where scores are equal; an id stands in it at most once, and exactly if it is the key of
-- some candidate; and its evidence is the evidence of the candidates, rearranged.
pub group_answer :
    (cs : List FusedCandidate) (limit : ℕ) (id : Text)
    → (groups : List PlannerResultGroup) × (group cs limit ≡ some (take limit groups))
      × (group cs (length cs) ≡ some groups)
      × AreBestFirst groups
      × (count (λ (g : PlannerResultGroup). beq g.group_id id) groups ≤ 1)
      × (has_id id groups ≡ has_key id cs)
      × Perm
          (flat_map (λ (g : PlannerResultGroup). g.evidence) groups)
          (flat_map (λ (c : FusedCandidate). c.merged_evidence) cs)
unfolding group
group_answer cs limit id =
    let m = push_members empty cs in
    let (gs, built, same, named) = build_groups-some m.entries (push_members-IsFull empty cs tt) in
    let ids = IsAscending-Distinct (entry_keys m.entries) (push_members-IsOrdered empty cs tt) in
    let few : length (ranked gs) ≤ length cs = omega (
      arith,
      length-sort_by group_order gs,
      length-map (λ (g : PlannerResultGroup). g.group_id) gs,
      ap length named,
      length-map (λ (e : Entry). e.0) m.entries,
      push_members-len empty cs tt,
    ) in
    (
      ranked gs,
      rw built refl,
      rw built (ap some (take-all (length cs) (ranked gs) few)),
      IsSorted-AreBestFirst (ranked gs) (sort_by-IsSorted group_order group_order-IsWeak gs),
      omega (
        arith,
        count-sort_by group_order (λ (g : PlannerResultGroup). beq g.group_id id) gs,
        count-map (λ (g : PlannerResultGroup). g.group_id) (λ x. beq x id) gs,
        ap (count (λ x. beq x id)) named,
        at_most_once (entry_keys m.entries) id ids,
      ),
      sorted-has_key cs gs id named,
      Perm.trans (flat_map-sort_by (λ (g : PlannerResultGroup). g.evidence) group_order gs)
          (Perm.trans same (push_members-evidence empty cs tt)),
    )
