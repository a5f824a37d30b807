-- ===== src/Planner/Fusion/Keys.antt =====
-- crates/hyperindex-planner/src/score_fusion.rs: the deduplication keys of the fused candidates.
use repo_hyperindex.Base.{
  ℕ, ◌≡◌, ap, sym, ◌∙◌, true, false, some, List, [], ◌∷◌, map, inl, inr, Bool-cases, arith, ◌≤◌,
  count, count-map, subst,
}
use repo_hyperindex.Base.Order.{nat_ord, beq_iff, beq_refl}
use repo_hyperindex.Base.Text.{text_ord}
use repo_hyperindex.Base.Sort.{sort_by, count-sort_by}
use repo_hyperindex.Planner.{◌>>=◌, OnSome, NormalizedPlannerCandidate}
use repo_hyperindex.Planner.Fusion.{
  DedupKey, key_eq, FusedCandidate, normalize_score, Group, place, group_loop, dedup_key_for,
  deterministic_cmp, fuse, should_merge, symbol_key, path_span, path_key, unique,
}
use repo_hyperindex.Planner.Fusion.Evidence.{build_all-some, group_loop-IsFull}

key_eq-eq : (a b : DedupKey) → key_eq a b ≡ true → a ≡ b
key_eq-eq (symbol_key a) (symbol_key b) h = ap symbol_key ((beq_iff a b).0 h)
key_eq-eq (path_span p s e) (path_span q t f) h = ground (arith, (beq_iff p q).0)
key_eq-eq (path_key a) (path_key b) h = ap path_key ((beq_iff a b).0 h)
key_eq-eq (unique a) (unique b) h = ap unique ((beq_iff a b).0 h)
key_eq-eq (symbol_key a) (path_span q t f) h = cc
key_eq-eq (symbol_key a) (path_key q) h = cc
key_eq-eq (symbol_key a) (unique q) h = cc
key_eq-eq (path_span p s e) (symbol_key q) h = cc
key_eq-eq (path_span p s e) (path_key q) h = cc
key_eq-eq (path_span p s e) (unique q) h = cc
key_eq-eq (path_key a) (symbol_key q) h = cc
key_eq-eq (path_key a) (path_span q t f) h = cc
key_eq-eq (path_key a) (unique q) h = cc
key_eq-eq (unique a) (symbol_key q) h = cc
key_eq-eq (unique a) (path_span q t f) h = cc
key_eq-eq (unique a) (path_key q) h = cc

key_eq_refl : (a : DedupKey) → key_eq a a ≡ true
key_eq_refl (symbol_key a) = beq_refl a
key_eq_refl (path_span p s e) = ground (arith, beq_refl p)
key_eq_refl (path_key a) = beq_refl a
key_eq_refl (unique a) = beq_refl a

-- Keys that equal a third are equal.
key_eq_alike : (a b k : DedupKey) → key_eq a k ≡ true → key_eq b k ≡ true → key_eq a b ≡ true
key_eq_alike a b k h h' =
    subst (λ x. key_eq a x ≡ true) (key_eq-eq a k h ∙ sym (key_eq-eq b k h')) (key_eq_refl a)

not_merged :
    (k : DedupKey) (ms : List (NormalizedPlannerCandidate × ℕ)) (key : DedupKey)
    (c : NormalizedPlannerCandidate)
    → should_merge k ms key c ≡ false
    → key_eq k key ≡ false
unfolding should_merge
not_merged k ms key c h = ground arith

abbrev keyed : DedupKey → List Group → ℕ
keyed k groups = count (λ g. key_eq g.0 k) groups

place-other :
    (groups : List Group) (key : DedupKey) (m : NormalizedPlannerCandidate × ℕ) (k : DedupKey)
    → key_eq key k ≡ false
    → keyed k (place groups key m) ≡ keyed k groups
unfolding place
place-other [] key m k h = ground arith
place-other ((e, ms) ∷ groups) key m k h = ground (arith, place-other groups key m k h)

place-once :
    (groups : List Group) (key : DedupKey) (m : NormalizedPlannerCandidate × ℕ) (k : DedupKey)
    → keyed k groups ≤ 1
    → keyed k (place groups key m) ≤ 1
unfolding place
place-once [] key m k h = ground arith
place-once ((e, ms) ∷ groups) key m k h = elim (Bool-cases (should_merge e ms key m.0)) [
  | inl merged ↦ rw merged h
  | inr apart ↦ rw apart (
      ground (
        arith,
        key_eq_alike e key k,
        not_merged e ms key m.0 apart,
        place-other groups key m k,
        place-once groups key m k,
      ))
]

none_keyed : (k : DedupKey) → keyed k [] ≤ 1
none_keyed k = omega arith

group_loop-once :
    (groups : List Group) (members : List (NormalizedPlannerCandidate × ℕ)) (k : DedupKey)
    → keyed k groups ≤ 1
    → keyed k (group_loop groups members) ≤ 1
unfolding group_loop
group_loop-once groups [] k h = h
group_loop-once groups (m ∷ ms) k h =
    group_loop-once (place groups (dedup_key_for m.0) m) ms k
      (place-once groups (dedup_key_for m.0) m k h)

count_by_key :
    (cs : List FusedCandidate) (groups : List Group) (k : DedupKey)
    → map (λ (c : FusedCandidate). c.dedup_key) cs ≡ map (λ (g : Group). g.0) groups
    → count (λ (c : FusedCandidate). key_eq c.dedup_key k) cs ≡ keyed k groups
count_by_key cs groups k h =
    sym (count-map (λ (c : FusedCandidate). c.dedup_key) (λ a. key_eq a k) cs)
    ∙ ap (count (λ a. key_eq a k)) h
    ∙ count-map (λ (g : Group). g.0) (λ a. key_eq a k) groups

-- No two fused candidates have the same deduplication key.
pub fuse_once :
    (candidates : List NormalizedPlannerCandidate) (fused : List FusedCandidate) (k : DedupKey)
    → fuse candidates ≡ some fused
    → count (λ (c : FusedCandidate). key_eq c.dedup_key k) fused ≤ 1
unfolding fuse
fuse_once candidates fused k h =
    let scored = map (λ (c : NormalizedPlannerCandidate). (c, normalize_score c)) candidates in
    let groups = group_loop [] scored in
    let (cs, built, _, named) = build_all-some groups (group_loop-IsFull [] scored tt) in
    let once = group_loop-once [] scored k (none_keyed k) in
    let same : some (sort_by deterministic_cmp cs) ≡ some fused =
      sym (ap (λ m. m >>= λ f. some (sort_by deterministic_cmp f)) built) ∙ h in
    subst (OnSome (λ fs. count (λ (c : FusedCandidate). key_eq c.dedup_key k) fs ≤ 1)) same (
      omega (
        arith,
        once,
        count-sort_by deterministic_cmp (λ (c : FusedCandidate). key_eq c.dedup_key k) cs,
        count_by_key cs groups k named,
      ))
