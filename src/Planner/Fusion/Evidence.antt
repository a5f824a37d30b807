-- ===== src/Planner/Fusion/Evidence.antt =====
-- crates/hyperindex-planner/src/score_fusion.rs: fusion returns, and keeps the evidence.
use mathlib.Core.List.{Perm}
use mathlib.Core.List.Perm
use repo_hyperindex.Base.{
  ℕ, ◌≡◌, refl, ap, sym, some, List, [], ◌∷◌, ◌++◌, map, All, append-nil, append_assoc, flat_map,
  inl, inr, Bool-cases, arith, length, ◌≤◌, length-append, ap₂,
}
use repo_hyperindex.Base.Order.{nat_ord}
use repo_hyperindex.Base.Text.{text_ord}
use repo_hyperindex.Base.Sort.{sort_by, length-sort_by}
use repo_hyperindex.Base.Gather.{swap_blocks, flat_map-append, flat_map-sort_by}
use repo_hyperindex.Planner.{NormalizedPlannerCandidate, PlannerEvidenceItem}
use repo_hyperindex.Planner.Fusion.{
  DedupKey, FusedCandidate, normalize_score, Group, place, group_loop, dedup_key_for, member_order,
  fuse_sorted, build_fused, build_all, deterministic_cmp, fuse, should_merge,
}

abbrev member_evidence : NormalizedPlannerCandidate × ℕ → List PlannerEvidenceItem
member_evidence m = m.0.evidence

abbrev evidence_of_group : Group → List PlannerEvidenceItem
evidence_of_group g = flat_map member_evidence g.1

place-evidence :
    (groups : List Group) (key : DedupKey) (m : NormalizedPlannerCandidate × ℕ)
    → Perm
        (flat_map evidence_of_group (place groups key m))
        (member_evidence m ++ flat_map evidence_of_group groups)
unfolding place
place-evidence [] key m =
    rw (append-nil (member_evidence m), append-nil (member_evidence m))
      (Perm.refl (member_evidence m))
place-evidence ((k, ms) ∷ groups) key m =
    let here = flat_map member_evidence ms in
    let rest = flat_map evidence_of_group groups in
    elim (Bool-cases (should_merge k ms key m.0)) [
      | inl e ↦
          rw
            (
              e,
              flat_map-append member_evidence ms (m ∷ []),
              append-nil (member_evidence m),
              append_assoc here (member_evidence m) rest,
            )
            (swap_blocks here (member_evidence m) rest)
      | inr e ↦ rw e (
          Perm.trans (Perm.append_left here (place-evidence groups key m))
            (swap_blocks here (member_evidence m) rest))
    ]

group_loop-evidence :
    (groups : List Group) (members : List (NormalizedPlannerCandidate × ℕ))
    → Perm
        (flat_map evidence_of_group (group_loop groups members))
        (flat_map evidence_of_group groups ++ flat_map member_evidence members)
unfolding group_loop
group_loop-evidence groups [] =
    rw (append-nil (flat_map evidence_of_group groups))
      (Perm.refl (flat_map evidence_of_group groups))
group_loop-evidence groups (m ∷ ms) =
    let before = flat_map evidence_of_group groups in
    let rest = flat_map member_evidence ms in
    let placed = Perm.append_right rest (place-evidence groups (dedup_key_for m.0) m) in
    Perm.trans (group_loop-evidence (place groups (dedup_key_for m.0) m) ms) (
      Perm.trans placed (
        rw (append_assoc (member_evidence m) before rest)
          (swap_blocks (member_evidence m) before rest)))

-- A group has a member.
abbrev pub IsFull : Group → Type 0
IsFull g = 1 ≤ length g.1

place-IsFull :
    (groups : List Group) (key : DedupKey) (m : NormalizedPlannerCandidate × ℕ)
    → All IsFull groups
    → All IsFull (place groups key m)
unfolding place
place-IsFull [] key m h = (omega arith, tt)
place-IsFull ((k, ms) ∷ groups) key m h = elim (Bool-cases (should_merge k ms key m.0)) [
  | inl e ↦ rw e (omega (arith, length-append ms (m ∷ [])), h.1)
  | inr e ↦ rw e (h.0, place-IsFull groups key m h.1)
]

pub group_loop-IsFull :
    (groups : List Group) (members : List (NormalizedPlannerCandidate × ℕ))
    → All IsFull groups
    → All IsFull (group_loop groups members)
unfolding group_loop
group_loop-IsFull groups [] h = h
group_loop-IsFull groups (m ∷ ms) h =
    group_loop-IsFull (place groups (dedup_key_for m.0) m) ms
      (place-IsFull groups (dedup_key_for m.0) m h)

fuse_sorted-some :
    (key : DedupKey) (members : List (NormalizedPlannerCandidate × ℕ))
    → 1 ≤ length members
    → (c : FusedCandidate) × (fuse_sorted key members ≡ some c)
      × (c.merged_evidence ≡ flat_map member_evidence members)
      × (c.dedup_key ≡ key)
unfolding fuse_sorted
fuse_sorted-some key [] h = absurd (omega (arith, h))
fuse_sorted-some key (m ∷ members) h = (_, refl, refl, refl)

-- Groups with members become one fused candidate each, with the group's key and its evidence.
pub build_all-some :
    (groups : List Group)
    → All IsFull groups
    → (fused : List FusedCandidate) × (build_all groups ≡ some fused)
      × Perm
          (flat_map (λ (c : FusedCandidate). c.merged_evidence) fused)
          (flat_map evidence_of_group groups)
      × (map (λ (c : FusedCandidate). c.dedup_key) fused ≡ map (λ (g : Group). g.0) groups)
unfolding build_fused
build_all-some [] h = ([], refl, Perm.refl [], refl)
build_all-some ((key, members) ∷ groups) h =
    let sorted = sort_by member_order members in
    let (c, built, same, named) =
      fuse_sorted-some key sorted (omega (arith, h.0, length-sort_by member_order members)) in
    let (cs, all_built, all_same, all_named) = build_all-some groups h.1 in
    (
      c ∷ cs,
      rw (built, all_built) refl,
      rw same (Perm.append (flat_map-sort_by member_evidence member_order members) all_same),
      ap₂ (λ k ks. k ∷ ks) named all_named,
    )

scored-evidence :
    (candidates : List NormalizedPlannerCandidate)
    → flat_map member_evidence
        (map (λ (c : NormalizedPlannerCandidate). (c, normalize_score c)) candidates)
      ≡ flat_map (λ (c : NormalizedPlannerCandidate). c.evidence) candidates
scored-evidence [] = refl
scored-evidence (c ∷ cs) = ap (λ es. c.evidence ++ es) (scored-evidence cs)

-- Fusion always returns, and the evidence of the fused candidates is the evidence of the candidates,
-- rearranged: none is lost, added or repeated.
pub fuse_evidence :
    (candidates : List NormalizedPlannerCandidate)
    → (fused : List FusedCandidate) × (fuse candidates ≡ some fused)
      × Perm
          (flat_map (λ (c : FusedCandidate). c.merged_evidence) fused)
          (flat_map (λ (c : NormalizedPlannerCandidate). c.evidence) candidates)
unfolding fuse
fuse_evidence candidates =
    let scored = map (λ (c : NormalizedPlannerCandidate). (c, normalize_score c)) candidates in
    let (cs, built, same, _) =
      build_all-some (group_loop [] scored) (group_loop-IsFull [] scored tt) in
    (
      sort_by deterministic_cmp cs,
      rw built refl,
      Perm.trans (flat_map-sort_by (λ c. c.merged_evidence) deterministic_cmp cs)
          (Perm.trans same (rw (sym (scored-evidence candidates)) (group_loop-evidence [] scored))),
    )
