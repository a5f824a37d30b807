-- ===== src/Impact/Hits/Groups.antt =====
-- crates/hyperindex-impact/src/impact_engine.rs: `group_hits` cuts the hits into runs.
use repo_hyperindex.Base.{
  ℕ, ◌%◌, ◌^◌, ◌≡◌, ◌∙◌, refl, ap, sym, subst, Bool, true, false, ◌&&◌, List, [], ◌∷◌, ◌++◌,
  append_assoc, append-nil, arith, flat_map, length, length-append, All, All-append, Bool-cases,
  inl, inr,
}
use repo_hyperindex.Base.Order.{beq, beq_iff, nat_ord}
use repo_hyperindex.Base.Gather.{flat_map-append}
use repo_hyperindex.Impact.{
  ImpactHit, ImpactResultGroup, ImpactCertaintyTier, ImpactedEntityKind, entity_kind,
}
use repo_hyperindex.Impact.Keys.{certainty_rank, entity_kind_rank}
use repo_hyperindex.Impact.Hits.{
  joins_group, same_bool, new_group, push_hit, group_loop, group_hits,
}

abbrev pub hits_of : List ImpactResultGroup → List ImpactHit
hits_of groups = flat_map (λ g. g.hits) groups

abbrev same_group : ImpactResultGroup → ImpactResultGroup → Bool
same_group g h =
    same_bool g.direct h.direct
    && beq (certainty_rank g.certainty) (certainty_rank h.certainty)
    && beq (entity_kind_rank g.entity_kind) (entity_kind_rank h.entity_kind)

-- A hit agrees with a group in whether it is direct, in certainty and in the kind of its entity.
abbrev pub Agrees : ImpactResultGroup → ImpactHit → Type 0
Agrees g hit =
    (hit.direct ≡ g.direct)
    × (hit.certainty ≡ g.certainty)
    × (entity_kind hit.entity ≡ g.entity_kind)

same_bool_eq : (a b : Bool) → same_bool a b ≡ true → b ≡ a
same_bool_eq a b h = ground arith

same_bool_refl : (a b : Bool) → a ≡ b → same_bool a b ≡ true
same_bool_refl a b h = ground arith

rank_beq : {A : Type 0} (rank : A → ℕ) (a b : A) → a ≡ b → beq (rank a) (rank b) ≡ true
rank_beq rank a b h = (beq_iff (rank a) (rank b)).1 (ap rank h)

certainty_eq :
    (a b : ImpactCertaintyTier) → beq (certainty_rank a) (certainty_rank b) ≡ true → b ≡ a
certainty_eq a b h = ground arith

entity_kind_eq :
    (a b : ImpactedEntityKind) → beq (entity_kind_rank a) (entity_kind_rank b) ≡ true → b ≡ a
entity_kind_eq a b h = ground arith

-- Every hit of a group agrees with it, and the group counts its hits.
pub record IsUniform (g : ImpactResultGroup) : Type 0 where
  pub fits : All (Agrees g) g.hits
  pub counted : g.hit_count ≡ length g.hits % 2 ^ 32

-- Two groups are of the same directness, certainty and kind.
abbrev pub AreAlike : ImpactResultGroup → ImpactResultGroup → Type 0
AreAlike g h = (g.direct ≡ h.direct) × (g.certainty ≡ h.certainty) × (g.entity_kind ≡ h.entity_kind)

-- No group is like the one after it.
abbrev pub IsApart : List ImpactResultGroup → Type 0
IsApart [] = Unit
IsApart (g ∷ []) = Unit
IsApart (g ∷ h ∷ groups) = (¬ AreAlike g h) × IsApart (h ∷ groups)

joins_group-Agrees :
    (g : ImpactResultGroup) (hit : ImpactHit) → joins_group g hit ≡ true → Agrees g hit
joins_group-Agrees g hit h = (
  same_bool_eq g.direct hit.direct (ground arith),
  certainty_eq g.certainty hit.certainty (ground arith),
  entity_kind_eq g.entity_kind (entity_kind hit.entity) (ground arith),
)

same_group-AreAlike : (g h : ImpactResultGroup) → same_group g h ≡ false → ¬ AreAlike g h
same_group-AreAlike g h differ (e, e', e'') = absurd (
    ground (
      arith,
      differ,
      same_bool_refl g.direct h.direct e,
      rank_beq certainty_rank g.certainty h.certainty e',
      rank_beq entity_kind_rank g.entity_kind h.entity_kind e'',
    ))

group_loop-hits :
    (groups : List ImpactResultGroup) (group : ImpactResultGroup) (hits : List ImpactHit)
    → hits_of (group_loop groups group hits) ≡ hits_of groups ++ (group.hits ++ hits)
unfolding group_loop
group_loop-hits groups group [] = flat_map-append (λ g. g.hits) groups (group ∷ [])
group_loop-hits groups group (hit ∷ hits) = elim (Bool-cases (joins_group group hit)) [
  | inl joins ↦
      rw (joins, group_loop)
        (group_loop-hits groups (push_hit group hit) hits
          ∙ ap (λ hs. hits_of groups ++ hs) (append_assoc group.hits (hit ∷ []) hits))
  | inr opens ↦
      rw (opens, group_loop)
        (group_loop-hits (groups ++ group ∷ []) (new_group hit) hits
          ∙ ap (λ hs. hs ++ hit ∷ hits) (flat_map-append (λ g. g.hits) groups (group ∷ []))
          ∙ rw (append-nil group.hits) (append_assoc (hits_of groups) group.hits (hit ∷ hits)))
]

push_hit-IsUniform :
    (group : ImpactResultGroup) (hit : ImpactHit)
    → IsUniform group
    → joins_group group hit ≡ true
    → IsUniform (push_hit group hit)
push_hit-IsUniform group hit w joins = record {
  fits =
      All-append (Agrees group) group.hits (hit ∷ []) w.fits
        (joins_group-Agrees group hit joins, tt);
  counted = omega (arith, w.counted, length-append group.hits (hit ∷ []));
}

new_group-IsUniform : (hit : ImpactHit) → IsUniform (new_group hit)
new_group-IsUniform hit = record { fits = ((refl, refl, refl), tt); counted = omega arith }

group_loop-IsUniform :
    (groups : List ImpactResultGroup) (group : ImpactResultGroup) (hits : List ImpactHit)
    → All IsUniform groups
    → IsUniform group
    → All IsUniform (group_loop groups group hits)
unfolding group_loop
group_loop-IsUniform groups group [] h w = All-append IsUniform groups (group ∷ []) h (w, tt)
group_loop-IsUniform groups group (hit ∷ hits) h w = elim (Bool-cases (joins_group group hit)) [
  | inl joins ↦
      rw (joins, group_loop)
        (group_loop-IsUniform groups (push_hit group hit) hits h
          (push_hit-IsUniform group hit w joins))
  | inr opens ↦
      rw (opens, group_loop)
        (group_loop-IsUniform (groups ++ group ∷ []) (new_group hit) hits
          (All-append IsUniform groups (group ∷ []) h (w, tt)) (new_group-IsUniform hit))
]

group_loop-split :
    (groups : List ImpactResultGroup) (group : ImpactResultGroup) (hits : List ImpactHit)
    → group_loop groups group hits ≡ groups ++ group_loop [] group hits
unfolding group_loop
group_loop-split groups group [] = refl
group_loop-split groups group (hit ∷ hits) = elim (Bool-cases (joins_group group hit)) [
  | inl joins ↦ rw (joins, group_loop) (group_loop-split groups (push_hit group hit) hits)
  | inr opens ↦
      rw (opens, group_loop)
        (group_loop-split (groups ++ group ∷ []) (new_group hit) hits
          ∙ append_assoc groups (group ∷ []) (group_loop [] (new_group hit) hits)
          ∙ ap (λ gs. groups ++ gs) (sym (group_loop-split (group ∷ []) (new_group hit) hits)))
]

-- The first of the groups to come is the last one so far, perhaps with more hits.
group_loop-IsApart :
    (group : ImpactResultGroup) (hits : List ImpactHit)
    → (g : ImpactResultGroup) × (rest : List ImpactResultGroup) × (group_loop [] group hits
        ≡ g ∷ rest)
      × ((h : ImpactResultGroup) → same_group h g ≡ same_group h group)
      × ((h : ImpactResultGroup) → same_group g h ≡ same_group group h)
      × IsApart (g ∷ rest)
unfolding group_loop
group_loop-IsApart group [] = (group, [], refl, λ h. refl, λ h. refl, tt)
group_loop-IsApart group (hit ∷ hits) = elim (Bool-cases (joins_group group hit)) [
  | inl joins ↦ rw (joins, group_loop) (group_loop-IsApart (push_hit group hit) hits)
  | inr opens ↦
      let (g, rest, is, before, after, apart) = group_loop-IsApart (new_group hit) hits in
      rw (opens, group_loop)
        (
          group,
          g ∷ rest,
          group_loop-split (group ∷ []) (new_group hit) hits ∙ ap (λ gs. group ∷ gs) is,
          λ h. refl,
          λ h. refl,
          (same_group-AreAlike group g (before group ∙ opens), apart),
        )
]

pub group_hits_exact :
    (hits : List ImpactHit)
    → (hits_of (group_hits hits) ≡ hits)
      × All IsUniform (group_hits hits)
      × IsApart (group_hits hits)
unfolding group_hits
group_hits_exact [] = (refl, tt, tt)
group_hits_exact (hit ∷ hits) =
    let (g, rest, is, _, _, apart) = group_loop-IsApart (new_group hit) hits in
    (
      group_loop-hits [] (new_group hit) hits,
      group_loop-IsUniform [] (new_group hit) hits tt (new_group-IsUniform hit),
      subst IsApart (sym is) apart,
    )
