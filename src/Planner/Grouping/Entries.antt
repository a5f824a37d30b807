-- ===== src/Planner/Grouping/Entries.antt =====
-- crates/hyperindex-planner/src/result_grouping.rs: the map from group ids to members.
use Prim.Native.Nat.Ordering.{lt, eq, gt}
use mathlib.Core.List.{Perm}
use mathlib.Core.List.Perm
use repo_hyperindex.Base.{
  ◌+◌, ◌≡◌, refl, sym, ◌∙◌, subst, Option, none, some, List, [], ◌∷◌, ◌++◌, map, Ordering,
  append-nil, append_assoc, flat_map, arith, length, ◌≤◌,
}
use repo_hyperindex.Base.Order.{nat_ord, beq_refl}
use repo_hyperindex.Base.Text.{text_ord, Text}
use repo_hyperindex.Base.Dict.{Dict, get, insert, insert_entry, lookup, len, keys-get}
use repo_hyperindex.Base.Ascending.{
  IsAscending, IsOrdered, insert-IsOrdered, Above-chain, Above-contains,
}
use repo_hyperindex.Base.Size.{len-insert}
use repo_hyperindex.Base.Gather.{swap_blocks, flat_map-append}
use repo_hyperindex.Planner.{PlannerEvidenceItem}
use repo_hyperindex.Planner.Fusion.{FusedCandidate}
use repo_hyperindex.Planner.Grouping.{grouping_key, pushed, push_member, push_members}

abbrev pub Entry : Type 0
Entry = Text × List FusedCandidate

abbrev pub members_evidence : List FusedCandidate → List PlannerEvidenceItem
members_evidence members = flat_map (λ (c : FusedCandidate). c.merged_evidence) members

abbrev pub entry_evidence : Entry → List PlannerEvidenceItem
entry_evidence e = members_evidence e.1

abbrev pub entry_keys : List Entry → List Text
entry_keys m = map (λ (e : Entry). e.0) m

not_listed :
    (k i : Text) (w : List FusedCandidate) (m : List Entry)
    → text_ord.cmp k i ≡ lt
    → IsAscending (entry_keys ((i, w) ∷ m))
    → lookup k ((i, w) ∷ m) ≡ none
unfolding get
not_listed k i w m less ordered = ground (
  arith,
  keys-get {V = List FusedCandidate} (record { entries = (i, w) ∷ m }) k,
  Above-contains k (i ∷ entry_keys m) (less, Above-chain k i (entry_keys m) less ordered.0),
)

insert_entry-evidence :
    (k : Text) (c : FusedCandidate) (m : List Entry)
    → IsAscending (entry_keys m)
    → Perm
        (flat_map entry_evidence (insert_entry k (pushed (lookup k m) c) m))
        (c.merged_evidence ++ flat_map entry_evidence m)
unfolding insert_entry lookup
insert_entry-evidence k c [] h =
    rw (append-nil c.merged_evidence, append-nil c.merged_evidence) (Perm.refl c.merged_evidence)
insert_entry-evidence k c ((i, w) ∷ m) h =
    of_order (text_ord.cmp k i) (lookup k ((i, w) ∷ m)) refl refl (insert_entry-evidence k c m h.1)
  where
    of_order :
        (o : Ordering) (old : Option (List FusedCandidate))
        → text_ord.cmp k i ≡ o
        → lookup k ((i, w) ∷ m) ≡ old
        → Perm
            (flat_map entry_evidence (insert_entry k (pushed (lookup k m) c) m))
            (c.merged_evidence ++ flat_map entry_evidence m)
        → Perm
            (flat_map entry_evidence (insert_entry k (pushed old c) ((i, w) ∷ m)))
            (c.merged_evidence ++ flat_map entry_evidence ((i, w) ∷ m))
    of_order lt old e found later =
        let here = members_evidence w in
        let rest = flat_map entry_evidence m in
        let absent : old ≡ none = sym found ∙ not_listed k i w m e h in
        rw (e, insert_entry, absent, append-nil c.merged_evidence)
          (Perm.refl (c.merged_evidence ++ (here ++ rest)))
    of_order eq old e found later =
        let here = members_evidence w in
        let rest = flat_map entry_evidence m in
        let here_it_is : old ≡ some w = ground (arith, text_ord.cmp_eq k i e, beq_refl i) in
        rw
          (
            e,
            insert_entry,
            here_it_is,
            flat_map-append (λ (c : FusedCandidate). c.merged_evidence) w (c ∷ []),
            append-nil c.merged_evidence,
            append_assoc here c.merged_evidence rest,
          )
          (swap_blocks here c.merged_evidence rest)
    of_order gt old e found later =
        let here = members_evidence w in
        let rest = flat_map entry_evidence m in
        let further : old ≡ lookup k m = ground (arith, text_ord.cmp_gt k i e) in
        let later' : Perm (flat_map entry_evidence (insert_entry k (pushed old c) m))
            (c.merged_evidence ++ rest) =
          subst
            (λ x.
              Perm (flat_map entry_evidence (insert_entry k (pushed x c) m))
                (c.merged_evidence ++ rest))
            (sym further) later in
        rw (e, insert_entry)
          (Perm.trans (Perm.append_left here later') (swap_blocks here c.merged_evidence rest))

pub push_members-IsOrdered :
    (d : Dict Text (List FusedCandidate)) (cs : List FusedCandidate)
    → IsOrdered d
    → IsOrdered (push_members d cs)
unfolding push_members push_member
push_members-IsOrdered d [] h = h
push_members-IsOrdered d (c ∷ cs) h =
    push_members-IsOrdered (push_member d c) cs (insert-IsOrdered d (grouping_key c) _ h)

pub push_members-len :
    (d : Dict Text (List FusedCandidate)) (cs : List FusedCandidate)
    → IsOrdered d
    → len (push_members d cs) ≤ len d + length cs
unfolding push_members push_member
push_members-len d [] h = omega arith
push_members-len d (c ∷ cs) h = ground (
  arith,
  push_members-len (push_member d c) cs (insert-IsOrdered d (grouping_key c) _ h),
  len-insert d (grouping_key c) (pushed (get d (grouping_key c)) c) h,
)

pub push_members-evidence :
    (d : Dict Text (List FusedCandidate)) (cs : List FusedCandidate)
    → IsOrdered d
    → Perm
        (flat_map entry_evidence (push_members d cs).entries)
        (flat_map entry_evidence d.entries ++ members_evidence cs)
unfolding push_members push_member insert get
push_members-evidence d [] h =
    rw (append-nil (flat_map entry_evidence d.entries))
      (Perm.refl (flat_map entry_evidence d.entries))
push_members-evidence d (c ∷ cs) h =
    let before = flat_map entry_evidence d.entries in
    let rest = members_evidence cs in
    Perm.trans
      (push_members-evidence (push_member d c) cs (insert-IsOrdered d (grouping_key c) _ h))
      (Perm.trans (Perm.append_right rest (insert_entry-evidence (grouping_key c) c d.entries h)) (
        rw (append_assoc c.merged_evidence before rest)
          (swap_blocks c.merged_evidence before rest)))
