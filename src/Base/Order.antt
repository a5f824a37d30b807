-- ===== src/Base/Order.antt =====
-- Rust's `Ord`: a comparison with the laws that the trait demands. Numbers and lists (so texts) have
-- instances; lists compare lexicographically, a prefix first.
use Prim.Native.Nat.{ℕ, compare, Ordering}
use Prim.Native.Nat.Ordering.{lt, eq, gt}
use mathlib.Core.Path.{◌≡◌, refl}
use mathlib.Core.Bool.{Bool, true, false}
use mathlib.Core.List.{List, [], ◌∷◌}
use mathlib.Core.Logic.{◌↔◌}
use mathlib.Core.Option.{Option, none, some}
use native.Mathlib.Omega.{arith}

pub record Ord {ℓ} (K : Type ℓ) : Type ℓ where
  pub cmp : K → K → Ordering
  pub cmp_self : (x : K) → cmp x x ≡ eq
  pub cmp_eq : (x y : K) → cmp x y ≡ eq → x ≡ y
  pub cmp_gt : (x y : K) → cmp x y ≡ gt → cmp y x ≡ lt
  pub cmp_lt : (x y : K) → cmp x y ≡ lt → cmp y x ≡ gt
  pub cmp_chain : (x y z : K) → cmp x y ≡ lt → cmp y z ≡ lt → cmp x z ≡ lt

-- `Ordering::then`, `Ordering::reverse`
abbrev pub then_with : Ordering → Ordering → Ordering
then_with eq b = b
then_with lt b = lt
then_with gt b = gt

abbrev pub reverse : Ordering → Ordering
reverse lt = gt
reverse eq = eq
reverse gt = lt

abbrev pub not_gt : Ordering → Bool
not_gt gt = false
not_gt lt = true
not_gt eq = true

module _ {ℓ} {K : Type ℓ} ⦃o : Ord K⦄ where
  -- `a == b`
  abbrev pub beq : K → K → Bool
  beq a b = elim (o.cmp a b) [ eq ↦ true | _ ↦ false ]

  pub beq_iff : (a b : K) → (beq a b ≡ true) ↔ (a ≡ b)
  beq_iff a b = ground (arith, o.cmp_eq a b, o.cmp_self a)

  pub beq_comm : (a b : K) → beq a b ≡ beq b a
  beq_comm a b = ground (arith, o.cmp_eq a b, o.cmp_eq b a, o.cmp_self a)

  pub beq_refl : (a : K) → beq a a ≡ true
  beq_refl a = ground (arith, o.cmp_self a)

  -- `a == b` on options
  abbrev pub opt_beq : Option K → Option K → Bool
  opt_beq none none = true
  opt_beq none (some b) = false
  opt_beq (some a) none = false
  opt_beq (some a) (some b) = beq a b

  pub opt_beq_iff : (a b : Option K) → (opt_beq a b ≡ true) ↔ (a ≡ b)
  opt_beq_iff none none = ground arith
  opt_beq_iff none (some b) = ground arith
  opt_beq_iff (some a) none = ground arith
  opt_beq_iff (some a) (some b) = ground (arith, beq_iff a b)

pub nat_self : (a : ℕ) → compare a a ≡ eq
nat_self a = ground arith

pub nat_eq : (a b : ℕ) → compare a b ≡ eq → a ≡ b
nat_eq a b h = ground arith

pub nat_gt : (a b : ℕ) → compare a b ≡ gt → compare b a ≡ lt
nat_gt a b h = ground arith

pub nat_lt : (a b : ℕ) → compare a b ≡ lt → compare b a ≡ gt
nat_lt a b h = ground arith

pub nat_chain : (a b c : ℕ) → compare a b ≡ lt → compare b c ≡ lt → compare a c ≡ lt
nat_chain a b c h k = ground arith

instance abbrev pub nat_ord : Ord ℕ
nat_ord = record {
  cmp = compare;
  cmp_self = nat_self;
  cmp_eq = nat_eq;
  cmp_gt = nat_gt;
  cmp_lt = nat_lt;
  cmp_chain = nat_chain;
}

module _ {ℓ} {K : Type ℓ} ⦃o : Ord K⦄ where
  abbrev pub lex : List K → List K → Ordering
  lex [] [] = eq
  lex [] (b ∷ bs) = lt
  lex (a ∷ as') [] = gt
  lex (a ∷ as') (b ∷ bs) = then_with (o.cmp a b) (lex as' bs)

  pub lex_self : (a : List K) → lex a a ≡ eq
  lex_self [] = refl
  lex_self (a ∷ as') = ground (arith, o.cmp_self a, lex_self as')

  pub lex-eq : (a b : List K) → lex a b ≡ eq → a ≡ b
  lex-eq [] [] h = refl
  lex-eq [] (b ∷ bs) h = cc
  lex-eq (a ∷ as') [] h = cc
  lex-eq (a ∷ as') (b ∷ bs) h = ground (arith, o.cmp_eq a b, lex-eq as' bs)

  pub lex-gt : (a b : List K) → lex a b ≡ gt → lex b a ≡ lt
  lex-gt [] [] h = cc
  lex-gt [] (b ∷ bs) h = cc
  lex-gt (a ∷ as') [] h = refl
  lex-gt (a ∷ as') (b ∷ bs) h =
      ground (arith, o.cmp_eq a b, o.cmp_self a, o.cmp_gt a b, lex-gt as' bs)

  pub lex-lt : (a b : List K) → lex a b ≡ lt → lex b a ≡ gt
  lex-lt [] [] h = cc
  lex-lt [] (b ∷ bs) h = refl
  lex-lt (a ∷ as') [] h = cc
  lex-lt (a ∷ as') (b ∷ bs) h =
      ground (arith, o.cmp_eq a b, o.cmp_self a, o.cmp_lt a b, lex-lt as' bs)

  pub lex_chain : (a b c : List K) → lex a b ≡ lt → lex b c ≡ lt → lex a c ≡ lt
  lex_chain [] [] c h k = cc
  lex_chain [] (b ∷ bs) [] h k = cc
  lex_chain [] (b ∷ bs) (c ∷ cs) h k = refl
  lex_chain (a ∷ as') [] c h k = cc
  lex_chain (a ∷ as') (b ∷ bs) [] h k = cc
  lex_chain (a ∷ as') (b ∷ bs) (c ∷ cs) h k =
      ground
        (arith, o.cmp_eq a b, o.cmp_eq b c, o.cmp_self a, o.cmp_chain a b c, lex_chain as' bs cs)

  instance abbrev pub list_ord : Ord (List K)
  list_ord = record {
    cmp = lex;
    cmp_self = lex_self;
    cmp_eq = lex-eq;
    cmp_gt = lex-gt;
    cmp_lt = lex-lt;
    cmp_chain = lex_chain;
  }
