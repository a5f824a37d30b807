-- ===== src/Base/Fields.antt =====
-- `#[derive(Ord)]` on a struct of two fields: the first decides, then the second.
use Prim.Native.Nat.{Ordering}
use Prim.Native.Nat.Ordering.{lt, eq, gt}
use mathlib.Core.Path.{◌≡◌}
use native.Mathlib.Omega.{arith}
use repo_hyperindex.Base.Order.{Ord, then_with}

module _ {ℓ κ} {A : Type ℓ} {K : Type κ} ⦃o : Ord K⦄ (f g : A → K) where
  abbrev pub fields_cmp : A → A → Ordering
  fields_cmp a b = then_with (o.cmp (f a) (f b)) (o.cmp (g a) (g b))

  pub fields_cmp_self : (a : A) → fields_cmp a a ≡ eq
  fields_cmp_self a = ground (arith, o.cmp_self (f a), o.cmp_self (g a))

  pub fields_cmp-eq :
      ((a b : A) → f a ≡ f b → g a ≡ g b → a ≡ b) → (a b : A) → fields_cmp a b ≡ eq → a ≡ b
  fields_cmp-eq ext a b h =
      ext a b (o.cmp_eq (f a) (f b) (ground arith)) (o.cmp_eq (g a) (g b) (ground arith))

  pub fields_cmp-gt : (a b : A) → fields_cmp a b ≡ gt → fields_cmp b a ≡ lt
  fields_cmp-gt a b h = ground (
    arith,
    o.cmp_eq (f a) (f b),
    o.cmp_self (f b),
    o.cmp_self (f a),
    o.cmp_gt (f a) (f b),
    o.cmp_gt (g a) (g b),
  )

  pub fields_cmp-lt : (a b : A) → fields_cmp a b ≡ lt → fields_cmp b a ≡ gt
  fields_cmp-lt a b h =
      ground
        (arith, o.cmp_eq (f a) (f b), o.cmp_self (f a), o.cmp_lt (f a) (f b), o.cmp_lt (g a) (g b))

  pub fields_cmp-chain :
      (a b c : A) → fields_cmp a b ≡ lt → fields_cmp b c ≡ lt → fields_cmp a c ≡ lt
  fields_cmp-chain a b c h k = ground (
    arith,
    o.cmp_eq (f a) (f b),
    o.cmp_eq (f b) (f c),
    o.cmp_self (f a),
    o.cmp_chain (f a) (f b) (f c),
    o.cmp_chain (g a) (g b) (g c),
  )

  abbrev pub fields_ord : ((a b : A) → f a ≡ f b → g a ≡ g b → a ≡ b) → Ord A
  fields_ord ext = record {
    cmp = fields_cmp;
    cmp_self = fields_cmp_self;
    cmp_eq = fields_cmp-eq ext;
    cmp_gt = fields_cmp-gt;
    cmp_lt = fields_cmp-lt;
    cmp_chain = fields_cmp-chain;
  }
