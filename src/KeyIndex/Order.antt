-- ===== src/KeyIndex/Order.antt =====
-- What `std::map` and `std::set` ask of an order, and what follows for equal keys.
use quick_mpc.Prelude.{◌≡◌, refl, Bool, true, false, arith}
use quick_mpc.KeyIndex.{same}

-- A strict weak order.
pub record IsWeakOrder {A : Type 0} (less : A → A → Bool) : Type 0 where
  pub irrefl : (a : A) → less a a ≡ false
  pub trans : (a b c : A) → less a b ≡ true → less b c ≡ true → less a c ≡ true
  pub same_trans : (a b c : A) → same less a b ≡ true → same less b c ≡ true → same less a c ≡ true

module _ {A : Type 0} {less : A → A → Bool} (o : IsWeakOrder less) where
  pub same_refl : (a : A) → same less a a ≡ true
  unfolding same
  same_refl a = rw (o.irrefl a) refl

  pub same-sym : (a b : A) → same less a b ≡ true → same less b a ≡ true
  unfolding same
  same-sym a b h = ground arith

  pub same-congruent : (a b c : A) → same less a b ≡ true → same less a c ≡ same less b c
  same-congruent a b c h = ground (arith, o.same_trans a b c, o.same_trans b a c, same-sym a b)

  pub less→not_same : (a b : A) → less a b ≡ true → same less a b ≡ false
  unfolding same
  less→not_same a b h = ground arith

  pub not_same-sym : (a b : A) → same less a b ≡ false → same less b a ≡ false
  not_same-sym a b h = ground (arith, same-sym b a)

  pub not_same→less : (a b : A) → same less a b ≡ false → less a b ≡ false → less b a ≡ true
  unfolding same
  not_same→less a b h = ground arith

  pub same-less : (a b c : A) → same less a b ≡ true → less a c ≡ true → less b c ≡ true
  unfolding same
  same-less a b c h k =
      ground (arith, o.trans a c b, less→not_same a c, same-congruent a b c h, less→not_same a b)
