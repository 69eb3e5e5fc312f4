-- ===== src/Level/Order.antt =====
-- The comparison operators of include/logger/level.hpp form one total order.
use logparse.Base.{get_or, [], ◌∷◌, ℕ, ◌≡◌, ◌↔◌, refl, ap, Bool, true, not, ◌||◌, ==_iff, arith}
use logparse.Level.{
  Level, level_code, lt, le, gt, ge, eq, ne, trace, debug, info, warn, error, fatal, off,
}

-- Six tests on a type that agree on one total order.
pub record IsOrder {A : Type 0} (lt le gt ge eq ne : A → A → Bool) : Type 0 where
  pub le_refl : (a : A) → le a a ≡ true
  pub le_trans : (a b c : A) → le a b ≡ true → le b c ≡ true → le a c ≡ true
  pub le_antisym : (a b : A) → le a b ≡ true → le b a ≡ true → a ≡ b
  pub le_total : (a b : A) → (le a b || le b a) ≡ true
  pub lt_strict : (a b : A) → lt a b ≡ not (le b a)
  pub gt_flipped : (a b : A) → gt a b ≡ lt b a
  pub ge_flipped : (a b : A) → ge a b ≡ le b a
  pub eq_equal : (a b : A) → (eq a b ≡ true) ↔ (a ≡ b)
  pub ne_other : (a b : A) → ne a b ≡ not (eq a b)

level_of : ℕ → Level
level_of n = get_or (trace ∷ debug ∷ info ∷ warn ∷ error ∷ fatal ∷ []) n off

level_of-code : (l : Level) → level_of (level_code l) ≡ l
unfolding level_of level_code
level_of-code trace = refl
level_of-code _ = refl

level_code_injective : (a b : Level) → level_code a ≡ level_code b → a ≡ b
level_code_injective a b e = cc (level_of-code a, level_of-code b, e)

-- The six comparisons of levels agree on one total order.
pub Level-IsOrder : IsOrder lt le gt ge eq ne
unfolding lt le gt ge eq ne
Level-IsOrder = record {
  le_refl = λ a. ground arith;
  le_trans = λ a b c h k. ground arith;
  le_antisym = λ a b h k. level_code_injective a b (ground arith);
  le_total = λ a b. ground arith;
  lt_strict = λ a b. ground arith;
  gt_flipped = λ a b. refl;
  ge_flipped = λ a b. refl;
  eq_equal = λ a b. (
    (λ e. level_code_injective a b ((==_iff (level_code a) (level_code b)).0 e)),
    (λ e. (==_iff (level_code a) (level_code b)).1 (ap level_code e)),
  );
  ne_other = λ a b. refl;
}
