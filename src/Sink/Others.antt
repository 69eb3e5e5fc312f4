-- ===== src/Sink/Others.antt =====
-- The sinks of a list besides the one at an index.
use logparse.Base.{
  ℕ, zero, suc, ◌≡◌, ◌≢◌, ◌<◌, refl, ap, ◌∙◌, sym, subst, Bool-cases, inl, inr, some, List, [], ◌∷◌,
  ◌==◌, ==_iff, get_elem?, ◌++◌, none, set, get_elem?-set_ne, length, arith,
}
use logparse.Sink.{Sink}

module _ {A : Type 0} where
  pub get_elem?-set_there :
      (xs : List A) (k : ℕ) {a : A} (v : A)
      → get_elem? xs k ≡ some a
      → get_elem? (set xs k v) k ≡ some v
  get_elem?-set_there [] k v e = cc e
  get_elem?-set_there (x ∷ xs) zero v e = refl
  get_elem?-set_there (x ∷ xs) (suc k) v e = get_elem?-set_there xs k v e

  pub in_range : (xs : List A) (k : ℕ) {a : A} → get_elem? xs k ≡ some a → k < length xs
  in_range [] k e = cc e
  in_range (x ∷ xs) zero e = omega arith
  in_range (x ∷ xs) (suc k) e = let rest = in_range xs k e in omega arith

module _ {A : Type 0} where
  pub get_elem?-behind :
      (xs : List A) (a : A) (ys : List A) → get_elem? (xs ++ a ∷ ys) (length xs) ≡ some a
  get_elem?-behind [] a ys = refl
  get_elem?-behind (x ∷ xs) a ys = get_elem?-behind xs a ys

  pub set-behind :
      (xs : List A) (a v : A) (ys : List A)
      → set (xs ++ a ∷ ys) (length xs) v ≡ (xs ++ v ∷ []) ++ ys
  set-behind [] a v ys = refl
  set-behind (x ∷ xs) a v ys = ap (◌∷◌ x) (set-behind xs a v ys)

  pub get_elem?-end : (xs : List A) → get_elem? xs (length xs) ≡ none
  get_elem?-end [] = refl
  get_elem?-end (x ∷ xs) = get_elem?-end xs

  pub length-one_more : (xs : List A) (v : A) → length (xs ++ v ∷ []) ≡ suc (length xs)
  length-one_more [] v = refl
  length-one_more (x ∷ xs) v = ap suc (length-one_more xs v)

-- Every sink but the one at an index has a property.
abbrev pub OthersAre : (Sink → Type 0) → ℕ → List Sink → Type 0
OthersAre Is k sinks = (j : ℕ) (s : Sink) → j ≢ k → get_elem? sinks j ≡ some s → Is s

module _ (Is : Sink → Type 0) (k : ℕ) (sinks : List Sink) {s : Sink} (v : Sink) where
  pub OthersAre-set :
      (j : ℕ)
      → get_elem? sinks j ≡ some s
      → (j ≢ k → Is v)
      → OthersAre Is k sinks
      → OthersAre Is k (set sinks j v)
  OthersAre-set j e h others i x ne at = elim (Bool-cases (j == i)) [
    | inl same ↦
        let here : j ≡ i = (==_iff j i).0 same in
        let is_v : v ≡ x =
          cc (sym (get_elem?-set_there sinks j v e) ∙ ap (get_elem? (set sinks j v)) here ∙ at) in
        subst Is is_v (h (λ k'. ne (sym here ∙ k')))
    | inr other ↦
        others i x ne (sym (get_elem?-set_ne sinks v (λ k'. cc ((==_iff j i).1 k', other))) ∙ at)
  ]

  pub OthersAre-set_own :
      get_elem? sinks k ≡ some s → OthersAre Is k sinks → OthersAre Is k (set sinks k v)
  OthersAre-set_own e others = OthersAre-set k e (λ ne. absurd (ne refl)) others
