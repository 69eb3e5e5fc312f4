-- ===== src/Parser/Trim.antt =====
-- What `trim` and `lower` do to a text.
use logparse.Base.{
  ℕ, zero, suc, ◌+◌, ◌≤◌, ◌≡◌, refl, ap, ◌∙◌, sym, true, false, [], ◌∷◌, ◌++◌, Bytes, length, take,
  drop, arith, All, Bool-cases, inl, inr, take-append-drop,
}
use logparse.Parser.{is_space, first_kept, last_kept, trim}

abbrev pub AllSpace : Bytes → Type 0
AllSpace = All (λ c. is_space c ≡ true)

pub last_kept-le : (s : Bytes) → last_kept s ≤ length s
unfolding last_kept
last_kept-le [] = omega arith
last_kept-le (c ∷ cs) = ground (arith, last_kept-le cs)

last_kept-AllSpace : (s : Bytes) → AllSpace s → last_kept s ≡ 0
unfolding last_kept
last_kept-AllSpace [] h = refl
last_kept-AllSpace (c ∷ cs) h = ground (arith, last_kept-AllSpace cs h.1)

last_kept-append_space : (s t : Bytes) → AllSpace t → last_kept (s ++ t) ≡ last_kept s
unfolding last_kept
last_kept-append_space [] t h = last_kept-AllSpace t h
last_kept-append_space (c ∷ cs) t h = rw (last_kept-append_space cs t h)

pub last_kept-append :
    (a v : Bytes) (c : ℕ)
    → is_space c ≡ false
    → last_kept (a ++ c ∷ v) ≡ length a + suc (last_kept v)
unfolding last_kept
last_kept-append [] v c h = ground arith
last_kept-append (x ∷ a) v c h = ground (arith, last_kept-append a v c h)

take-length : (s : Bytes) → take (length s) s ≡ s
take-length [] = refl
take-length (c ∷ cs) = ap (◌∷◌ c) (take-length cs)

take-append : (n : ℕ) (s t : Bytes) → n ≤ length s → take n (s ++ t) ≡ take n s
take-append zero s t h = refl
take-append (suc n) [] t h = absurd (omega arith)
take-append (suc n) (c ∷ cs) t h = ap (◌∷◌ c) (take-append n cs t (omega arith))

-- A space in front is dropped.
pub trim-cons_space : (c : ℕ) (cs : Bytes) → is_space c ≡ true → trim (c ∷ cs) ≡ trim cs
unfolding trim first_kept last_kept
trim-cons_space c cs h = ground arith

-- From the first byte that is no space, the text up to the last such byte is kept.
pub trim-cons :
    (c : ℕ) (cs : Bytes) → is_space c ≡ false → trim (c ∷ cs) ≡ c ∷ take (last_kept cs) cs
unfolding trim first_kept last_kept
trim-cons c cs h = ground arith

pub trim-append_space : (s t : Bytes) → AllSpace t → trim (s ++ t) ≡ trim s
trim-append_space [] t h = go t h
  where
    go : (t : Bytes) → AllSpace t → trim t ≡ trim []
    go [] h = refl
    go (c ∷ cs) h = trim-cons_space c cs h.0 ∙ go cs h.1
trim-append_space (c ∷ cs) t h = elim (Bool-cases (is_space c)) [
  | inl space ↦
      trim-cons_space c (cs ++ t) space
      ∙ trim-append_space cs t h
      ∙ sym (trim-cons_space c cs space)
  | inr kept ↦
      trim-cons c (cs ++ t) kept
      ∙ ap (◌∷◌ c)
          (rw (last_kept-append_space cs t h) (take-append (last_kept cs) cs t (last_kept-le cs)))
      ∙ sym (trim-cons c cs kept)
]

pub trim-append_front : (s t : Bytes) → AllSpace s → trim (s ++ t) ≡ trim t
trim-append_front [] t h = refl
trim-append_front (c ∷ cs) t h = trim-cons_space c (cs ++ t) h.0 ∙ trim-append_front cs t h.1

-- Spaces round a text do not change what `trim` gives.
pub trim_padded : (a s b : Bytes) → AllSpace a → AllSpace b → trim (a ++ (s ++ b)) ≡ trim s
trim_padded a s b ha hb = trim-append_front a (s ++ b) ha ∙ trim-append_space s b hb

-- Behind the last kept byte there is only space.
last_kept-drop : (s : Bytes) → AllSpace (drop (last_kept s) s)
unfolding last_kept
last_kept-drop [] = tt
last_kept-drop (c ∷ cs) = elim (Bool-cases (is_space c)) [
  | inl e ↦ ground (arith, last_kept-drop cs)
  | inr e ↦ rw e (last_kept-drop cs)
]

pub trim-take : (s : Bytes) → trim (take (last_kept s) s) ≡ trim s
trim-take s =
    sym (trim-append_space (take (last_kept s) s) (drop (last_kept s) s) (last_kept-drop s))
    ∙ ap trim (take-append-drop (last_kept s) s)

take-take : (n : ℕ) (s : Bytes) → take n (take n s) ≡ take n s
take-take zero s = refl
take-take (suc n) [] = refl
take-take (suc n) (c ∷ cs) = ap (◌∷◌ c) (take-take n cs)

last_kept-take : (s : Bytes) → last_kept (take (last_kept s) s) ≡ last_kept s
last_kept-take s =
    sym (last_kept-append_space (take (last_kept s) s) (drop (last_kept s) s) (last_kept-drop s))
    ∙ ap last_kept (take-append-drop (last_kept s) s)

trim-take_cons :
    (c : ℕ) (cs : Bytes)
    → is_space c ≡ false
    → trim (c ∷ take (last_kept cs) cs) ≡ c ∷ take (last_kept cs) cs
trim-take_cons c cs kept =
    trim-cons c (take (last_kept cs) cs) kept
    ∙ ap (◌∷◌ c) (
        ap (λ k. take k (take (last_kept cs) cs)) (last_kept-take cs) ∙ take-take (last_kept cs) cs)

-- A second `trim` changes nothing.
pub trim_idem : (s : Bytes) → trim (trim s) ≡ trim s
trim_idem [] = trim_nil
  where
    trim_nil : trim (trim []) ≡ trim []
    trim_nil = unfold trim first_kept last_kept in refl
trim_idem (c ∷ cs) = elim (Bool-cases (is_space c)) [
  | inl space ↦ rw (trim-cons_space c cs space) (trim_idem cs)
  | inr kept ↦
      let k = last_kept cs in
      ap trim (trim-cons c cs kept) ∙ trim-take_cons c cs kept ∙ sym (trim-cons c cs kept)
]
