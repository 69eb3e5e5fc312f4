-- ===== src/Sink/Slots.antt =====
-- The names of a rotating log: the file itself, and the numbered files behind it.
use logparse.Base.{
  ℕ, zero, suc, ◌≡◌, refl, sym, [], ◌∷◌, ◌++◌, Bytes, equal, equal_iff, ◌≢◌, false, Bool-cases, inl,
  inr,
}
use logparse.Decimal.{to_string}
use logparse.Decimal.RoundTrip.{to_string_injective}
use logparse.Sink.{numbered}

-- The file that is `i` rotations old.
abbrev pub slot : Bytes → ℕ → Bytes
slot base zero = base
slot base (suc k) = numbered base (suc k)

append_cancel : (base a b : Bytes) → base ++ a ≡ base ++ b → a ≡ b
append_cancel [] a b e = e
append_cancel (c ∷ base) a b e = append_cancel base a b (cc)

append-ne_self : (base a : Bytes) (c : ℕ) → base ++ c ∷ a ≢ base
append-ne_self [] a c e = cc
append-ne_self (x ∷ base) a c e = append-ne_self base a c (cc)

-- Files of different age have different names.
pub slot_injective : (base : Bytes) (i j : ℕ) → slot base i ≡ slot base j → i ≡ j
slot_injective base zero zero e = refl
slot_injective base zero (suc j) e = absurd (append-ne_self base (to_string (suc j)) b'.' (sym e))
slot_injective base (suc i) zero e = absurd (append-ne_self base (to_string (suc i)) b'.' e)
slot_injective base (suc i) (suc j) e =
    let digits : b'.' ∷ to_string (suc i) ≡ b'.' ∷ to_string (suc j) = append_cancel base _ _ e in
    to_string_injective (suc i) (suc j) (cc)

pub equal-ne : (p q : Bytes) → p ≢ q → equal p q ≡ false
equal-ne p q h = elim (Bool-cases (equal p q)) [
  | inl e ↦ absurd (h ((equal_iff p q).0 e))
  | inr e ↦ e
]
