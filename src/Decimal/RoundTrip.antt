-- ===== src/Decimal/RoundTrip.antt =====
-- Reading back a decimal print.
use logparse.Base.{
  ℕ, zero, suc, ◌+◌, ◌-◌, ◌*◌, ◌/◌, ◌%◌, ◌<◌, ◌≡◌, ◌≢◌, refl, ap, ◌∙◌, sym, true, [], ◌∷◌, Bytes,
  size_mod, arith, All, subst,
}
use logparse.Decimal.{is_digit, digits, to_string, value, split_digits, parsed, from_chars}

abbrev pub AllDigits : Bytes → Type 0
AllDigits = All (λ c. is_digit c ≡ true)

value-digits : (f n : ℕ) (acc : Bytes) → n < f → value 0 (digits f n acc) ≡ value n acc
unfolding value digits
value-digits zero n acc h = absurd (omega arith)
value-digits (suc f) n acc h =
    ground
      (arith, value-digits f (n / 10) ((b'0' + n % 10) ∷ acc), ap (λ k. value k acc) (pieces n))
  where
    pieces : (n : ℕ) → n / 10 * 10 + (b'0' + n % 10 - b'0') ≡ n
    pieces n = omega arith

digits-AllDigits : (f n : ℕ) (acc : Bytes) → AllDigits acc → AllDigits (digits f n acc)
unfolding digits
digits-AllDigits zero n acc h = h
digits-AllDigits (suc f) n acc h =
    ground (arith, digits-AllDigits f (n / 10) ((b'0' + n % 10) ∷ acc))

digits-ne-nil : (f n : ℕ) (acc : Bytes) → digits (suc f) n acc ≢ []
unfolding digits
digits-ne-nil zero n acc = ground arith
digits-ne-nil (suc f) n acc = ground (arith, digits-ne-nil f (n / 10) ((b'0' + n % 10) ∷ acc))

pub to_string-AllDigits : (n : ℕ) → AllDigits (to_string n)
unfolding to_string
to_string-AllDigits n = digits-AllDigits (suc n) n [] tt

pub to_string-ne-nil : (n : ℕ) → to_string n ≢ []
unfolding to_string
to_string-ne-nil n = digits-ne-nil n n []

pub value-to_string : (n : ℕ) → value 0 (to_string n) ≡ n
unfolding to_string value
value-to_string n = value-digits (suc n) n [] (omega arith)

-- Two numbers with one print are equal.
pub to_string_injective : (m n : ℕ) → to_string m ≡ to_string n → m ≡ n
to_string_injective m n e = sym (value-to_string m) ∙ ap (value 0) e ∙ value-to_string n

split_digits-AllDigits : (s : Bytes) → AllDigits s → split_digits s ≡ (s, [])
unfolding split_digits
split_digits-AllDigits [] h = refl
split_digits-AllDigits (c ∷ cs) h = ground (arith, split_digits-AllDigits cs h.1)

pub from_chars-AllDigits :
    (s : Bytes) → s ≢ [] → AllDigits s → value 0 s < size_mod → from_chars s ≡ parsed (value 0 s) []
unfolding from_chars
from_chars-AllDigits [] ne h b = absurd (ne refl)
from_chars-AllDigits (c ∷ cs) ne h b = ground (arith, split_digits-AllDigits (c ∷ cs) h)

-- `from_chars` reads back what `to_string` prints, to the end.
pub from_chars-to_string : (n : ℕ) → n < size_mod → from_chars (to_string n) ≡ parsed n []
from_chars-to_string n h =
    from_chars-AllDigits (to_string n) (to_string-ne-nil n) (to_string-AllDigits n)
      (subst (λ k. k < size_mod) (sym (value-to_string n)) h)
    ∙ ap (λ k. parsed k []) (value-to_string n)
