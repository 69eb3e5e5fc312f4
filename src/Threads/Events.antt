-- ===== src/Threads/Events.antt =====
-- What the events of a run show of each thread and each sink.
use logparse.Base.{
  ℕ, ◌≡◌, refl, ap, ◌∙◌, sym, List, [], ◌∷◌, ◌++◌, Bytes, ◌==◌, if◌then◌else◌, append-nil,
  append_assoc,
}
use logparse.Threads.{Event, began, wrote}

module _ {ℓ} {A : Type ℓ} where
  -- What the events give, one after the other.
  unfoldable pub gather : (Event → List A) → List Event → List A
  gather f [] = []
  gather f (e ∷ es) = f e ++ gather f es

  pub gather-concat :
      (f : Event → List A) (es : List Event) (e : Event)
      → gather f (es ++ e ∷ []) ≡ gather f es ++ f e
  unfolding gather
  gather-concat f [] e = append-nil (f e)
  gather-concat f (x ∷ es) e =
      ap (λ l. f x ++ l) (gather-concat f es e) ∙ sym (append_assoc (f x) (gather f es) (f e))

-- The lines that a thread formatted, and the entries of the sink at an index: which thread, and
-- which line.
abbrev pub begins : ℕ → Event → List Bytes
begins t (began u r line) = if u == t then line ∷ [] else []
begins t _ = []

abbrev pub enters : ℕ → Event → List (ℕ × Bytes)
enters k (wrote t j line) = if j == k then (t, line) ∷ [] else []
enters k _ = []

-- The lines of a sink's entries, and those of one thread.
unfoldable pub texts : List (ℕ × Bytes) → Bytes
texts [] = []
texts ((t, line) ∷ es) = line ++ texts es

unfoldable pub lines_of : ℕ → List (ℕ × Bytes) → List Bytes
lines_of t [] = []
lines_of t ((u, line) ∷ es) = (if u == t then line ∷ [] else []) ++ lines_of t es

pub texts-append : (xs ys : List (ℕ × Bytes)) → texts (xs ++ ys) ≡ texts xs ++ texts ys
unfolding texts
texts-append [] ys = refl
texts-append ((t, line) ∷ xs) ys =
    ap (λ l. line ++ l) (texts-append xs ys) ∙ sym (append_assoc line (texts xs) (texts ys))

pub lines_of-append :
    (t : ℕ) (xs ys : List (ℕ × Bytes)) → lines_of t (xs ++ ys) ≡ lines_of t xs ++ lines_of t ys
unfolding lines_of
lines_of-append t [] ys = refl
lines_of-append t ((u, line) ∷ xs) ys =
    ap (λ l. (if u == t then line ∷ [] else []) ++ l) (lines_of-append t xs ys)
    ∙ sym (append_assoc (if u == t then line ∷ [] else []) (lines_of t xs) (lines_of t ys))
