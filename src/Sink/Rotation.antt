-- ===== src/Sink/Rotation.antt =====
-- What `rotate` does to the files.
use logparse.Base.{
  ℕ, zero, suc, ◌≤◌, ◌<◌, ◌≡◌, ◌≢◌, refl, ap, ◌∙◌, sym, subst, false, Option, none, some, Bytes,
  equal, equal_iff, if◌then◌else◌, ◌==◌, arith,
}
use native.Mathlib.Decide.{dec_lt}
use logparse.Sink.{numbered, rotate_loop}
use logparse.Sink.Disk.{World, exists, rename}
use logparse.Sink.Slots.{slot, slot_injective, equal-ne}

-- The environment refuses no rename.
abbrev pub RenamesWork : World → Type 0
RenamesWork w = (src dest : Bytes) → w.rename_refused src dest ≡ false

-- A file's bytes, or those of the file that it would have replaced.
abbrev pub kept_or : Option Bytes → Option Bytes → Option Bytes
kept_or none old = old
kept_or (some c) old = some c

abbrev source : Bytes → ℕ → Bytes
source base k = if suc k == 1 then base else numbered base k

source-slot : (base : Bytes) (k : ℕ) → source base k ≡ slot base k
source-slot base zero = refl
source-slot base (suc k) = ground arith

-- One round of the loop.
abbrev move : Bytes → Bytes → World → World
move src dest w = if exists src w then rename src dest w else w

move-RenamesWork : (src dest : Bytes) (w : World) → RenamesWork w → RenamesWork (move src dest w)
unfolding rename
move-RenamesWork src dest w h s d = ground (arith, h src dest, h s d)

move-files :
    (src dest : Bytes) (w : World) (q : Bytes)
    → RenamesWork w
    → (move src dest w).files q ≡ (
        if equal q dest
        then kept_or (w.files src) (w.files dest)
        else if equal q src
        then none
        else w.files q)
unfolding rename
move-files src dest w q h = ground (arith, h src dest, equal_iff q dest, equal_iff q src)

-- How the files stand after the loop over `n` slots.
pub record Rotated (base : Bytes) (n : ℕ) (f g : Bytes → Option Bytes) : Type 0 where
  -- the oldest slot gets the file before it, if there is one
  pub oldest : (i : ℕ) → suc i ≡ n → g (slot base n) ≡ kept_or (f (slot base i)) (f (slot base n))
  -- every slot between gets what was in the slot before it
  pub shifted : (i : ℕ) → suc i < n → g (slot base (suc i)) ≡ f (slot base i)
  -- the log file itself is gone
  pub current : 0 < n → g base ≡ none
  -- no other file is touched
  pub others : (p : Bytes) → ((i : ℕ) → i ≤ n → p ≢ slot base i) → g p ≡ f p
  pub idle : n ≡ 0 → (p : Bytes) → g p ≡ f p

pub rotate_loop-RenamesWork :
    (n : ℕ) (base : Bytes) (w : World) → RenamesWork w → RenamesWork (rotate_loop n base w)
unfolding rotate_loop
rotate_loop-RenamesWork zero base w h = h
rotate_loop-RenamesWork (suc k) base w h =
    rotate_loop-RenamesWork k base (move (source base k) (numbered base (suc k)) w)
      (move-RenamesWork (source base k) (numbered base (suc k)) w h)

slot-ne : (base : Bytes) (i j : ℕ) → i ≢ j → equal (slot base i) (slot base j) ≡ false
slot-ne base i j h = equal-ne (slot base i) (slot base j) (λ e. h (slot_injective base i j e))

module _ (base : Bytes) (k : ℕ) (w : World) (h : RenamesWork w) where
  next : World
  next = move (slot base k) (slot base (suc k)) w

  next-dest :
      next.files (slot base (suc k)) ≡ kept_or (w.files (slot base k)) (w.files (slot base (suc k)))
  unfolding next
  next-dest =
      move-files (slot base k) (slot base (suc k)) w (slot base (suc k)) h
      ∙ rw ((equal_iff (slot base (suc k)) (slot base (suc k))).1 refl)

  next-source : next.files (slot base k) ≡ none
  unfolding next
  next-source =
      move-files (slot base k) (slot base (suc k)) w (slot base k) h
      ∙ rw (
        slot-ne base k (suc k) (λ e. omega arith),
        (equal_iff (slot base k) (slot base k)).1 refl,
      )

  next-other : (q : Bytes) → q ≢ slot base k → q ≢ slot base (suc k) → next.files q ≡ w.files q
  unfolding next
  next-other q a b =
      move-files (slot base k) (slot base (suc k)) w q h
      ∙ rw (equal-ne q (slot base (suc k)) b, equal-ne q (slot base k) a)

  next-slot : (i : ℕ) → i < k → next.files (slot base i) ≡ w.files (slot base i)
  next-slot i lt =
      next-other (slot base i) (λ e. omega (arith, slot_injective base i k e))
        (λ e. omega (arith, slot_injective base i (suc k) e))

kept_or-none : (o : Option Bytes) → kept_or o none ≡ o
kept_or-none none = refl
kept_or-none (some c) = refl

-- One more slot: the move to the oldest place, and then the loop over the slots before it.
Rotated-suc :
    (base : Bytes) (k : ℕ) (w : World) (h : RenamesWork w) {g : Bytes → Option Bytes}
    → Rotated base k (next base k w h).files g
    → Rotated base (suc k) w.files g
Rotated-suc base k w h {g} r = record {
  oldest = λ i e.
      let same : k ≡ i = omega arith in
      r.others (slot base (suc k)) (λ j le e'. omega (arith, slot_injective base (suc k) j e'))
      ∙ next-dest base k w h
      ∙ ap (λ t. kept_or (w.files (slot base t)) (w.files (slot base (suc k)))) same;
  shifted = λ i lt. elim (dec_lt (suc i) k) [
    | yes early ↦ r.shifted i early ∙ next-slot base k w h i (omega arith)
    | no late ↦
        let last : suc i ≡ k = omega arith in
        ap (λ t. g (slot base t)) last
        ∙ r.oldest i last
        ∙ ap (kept_or ((next base k w h).files (slot base i))) (next-source base k w h)
        ∙ kept_or-none ((next base k w h).files (slot base i))
        ∙ next-slot base k w h i (omega arith)
  ];
  current = λ lt. elim (dec_lt 0 k) [
    | yes more ↦ r.current more
    | no first ↦
        let zero_slots : k ≡ 0 = omega arith in
        r.idle zero_slots base
        ∙ ap (λ t. (next base k w h).files (slot base t)) (sym zero_slots)
        ∙ next-source base k w h
  ];
  others = λ p away.
      r.others p (λ i le. away i (omega arith))
      ∙ next-other base k w h p (away k (omega arith)) (away (suc k) (omega arith));
  idle = λ e. absurd (omega arith);
}

-- The loop of `rotate` moves each file of the log one slot on, and the oldest file is overwritten;
-- where the environment refuses no rename.
pub rotate_loop-Rotated :
    (n : ℕ) (base : Bytes) (w : World)
    → RenamesWork w
    → Rotated base n w.files (rotate_loop n base w).files
unfolding rotate_loop next
rotate_loop-Rotated zero base w h = record {
  oldest = λ i e. absurd (omega arith);
  shifted = λ i lt. absurd (omega arith);
  current = λ lt. absurd (omega arith);
  others = λ p away. refl;
  idle = λ e p. refl;
}
rotate_loop-Rotated (suc k) base w h =
    let moved = move (slot base k) (slot base (suc k)) w in
    subst
      (λ s. Rotated base (suc k) w.files (rotate_loop k base (move s (slot base (suc k)) w)).files)
      (sym (source-slot base k))
      (Rotated-suc base k w h
        (rotate_loop-Rotated k base moved (move-RenamesWork (slot base k) (slot base (suc k)) w h)))
