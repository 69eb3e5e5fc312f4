-- ===== src/Sink/Archive.antt =====
-- What a rotating sink keeps of what was written to it, and how large its file gets.
use logparse.Base.{
  ℕ, zero, suc, ◌<◌, ◌≡◌, ◌≢◌, refl, ap, ◌∙◌, sym, true, false, [], ◌++◌, Option, none, some, Bytes,
  equal, equal_iff, arith, or_else, append_assoc, append-nil,
}
use logparse.Sink.{RotatingFileSink, must_rotate, rotating_write}
use logparse.Sink.Disk.{
  World, Stream, content, update, stream_write, stream_flush, handed_over, handed_over-stream_write,
}
use logparse.Sink.Rotation.{Rotated, kept_or}
use logparse.Sink.Slots.{slot, slot_injective, equal-ne}

abbrev pub text : Option Bytes → Bytes
text o = or_else o []

-- The numbered files from the `n`-th on, the oldest first.
abbrev pub older : Bytes → ℕ → (Bytes → Option Bytes) → Bytes
older base zero f = []
older base (suc k) f = text (f (slot base (suc k))) ++ older base k f

-- All that was written to a sink and is still there, over `n` numbered files.
abbrev pub log_text : ℕ → RotatingFileSink → World → Bytes
log_text n r w = older r.path n w.files ++ (content r.path w ++ r.stream.pending)

-- The numbered files do not change with the log file.
pub older-update :
    (base : Bytes) (n : ℕ) (f : Bytes → Option Bytes) (v : Option Bytes)
    → older base n (update f base v) ≡ older base n f
older-update base zero f v = refl
older-update base (suc k) f v =
    let apart : equal (slot base (suc k)) base ≡ false =
      equal-ne (slot base (suc k)) base (λ e. omega (arith, slot_injective base (suc k) 0 e)) in
    rw apart (ap (λ l. text (f (slot base (suc k))) ++ l) (older-update base k f v))

module _ (base : Bytes) (n : ℕ) (f g : Bytes → Option Bytes) (r : Rotated base n f g) where
  pub older-Rotated_below :
      (i : ℕ) → suc i < n → older base (suc i) g ≡ older base i f ++ text (f base)
  older-Rotated_below zero lt = rw (r.shifted 0 lt) (append-nil (text (f base)))
  older-Rotated_below (suc i) lt =
      ap (λ o. text o ++ older base (suc i) g) (r.shifted (suc i) lt)
      ∙ ap (λ l. text (f (slot base (suc i))) ++ l) (older-Rotated_below i (omega arith))
      ∙ sym (append_assoc (text (f (slot base (suc i)))) (older base i f) (text (f base)))

pub kept_or-some : (o old : Option Bytes) → o ≢ none → kept_or o old ≡ o
kept_or-some none old h = absurd (h refl)
kept_or-some (some c) old h = refl

-- The numbered files after a rotation are those before it and the log file, less the oldest.
pub older-Rotated :
    (base : Bytes) (m : ℕ) (f g : Bytes → Option Bytes)
    → Rotated base (suc m) f g
    → f (slot base m) ≢ none
    → older base (suc m) g ≡ older base m f ++ text (f base)
older-Rotated base zero f g r h =
    ap (λ o. text o ++ []) (r.oldest 0 refl ∙ kept_or-some (f base) (f (slot base 1)) h)
    ∙ append-nil (text (f base))
older-Rotated base (suc i) f g r h =
    ap (λ o. text o ++ older base (suc i) g)
      (r.oldest (suc i) refl ∙ kept_or-some (f (slot base (suc i))) (f (slot base (suc (suc i)))) h)
    ∙ ap (λ l. text (f (slot base (suc i))) ++ l)
        (older-Rotated_below base (suc (suc i)) f g r i (omega arith))
    ∙ sym (append_assoc (text (f (slot base (suc i)))) (older base i f) (text (f base)))

older-stream_write :
    (base : Bytes) (n : ℕ) (s : Stream) (buffer : Bytes) (w : World)
    → s.is_open ≡ true
    → older base n (stream_write base s buffer w).1.files ≡ older base n w.files
unfolding stream_write
older-stream_write base n s buffer w e = rw e (older-update base n w.files _)

-- A write to an open stream puts its bytes behind all that the sink had.
pub log-stream_write :
    (n : ℕ) (r : RotatingFileSink) (buffer : Bytes) (w : World)
    → r.stream.is_open ≡ true
    → let (s, w') = stream_write r.path r.stream buffer w in
      log_text n (record r { stream = s }) w' ≡ log_text n r w ++ buffer
log-stream_write n r buffer w e =
    let (s, w') = stream_write r.path r.stream buffer w in
    ap (λ l. l ++ handed_over r.path (s, w')) (older-stream_write r.path n r.stream buffer w e)
    ∙ ap (λ l. older r.path n w.files ++ l) (handed_over-stream_write r.path r.stream buffer w e)
    ∙ sym (append_assoc (older r.path n w.files) (content r.path w ++ r.stream.pending) buffer)

-- A flush leaves all there, and a stream that is open.
pub log-stream_flush :
    (n : ℕ) (r : RotatingFileSink) (w : World)
    → r.stream.is_open ≡ true
    → let (s, w') = stream_flush r.path r.stream w in
      (s.is_open ≡ true) × (log_text n (record r { stream = s }) w' ≡ log_text n r w)
unfolding stream_flush
log-stream_flush n r w e =
    rw (e, (equal_iff r.path r.path).1 refl)
      (
        refl,
        ap (λ l. l ++ ((content r.path w ++ r.stream.pending) ++ []))
              (older-update r.path n w.files _)
            ∙ ap (λ l. older r.path n w.files ++ l)
                (append-nil (content r.path w ++ r.stream.pending)),
      )

-- A write that does not rotate loses nothing.
pub rotating_write_keeps :
    (r : RotatingFileSink) (buffer : Bytes) (w : World)
    → r.stream.is_open ≡ true
    → must_rotate r buffer w ≡ false
    → let o = rotating_write r buffer w in
      (o.thrown ≡ none)
      × (log_text r.max_files o.object o.world ≡ log_text r.max_files r w ++ buffer)
unfolding rotating_write
rotating_write_keeps r buffer w e h = rw h (refl, log-stream_write r.max_files r buffer w e)
