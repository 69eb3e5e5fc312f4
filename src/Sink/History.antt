-- ===== src/Sink/History.antt =====
-- What a rotating sink has on disk after any number of writes.
use logparse.Base.{
  ℕ, zero, suc, ◌≡◌, refl, ap, ◌∙◌, sym, true, List, [], ◌∷◌, ◌++◌, Option, none, Bytes, arith,
  append_assoc, append-nil, Bool-cases, Option-cases, inl, inr,
}
use logparse.Sink.{RotatingFileSink, Outcome, must_rotate, rotating_write}
use logparse.Sink.Archive.{
  log_text, older, text, older-Rotated, older-Rotated_below, log-stream_write,
}
use logparse.Sink.Reopened.{
  Cooperates, closed, closed-older, closed-content, closed-Cooperates, rotated_world, moved_files,
  moved_files-Rotated, rotated_world-older, rotate_loop-open_refused, fresh_stream, rotate_lem,
}
use logparse.Sink.Disk.{World, stream_write}
use logparse.Sink.Rotation.{Rotated, rotate_loop-RenamesWork}
use logparse.Sink.Slots.{slot}

-- The writes of a run of lines, one after the other.
unfoldable pub write_each : RotatingFileSink → List Bytes → World → Outcome RotatingFileSink
write_each r [] w = record { object = r; world = w; thrown = none }
write_each r (buffer ∷ rest) w =
    let o = rotating_write r buffer w in write_each o.object rest o.world

unfoldable pub joined : List Bytes → Bytes
joined [] = []
joined (buffer ∷ rest) = buffer ++ joined rest

-- What calls on a sink that keeps `m + 1` numbered files leave behind.
pub record Continued (m : ℕ) (r : RotatingFileSink) (w : World) (added : Bytes)
    (o : Outcome RotatingFileSink) : Type 0 where
  pub quiet : o.thrown ≡ none
  pub same_limit : o.object.max_files ≡ r.max_files
  pub still_open : o.object.stream.is_open ≡ true
  pub cooperates : Cooperates o.object o.world
  -- the oldest bytes, which are gone
  pub lost : Bytes
  pub log : lost ++ log_text (suc m) o.object o.world ≡ log_text (suc m) r w ++ added

-- Where no file becomes the oldest, the others move on as they are.
older-Rotated_gap :
    (base : Bytes) (m : ℕ) (f g : Bytes → Option Bytes)
    → Rotated base (suc m) f g
    → f (slot base m) ≡ none
    → older base m g ≡ older base m f ++ text (f base)
older-Rotated_gap base zero f g t e = rw e refl
older-Rotated_gap base (suc i) f g t e =
    rw e (older-Rotated_below base (suc (suc i)) f g t i (omega arith))

module _ (base : Bytes) (m : ℕ) (f g : Bytes → Option Bytes) (t : Rotated base (suc m) f g) where
  -- Where no file is there to become the oldest, nothing is overwritten.
  older-Rotated_missing :
      f (slot base m) ≡ none → older base (suc m) g ≡ older base (suc m) f ++ text (f base)
  older-Rotated_missing e =
      ap (λ o. text o ++ older base m g) {y = f (slot base (suc m))} (t.oldest m refl ∙ rw e refl)
      ∙ ap (λ l. text (f (slot base (suc m))) ++ l) (older-Rotated_gap base m f g t e)
      ∙ sym (append_assoc (text (f (slot base (suc m)))) (older base m f) (text (f base)))

  -- What is gone after a rotation is the start of the log.
  older-Rotated_part :
      (lost : Bytes) × (lost ++ older base (suc m) g ≡ older base (suc m) f ++ text (f base))
  older-Rotated_part = elim (Option-cases (f (slot base m))) [
    | inl e ↦ ([], older-Rotated_missing e)
    | inr (c, e) ↦ (
      text (f (slot base (suc m))),
      ap (λ l. text (f (slot base (suc m))) ++ l) (older-Rotated base m f g t (cc e))
          ∙ sym (append_assoc (text (f (slot base (suc m)))) (older base m f) (text (f base))),
    )
  ]

module _ (m : ℕ) (r : RotatingFileSink) (w : World) (e : r.stream.is_open ≡ true)
    (c : Cooperates r w) (n : r.max_files ≡ suc m) where
  rotated_world-Cooperates : Cooperates (record r { stream = fresh_stream }) (rotated_world r w)
  rotated_world-Cooperates =
      let calm = closed-Cooperates r w e c in
      record {
        renames = rotate_loop-RenamesWork r.max_files r.path (closed r w) calm.renames;
        opens =
            ap (λ f. f r.path) (rotate_loop-open_refused r.max_files r.path (closed r w))
            ∙ calm.opens;
      }

  -- A rotation gives up the start of the log, and no other part of it.
  rotated_world-part :
      (lost : Bytes) × (lost
          ++ log_text (suc m) (record r { stream = fresh_stream }) (rotated_world r w)
        ≡ log_text (suc m) r w)
  rotated_world-part =
      let (lost, gone) =
        older-Rotated_part r.path m (closed r w).files (moved_files r w m e c n)
          (moved_files-Rotated r w m e c n) in
      (
        lost,
        ap (λ l. lost ++ l) (rotated_world-older r w m e c n)
            ∙ gone
            ∙ ap (λ l. l ++ text ((closed r w).files r.path)) (closed-older r w e c (suc m))
            ∙ ap (λ l. older r.path (suc m) w.files ++ l) (closed-content r w e c),
      )

stream_write-Cooperates :
    (r : RotatingFileSink) (buffer : Bytes) (w : World)
    → r.stream.is_open ≡ true
    → Cooperates r w
    → let (s, w') = stream_write r.path r.stream buffer w in
      (s.is_open ≡ true) × Cooperates (record r { stream = s }) w'
unfolding stream_write
stream_write-Cooperates r buffer w e c =
    rw e (refl, record { renames = c.renames; opens = c.opens })

pub rotating_write-Continued :
    (m : ℕ) (r : RotatingFileSink) (buffer : Bytes) (w : World)
    → r.stream.is_open ≡ true
    → Cooperates r w
    → r.max_files ≡ suc m
    → Continued m r w buffer (rotating_write r buffer w)
unfolding rotating_write
rotating_write-Continued m r buffer w e c n = elim (Bool-cases (must_rotate r buffer w)) [
  | inl h ↦
      let (lost, gone) = rotated_world-part m r w e c n in
      let fresh : RotatingFileSink = record r { stream = fresh_stream } in
      let (open_still, calm) =
        stream_write-Cooperates fresh buffer (rotated_world r w) refl
          (rotated_world-Cooperates m r w e c n) in
      rw (h, rotate_lem r w e c)
        (record {
          quiet = refl;
          same_limit = refl;
          still_open = open_still;
          cooperates = calm;
          lost = lost;
          log =
              ap (λ l. lost ++ l) (log-stream_write (suc m) fresh buffer (rotated_world r w) refl)
              ∙ sym (append_assoc lost (log_text (suc m) fresh (rotated_world r w)) buffer)
              ∙ ap (λ l. l ++ buffer) gone;
        })
  | inr h ↦
      let (open_still, calm) = stream_write-Cooperates r buffer w e c in
      rw h (record {
        quiet = refl;
        same_limit = refl;
        still_open = open_still;
        cooperates = calm;
        lost = [];
        log = log-stream_write (suc m) r buffer w e;
      })
]

-- However many lines are written and however often the files rotate, nothing is thrown, and the
-- numbered files and the log file, read from the oldest on, are the end of all that was there and
-- was written: bytes are lost only at its start. The stream is open, the environment refuses no
-- rename and no opening, and at least one numbered file is kept.
pub write_each-Continued :
    (m : ℕ) (r : RotatingFileSink) (buffers : List Bytes) (w : World)
    → r.stream.is_open ≡ true
    → Cooperates r w
    → r.max_files ≡ suc m
    → Continued m r w (joined buffers) (write_each r buffers w)
unfolding write_each joined
write_each-Continued m r [] w e c n = record {
  quiet = refl;
  same_limit = refl;
  still_open = e;
  cooperates = c;
  lost = [];
  log = sym (append-nil (log_text (suc m) r w));
}
write_each-Continued m r (buffer ∷ rest) w e c n =
    let first = rotating_write-Continued m r buffer w e c n in
    let o = rotating_write r buffer w in
    let then =
      write_each-Continued m o.object rest o.world first.still_open first.cooperates
        (first.same_limit ∙ n) in
    let after : Bytes =
      log_text (suc m) (write_each o.object rest o.world).object
        (write_each o.object rest o.world).world in
    record {
      quiet = then.quiet;
      same_limit = then.same_limit ∙ first.same_limit;
      still_open = then.still_open;
      cooperates = then.cooperates;
      lost = first.lost ++ then.lost;
      log =
          append_assoc first.lost then.lost after
          ∙ ap (λ l. first.lost ++ l) then.log
          ∙ sym (append_assoc first.lost (log_text (suc m) o.object o.world) (joined rest))
          ∙ ap (λ l. l ++ joined rest) first.log
          ∙ append_assoc (log_text (suc m) r w) buffer (joined rest);
    }
