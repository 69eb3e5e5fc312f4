-- ===== src/Sink/Reopened.antt =====
-- A rotation of a rotating sink, where the environment lets it do its work.
use logparse.Base.{
  ℕ, zero, suc, ◌≡◌, ◌≢◌, refl, ap, ◌∙◌, subst, true, false, [], ◌++◌, Option, none, some, Bytes,
  equal_iff, arith, append-nil,
}
use logparse.Sink.{RotatingFileSink, rotate_loop, rotate, must_rotate, rotating_write}
use logparse.Sink.Disk.{World, Stream, content, rename, update, open_append, stream_close}
use logparse.Sink.Rotation.{RenamesWork, Rotated, rotate_loop-Rotated}
use logparse.Sink.Slots.{slot}
use logparse.Sink.Archive.{log_text, older, text, older-update, older-Rotated, log-stream_write}

-- The environment lets `rotate` do its work.
pub record Cooperates (r : RotatingFileSink) (w : World) : Type 0 where
  pub renames : RenamesWork w
  pub opens : w.open_refused r.path ≡ false

-- The world after `rotate` has closed the stream.
abbrev pub closed : RotatingFileSink → World → World
closed r w = (stream_close r.path r.stream w).1

module _ (r : RotatingFileSink) (w : World) (e : r.stream.is_open ≡ true) (c : Cooperates r w) where
  pub closed-Cooperates : Cooperates r (closed r w)
  unfolding stream_close
  closed-Cooperates = rw e (record { renames = λ s d. c.renames s d; opens = c.opens })

  pub closed-content : text ((closed r w).files r.path) ≡ content r.path w ++ r.stream.pending
  unfolding stream_close
  closed-content = rw (e, (equal_iff r.path r.path).1 refl)

  pub closed-older : (n : ℕ) → older r.path n (closed r w).files ≡ older r.path n w.files
  unfolding stream_close
  closed-older n = rw e (older-update r.path n w.files _)

  closed-exists : (p : Bytes) → w.files p ≢ none → (closed r w).files p ≢ none
  unfolding stream_close
  closed-exists p h = rw e (ground arith)

pub rotate_loop-open_refused :
    (n : ℕ) (base : Bytes) (w : World) → (rotate_loop n base w).open_refused ≡ w.open_refused
unfolding rotate_loop rename
rotate_loop-open_refused zero base w = refl
rotate_loop-open_refused (suc k) base w = rotate_loop-open_refused k base _ ∙ ground arith

-- The world behind a rotation whose log file opens again.
abbrev pub rotated_world : RotatingFileSink → World → World
rotated_world r w =
    let moved = rotate_loop r.max_files r.path (closed r w) in
    record moved { files = update moved.files r.path (some (content r.path moved)) }

abbrev pub fresh_stream : Stream
fresh_stream = record { is_open = true; pending = [] }

pub rotate_lem :
    (r : RotatingFileSink) (w : World)
    → r.stream.is_open ≡ true
    → Cooperates r w
    → rotate r w ≡ record {
      object = record r { stream = fresh_stream };
      world = rotated_world r w;
      thrown = none;
    }
unfolding rotate open_append
rotate_lem r w e c =
    let opens : (rotate_loop r.max_files r.path (closed r w)).open_refused r.path ≡ false =
      ap (λ f. f r.path) (rotate_loop-open_refused r.max_files r.path (closed r w))
      ∙ (closed-Cooperates r w e c).opens in
    rw opens

module _ (r : RotatingFileSink) (w : World) (m : ℕ) (e : r.stream.is_open ≡ true)
    (c : Cooperates r w) (n : r.max_files ≡ suc m) where
  -- The files behind the loop of a rotation.
  abbrev pub moved_files : Bytes → Option Bytes
  moved_files = (rotate_loop r.max_files r.path (closed r w)).files

  pub moved_files-Rotated : Rotated r.path (suc m) (closed r w).files moved_files
  moved_files-Rotated =
      subst (λ k. Rotated r.path k (closed r w).files moved_files) n
        (rotate_loop-Rotated r.max_files r.path (closed r w) (closed-Cooperates r w e c).renames)

  -- After a rotation the whole log is in the numbered files.
  pub rotated_world-older :
      log_text (suc m) (record r { stream = fresh_stream }) (rotated_world r w)
      ≡ older r.path (suc m) moved_files
  rotated_world-older =
      ap (λ l. l ++ (content r.path (rotated_world r w) ++ []))
        (older-update r.path (suc m) moved_files _)
      ∙ ap (λ l. older r.path (suc m) moved_files ++ l)
          (append-nil (content r.path (rotated_world r w))
            ∙ rw ((equal_iff r.path r.path).1 refl)
                (ap text (moved_files-Rotated.current (omega arith))))
      ∙ append-nil (older r.path (suc m) moved_files)

-- After a rotation over `m + 1` numbered files all is still there but the oldest file.
rotated_world-log :
    (r : RotatingFileSink) (w : World) (m : ℕ)
    → r.stream.is_open ≡ true
    → Cooperates r w
    → r.max_files ≡ suc m
    → w.files (slot r.path m) ≢ none
    → log_text (suc m) (record r { stream = fresh_stream }) (rotated_world r w) ≡ log_text m r w
rotated_world-log r w m e c n h =
    rotated_world-older r w m e c n
    ∙ older-Rotated r.path m (closed r w).files (moved_files r w m e c n)
        (moved_files-Rotated r w m e c n) (closed-exists r w e c (slot r.path m) h)
    ∙ ap (λ l. l ++ text ((closed r w).files r.path)) (closed-older r w e c m)
    ∙ ap (λ l. older r.path m w.files ++ l) (closed-content r w e c)

-- A write that rotates throws nothing and keeps all that was written but the oldest numbered file.
-- The stream is open, the environment refuses no rename and no opening, at least one numbered file
-- is kept, and the file that becomes the oldest exists.
pub rotating_write_rotates :
    (r : RotatingFileSink) (buffer : Bytes) (w : World) (m : ℕ)
    → r.stream.is_open ≡ true
    → Cooperates r w
    → must_rotate r buffer w ≡ true
    → r.max_files ≡ suc m
    → w.files (slot r.path m) ≢ none
    → let o = rotating_write r buffer w in
      (o.thrown ≡ none) × (log_text r.max_files o.object o.world ≡ log_text m r w ++ buffer)
unfolding rotating_write
rotating_write_rotates r buffer w m e c h n there =
    rw (h, rotate_lem r w e c)
      (
        refl,
        log-stream_write r.max_files (record r { stream = fresh_stream }) buffer (rotated_world r w)
              refl
            ∙ ap (λ l. l ++ buffer)
                (ap (λ k. log_text k (record r { stream = fresh_stream }) (rotated_world r w)) n
                  ∙ rotated_world-log r w m e c n there),
      )
