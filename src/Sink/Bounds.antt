-- ===== src/Sink/Bounds.antt =====
-- How large the file of a rotating sink gets.
use native.Mathlib.Nat.{mod-eq_of_lt}
use logparse.Base.{
  ℕ, suc, ◌+◌, ◌-◌, ◌<◌, ◌≡◌, ◌⊎◌, refl, ap, ◌∙◌, true, false, [], ◌++◌, Bytes, equal_iff, arith,
  length, length-append, append-nil, size_mod, inl, inr, Bool-cases, Option-cases,
}
use logparse.Sink.{RotatingFileSink, rotate_loop, must_rotate, rotating_write}
use logparse.Sink.Archive.{text}
use logparse.Sink.Reopened.{
  Cooperates, rotate_lem, rotated_world, fresh_stream, closed, closed-content, closed-Cooperates,
}
use logparse.Sink.Disk.{World, content, stream_write, handed_over, handed_over-stream_write}
use logparse.Sink.Rotation.{rotate_loop-Rotated}

must_rotate-false :
    (r : RotatingFileSink) (buffer : Bytes) (w : World)
    → must_rotate r buffer w ≡ false
    → length (content r.path w) + length buffer < size_mod
    → length (content r.path w) + length buffer < r.max_file_size
unfolding must_rotate
must_rotate-false r buffer w h fits = elim (Option-cases (w.files r.path)) [
  | inl e ↦ ground (arith, mod-eq_of_lt fits)
  | inr (c, e) ↦ ground (arith, mod-eq_of_lt fits)
]

-- The log file is empty after a rotation that has a numbered file to move it to.
content-rotated_world :
    (r : RotatingFileSink) (w : World) (m : ℕ)
    → r.stream.is_open ≡ true
    → Cooperates r w
    → r.max_files ≡ suc m
    → content r.path (rotated_world r w) ≡ []
content-rotated_world r w m e c n =
    let shape =
      rotate_loop-Rotated r.max_files r.path (closed r w) (closed-Cooperates r w e c).renames in
    rw ((equal_iff r.path r.path).1 refl) (ap text (shape.current (omega arith)))

-- Behind a write all that was handed to the file, waiting or not, is shorter than the limit and what
-- waited before together, or it is just the one line that was written: so it is below the limit, or
-- one line, where nothing waited, since the size test counts the bytes of the file and not those that
-- wait in the stream. The stream is open, the environment refuses no rename and no opening, at least
-- one numbered file is kept, and the sizes fit in 64 bits; how much of a line a stream writes through
-- is left open.
pub rotating_write_bound :
    (r : RotatingFileSink) (buffer : Bytes) (w : World)
    → r.stream.is_open ≡ true
    → Cooperates r w
    → 0 < r.max_files
    → length (content r.path w) + length buffer < size_mod
    → let o = rotating_write r buffer w in
      let after = handed_over r.path (o.object.stream, o.world) in
      (length after < r.max_file_size + length r.stream.pending) ⊎ (after ≡ buffer)
unfolding rotating_write
rotating_write_bound r buffer w e c n fits = elim (Bool-cases (must_rotate r buffer w)) [
  | inl h ↦
      let from_empty : handed_over r.path
            (stream_write r.path fresh_stream buffer (rotated_world r w))
          ≡ buffer =
        handed_over-stream_write r.path fresh_stream buffer (rotated_world r w) refl
        ∙ ap (λ l. (l ++ []) ++ buffer)
            (content-rotated_world r w (r.max_files - 1) e c (omega arith)) in
      rw (h, rotate_lem r w e c) (inr from_empty)
  | inr h ↦
      let grown = handed_over-stream_write r.path r.stream buffer w e in
      let small = must_rotate-false r buffer w h fits in
      let waiting = length-append (content r.path w) r.stream.pending in
      let all = length-append (content r.path w ++ r.stream.pending) buffer in
      rw h (inl (rw grown (omega (arith, small, waiting, all))))
]

-- With no numbered file to keep, a write to an open stream removes nothing, whatever the limit:
-- all that was handed to the file before is still there, followed by the line. The environment
-- refuses no rename and no opening.
pub rotating_write_unbounded :
    (r : RotatingFileSink) (buffer : Bytes) (w : World)
    → r.stream.is_open ≡ true
    → Cooperates r w
    → r.max_files ≡ 0
    → let o = rotating_write r buffer w in
      handed_over r.path (o.object.stream, o.world) ≡ handed_over r.path (r.stream, w) ++ buffer
unfolding rotating_write
rotating_write_unbounded r buffer w e c n = elim (Bool-cases (must_rotate r buffer w)) [
  | inl h ↦
      let moved_none : (rotate_loop r.max_files r.path (closed r w)).files r.path
          ≡ (closed r w).files r.path =
        (rotate_loop-Rotated r.max_files r.path (closed r w)
            (closed-Cooperates r w e c).renames).idle
          n r.path in
      rw (h, rotate_lem r w e c)
        (handed_over-stream_write r.path fresh_stream buffer (rotated_world r w) refl
          ∙ ap (λ l. l ++ buffer)
              (append-nil (content r.path (rotated_world r w))
                ∙ rw ((equal_iff r.path r.path).1 refl) (ap text moved_none)
                ∙ closed-content r w e c))
  | inr h ↦ rw h (handed_over-stream_write r.path r.stream buffer w e)
]
