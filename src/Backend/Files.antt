-- ===== src/Backend/Files.antt =====
-- What the calls on a backend leave in the log file of its one file sink.
use logparse.Base.{
  ◌≡◌, refl, ap, ◌∙◌, sym, subst, true, List, [], ◌∷◌, ◌++◌, none, Bytes, All, append_assoc,
  append-nil,
}
use logparse.Backend.{Backend, emit, flush_sinks}
use logparse.Backend.Emit.{emit_lem}
use logparse.Formatter.{make_formatter}
use logparse.Formatter.Cache.{IsWarm, line}
use logparse.Formatter.Reads.{Piece, Reads}
use logparse.Platform.{Platform, IsFaithful}
use logparse.Record.{LogRecord}
use logparse.Sink.{Sink, FileSink, file_sink, write_all, flush_all}
use logparse.Sink.Disk.{content, handed_over}
use logparse.Sink.Files.{IsFileless, write_all-FileLogged, flush_all-FileFlushed}

module _ {Tm : Type 0} (os : Platform Tm) (ps : List Piece) where
  -- The lines of some records, one after the other.
  unfoldable pub lines_text : List LogRecord → Bytes
  lines_text [] = []
  lines_text (r ∷ rs) = line os ps r ++ lines_text rs

  pub lines_text-append :
      (rs qs : List LogRecord) → lines_text (rs ++ qs) ≡ lines_text rs ++ lines_text qs
  unfolding lines_text
  lines_text-append [] qs = refl
  lines_text-append (r ∷ rs) qs =
      ap (λ l. line os ps r ++ l) (lines_text-append rs qs)
      ∙ sym (append_assoc (line os ps r) (lines_text rs) (lines_text qs))

  pub lines_text-concat :
      (rs : List LogRecord) (r : LogRecord)
      → lines_text (rs ++ r ∷ []) ≡ lines_text rs ++ line os ps r
  lines_text-concat rs r =
      lines_text-append rs (r ∷ [])
      ∙ ap (λ l. lines_text rs ++ l) (unfold lines_text in append-nil (line os ps r))

-- A backend that logs by a pattern to one open file among sinks without a file, and what was handed
-- over to the file so far.
pub record Filing {Tm : Type 0} (os : Platform Tm) (p : Bytes) (pre post : List Sink)
    (path so_far : Bytes) (b : Backend) : Type 0 where
  pub file : FileSink
  pub pattern : b.formatter ≡ make_formatter p
  pub warm : IsWarm os b.cache
  pub sinks : b.sinks ≡ pre ++ file_sink file ∷ post
  pub at_path : file.path ≡ path
  pub is_open : file.stream.is_open ≡ true
  pub text : handed_over path (file.stream, b.world) ≡ so_far

module _ {Tm : Type 0} (os : Platform Tm) (faithful : IsFaithful os) {p : Bytes} {ps : List Piece}
    (reads : Reads p ps) {pre post : List Sink} (fileless : All IsFileless pre)
    (fileless' : All IsFileless post) {path so_far : Bytes} where
  pub emit-Filing :
      (b : Backend) (r : LogRecord)
      → Filing os p pre post path so_far b
      → Filing os p pre post path (so_far ++ line os ps r) (emit os b r).0
        × ((emit os b r).1 ≡ none)
  emit-Filing b r f =
      let (sinks, world, thrown, same, warm) = emit_lem os faithful b r f.pattern reads f.warm in
      let l = line os ps r in
      let reached =
        write_all-FileLogged os l pre post f.file b.world fileless fileless' f.is_open in
      let o = write_all os b.sinks l b.world in
      let shape = ap (λ x. write_all os x l b.world) f.sinks in
      (
        record {
          file = reached.after;
          pattern = same ∙ f.pattern;
          warm = warm;
          sinks = sinks ∙ ap (λ x. x.object) shape ∙ reached.sinks;
          at_path = reached.same_path ∙ f.at_path;
          is_open = reached.still_open;
          text =
              ap (λ w. handed_over path (reached.after.stream, w)) (world ∙ ap (λ x. x.world) shape)
              ∙ subst
                  (λ q.
                    handed_over q (
                      reached.after.stream,
                      (write_all os (pre ++ file_sink f.file ∷ post) l b.world).world,
                    )
                    ≡ handed_over q (f.file.stream, b.world) ++ l)
                  f.at_path reached.text
              ∙ ap (λ t. t ++ l) f.text;
        },
        thrown ∙ ap (λ x. x.thrown) shape ∙ reached.quiet,
      )

  pub flush_sinks-Filing :
      (b : Backend)
      → Filing os p pre post path so_far b
      → Filing os p pre post path so_far (flush_sinks b)
        × (content path (flush_sinks b).world ≡ so_far)
  unfolding flush_sinks
  flush_sinks-Filing b f =
      let reached = flush_all-FileFlushed pre post f.file b.world fileless fileless' f.is_open in
      let shape = ap (λ x. flush_all x b.world) f.sinks in
      let all_there : content path (flush_sinks b).world ≡ so_far =
        ap (λ x. content path x.1) shape
        ∙ subst
            (λ q.
              content q (flush_all (pre ++ file_sink f.file ∷ post) b.world).1
              ≡ handed_over q (f.file.stream, b.world))
            f.at_path reached.text
        ∙ f.text in
      (
        record {
          file = reached.after;
          pattern = f.pattern;
          warm = f.warm;
          sinks = ap (λ x. x.0) shape ∙ reached.sinks;
          at_path = reached.same_path ∙ f.at_path;
          is_open = reached.still_open;
          text =
              ap (λ l. content path (flush_sinks b).world ++ l) reached.nothing_waits
              ∙ append-nil _
              ∙ all_there;
        },
        all_there,
      )
