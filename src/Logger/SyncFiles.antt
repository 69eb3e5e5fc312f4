-- ===== src/Logger/SyncFiles.antt =====
-- The log file of a synchronous logger, from its settings to its bytes.
use logparse.Base.{
  ◌≡◌, refl, ap, ◌∙◌, sym, subst, true, false, Bool-cases, inl, inr, List, [], ◌∷◌, ◌++◌, some,
  Bytes, All, append_assoc, append-nil,
}
use logparse.Backend.{Backend, emit, flush_sinks}
use logparse.Backend.Files.{Filing, lines_text, emit-Filing, flush_sinks-Filing}
use logparse.Config.{Config, is_async}
use logparse.Formatter.Cache.{line}
use logparse.Formatter.Reads.{Piece, Reads}
use logparse.Level.{Level, lt}
use logparse.Logger.{Logger, on_caller, returned, shared, make_logger, logged}
use logparse.Logger.Calls.{flush, flush_backend}
use logparse.Logger.Lines.{
  Call, kept, record_of, log_all, sync_logger, after-below, after-kept, kept-below, kept-kept,
}
use logparse.Logger.Prepared.{Prepared-made, housed, console_part, console_part-IsFileless}
use logparse.Platform.{Platform, IsFaithful}
use logparse.Sink.{Sink}
use logparse.Sink.Disk.{World, content}
use logparse.Sink.Files.{IsFileless}

-- A synchronous logger that has handed so much over to its log file.
record Filed {Tm : Type 0} (os : Platform Tm) (g : Config) (at : Level) (p : Bytes)
    (pre post : List Sink) (path so_far : Bytes) (l : Logger) : Type 0 where
  backend : Backend
  same : l ≡ sync_logger g at backend
  filing : Filing os p pre post path so_far backend

module _ {Tm : Type 0} (os : Platform Tm) (faithful : IsFaithful os) {ps : List Piece} where
  module _ (g : Config) (at : Level) {p : Bytes} (reads : Reads p ps) {pre post : List Sink}
      (fileless : All IsFileless pre) (fileless' : All IsFileless post) {path : Bytes} where
    log_all-Filed :
        (cs : List Call) (so_far : Bytes) (b : Backend)
        → Filing os p pre post path so_far b
        → Filed os g at p pre post path
            (so_far ++ lines_text os ps (kept at cs))
            (log_all os (sync_logger g at b) cs)
    unfolding log_all lines_text
    log_all-Filed [] so_far b f =
        unfold kept in
        unfold lines_text in record { backend = b; same = refl; filing = rw (append-nil so_far) f }
    log_all-Filed (c ∷ cs) so_far b f = elim (Bool-cases (lt c.at at)) [
      | inl h ↦ rw (after-below os g at b c h, kept-below at c cs h) (log_all-Filed cs so_far b f)
      | inr h ↦
          let r = record_of c in
          let next =
            log_all-Filed cs (so_far ++ line os ps r) (emit os b r).0
              (emit-Filing os faithful reads fileless fileless' b r f).0 in
          let longer : (so_far ++ line os ps r) ++ lines_text os ps (kept at cs)
              ≡ so_far ++ lines_text os ps (kept at (c ∷ cs)) =
            append_assoc so_far (line os ps r) (lines_text os ps (kept at cs))
            ∙ ap (λ rs. so_far ++ lines_text os ps rs) {x = r ∷ kept at cs}
                (sym (kept-kept at c cs h)) in
          subst (λ t. Filed os g at p pre post path t (log_all os (sync_logger g at b) (c ∷ cs)))
            longer (unfold log_all in rw (after-kept os g at b c h) next)
    ]

  -- The flush behind the calls.
  flush-Filed :
      {g : Config} {at : Level} {p : Bytes} {pre post : List Sink} {path so_far : Bytes}
      (reads : Reads p ps)
      → All IsFileless pre
      → All IsFileless post
      → (l : Logger) → Filed os g at p pre post path so_far l
      → (l' : Logger) × (flush l ≡ returned l')
        × (content path (shared l'.m_backend).world ≡ so_far)
  unfolding flush flush_backend
  flush-Filed {g} {at} reads fileless fileless' l f = (
    sync_logger g at (flush_sinks f.backend),
    ap (λ x. logged x (flush_backend x.m_backend)) f.same,
    (flush_sinks-Filing os faithful reads fileless fileless' f.backend f.filing).1,
  )

  -- A logger that was made with `mode = sync` and `file = true`: behind any calls of its logging
  -- functions, `flush` returns and leaves in the log file what it held before the constructor, and
  -- the line of every call at or above the level of the settings, each once and in order, as the
  -- pattern of the settings reads. Fmt writes a text as it is.
  pub sync_file_complete :
      (c : Config) (w : World) (l : Logger) (cs : List Call)
      → is_async c ≡ false
      → c.enable_file ≡ true
      → Reads c.pattern ps
      → (make_logger c w).made ≡ some l
      → (l' : Logger) × (flush (log_all os l cs) ≡ returned l')
        × (content c.file_path (shared l'.m_backend).world
            ≡ content c.file_path w ++ lines_text os ps (kept c.level cs))
  sync_file_complete c w l cs sync files reads made =
      let p = Prepared-made os c w l files made in
      let home : l.m_backend ≡ on_caller p.backend =
        p.is_housed ∙ ap (λ on. housed on c.queue_capacity c.overflow_policy p.backend) sync in
      let same : sync_logger l.m_config c.level p.backend ≡ l = cc (home, p.level) in
      let console = console_part-IsFileless c.enable_console c.colored_output in
      flush-Filed reads console tt (log_all os l cs) (
        subst
          (λ x.
            Filed os l.m_config c.level c.pattern (console_part c.enable_console c.colored_output)
              [] c.file_path (content c.file_path w ++ lines_text os ps (kept c.level cs))
              (log_all os x cs))
          same
          (log_all-Filed l.m_config c.level reads console tt cs (content c.file_path w) p.backend
            p.filing))
