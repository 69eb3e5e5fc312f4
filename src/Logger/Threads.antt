-- ===== src/Logger/Threads.antt =====
-- Several threads on a synchronous logger, from its settings to its log file.
mod Tests
use logparse.Base.{
  ℕ, zero, suc, ◌≡◌, ◌≢◌, refl, ap, ◌∙◌, sym, subst, Bool, true, false, List, [], ◌∷◌, ◌++◌, map,
  some, Bytes, All, All-append, length, get_elem?,
}
use logparse.Backend.{Backend}
use logparse.Config.{Config, is_async}
use logparse.Formatter.{TimeCache}
use logparse.Formatter.Cache.{IsWarm, line}
use logparse.Formatter.Reads.{Piece, Reads}
use logparse.Logger.{Logger, shared, make_logger}
use logparse.Logger.Prepared.{Prepared, Prepared-made, housed, console_part}
use logparse.Platform.{Platform, IsFaithful}
use logparse.Sink.{Sink, file_sink, console_sink}
use logparse.Sink.Apart.{IsApart}
use logparse.Sink.Disk.{World, content}
use logparse.Threads.{Machine, Step, Run, Event, resting, flushed}
use logparse.Sink.Steady.{IsSteady}
use logparse.Threads.Calm.{Run-IsSteady}
use logparse.Threads.Disk.{StartsWith, flushed_lines}
use logparse.Threads.Events.{gather, enters, lines_of, texts}
use logparse.Threads.Lines.{asked, told, Run-lines}
use logparse.Sink.Others.{OthersAre}
use logparse.Threads.Patterns.{IsPatterned}
use logparse.Sink.Others.{get_elem?-behind}
use logparse.Sink.Whole.{Whole}
use logparse.Threads.Files.{threads_file}

-- The threads of a backend's users, none of them in a call.
abbrev pub machine_of : Backend → (ℕ → TimeCache) → Machine
machine_of b caches = record {
  formatter = b.formatter;
  sinks = b.sinks;
  world = b.world;
  progress = λ t. resting;
  caches = caches;
}

-- The index of the log file's sink.
abbrev pub file_index : Config → ℕ
file_index c = length (console_part c.enable_console c.colored_output)

console_part-are :
    (Is : Sink → Type 0) (on colored : Bool)
    → ((b : Bool) → Is (console_sink b))
    → All Is (console_part on colored)
console_part-are Is true colored h = (h colored, tt)
console_part-are Is false colored h = tt

OthersAre-last :
    (Is : Sink → Type 0) (xs : List Sink) (x : Sink)
    → All Is xs
    → OthersAre Is (length xs) (xs ++ x ∷ [])
OthersAre-last Is [] x h zero s ne at = absurd (ne refl)
OthersAre-last Is [] x h (suc j) s ne at = cc at
OthersAre-last Is (y ∷ ys) x (hy, h) zero s ne at = let e : y ≡ s = cc at in subst Is e hy
OthersAre-last Is (y ∷ ys) x (hy, h) (suc j) s ne at =
    OthersAre-last Is ys x h j s (λ e. ne (ap suc e)) at

module _ {Tm : Type 0} (os : Platform Tm) (c : Config) (w : World) where
  -- The machine of a logger as it is made.
  record Ready (b : Backend) (caches : ℕ → TimeCache) : Type 0 where
    whole : Whole (file_index c) c.file_path (content c.file_path w) b.sinks b.world
    steady : All IsSteady b.sinks

  Prepared-Ready :
      (l : Logger) (p : Prepared os c w l) (caches : ℕ → TimeCache) → Ready p.backend caches
  Prepared-Ready l p caches =
      let pre = console_part c.enable_console c.colored_output in
      let f = p.filing.file in
      let as_made = p.filing.sinks in
      record {
        whole = record {
          file = f;
          at = ap (λ x. get_elem? x (length pre)) as_made ∙ get_elem?-behind pre (file_sink f) [];
          path = p.filing.at_path;
          is_open = p.filing.is_open;
          text = p.filing.text;
          others = subst (OthersAre (IsApart c.file_path) (length pre)) (sym as_made) (
              OthersAre-last (IsApart c.file_path) pre (file_sink f) (
                console_part-are (IsApart c.file_path) c.enable_console c.colored_output
                  (λ b. tt)));
        };
        steady = subst (All IsSteady) (sym as_made) (
            All-append IsSteady pre (file_sink f ∷ [])
              (console_part-are IsSteady c.enable_console c.colored_output (λ b. tt)) (tt, tt));
      }

module _ {Tm : Type 0} (os : Platform Tm) (faithful : IsFaithful os) {ps : List Piece} where
  -- A logger that was made with `mode = sync` and `file = true`, used by any number of threads while
  -- no pattern is set: once a thread has flushed the file sink, the log file starts for good with what
  -- it held before the constructor and the lines that the sink took before the flush, all whole; and
  -- of these, the lines of a thread that is in no call are those of all its records, each once and in
  -- order, as the pattern of the settings reads. No cache is wrong at the start, and fmt writes a text
  -- as it is.
  pub threads_complete :
      (c : Config) (w : World) (l : Logger) (caches : ℕ → TimeCache) (t u : ℕ)
      (es later : List Event) (n o q : Machine)
      → is_async c ≡ false
      → c.enable_file ≡ true
      → Reads c.pattern ps
      → (make_logger c w).made ≡ some l
      → ((v : ℕ) → IsWarm os (caches v))
      → Run os (machine_of (shared l.m_backend) caches) es n
      → gather told es ≡ []
      → n.progress t ≡ resting
      → Step os n (flushed u (file_index c)) o
      → Run os o later q
      → StartsWith c.file_path
          (content c.file_path w ++ texts (gather (enters (file_index c)) es))
          q.world
        × (lines_of t (gather (enters (file_index c)) es) ≡ map (line os ps) (gather (asked t) es))
  threads_complete c w l caches t u es later n o q sync files reads made warm r none_told rests st
        r' =
      let p = Prepared-made os c w l files made in
      let home : shared l.m_backend ≡ p.backend =
        ap shared
          (p.is_housed ∙ ap (λ on. housed on c.queue_capacity c.overflow_policy p.backend) sync) in
      let run : Run os (machine_of p.backend caches) es n =
        subst (λ b. Run os (machine_of b caches) es n) home r in
      let ready = Prepared-Ready os c w l p caches in
      let whole =
        threads_file os t run ready.whole refl rests (Run-IsSteady os t run ready.steady).1 in
      let set : IsPatterned os faithful c.pattern (machine_of p.backend caches) = record {
        formatter = p.filing.pattern;
        caches = warm;
      } in
      (
        flushed_lines os u run ready.whole st r',
        whole.1 ∙ Run-lines os faithful reads t run set none_told,
      )
