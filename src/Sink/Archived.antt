-- ===== src/Sink/Archived.antt =====
-- The files of a rotating sink among sinks that work on other files.
use logparse.Base.{
  ℕ, zero, suc, ◌≡◌, ◌≢◌, refl, ap, ◌∙◌, sym, subst, true, none, some, List, [], ◌++◌, Bytes,
  Option, get_elem?, set, get_elem?-set_ne, append_assoc, or_else,
}
use logparse.Platform.{Platform}
use logparse.Sink.{
  Sink, RotatingFileSink, Outcome, rotating_sink, write, flush, rotating_write, rotating_flush,
}
use logparse.Sink.Apart.{IsApart, LeftAlone, write-LeftAlone, flush-LeftAlone, rotating_write-path}
use logparse.Sink.Archive.{log_text, older, log-stream_flush, text}
use logparse.Sink.Reopened.{Cooperates}
use logparse.Sink.Disk.{World, stream_flush}
use logparse.Sink.History.{rotating_write-Continued}
use logparse.Sink.Refusals.{SameRefusals, write-SameRefusals, flush-SameRefusals}
use logparse.Sink.Slots.{slot}
use logparse.Sink.Keeper.{Keeper}
use logparse.Sink.Others.{
  OthersAre, OthersAre-set, OthersAre-set_own, get_elem?-set_there, in_range,
}

-- A sink that works on no file of a rotating log.
abbrev pub IsFarFrom : Bytes → Sink → Type 0
IsFarFrom base s = (i : ℕ) → IsApart (slot base i) s

-- The sink at an index is an open rotating sink that keeps `n + 1` numbered files, no other sink works
-- on its files, the environment refuses it nothing, and its files hold the end of the bytes so far.
pub record Archived (k : ℕ) (base : Bytes) (n : ℕ) (so_far : Bytes) (sinks : List Sink) (w : World)
    : Type 0 where
  pub file : RotatingFileSink
  pub at : get_elem? sinks k ≡ some (rotating_sink file)
  pub path : file.path ≡ base
  pub is_open : file.stream.is_open ≡ true
  pub limit : file.max_files ≡ suc n
  pub cooperates : Cooperates file w
  pub lost : Bytes
  pub log : lost ++ log_text (suc n) file w ≡ so_far
  pub others : OthersAre (IsFarFrom base) k sinks

older-same :
    (base : Bytes) (n : ℕ) (f g : Bytes → Option Bytes)
    → ((i : ℕ) → g (slot base i) ≡ f (slot base i))
    → older base n g ≡ older base n f
older-same base zero f g h = refl
older-same base (suc n) f g h =
    ap (λ o. text o ++ older base n g) (h (suc n))
    ∙ ap (λ l. text (f (slot base (suc n))) ++ l) (older-same base n f g h)

log_text-same :
    (r : RotatingFileSink) (n : ℕ) (w w' : World)
    → ((i : ℕ) → w'.files (slot r.path i) ≡ w.files (slot r.path i))
    → log_text n r w' ≡ log_text n r w
log_text-same r n w w' h =
    ap (λ l. l ++ (or_else (w'.files r.path) [] ++ r.stream.pending))
      (older-same r.path n w.files w'.files h)
    ∙ ap (λ o. older r.path n w.files ++ (or_else o [] ++ r.stream.pending)) (h 0)

Cooperates-same :
    (r : RotatingFileSink) (w w' : World) → SameRefusals w w' → Cooperates r w → Cooperates r w'
Cooperates-same r w w' (opens, renames) c = record {
  renames = λ s d. ap (λ f. f s d) renames ∙ c.renames s d;
  opens = ap (λ f. f r.path) opens ∙ c.opens;
}

module _ {k n : ℕ} {base so_far : Bytes} (sinks : List Sink) (w : World)
    (h : Archived k base n so_far sinks w) where
  elsewhere :
      (j : ℕ) (s : Sink) (o : Outcome Sink)
      → j ≢ k
      → get_elem? sinks j ≡ some s
      → ((i : ℕ) → IsApart (slot base i) s → LeftAlone (slot base i) w o)
      → SameRefusals w o.world
      → Archived k base n so_far (set sinks j o.object) o.world
  elsewhere j s o ne at leaves same =
      let alone : (i : ℕ) → LeftAlone (slot base i) w o = λ i. leaves i (h.others j s ne at i) in
      let files : (i : ℕ) → o.world.files (slot h.file.path i) ≡ w.files (slot h.file.path i) = λ i.
        subst (λ b. o.world.files (slot b i) ≡ w.files (slot b i)) (sym h.path)
          (alone i).same_file in
      record {
        file = h.file;
        at = get_elem?-set_ne sinks o.object ne ∙ h.at;
        path = h.path;
        is_open = h.is_open;
        limit = h.limit;
        cooperates = Cooperates-same h.file w o.world same h.cooperates;
        lost = h.lost;
        log = ap (λ l. h.lost ++ l) (log_text-same h.file (suc n) w o.world files) ∙ h.log;
        others =
            OthersAre-set (IsFarFrom base) k sinks o.object j at (λ e i. (alone i).still_apart)
              h.others;
      }

  itself : (s : Sink) → get_elem? sinks k ≡ some s → rotating_sink h.file ≡ s
  itself s at = cc (at, h.at)

  own_write :
      {Tm : Type 0} (os : Platform Tm) (line : Bytes)
      → let o = write os (rotating_sink h.file) line w in
        (o.thrown ≡ none) × Archived k base n (so_far ++ line) (set sinks k o.object) o.world
  unfolding write
  own_write os line =
      let o = rotating_write h.file line w in
      let after = rotating_write-Continued n h.file line w h.is_open h.cooperates h.limit in
      (
        after.quiet,
        record {
          file = o.object;
          at = get_elem?-set_there sinks k (rotating_sink o.object) h.at;
          path = rotating_write-path h.file line w ∙ h.path;
          is_open = after.still_open;
          limit = after.same_limit ∙ h.limit;
          cooperates = after.cooperates;
          lost = h.lost ++ after.lost;
          log =
              append_assoc h.lost after.lost (log_text (suc n) o.object o.world)
              ∙ ap (λ l. h.lost ++ l) after.log
              ∙ sym (append_assoc h.lost (log_text (suc n) h.file w) line)
              ∙ ap (λ l. l ++ line) h.log;
          others =
              OthersAre-set_own (IsFarFrom base) k sinks (rotating_sink o.object) h.at h.others;
        },
      )

  own_flush :
      let o = flush (rotating_sink h.file) w in
      Archived k base n so_far (set sinks k o.object) o.world
  unfolding flush rotating_flush
  own_flush =
      let r = h.file in
      let (s, w') = stream_flush r.path r.stream w in
      let (open_still, same) = log-stream_flush (suc n) r w h.is_open in
      let now : RotatingFileSink = record r { stream = s } in
      record {
        file = now;
        at = get_elem?-set_there sinks k (rotating_sink now) h.at;
        path = h.path;
        is_open = open_still;
        limit = h.limit;
        cooperates =
            let calm =
              Cooperates-same r w w' (flush-SameRefusals (rotating_sink r) w) h.cooperates in
            record { renames = calm.renames; opens = calm.opens };
        lost = h.lost;
        log = ap (λ l. h.lost ++ l) same ∙ h.log;
        others = OthersAre-set_own (IsFarFrom base) k sinks (rotating_sink now) h.at h.others;
      }

module _ {Tm : Type 0} (os : Platform Tm) {k n : ℕ} {base : Bytes} where
  pub archive_keeper : Keeper os k (Archived k base n)
  archive_keeper = record {
    there = λ b sinks w h. in_range sinks k h.at;
    own_write = λ b line sinks w s h at.
        subst
          (λ x.
            let o = write os x line w in
            (o.thrown ≡ none) × Archived k base n (b ++ line) (set sinks k o.object) o.world)
          (itself sinks w h s at) (own_write sinks w h os line);
    own_flush = λ b sinks w s h at.
        subst (λ x. let o = flush x w in Archived k base n b (set sinks k o.object) o.world)
          (itself sinks w h s at) (own_flush sinks w h);
    other_write = λ b line sinks w j s h ne at.
        elsewhere sinks w h j s (write os s line w) ne at
          (λ i. write-LeftAlone os (slot base i) s line w) (write-SameRefusals os s line w);
    other_flush = λ b sinks w j s h ne at.
        elsewhere sinks w h j s (flush s w) ne at (λ i. flush-LeftAlone (slot base i) s w)
          (flush-SameRefusals s w);
  }
