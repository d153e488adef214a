-- ===== src/Makimono/Journal/Appending.antt =====
-- The write of `append` in makimono/src/journal.rs, into the file of the last segment: the whole of
-- the bytes, or the part that came through before it failed.
use mathlib.Core.List.{append_assoc, map-append}
use tear.Base.{
  ℕ, ◌+◌, ◌-◌, ◌≤◌, List, [], ◌++◌, some, length, take, ◌≡◌, refl, ap, ◌∙◌, sym, subst, arith,
  length-append,
}
use tear.Base.Maps.{get, modify, get-modify}
use tear.Makimono.Journal.{Segment, Journal, end}
use tear.Makimono.Journal.Stream.{hole, stretch, content, stream_from, view, take-append, take-all}
use tear.Makimono.Journal.Valid.{
  IsValid, IsWritable, IsOrdered, Agree, Agree-IsOrdered, Agree-stream_from, IsOrdered-append,
  IsOrdered-split, back-append, end_of, past_of, past_of-append, single, stream_from-append,
}

-- The journal once `extra` is behind the last file's bytes, of which `counted` are the journal's.
abbrev pub extended : Journal → Segment → List Segment → List ℕ → ℕ → ℕ → ℕ → Journal
extended j s init extra counted lost unsynced = record j {
  files = modify s.start (λ old. old ++ extra) j.files;
  segments = init ++ single (record s { len = s.len + counted });
  lost = lost;
  unsynced = unsynced;
}

module _ {j : Journal} (v : IsValid j) (init : List Segment) (s : Segment)
    (whole : j.segments ≡ init ++ single s) (none_lost : j.lost ≡ 0) (held : List ℕ)
    (found : get s.start j.files ≡ some held) (held_len : length held ≡ s.len) (extra : List ℕ)
    (counted lost unsynced : ℕ) (counted_le : counted ≤ length extra)
    (lost_else : lost ≡ 0 → counted ≡ length extra) where
  parts : IsOrdered j.files 0 init × IsOrdered j.files (past_of 0 init) (single s)
  parts = IsOrdered-split j.files 0 init (single s) (rw (sym whole) v.ordered)

  extended-Agree : Agree j.files (extended j s init extra counted lost unsynced).files 0 s.start
  extended-Agree k low high =
      ground (arith, get-modify s.start k (λ (old : List ℕ). old ++ extra) j.files)

  get-extended :
      get s.start (extended j s init extra counted lost unsynced).files ≡ some (held ++ extra)
  get-extended =
      ground (arith, get-modify s.start s.start (λ (old : List ℕ). old ++ extra) j.files, found)

  content-extended :
      content s.start (extended j s init extra counted lost unsynced).files ≡ held ++ extra
  content-extended = rw (get-extended, content) refl

  taken : take (s.len + counted) (held ++ extra) ≡ held ++ take counted extra
  taken =
      take-append (s.len + counted) held extra
      ∙ rw (take-all (s.len + counted) held (omega (arith, held_len)))
          (ap (λ n. held ++ take n extra) (omega (arith, held_len)))

  taken_held : take s.len (content s.start j.files) ≡ held
  taken_held = rw (found, content) (take-all s.len held (omega (arith, held_len)))

  before :
      view j
      ≡ stream_from j.files 0 init 0 ++ (hole (s.start - end_of 0 init) ++ (stretch held ++ []))
  before =
      rw (whole, none_lost)
        (stream_from-append j.files 0 init (single s) 0
          ∙ ap
              (λ bytes.
                stream_from j.files 0 init 0
                ++ (hole (s.start - end_of 0 init) ++ (stretch bytes ++ [])))
              taken_held)

  after :
      view (extended j s init extra counted lost unsynced)
      ≡ stream_from j.files 0 init 0
        ++ (hole (s.start - end_of 0 init) ++ (stretch (held ++ take counted extra) ++ hole lost))
  after =
      stream_from-append (extended j s init extra counted lost unsynced).files 0 init
        (single (record s { len = s.len + counted })) lost
      ∙ rw (content-extended, taken)
          (ap
            (λ front.
              front
              ++ (hole (s.start - end_of 0 init)
                  ++ (stretch (held ++ take counted extra) ++ hole lost)))
            (sym (
              Agree-stream_from j.files (extended j s init extra counted lost unsynced).files 0 0
                s.start init 0 parts.0 (omega arith) (parts.1).0 extended-Agree 0)))

  pub extended-view :
      view (extended j s init extra counted lost unsynced)
      ≡ view j ++ (stretch (take counted extra) ++ hole lost)
  extended-view = after ∙ rw before (simp (map-append, append_assoc))

  pub extended-IsValid : IsValid (extended j s init extra counted lost unsynced)
  unfolding end
  extended-IsValid = record {
    ordered =
        IsOrdered-append (extended j s init extra counted lost unsynced).files 0 init
          (single (record s { len = s.len + counted }))
          (Agree-IsOrdered j.files (extended j s init extra counted lost unsynced).files 0 0 s.start
            init parts.0 (omega arith) (parts.1).0 extended-Agree)
          (
            (parts.1).0,
            rw content-extended (omega (arith, held_len, length-append held extra)),
            tt,
          );
    fresh = λ k above past.
        let low = rw (past_of-append 0 init (record s { len = s.len + counted })) at above in
        let beyond = rw (back-append init (record s { len = s.len + counted })) at past in
        let old =
          v.fresh k (rw (whole, past_of-append 0 init s) (omega arith))
            (rw (whole, none_lost, back-append init s) (omega arith)) in
        ground (arith, get-modify s.start k (λ (old : List ℕ). old ++ extra) j.files);
    writable = λ t e.
        let same : record s { len = s.len + counted } ≡ t =
          cc (back-append init (record s { len = s.len + counted })) in
        subst (IsWritable (extended j s init extra counted lost unsynced).files lost) same (record {
          held = held ++ extra;
          found = get-extended;
          exact = λ z. omega (arith, held_len, length-append held extra, lost_else z);
        });
    handle =
        v.handle
        ∙ rw (whole, back-append init s, back-append init (record s { len = s.len + counted }))
            refl;
    room = v.room;
  }
