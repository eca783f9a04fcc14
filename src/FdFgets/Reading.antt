-- ===== src/FdFgets/Reading.antt =====
-- What a call of `read` does to a reader over a descriptor that does not fail.
use fapolicyd.Prelude.{
  ℕ, zero, suc, ◌+◌, ◌-◌, ◌*◌, ◌≡◌, ◌≤◌, ◌<◌, refl, ap, ◌∙◌, Bool, true, false, ◌||◌, Option, none,
  some, List, [], ◌∷◌, arith, length, drop, ◌==◌, if◌then◌else◌, length-append, length-take,
  length-drop, if-cases,
}
use fapolicyd.Prelude.Bytes.{Bytes}
use fapolicyd.FdFgets.{
  FdFgetsState, line_end, is_some, Chunk, interrupted, failed, bytes, put_back, read_chunk,
  is_empty, is_mmap_file, space, compacted, filled, fill, Line,
}
use fapolicyd.FdFgets.Stream.{
  IsValid, content, content-put_back, unread-compacted, length-read_chunk, filled-IsValid,
}

-- No `read` fails, but it may be interrupted.
unfoldable pub no_failure : List Chunk → Bool
no_failure [] = true
no_failure (failed ∷ fd) = false
no_failure (_ ∷ fd) = no_failure fd

no_failure-put_back : (s : Bytes) (fd : List Chunk) → no_failure (put_back s fd) ≡ no_failure fd
unfolding no_failure
no_failure-put_back [] fd = refl
no_failure-put_back (c ∷ s) fd = refl

-- Without failures a read into some room gives bytes, but at the end.
abbrev Reads : List Chunk → Option Bytes × List Chunk → Type 0
Reads fd (none, fd') = ⊥
Reads fd (some got, fd') =
    (no_failure fd' ≡ true)
    × (length (content fd) ≡ length got + length (content fd'))
    × ((is_empty got ≡ true) → content fd' ≡ [])

read_chunk-Reads :
    (size : ℕ) (fd : List Chunk) → no_failure fd ≡ true → Reads fd (read_chunk (suc size) fd)
unfolding no_failure read_chunk content
read_chunk-Reads size [] h = (refl, omega arith, λ e. refl)
read_chunk-Reads size (interrupted ∷ fd) h = read_chunk-Reads size fd h
read_chunk-Reads size (failed ∷ fd) h = cc
read_chunk-Reads size (bytes c s ∷ fd) h = (
  no_failure-put_back (drop size s) fd ∙ h,
  omega (
    arith,
    ap length (content-put_back (drop size s) fd),
    length-append {0} s (content fd),
    length-append {0} (drop size s) (content fd),
    length-take {0} size s,
    length-drop {0} size s,
  ),
  λ e. cc,
)

read_chunk-Reads_some :
    (size : ℕ) (fd : List Chunk) → 0 < size → no_failure fd ≡ true → Reads fd (read_chunk size fd)
read_chunk-Reads_some zero fd z h = absurd (omega arith)
read_chunk-Reads_some (suc size) fd z h = read_chunk-Reads size fd h

pub length-zero : (s : Bytes) → length s ≡ 0 → s ≡ []
length-zero [] h = refl
length-zero (c ∷ s) h = absurd (omega arith)

-- What has still to be given out, with what has to be read first counted twice.
abbrev pub left : FdFgetsState → List Chunk → ℕ
left st fd = length st.unread + 2 * length (content fd)

-- A reader over a buffer of its own, and a descriptor that has not failed.
pub record IsReading (st : FdFgetsState) (fd : List Chunk) : Type 0 where
  pub valid : IsValid st
  pub has_room : 1 ≤ st.room
  pub reads : is_mmap_file st.mem_type ≡ false
  pub no_failures : no_failure fd ≡ true
  pub ended : st.eof ≡ true → content fd ≡ []

-- How a call of `read` leaves the state: a line or the end, a byte more, or a full buffer.
abbrev pub Fed : FdFgetsState → List Chunk → FdFgetsState × Bool × List Chunk → Type 0
Fed st fd f =
    (f.1 ≡ false)
    × IsReading f.0 f.2
    × (left f.0 f.2 ≤ left st fd)
    × (is_some (line_end f.0.unread) ≡ false
        → f.0.eof ≡ false
        → (f.0.skipped ≡ 0) × ((space f.0 == 0) ≡ false → left f.0 f.2 < left st fd))

filled-Fed :
    (st : FdFgetsState) (fd : List Chunk) (r : Option Bytes × List Chunk)
    → IsReading st fd
    → st.skipped ≡ 0
    → st.eof ≡ false
    → IsValid (filled st r).0
    → Reads fd r
    → Fed st fd (filled st r)
filled-Fed st fd (none, fd') h k e v r = absurd r
filled-Fed st fd (some [], fd') h k e v r = (
  refl,
  record {
    valid = v;
    has_room = h.has_room;
    reads = h.reads;
    no_failures = r.0;
    ended = λ p. r.2 refl;
  },
  omega (arith, r.1, length-append {0} st.unread []),
  λ p q. cc,
)
filled-Fed st fd (some (c ∷ s), fd') h k e v r = (
  refl,
  record { valid = v; has_room = h.has_room; reads = h.reads; no_failures = r.0; ended = λ p. cc },
  omega (arith, r.1, length-append {0} st.unread (c ∷ s)),
  λ p q. (k, λ e. omega (arith, r.1, length-append {0} st.unread (c ∷ s))),
)

compacted-IsReading :
    (st : FdFgetsState) (fd : List Chunk) → IsReading st fd → IsReading (compacted st) fd
compacted-IsReading st fd h =
    rw (h.reads, compacted)
      record {
        valid = omega (arith, h.valid);
        has_room = h.has_room;
        reads = h.reads;
        no_failures = h.no_failures;
        ended = h.ended;
      }

full-Fed :
    (st st' : FdFgetsState) (fd : List Chunk)
    → IsReading st' fd
    → st'.unread ≡ st.unread
    → (is_some (line_end st'.unread) ≡ false
        → st'.eof ≡ false
        → (st'.skipped ≡ 0) × ((space st' == 0) ≡ true))
    → Fed st fd (st', false, fd)
full-Fed st st' fd h e full = (
  refl,
  h,
  omega (arith, ap length e),
  λ p q. ((full p q).0, λ free. ground (arith, (full p q).1)),
)

Fed-compacted :
    (st st' : FdFgetsState) (fd : List Chunk) (f : FdFgetsState × Bool × List Chunk)
    → st'.unread ≡ st.unread
    → Fed st' fd f
    → Fed st fd f
Fed-compacted st st' fd f e g = (
  g.0,
  g.1,
  omega (arith, ap length e, g.2),
  λ p q. ((g.3 p q).0, λ free. omega (arith, ap length e, (g.3 p q).1 free)),
)

skipped-compacted :
    (st : FdFgetsState) → is_mmap_file st.mem_type ≡ false → (compacted st).skipped ≡ 0
skipped-compacted st h = ground arith

eof-compacted : (st : FdFgetsState) → (compacted st).eof ≡ st.eof
eof-compacted st = ground arith

pub fill-Fed : (st : FdFgetsState) (fd : List Chunk) → IsReading st fd → Fed st fd (fill st fd)
unfolding fill
fill-Fed st fd h =
    let st' = compacted st in
    let h' = compacted-IsReading st fd h in
    let e = unread-compacted st in
    let k = skipped-compacted st h.reads in
    let r = read_chunk (space st') fd in
    if-cases (Fed st fd) (is_some (line_end st.unread) || st.eof) (st, false, fd)
      (if space st' == 0 then (st', false, fd) else filled st' r)
      (λ t. full-Fed st st fd h refl (λ p q. absurd (ground arith)))
      (λ t.
        if-cases (Fed st fd) (space st' == 0) (st', false, fd) (filled st' r)
          (λ full. full-Fed st st' fd h' e (λ p q. (k, full)))
          (λ free. Fed-compacted st st' fd (filled st' r) e (
            filled-Fed st' fd r h' k (eof-compacted st ∙ ground arith)
              (filled-IsValid st' r h'.valid (length-read_chunk (space st') fd))
              (read_chunk-Reads_some (space st') fd (ground arith) h.no_failures))))

-- What a call leaves is less than before, until nothing is left.
abbrev pub Drains : FdFgetsState → List Chunk → FdFgetsState × Line × List Chunk → Type 0
Drains st fd r = IsReading r.0 r.2 × (left r.0 r.2 ≤ left st fd - 1)
