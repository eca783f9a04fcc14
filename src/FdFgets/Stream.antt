-- ===== src/FdFgets/Stream.antt =====
-- The bytes that calls of `fd_fgets_r` give out, against those of the descriptor and the buffer.
use fapolicyd.Prelude.{
  ℕ, zero, suc, ◌+◌, ◌-◌, ◌≡◌, ◌≤◌, refl, sym, ap, ◌∙◌, Bool, true, false, not, ◌&&◌, ◌||◌, Option,
  none, some, List, [], ◌∷◌, ◌++◌, arith, length, take, drop, ◌==◌, if◌then◌else◌, length-append,
  length-take, length-drop, take-append-drop, Bool-cases, if-cases, inl, inr,
}
use mathlib.Core.List.{append_assoc}
use fapolicyd.Prelude.Bytes.{Bytes}
use fapolicyd.FdFgets.{
  FdFgetsState, line_end, is_some, Chunk, interrupted, failed, bytes, put_back, read_chunk, space,
  compacted, filled, fill, Line, read_error, not_yet, got_line, line_len, take_line, must_wait,
  fd_fgets_r,
}

-- The unread bytes stand within the buffer.
abbrev pub IsValid : FdFgetsState → Type 0
IsValid st = st.skipped + length st.unread ≤ st.room

-- The bytes that a descriptor has still to give.
unfoldable pub content : List Chunk → Bytes
content [] = []
content (interrupted ∷ fd) = content fd
content (failed ∷ fd) = content fd
content (bytes c s ∷ fd) = (c ∷ s) ++ content fd

abbrev pub bytes_of : Line → Bytes
bytes_of read_error = []
bytes_of not_yet = []
bytes_of (got_line l) = l

-- What a read gives, as bytes.
abbrev pub read_bytes : Option Bytes → Bytes
read_bytes none = []
read_bytes (some got) = got

pub content-put_back : (s : Bytes) (fd : List Chunk) → content (put_back s fd) ≡ s ++ content fd
unfolding content
content-put_back [] fd = refl
content-put_back (c ∷ s) fd = refl

pub content-read_chunk :
    (size : ℕ) (fd : List Chunk)
    → read_bytes (read_chunk size fd).0 ++ content (read_chunk size fd).1 ≡ content fd
unfolding content read_chunk
content-read_chunk size [] = refl
content-read_chunk size (interrupted ∷ fd) = content-read_chunk size fd
content-read_chunk size (failed ∷ fd) = refl
content-read_chunk size (bytes c s ∷ fd) = rw (content-put_back (drop size (c ∷ s)) fd) (
    sym (append_assoc (take size (c ∷ s)) (drop size (c ∷ s)) (content fd))
    ∙ ap (λ b. b ++ content fd) (take-append-drop size (c ∷ s)))

pub length-read_chunk :
    (size : ℕ) (fd : List Chunk) → length (read_bytes (read_chunk size fd).0) ≤ size
unfolding read_chunk
length-read_chunk size [] = omega arith
length-read_chunk size (interrupted ∷ fd) = length-read_chunk size fd
length-read_chunk size (failed ∷ fd) = omega arith
length-read_chunk size (bytes c s ∷ fd) = omega (arith, length-take {0} size (c ∷ s))

-- What a state and a descriptor hold together.
abbrev pub held : FdFgetsState → List Chunk → Bytes
held st fd = st.unread ++ content fd

held-filled :
    (st : FdFgetsState) (r : Option Bytes × List Chunk) (fd : List Chunk)
    → read_bytes r.0 ++ content r.1 ≡ content fd
    → held (filled st r).0 (filled st r).2 ≡ held st fd
held-filled st (none, fd') fd e = ap (λ b. st.unread ++ b) e
held-filled st (some got, fd') fd e =
    append_assoc st.unread got (content fd') ∙ ap (λ b. st.unread ++ b) e

pub filled-IsValid :
    (st : FdFgetsState) (r : Option Bytes × List Chunk)
    → IsValid st
    → length (read_bytes r.0) ≤ space st
    → IsValid (filled st r).0
filled-IsValid st (none, fd') v h = v
filled-IsValid st (some got, fd') v h = omega (arith, length-append {0} st.unread got)

pub compacted-IsValid : (st : FdFgetsState) → IsValid st → IsValid (compacted st)
compacted-IsValid st v = ground arith

pub unread-compacted : (st : FdFgetsState) → (compacted st).unread ≡ st.unread
unread-compacted st = ground arith

abbrev pub Fills : FdFgetsState → List Chunk → FdFgetsState × Bool × List Chunk → Type 0
Fills st fd r = IsValid r.0 × (held r.0 r.2 ≡ held st fd)

pub fill_lem : (st : FdFgetsState) (fd : List Chunk) → IsValid st → Fills st fd (fill st fd)
unfolding fill
fill_lem st fd v =
    let st' = compacted st in
    let v' : IsValid st' = compacted-IsValid st v in
    let same : held st' fd ≡ held st fd = ap (λ u. u ++ content fd) (unread-compacted st) in
    let r = read_chunk (space st') fd in
    if-cases (Fills st fd) (is_some (line_end st.unread) || st.eof) (st, false, fd)
      (if space st' == 0 then (st', false, fd) else filled st' r) (λ e. (v, refl))
      (λ e.
        if-cases (Fills st fd) (space st' == 0) (st', false, fd) (filled st' r) (λ e'. (v', same))
          (λ e'. (
            filled-IsValid st' r v' (length-read_chunk (space st') fd),
            held-filled st' r fd (content-read_chunk (space st') fd) ∙ same,
          )))

-- A newline is the last byte, if there is one.
unfoldable pub newline_last : Bytes → Bool
newline_last [] = true
newline_last (c ∷ []) = true
newline_last (c ∷ d ∷ s) = not (c == 10) && newline_last (d ∷ s)

-- How much of a string is a line at most.
abbrev pub line_limit : Option ℕ → ℕ → ℕ
line_limit none avail = avail
line_limit (some n) avail = n

pub line_limit-le : (s : Bytes) → line_limit (line_end s) (length s) ≤ length s
unfolding line_end
line_limit-le [] = omega arith
line_limit-le (c ∷ s) = ground (arith, line_limit-le s)

line_limit-cons :
    (c : ℕ) (s : Bytes)
    → ((c == 10) ≡ false
        → line_limit (line_end (c ∷ s)) (length (c ∷ s)) ≡ suc (line_limit (line_end s) (length s)))
      × ((c == 10) ≡ true → line_limit (line_end (c ∷ s)) (length (c ∷ s)) ≡ 1)
unfolding line_end
line_limit-cons c s = (λ h. ground arith, λ h. ground arith)

newline_last-take :
    (s : Bytes) (m : ℕ) → m ≤ line_limit (line_end s) (length s) → newline_last (take m s) ≡ true
unfolding newline_last
newline_last-take [] zero h = refl
newline_last-take [] (suc m) h = refl
newline_last-take (c ∷ s) zero h = refl
newline_last-take (c ∷ s) (suc zero) h = refl
newline_last-take (c ∷ []) (suc (suc m)) h = refl
newline_last-take (c ∷ d ∷ s) (suc (suc m)) h =
    let both = line_limit-cons c (d ∷ s) in
    elim (Bool-cases (c == 10)) [
      | inl e ↦ absurd (omega (arith, both.1 e))
      | inr e ↦ rw e (newline_last-take (d ∷ s) (suc m) (omega (arith, both.0 e)))
    ]

pub line_len-le :
    (o : Option ℕ) (avail blen : ℕ)
    → (line_len o avail blen ≤ line_limit o avail) × (line_len o avail blen ≤ blen - 1)
line_len-le none avail blen = (omega arith, omega arith)
line_len-le (some n) avail blen = (omega arith, omega arith)

-- A call keeps within the buffer, gives out the next bytes, fewer than asked for, and a newline only
-- at their end.
abbrev pub Gives : FdFgetsState → List Chunk → ℕ → FdFgetsState × Line × List Chunk → Type 0
Gives st fd blen r =
    IsValid r.0
    × (bytes_of r.1 ++ held r.0 r.2 ≡ held st fd)
    × (length (bytes_of r.1) ≤ blen - 1)
    × (newline_last (bytes_of r.1) ≡ true)

pub take_line-Gives :
    (st : FdFgetsState) (fd : List Chunk) (blen : ℕ)
    → IsValid st
    → Gives st fd blen ((take_line st blen).0, (take_line st blen).1, fd)
unfolding take_line
take_line-Gives st fd blen v =
    let len = line_len (line_end st.unread) (length st.unread) blen in
    let bounds = line_len-le (line_end st.unread) (length st.unread) blen in
    let within : len ≤ length st.unread = omega (arith, bounds.0, line_limit-le st.unread) in
    (
      omega (arith, within, length-drop {0} len st.unread),
      sym (append_assoc (take len st.unread) (drop len st.unread) (content fd))
          ∙ ap (λ u. u ++ content fd) (take-append-drop len st.unread),
      omega (arith, bounds.1, length-take {0} len st.unread),
      newline_last-take st.unread len bounds.0,
    )

Gives-none :
    (st : FdFgetsState) (fd : List Chunk) (blen : ℕ) (line : Line)
    → bytes_of line ≡ []
    → IsValid st
    → Gives st fd blen (st, line, fd)
unfolding newline_last
Gives-none st fd blen line e v = rw e (v, refl, omega arith, refl)

Gives-trans :
    (st st' : FdFgetsState) (fd fd' : List Chunk) (blen : ℕ) (r : FdFgetsState × Line × List Chunk)
    → held st' fd' ≡ held st fd
    → Gives st' fd' blen r
    → Gives st fd blen r
Gives-trans st st' fd fd' blen r e g = (g.0, g.1 ∙ e, g.2, g.3)

-- A call on a state whose bytes stand within the buffer leaves such a state. The bytes that it gives
-- out and those that are then in the buffer and in the descriptor are, in this order, those that
-- were there before. It gives out fewer than `blen`, and a newline only as the last.
pub fd_fgets_r-Gives :
    (st : FdFgetsState) (blen : ℕ) (fd : List Chunk)
    → IsValid st
    → Gives st fd blen (fd_fgets_r st blen fd)
unfolding fd_fgets_r
fd_fgets_r-Gives st blen fd v =
    let f = fill st fd in
    let h = fill_lem st fd v in
    let t = take_line f.0 blen in
    Gives-trans st f.0 fd f.2 blen (fd_fgets_r st blen fd) h.1 (
      if-cases (Gives f.0 f.2 blen) f.1 (f.0, read_error, f.2)
        (if must_wait f.0 blen then (f.0, not_yet, f.2) else (t.0, t.1, f.2))
        (λ e. Gives-none f.0 f.2 blen read_error refl h.0)
        (λ e.
          if-cases (Gives f.0 f.2 blen) (must_wait f.0 blen) (f.0, not_yet, f.2) (t.0, t.1, f.2)
            (λ e'. Gives-none f.0 f.2 blen not_yet refl h.0)
            (λ e'. take_line-Gives f.0 f.2 blen h.0)))

-- Calls one after the other, each with its `blen`: what they return, and what is left.
unfoldable pub run : FdFgetsState → List ℕ → List Chunk → List Line × FdFgetsState × List Chunk
run st [] fd = ([], st, fd)
run st (blen ∷ blens) fd =
    let (st', line, fd') = fd_fgets_r st blen fd in
    let (lines, st'', fd'') = run st' blens fd' in (line ∷ lines, st'', fd'')

unfoldable pub bytes_of_all : List Line → Bytes
bytes_of_all [] = []
bytes_of_all (l ∷ ls) = bytes_of l ++ bytes_of_all ls

-- Whatever the lengths asked for and the outcomes of `read`, calls from a valid state lose, repeat
-- and reorder no byte: what they return, then what is in the buffer, then what the descriptor has
-- still to give is what was in the buffer and in the descriptor before.
pub run-stream :
    (st : FdFgetsState) (blens : List ℕ) (fd : List Chunk)
    → IsValid st
    → IsValid (run st blens fd).1
      × (bytes_of_all (run st blens fd).0
            ++ ((run st blens fd).1.unread ++ content (run st blens fd).2)
          ≡ st.unread ++ content fd)
unfolding run bytes_of_all
run-stream st [] fd v = (v, refl)
run-stream st (blen ∷ blens) fd v =
    let r = fd_fgets_r st blen fd in
    let g = fd_fgets_r-Gives st blen fd v in
    let ih = run-stream r.0 blens r.2 g.0 in
    let rest = run r.0 blens r.2 in
    (
      ih.0,
      append_assoc (bytes_of r.1) (bytes_of_all rest.0) (held rest.1 rest.2)
          ∙ ap (λ b. bytes_of r.1 ++ b) ih.1
          ∙ g.1,
    )
