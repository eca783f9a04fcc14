-- ===== src/FdFgets.antt =====
-- src/library/fd-fgets.c: the reader of lines from a descriptor, `fd_fgets_r` with the set-up of its
-- state. The buffer is the bytes from `buffer` to `current`, with their distance from `orig`; what
-- `read` gives is a list of outcomes.

pub mod Stream
pub mod Reading
pub mod Drain
mod Tests
use fapolicyd.Prelude.{
  ℕ, zero, suc, ◌+◌, ◌-◌, ◌*◌, Bool, true, false, not, ◌&&◌, ◌||◌, Option, none, some, List, [],
  ◌∷◌, ◌++◌, ◌==◌, ltb, leb, length, take, drop, min, if◌then◌else◌,
}
use fapolicyd.Prelude.Bytes.{Bytes}

-- `enum fd_mem`
pub data FdMem : Type 0 where
  mem_self_managed mem_malloc mem_mmap mem_mmap_file : FdMem

abbrev pub is_mmap_file : FdMem → Bool
is_mmap_file mem_mmap_file = true
is_mmap_file _ = false

-- `struct fd_fgets_state`: `skipped` is `buffer - orig`, `unread` the bytes from `buffer` to
-- `current`, and `room` is `eptr - orig`.
pub record FdFgetsState : Type 0 where
  pub skipped : ℕ
  pub unread : Bytes
  pub room : ℕ
  pub eof : Bool
  pub mem_type : FdMem
  pub buff_size : ℕ

-- BUF_SIZE
abbrev pub buf_size : ℕ
buf_size = 8192

-- `fd_fgets_state_init`
unfoldable pub fd_fgets_state_init : FdFgetsState
fd_fgets_state_init = record {
  skipped = 0;
  unread = [];
  room = 2 * buf_size;
  eof = false;
  mem_type = mem_self_managed;
  buff_size = 2 * buf_size;
}

-- `fd_setvbuf_r` for a buffer with some content; `none` is its return of 1.
unfoldable pub fd_setvbuf_r : Option Bytes → ℕ → FdMem → Option FdFgetsState
fd_setvbuf_r none buff_size how = none
fd_setvbuf_r (some content) buff_size mem_self_managed = none
fd_setvbuf_r (some content) buff_size mem_mmap_file =
    if buff_size == 0
    then none
    else some record {
      skipped = 0;
      unread = take buff_size content;
      room = buff_size;
      eof = false;
      mem_type = mem_mmap_file;
      buff_size = buff_size;
    }
fd_setvbuf_r (some content) buff_size how =
    if buff_size == 0
    then none
    else some record {
      skipped = 0;
      unread = [];
      room = buff_size - 1;
      eof = false;
      mem_type = how;
      buff_size = buff_size;
    }

-- `fd_fgets_clear_r`, where the bytes between `orig` and `eptr` are `whole`.
unfoldable pub fd_fgets_clear_r : Bytes → FdFgetsState → FdFgetsState
fd_fgets_clear_r whole st = record st {
  skipped = 0;
  unread = if is_mmap_file st.mem_type then whole else [];
  eof = false;
}

-- The length of the line up to its newline, the newline counted: `memchr` on the bytes.
unfoldable pub line_end : Bytes → Option ℕ
line_end [] = none
line_end (c ∷ s) = elim (c == 10) [
  | true ↦ some 1
  | false ↦ elim (line_end s) [ none ↦ none | some n ↦ some (suc n) ]
]

abbrev pub is_some {ℓ} : {A : Type ℓ} → Option A → Bool
is_some none = false
is_some (some x) = true

-- `fd_fgets_more_r`
unfoldable pub fd_fgets_more_r : FdFgetsState → ℕ → Bool
unfolding line_end
fd_fgets_more_r st blen = is_some (line_end st.unread) || leb (blen - 1) (length st.unread)

-- What `read` comes to: EINTR, another error, or bytes of which it takes as many as there is room
-- for. An empty list is the end of the file.
pub data Chunk : Type 0 where
  interrupted : Chunk
  failed : Chunk
  bytes : ℕ → Bytes → Chunk

-- The rest of a chunk waits in front of the others.
abbrev pub put_back : Bytes → List Chunk → List Chunk
put_back [] fd = fd
put_back (c ∷ s) fd = bytes c s ∷ fd

-- The loop `do { nread = read(...) } while (nread < 0 && errno == EINTR)`: the bytes that it leaves
-- at `current`, none of them at the end of the file, or `none` for an error.
unfoldable pub read_chunk : ℕ → List Chunk → Option Bytes × List Chunk
read_chunk size [] = (some [], [])
read_chunk size (interrupted ∷ fd) = read_chunk size fd
read_chunk size (failed ∷ fd) = (none, fd)
read_chunk size (bytes c s ∷ fd) = (some (take size (c ∷ s)), put_back (drop size (c ∷ s)) fd)

abbrev pub is_empty {ℓ} : {A : Type ℓ} → List A → Bool
is_empty [] = true
is_empty (x ∷ xs) = false

-- `eptr - current`
abbrev pub space : FdFgetsState → ℕ
space st = st.room - (st.skipped + length st.unread)

-- The bytes that are read go to `current`; no bytes are the end of the file.
abbrev pub append_read : FdFgetsState → Bytes → FdFgetsState
append_read st got = record st { unread = st.unread ++ got; eof = is_empty got || st.eof }

-- The state after the compaction of step 2.
abbrev pub compacted : FdFgetsState → FdFgetsState
compacted st = if is_mmap_file st.mem_type then st else record st { skipped = 0 }

-- What `read` comes to where there is space: the state, whether there was an error, and what the
-- descriptor holds still.
abbrev pub filled : FdFgetsState → Option Bytes × List Chunk → FdFgetsState × Bool × List Chunk
filled st (none, fd) = (st, true, fd)
filled st (some got, fd) = (append_read st got, false, fd)

-- Step 2 of `fd_fgets_r`: more bytes, if there is no whole line and the file has not ended.
unfoldable pub fill : FdFgetsState → List Chunk → FdFgetsState × Bool × List Chunk
unfolding line_end read_chunk
fill st fd =
    let st' = compacted st in
    if is_some (line_end st.unread) || st.eof
    then (st, false, fd)
    else if space st' == 0
    then (st', false, fd)
    else filled st' (read_chunk (space st') fd)

-- What a call returns: -1, 0 for no line yet, or the bytes of a line.
pub data Line : Type 0 where
  read_error : Line
  not_yet : Line
  got_line : Bytes → Line

-- `line_len`
abbrev pub line_len : Option ℕ → ℕ → ℕ → ℕ
line_len none avail blen = min avail (blen - 1)
line_len (some n) avail blen = min n (blen - 1)

-- Steps 4 and 5.
unfoldable pub take_line : FdFgetsState → ℕ → FdFgetsState × Line
unfolding line_end
take_line st blen =
    let len = line_len (line_end st.unread) (length st.unread) blen in
    (
      record st {
        skipped = st.skipped + len;
        unread = drop len st.unread;
        eof = if is_mmap_file st.mem_type && leb st.room (st.skipped + len) then true else st.eof;
      },
      got_line (take len st.unread),
    )

-- Step 3: whether the call comes back with nothing yet.
abbrev pub must_wait : FdFgetsState → ℕ → Bool
must_wait st blen =
    not (is_some (line_end st.unread))
    && not st.eof
    && ltb (length st.unread) (blen - 1)
    && not (space st == 0)

-- `fd_fgets_r` for a `blen` that is not 0, and what the descriptor holds afterwards.
unfoldable pub fd_fgets_r : FdFgetsState → ℕ → List Chunk → FdFgetsState × Line × List Chunk
fd_fgets_r st blen fd =
    let (st', error, fd') = fill st fd in
    let (st'', line) = take_line st' blen in
    if error
    then (st', read_error, fd')
    else if must_wait st' blen
    then (st', not_yet, fd')
    else (st'', line, fd')
