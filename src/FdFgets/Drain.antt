-- ===== src/FdFgets/Drain.antt =====
-- How many calls of `fd_fgets_r` it takes to read a descriptor to its end.
use fapolicyd.Prelude.{
  ℕ, zero, suc, ◌+◌, ◌-◌, ◌*◌, ◌≡◌, ◌≤◌, refl, sym, ap, ap₂, ◌∙◌, Bool, true, false, ◌&&◌, Option,
  none, some, List, [], ◌∷◌, ◌++◌, arith, length, drop, ◌==◌, leb, if◌then◌else◌, length-drop,
  Bool-cases, if-cases, inl, inr,
}
use mathlib.Core.List.{append-nil}
use fapolicyd.Prelude.Bytes.{Bytes}
use fapolicyd.FdFgets.{
  FdFgetsState, line_end, is_some, Chunk, space, fill, read_error, not_yet, line_len, take_line,
  must_wait, fd_fgets_r,
}
use fapolicyd.FdFgets.Stream.{
  content, line_len-le, line_limit, line_limit-le, take_line-Gives, run-stream, bytes_of_all, run,
}
use fapolicyd.FdFgets.Reading.{length-zero, left, IsReading, fill-Fed, Drains}

line_end-pos : (s : Bytes) → 1 ≤ length s → 1 ≤ line_limit (line_end s) (length s)
unfolding line_end
line_end-pos [] h = h
line_end-pos (c ∷ s) h = ground arith

line_len-limit :
    (o : Option ℕ) (avail blen : ℕ) → 2 ≤ blen → 1 ≤ line_limit o avail → 1 ≤ line_len o avail blen
line_len-limit none avail blen b h = omega arith
line_len-limit (some n) avail blen b h = omega arith

line_len-pos :
    (s : Bytes) (blen : ℕ) → 2 ≤ blen → 1 ≤ length s → 1 ≤ line_len (line_end s) (length s) blen
line_len-pos s blen b h = line_len-limit (line_end s) (length s) blen b (line_end-pos s h)

line_end-empty : (s : Bytes) → length s ≡ 0 → is_some (line_end s) ≡ false
unfolding line_end
line_end-empty [] h = refl
line_end-empty (c ∷ s) h = absurd (omega arith)

left_after :
    (a c len d : ℕ)
    → (a ≡ 0 → a + 2 * c ≡ 0)
    → (1 ≤ a → 1 ≤ len)
    → len ≤ a
    → d ≡ a - len
    → d + 2 * c ≤ a + 2 * c - 1
left_after zero c len d z p h e = omega (arith, z refl)
left_after (suc a) c len d z p h e = omega (arith, p (omega arith))

waits :
    (st : FdFgetsState) (blen : ℕ)
    → must_wait st blen ≡ true
    → (is_some (line_end st.unread) ≡ false) × (st.eof ≡ false) × ((space st == 0) ≡ false)
waits st blen w = (ground arith, ground arith, ground arith)

-- A call that does not wait although the buffer is empty is at the end of the file.
empty-ended :
    (st : FdFgetsState) (fd : List Chunk) (blen : ℕ)
    → IsReading st fd
    → 2 ≤ blen
    → (is_some (line_end st.unread) ≡ false → st.eof ≡ false → st.skipped ≡ 0)
    → must_wait st blen ≡ false
    → length st.unread ≡ 0
    → left st fd ≡ 0
empty-ended st fd blen h b k w z =
    let none_yet = line_end-empty st.unread z in
    elim (Bool-cases st.eof) [
      | inl e ↦ omega (arith, ap length (h.ended e))
      | inr e ↦ absurd (ground (arith, k none_yet e, h.has_room))
    ]

take_line-Drains :
    (st : FdFgetsState) (fd : List Chunk) (blen : ℕ)
    → IsReading st fd
    → 2 ≤ blen
    → (length st.unread ≡ 0 → left st fd ≡ 0)
    → Drains st fd ((take_line st blen).0, (take_line st blen).1, fd)
unfolding take_line
take_line-Drains st fd blen h b z =
    let len = line_len (line_end st.unread) (length st.unread) blen in
    let bounds = line_len-le (line_end st.unread) (length st.unread) blen in
    (
      record {
        valid = (take_line-Gives st fd blen h.valid).0;
        has_room = h.has_room;
        reads = h.reads;
        no_failures = h.no_failures;
        ended = λ p. h.ended (ground arith);
      },
      left_after (length st.unread) (length (content fd)) len (length (drop len st.unread)) z
          (line_len-pos st.unread blen b) (omega (arith, bounds.0, line_limit-le st.unread))
          (length-drop {0} len st.unread),
    )

fd_fgets_r-Drains :
    (st : FdFgetsState) (blen : ℕ) (fd : List Chunk)
    → IsReading st fd
    → 2 ≤ blen
    → Drains st fd (fd_fgets_r st blen fd)
unfolding fd_fgets_r
fd_fgets_r-Drains st blen fd h b =
    let f = fill st fd in
    let fed = fill-Fed st fd h in
    let t = take_line f.0 blen in
    if-cases (Drains st fd) f.1 (f.0, read_error, f.2)
      (if must_wait f.0 blen then (f.0, not_yet, f.2) else (t.0, t.1, f.2))
      (λ e. absurd (ground (arith, fed.0)))
      (λ e.
        if-cases (Drains st fd) (must_wait f.0 blen) (f.0, not_yet, f.2) (t.0, t.1, f.2)
          (λ w.
            let x = waits f.0 blen w in
            let less = (fed.3 x.0 x.1).1 x.2 in (fed.1, omega (arith, less)))
          (λ w.
            let z = empty-ended f.0 f.2 blen fed.1 b (λ p q. (fed.3 p q).0) w in
            let d = take_line-Drains f.0 f.2 blen fed.1 b z in (d.0, omega (arith, d.1, fed.2))))

unfoldable pub all_at_least_two : List ℕ → Bool
all_at_least_two [] = true
all_at_least_two (n ∷ ns) = leb 2 n && all_at_least_two ns

run-left :
    (st : FdFgetsState) (blens : List ℕ) (fd : List Chunk)
    → IsReading st fd
    → all_at_least_two blens ≡ true
    → left st fd ≤ length blens
    → left (run st blens fd).1 (run st blens fd).2 ≡ 0
unfolding run all_at_least_two
run-left st [] fd h a n = omega arith
run-left st (blen ∷ blens) fd h a n =
    let d = fd_fgets_r-Drains st blen fd h (ground arith) in
    run-left (fd_fgets_r st blen fd).0 blens (fd_fgets_r st blen fd).2 d.0 (ground arith)
      (omega (arith, d.1))

-- A reader that has at least a byte of room, over a descriptor whose reads do not fail though they
-- may be interrupted or short, gives out all that it holds and that the descriptor has to give, in
-- as many calls as there are bytes in the buffer and twice as many as there are to be read, each
-- for a `blen` of 2 or more.
pub run-drains :
    (st : FdFgetsState) (blens : List ℕ) (fd : List Chunk)
    → IsReading st fd
    → all_at_least_two blens ≡ true
    → length st.unread + 2 * length (content fd) ≤ length blens
    → bytes_of_all (run st blens fd).0 ≡ st.unread ++ content fd
run-drains st blens fd h a n =
    let s = run-stream st blens fd h.valid in
    let z = run-left st blens fd h a n in
    let r = run st blens fd in
    let u = length-zero r.1.unread (omega arith) in
    let c = length-zero (content r.2) (omega arith) in
    sym (append-nil (bytes_of_all r.0))
    ∙ ap (λ b. bytes_of_all r.0 ++ b) (sym (ap₂ (λ x y. x ++ y) u c))
    ∙ s.1
