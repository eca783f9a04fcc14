-- ===== src/TrustDb.antt =====
-- src/library/database.c: `check_trust_database_with_read`, which says whether the trust database
-- has a record that vouches for a file. The records of a path are its values in the order of the
-- cursor; failures of LMDB, whose calls find them, are left out.
pub mod Verdict
mod Tests
use fapolicyd.Prelude.{
  ℕ, zero, suc, ◌+◌, ◌-◌, ◌*◌, ◌%◌, ◌^◌, Bool, true, false, not, ◌&&◌, ◌||◌, Option, none, some,
  List, [], ◌∷◌, ◌==◌, ltb, leb, length, take, drop, if◌then◌else◌,
}
use fapolicyd.Prelude.Words.{u32_mod, u64_mod}
use fapolicyd.Prelude.Bytes.{Bytes, bytes_eq, has_prefix, codes}
use fapolicyd.StringUtil.{isspace, trim_start}
use fapolicyd.TrustFile.{HashAlg, hash_none, md5, sha1, sha256, sha512, file_hash_length, in_range}

-- `integrity_t`
pub data Integrity : Type 0 where
  in_none in_size in_ima in_sha256 : Integrity

-- `struct lmdb_record`
pub record LmdbRecord : Type 0 where
  pub tsource : ℕ
  pub size : ℕ
  pub digest : Bytes
  pub alg : HashAlg

-- The digits that a text begins with: whether there are any, their value, and what follows.
unfoldable pub scan_digits : Bool → ℕ → Bytes → Bool × ℕ × Bytes
scan_digits some_ acc [] = (some_, acc, [])
scan_digits some_ acc (c ∷ s) =
    let more = scan_digits true (acc * 10 + (c - 48)) s in
    if leb 48 c && leb c 57 then more else (some_, acc, c ∷ s)

abbrev pub negated : ℕ → ℕ
negated v = (u64_mod - v) % u64_mod

abbrev pub scanned : (ℕ → ℕ) → Bool × ℕ × Bytes → Option (ℕ × Bytes)
scanned f (false, v, rest) = none
scanned f (true, v, rest) = if ltb v u64_mod then some (f v, rest) else none

abbrev pub scan_signed : Bytes → Option (ℕ × Bytes)
scan_signed [] = none
scan_signed (c ∷ s) =
    if c == 45
    then scanned negated (scan_digits false 0 s)
    else scanned (λ v. v) (scan_digits false 0 (if c == 43 then s else c ∷ s))

-- `strtoul` and `strtoull` with the tests after them: the value, and the text from `end` on.
unfoldable pub scan_number : Bytes → Option (ℕ × Bytes)
unfolding scan_digits trim_start
scan_number s = scan_signed (trim_start s)

-- The text up to white space.
unfoldable pub word : Bytes → Bytes
unfolding isspace
word [] = []
word (c ∷ s) = let rest = word s in if isspace c then [] else c ∷ rest

-- `file_hash_alg_fast`, by the length of the digest. Where that is none of the four, the function
-- reads a byte after the NUL, which is taken not to be one.
abbrev pub file_hash_alg_fast : ℕ → HashAlg
file_hash_alg_fast n =
    if n == 32
    then md5
    else if n == 40
    then sha1
    else if n == 64
    then sha256
    else if n == 128
    then sha512
    else hash_none

-- The legacy fallback of `parse_lmdb_record`.
abbrev pub or_sha256 : HashAlg → HashAlg
or_sha256 hash_none = sha256
or_sha256 alg = alg

abbrev pub with_digest : ℕ → ℕ → Bytes → Option LmdbRecord
with_digest tsource size digest =
    if length digest == 0 || leb 136 (length digest) || leb (2 ^ 63) size
    then none
    else some record {
      tsource = tsource % u32_mod;
      size = size;
      digest = digest;
      alg = or_sha256 (file_hash_alg_fast (length digest));
    }

-- `lmdb_scan_record` and `parse_lmdb_record`
unfoldable pub parse_lmdb_record : Bytes → Option LmdbRecord
unfolding scan_number word has_prefix
parse_lmdb_record rec = elim (scan_number rec) [
  | none ↦ none
  | some (tsource, p) ↦ if has_prefix (45 ∷ []) (trim_start p) then none else elim (scan_number p) [
    | none ↦ none
    | some (size, q) ↦ with_digest tsource size (word (trim_start q))
  ]
]

-- What the lookup keeps from one record to the next: the digest that was computed last, whether the
-- file was hashed again for IMA, and the digest cached in the `file_info`.
pub record Lookup : Type 0 where
  pub calc_alg : HashAlg
  pub calc_digest : Bytes
  pub rehashed : Bool
  pub cached : HashAlg × Bytes

-- What a record comes to: a match, the next record, or an error with the value returned.
pub data Judged : Type 0 where
  match_ : Lookup → Judged
  retry : Lookup → Judged
  fails : Judged

-- What `read_trust_db` comes to: its value, `*error`, and the lookup.
pub record ReadResult : Type 0 where
  pub res : Bool
  pub error : Bool
  pub lookup : Lookup

abbrev pub same_alg : HashAlg → HashAlg → Bool
same_alg a b = file_hash_length a == file_hash_length b

abbrev pub compare_with : Lookup → ℕ → LmdbRecord → Bytes → Judged
compare_with l size r digest =
    if r.size == size && bytes_eq r.digest digest then match_ l else retry l

abbrev pub is_digest_based : Integrity → Bool
is_digest_based in_ima = true
is_digest_based in_sha256 = true
is_digest_based _ = false

-- Whether the floor on digests passes over a record.
abbrev pub is_weak : Bool → Integrity → LmdbRecord → Bool
is_weak rpm_sha256_only integrity r =
    rpm_sha256_only && is_digest_based integrity && ltb (file_hash_length r.alg) 32

-- What `check_trust_database_with_read` returns: 1, 0 or -1.
pub data Trust : Type 0 where
  trusted untrusted lookup_error : Trust

abbrev pub trust_of : ReadResult → Trust
trust_of o = if o.error then lookup_error else if o.res then trusted else untrusted

-- The lookup at the start of `read_trust_db`.
abbrev pub first_lookup : HashAlg × Bytes → Lookup
first_lookup cached = record {
  calc_alg = hash_none;
  calc_digest = [];
  rehashed = false;
  cached = cached;
}

-- A second lookup, if the first one found nothing and did not fail.
abbrev pub or_retry : Trust → Bool → Trust → Trust
or_retry untrusted again second = if again then second else untrusted
or_retry first again second = first

-- `lib64_symlink`, `lib_symlink`, `bin_symlink` and `sbin_symlink`
pub record Symlinks : Type 0 where
  pub lib64 : Bool
  pub lib : Bool
  pub bin : Bool
  pub sbin : Bool

-- Whether the path is looked up again without its /usr.
unfoldable pub is_linked : Symlinks → Bytes → Bool
unfolding has_prefix
is_linked links path =
    has_prefix (codes "/usr/") path
    && (links.lib64 && has_prefix (codes "lib64/") (drop 5 path)
        || links.lib && has_prefix (codes "lib/") (drop 5 path)
        || links.bin && has_prefix (codes "bin/") (drop 5 path)
        || links.sbin && has_prefix (codes "sbin/") (drop 5 path))

-- The file of the lookup: its size, what `get_hash_from_fd2` computes of it, and its IMA digest.
module _ (size : ℕ) (hash : HashAlg → Option Bytes) (ima : Option (HashAlg × Bytes)) where
  abbrev pub judge_ima : Lookup → LmdbRecord → Option (HashAlg × Bytes) → Judged
  judge_ima l r none = fails
  judge_ima l r (some (alg, xattr)) =
      if r.size == size && bytes_eq r.digest xattr
      then match_ (record l { cached = (alg, xattr) })
      else if l.rehashed || same_alg alg hash_none
      then retry l
      else elim (hash alg) [
        | none ↦ fails
        | some h ↦
            compare_with (record l { calc_digest = h; rehashed = true; cached = (alg, h) }) size r h
      ]

  -- The digest that was computed for the algorithm of a record.
  abbrev pub computed : HashAlg → Bytes → Bytes
  computed alg h = take (file_hash_length alg * 2) h

  abbrev pub rehash : Lookup → LmdbRecord → Option Bytes → Judged
  rehash l r none = fails
  rehash l r (some h) =
      let digest = computed r.alg h in
      compare_with (record l { calc_alg = r.alg; calc_digest = digest; cached = (r.alg, digest) })
        size r digest

  abbrev pub judge_sha256 : Lookup → LmdbRecord → Judged
  judge_sha256 l r =
      if same_alg l.calc_alg r.alg
      then compare_with l size r l.calc_digest
      else rehash l r (hash r.alg)

  abbrev pub judge_record : Integrity → Lookup → LmdbRecord → Judged
  judge_record in_none l r = fails
  judge_record in_size l r = if r.size == size then match_ l else retry l
  judge_record in_ima l r = judge_ima l r ima
  judge_record in_sha256 l r = judge_sha256 l r

  -- The rest of the loop after a record.
  abbrev pub then_retry : Lookup → Judged → (Lookup → ReadResult) → ReadResult
  then_retry l (match_ l') rest = record { res = true; error = false; lookup = l' }
  then_retry l (retry l') rest = rest l'
  then_retry l fails rest = record { res = false; error = true; lookup = l }

  abbrev pub judge_or_skip : Bool → Integrity → Lookup → LmdbRecord → Judged
  judge_or_skip rpm_sha256_only integrity l r =
      if is_weak rpm_sha256_only integrity r then retry l else judge_record integrity l r

  -- A record as it was read; one that does not parse is an error, with 1 returned.
  abbrev pub after_parse :
      Bool → Integrity → Lookup → Option LmdbRecord → (Lookup → ReadResult) → ReadResult
  after_parse only integrity l none rest = record { res = true; error = true; lookup = l }
  after_parse only integrity l (some r) rest = then_retry l (judge_or_skip only integrity l r) rest

  -- The loop at `retry_res`; `tries` counts the records before.
  unfoldable pub read_records : Bool → Integrity → ℕ → Lookup → List Bytes → ReadResult
  unfolding parse_lmdb_record bytes_eq
  read_records only integrity tries l [] = record { res = false; error = leb 127 tries; lookup = l }
  read_records only integrity tries l (rec ∷ recs) =
      let rest : Lookup → ReadResult = λ l'. read_records only integrity (suc tries) l' recs in
      if leb 127 tries
      then record { res = false; error = true; lookup = l }
      else after_parse only integrity l (parse_lmdb_record rec) rest

  -- `read_trust_db` of the records of a path; `info` says whether there is a `file_info`.
  unfoldable pub read_trust_db : Bool → Integrity → Bool → Lookup → List Bytes → ReadResult
  unfolding read_records
  read_trust_db only in_none info l recs = record {
    res = not (length recs == 0);
    error = false;
    lookup = l;
  }
  read_trust_db only integrity info l recs =
      if info
      then read_records only integrity 0 l recs
      else record { res = not (length recs == 0); error = false; lookup = l }

  -- `check_trust_database_with_read` of the records that paths have: `links` says which of the top
  -- level directories are symbolic links into /usr.
  unfoldable pub check_trust_database_with_read :
      (Bytes → List Bytes) → Symlinks → Bool → Integrity → Bool → HashAlg × Bytes → Bytes → Trust
  unfolding read_trust_db is_linked
  check_trust_database_with_read db links only integrity info cached path =
      let first = read_trust_db only integrity info (first_lookup cached) (db path) in
      let second =
        read_trust_db only integrity info (first_lookup first.lookup.cached) (db (drop 4 path)) in
      or_retry (trust_of first) (is_linked links path) (trust_of second)
