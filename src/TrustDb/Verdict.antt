-- ===== src/TrustDb/Verdict.antt =====
-- What `read_trust_db` finds, described by the records alone.
use fapolicyd.Prelude.{
  ℕ, suc, ◌+◌, ◌*◌, ◌≡◌, ◌<◌, refl, sym, ap, subst, ◌∙◌, Bool, true, false, not, ◌&&◌, ◌||◌, Option,
  some, List, [], ◌∷◌, arith, ◌==◌, leb, length, take, Bool-cases, if-cases, inl, inr, ==_iff,
  if◌then◌else◌,
}
use fapolicyd.Prelude.Bytes.{Bytes, bytes_eq}
use fapolicyd.TrustFile.{HashAlg, hash_none, md5, sha1, sha256, sha512, file_hash_length}
use fapolicyd.TrustDb.{
  Integrity, in_none, in_size, in_ima, in_sha256, LmdbRecord, parse_lmdb_record, Lookup, Judged,
  match_, retry, fails, ReadResult, same_alg, first_lookup, compare_with, is_weak, judge_sha256,
  rehash, then_retry, judge_or_skip, after_parse, read_records, read_trust_db,
}

-- The texts parse as the records.
unfoldable pub ParseAs : List Bytes → List LmdbRecord → Type 0
ParseAs [] [] = Unit
ParseAs [] (r ∷ rs) = ⊥
ParseAs (t ∷ ts) [] = ⊥
ParseAs (t ∷ ts) (r ∷ rs) = (parse_lmdb_record t ≡ some r) × ParseAs ts rs

-- The modes that this describes: the size alone, or the size and a digest that is computed.
abbrev pub is_computed : Integrity → Bool
is_computed in_size = true
is_computed in_sha256 = true
is_computed _ = false

-- An algorithm by the length of its digest.
abbrev alg_of : ℕ → HashAlg
alg_of n =
    if n == 16
    then md5
    else if n == 20
    then sha1
    else if n == 32
    then sha256
    else if n == 64
    then sha512
    else hash_none

alg_of-file_hash_length : (a : HashAlg) → alg_of (file_hash_length a) ≡ a
alg_of-file_hash_length hash_none = refl
alg_of-file_hash_length md5 = refl
alg_of-file_hash_length sha1 = refl
alg_of-file_hash_length sha256 = refl
alg_of-file_hash_length sha512 = refl

same_alg_sound : (a b : HashAlg) → same_alg a b ≡ true → a ≡ b
same_alg_sound a b h =
    sym (alg_of-file_hash_length a)
    ∙ ap alg_of ((==_iff (file_hash_length a) (file_hash_length b)).0 h)
    ∙ alg_of-file_hash_length b

module _ (size : ℕ) (hash : HashAlg → Bytes) (ima : Option (HashAlg × Bytes)) where
  -- The digest of the file by the algorithm of a record.
  abbrev pub digest_of : HashAlg → Bytes
  digest_of alg = take (file_hash_length alg * 2) (hash alg)

  -- Whether a record vouches for the file.
  abbrev pub vouches : Bool → Integrity → LmdbRecord → Bool
  vouches only in_sha256 r =
      not (is_weak only in_sha256 r) && (r.size == size && bytes_eq r.digest (digest_of r.alg))
  vouches only integrity r = r.size == size

  unfoldable pub any_vouches : Bool → Integrity → List LmdbRecord → Bool
  any_vouches only integrity [] = false
  any_vouches only integrity (r ∷ rs) = vouches only integrity r || any_vouches only integrity rs

  -- The digest that is kept is the one of its algorithm.
  abbrev pub Kept : Lookup → Type 0
  Kept l = (a : HashAlg) → same_alg l.calc_alg a ≡ true → l.calc_digest ≡ digest_of a

  -- What a judgement says, with a lookup that keeps what it should.
  abbrev pub Judges : Bool → Judged → Type 0
  Judges b (match_ l) = b ≡ true
  Judges b (retry l) = (b ≡ false) × Kept l
  Judges b fails = ⊥

  abbrev pub some_hash : HashAlg → Option Bytes
  some_hash a = some (hash a)

  compare-Judges :
      (l : Lookup) (r : LmdbRecord) (d : Bytes)
      → Kept l
      → Judges (r.size == size && bytes_eq r.digest d) (compare_with l size r d)
  compare-Judges l r d k = elim (Bool-cases (r.size == size && bytes_eq r.digest d)) [
    | inl e ↦ simp e refl
    | inr e ↦ simp e (refl, k)
  ]

  rehash-Judges :
      (l : Lookup) (r : LmdbRecord)
      → Judges
          (r.size == size && bytes_eq r.digest (digest_of r.alg))
          (rehash size some_hash ima l r (some (hash r.alg)))
  rehash-Judges l r =
      compare-Judges
        (record l {
          calc_alg = r.alg;
          calc_digest = digest_of r.alg;
          cached = (r.alg, digest_of r.alg);
        })
        r (digest_of r.alg) (λ a e. ap digest_of (same_alg_sound r.alg a e))

  sha256-Judges :
      (l : Lookup) (r : LmdbRecord)
      → Kept l
      → Judges
          (r.size == size && bytes_eq r.digest (digest_of r.alg))
          (judge_sha256 size some_hash ima l r)
  sha256-Judges l r k =
      if-cases (Judges (r.size == size && bytes_eq r.digest (digest_of r.alg)))
        (same_alg l.calc_alg r.alg) (compare_with l size r l.calc_digest)
        (rehash size some_hash ima l r (some (hash r.alg)))
        (λ e.
          subst
            (λ d.
              Judges (r.size == size && bytes_eq r.digest (digest_of r.alg))
                (compare_with l size r d))
            (sym (k r.alg e)) (compare-Judges l r (digest_of r.alg) k))
        (λ e. rehash-Judges l r)

  size_not_weak : (only : Bool) (r : LmdbRecord) → is_weak only in_size r ≡ false
  size_not_weak true r = refl
  size_not_weak false r = refl

  judge_record-Judges :
      (only : Bool) (integrity : Integrity) (l : Lookup) (r : LmdbRecord)
      → is_computed integrity ≡ true
      → Kept l
      → Judges (vouches only integrity r) (judge_or_skip size some_hash ima only integrity l r)
  judge_record-Judges only in_none l r c k = cc
  judge_record-Judges only in_ima l r c k = cc
  judge_record-Judges only in_size l r c k = elim (Bool-cases (r.size == size)) [
    | inl e ↦ simp (size_not_weak only r, e) refl
    | inr e ↦ simp (size_not_weak only r, e) (refl, k)
  ]
  judge_record-Judges only in_sha256 l r c k = elim (Bool-cases (is_weak only in_sha256 r)) [
    | inl e ↦ simp e (refl, k)
    | inr e ↦ simp e (sha256-Judges l r k)
  ]

  -- The lookup finds a match or none, with no error.
  abbrev pub Finds : Bool → ReadResult → Type 0
  Finds b o = (o.res ≡ b) × (o.error ≡ false)

  retry-Finds :
      (l : Lookup) (j : Judged) (b c : Bool) (rest : Lookup → ReadResult)
      → Judges b j
      → ((l' : Lookup) → Kept l' → Finds c (rest l'))
      → Finds (b || c) (then_retry size some_hash ima l j rest)
  retry-Finds l (match_ l') b c rest h k = (sym (ap (λ x. x || c) h), refl)
  retry-Finds l (retry l') b c rest (h, kept) k =
      let f = k l' kept in (f.0 ∙ sym (ap (λ x. x || c) h), f.1)
  retry-Finds l fails b c rest h k = absurd h

  read-Finds :
      (only : Bool) (integrity : Integrity) (tries : ℕ) (l : Lookup) (ts : List Bytes)
      (rs : List LmdbRecord)
      → is_computed integrity ≡ true
      → Kept l
      → ParseAs ts rs
      → tries + length ts < 127
      → Finds
          (any_vouches only integrity rs)
          (read_records size some_hash ima only integrity tries l ts)
  unfolding read_records ParseAs any_vouches
  read-Finds only integrity tries l [] [] c k p n = (refl, ground arith)
  read-Finds only integrity tries l [] (r ∷ rs) c k p n = absurd p
  read-Finds only integrity tries l (t ∷ ts) [] c k p n = absurd p
  read-Finds only integrity tries l (t ∷ ts) (r ∷ rs) c k (p, ps) n =
      let few : leb 127 tries ≡ false = ground arith in
      let rest : Lookup → ReadResult =
        λ l'. read_records size some_hash ima only integrity (suc tries) l' ts in
      simp few (
        subst
          (λ o.
            Finds (vouches only integrity r || any_vouches only integrity rs)
              (after_parse size some_hash ima only integrity l o rest))
          (sym p)
          (retry-Finds l (judge_or_skip size some_hash ima only integrity l r)
            (vouches only integrity r) (any_vouches only integrity rs) rest
            (judge_record-Judges only integrity l r c k)
            (λ l' kept. read-Finds only integrity (suc tries) l' ts rs c kept ps (omega arith))))

  first_lookup-Kept : (cached : HashAlg × Bytes) → Kept (first_lookup cached)
  first_lookup-Kept cached hash_none h = refl
  first_lookup-Kept cached md5 h = cc
  first_lookup-Kept cached sha1 h = cc
  first_lookup-Kept cached sha256 h = cc
  first_lookup-Kept cached sha512 h = cc

  -- Where the integrity is by size or by a digest that is computed, and the file can be hashed,
  -- `read_trust_db` of fewer than 127 records, which all parse, trusts the file exactly if one of
  -- them has its size and, by digest, the digest of the file by the record's own algorithm, which is
  -- not one that the floor passes over; and there is no error.
  pub read_trust_db-vouches :
      (only : Bool) (integrity : Integrity) (cached : HashAlg × Bytes) (ts : List Bytes)
      (rs : List LmdbRecord)
      → is_computed integrity ≡ true
      → ParseAs ts rs
      → length ts < 127
      → Finds
          (any_vouches only integrity rs)
          (read_trust_db size some_hash ima only integrity true (first_lookup cached) ts)
  unfolding read_trust_db
  read_trust_db-vouches only in_none cached ts rs c p n = cc
  read_trust_db-vouches only in_ima cached ts rs c p n = cc
  read_trust_db-vouches only in_size cached ts rs c p n =
      read-Finds only in_size 0 (first_lookup cached) ts rs c (first_lookup-Kept cached) p
        (omega arith)
  read_trust_db-vouches only in_sha256 cached ts rs c p n =
      read-Finds only in_sha256 0 (first_lookup cached) ts rs c (first_lookup-Kept cached) p
        (omega arith)
