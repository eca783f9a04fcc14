-- ===== src/TrustDb/Tests.antt =====
-- The records of a path in three packages, and the theorem at them.
use fapolicyd.Prelude.{
  ◌≡◌, refl, true, false, none, some, List, [], ◌∷◌, ◌++◌, replicate, arith, if◌then◌else◌,
}
use fapolicyd.Prelude.Bytes.{Bytes, codes, bytes_eq, has_prefix}
use fapolicyd.TrustFile.{HashAlg, hash_none, md5, sha256}
use fapolicyd.TrustDb.{
  in_none, in_ima, in_sha256, LmdbRecord, parse_lmdb_record, scan_number, word, first_lookup,
  read_trust_db, read_records, Symlinks, is_linked, check_trust_database_with_read, trusted,
  untrusted, lookup_error,
}
use fapolicyd.TrustDb.Verdict.{ParseAs, any_vouches, read_trust_db-vouches}

-- A file that hashes to `a`s by every algorithm.
abbrev hash : HashAlg → Bytes
hash alg = replicate 200 97

abbrev weak : LmdbRecord
weak = record { tsource = 1; size = 7; digest = replicate 32 97; alg = md5 }

abbrev other : LmdbRecord
other = record { tsource = 1; size = 8; digest = replicate 64 98; alg = sha256 }

abbrev good : LmdbRecord
good = record { tsource = 3; size = 7; digest = replicate 64 97; alg = sha256 }

abbrev texts : List Bytes
texts =
    (codes "1 7 " ++ replicate 32 97)
    ∷ (codes "1 8 " ++ replicate 64 98)
    ∷ (codes "3 7 " ++ replicate 64 97)
    ∷ []

texts-ParseAs : ParseAs texts (weak ∷ other ∷ good ∷ [])
unfolding ParseAs parse_lmdb_record scan_number word has_prefix
texts-ParseAs = (refl, (refl, (refl, tt)))

read_trust_db-vouches_example :
    let o =
      read_trust_db 7
        (λ a. some (hash a))
        none
        true
        in_sha256
        true
        (first_lookup (hash_none, []))
        texts in
    (o.res ≡ true) × (o.error ≡ false)
unfolding any_vouches bytes_eq
read_trust_db-vouches_example =
    read_trust_db-vouches 7 hash none true in_sha256 (hash_none, []) texts
      (weak ∷ other ∷ good ∷ []) refl texts-ParseAs (omega arith)

-- Without the /usr of a linked directory the path is found.
abbrev db : Bytes → List Bytes
db path = if bytes_eq path (codes "/bin/x") then texts else []

abbrev links : Symlinks
links = record { lib64 = true; lib = true; bin = true; sbin = false }

found_in_bin :
    check_trust_database_with_read 7
      (λ a. some (hash a))
      none
      db
      links
      false
      in_none
      true
      (hash_none, [])
      (codes "/usr/bin/x")
    ≡ trusted
unfolding check_trust_database_with_read read_trust_db read_records is_linked bytes_eq has_prefix
found_in_bin = refl

-- With no IMA digest the lookup is an error.
no_xattr :
    check_trust_database_with_read 7
      (λ a. some (hash a))
      none
      db
      links
      false
      in_ima
      true
      (hash_none, [])
      (codes "/bin/x")
    ≡ lookup_error
unfolding check_trust_database_with_read read_trust_db read_records is_linked bytes_eq has_prefix
    parse_lmdb_record scan_number word
no_xattr = refl

not_there :
    check_trust_database_with_read 7
      (λ a. some (hash a))
      none
      db
      links
      false
      in_sha256
      true
      (hash_none, [])
      (codes "/usr/sbin/x")
    ≡ untrusted
unfolding check_trust_database_with_read read_trust_db read_records is_linked bytes_eq has_prefix
not_there = refl
