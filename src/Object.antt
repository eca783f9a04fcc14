-- ===== src/Object.antt =====
-- src/library/object.c, object.h and object-attr.h: the attributes of an object that are known so
-- far, in an array with a place for each type. Allocations succeed, and the array is there.
pub mod Laws
mod Tests
use fapolicyd.Prelude.{ℕ, ◌+◌, Option, none, some, List, [], ◌∷◌, get_or, set, replicate}
use fapolicyd.Prelude.Bytes.{Bytes}

-- `object_type_t`, less `OBJ_START`.
pub data ObjectType : Type 0 where
  all_obj path odir device ftype obj_trust file_hash : ObjectType

abbrev pub object_index : ObjectType → ℕ
object_index all_obj = 0
object_index path = 1
object_index odir = 2
object_index device = 3
object_index ftype = 4
object_index obj_trust = 5
object_index file_hash = 6

-- `OBJ_COUNT`
abbrev pub obj_count : ℕ
obj_count = 7

pub record ObjectAttr : Type 0 where
  pub type : ObjectType
  pub val : ℕ
  pub o : Option Bytes

-- `struct file_info` without the digest.
pub record FileInfo : Type 0 where
  pub file_device : ℕ
  pub file_inode : ℕ
  pub file_mode : ℕ
  pub file_size : ℕ
  pub file_sec : ℕ
  pub file_nsec : ℕ

-- `o_array`, with `info` as its two last fields.
pub record OArray : Type 0 where
  pub obj : List (Option ObjectAttr)
  pub cnt : ℕ
  pub finfo : FileInfo
  pub digest : Bytes

-- A new array, and the fingerprint that the caller gives it.
unfoldable pub object_create : FileInfo → Bytes → OArray
object_create finfo digest = record {
  obj = replicate obj_count none;
  cnt = 0;
  finfo = finfo;
  digest = digest;
}

unfoldable pub object_access : OArray → ObjectType → Option ObjectAttr
object_access a t = get_or a.obj (object_index t) none

unfoldable pub object_add : OArray → ObjectAttr → OArray
object_add a obj =
    let n = object_index obj.type in
    record a {
      obj = set a.obj n (some obj);
      cnt = elim (get_or a.obj n none) [ none ↦ a.cnt + 1 | some _ ↦ a.cnt ];
    }

unfoldable pub object_find_file : OArray → Option ObjectAttr
object_find_file a = elim (get_or a.obj (object_index path) none) [
  | some p ↦ some p
  | none ↦ get_or a.obj (object_index odir) none
]
