-- ===== src/Object/Laws.antt =====
-- What the array of an object gives back, and that `cnt` counts its entries.
use fapolicyd.Prelude.{
  ◌≡◌, ◌<◌, Option, none, some, arith, length, length-set, length-replicate, ◌==◌, if◌then◌else◌,
}
use fapolicyd.Prelude.Arrays.{get_or-set, used, used-set, used-replicate}
use fapolicyd.Prelude.Bytes.{Bytes}
use fapolicyd.Object.{
  ObjectType, ObjectAttr, OArray, FileInfo, obj_count, object_index, object_create, object_access,
  object_add,
}

pub record IsValid (a : OArray) : Type 0 where
  pub places : length a.obj ≡ obj_count
  pub counted : a.cnt ≡ used a.obj

index-lt : (t : ObjectType) → object_index t < obj_count
index-lt t = ground arith

pub object_create-IsValid :
    (finfo : FileInfo) (digest : Bytes) → IsValid (object_create finfo digest)
unfolding object_create
object_create-IsValid finfo digest = ground (
  arith,
  length-replicate {A = Option ObjectAttr} obj_count none,
  used-replicate ObjectAttr obj_count,
)

-- In a valid array an attribute that is added takes the place of its type; what the other types have,
-- the fingerprint and the digest stay. The array stays valid, so `cnt` still counts its entries.
pub access-object_add :
    {a : OArray}
    → IsValid a
    → (obj : ObjectAttr) (t : ObjectType)
    → IsValid (object_add a obj)
      × (object_access (object_add a obj) t
          ≡ (if object_index obj.type == object_index t then some obj else object_access a t))
      × ((object_add a obj).finfo ≡ a.finfo)
      × ((object_add a obj).digest ≡ a.digest)
unfolding object_add object_access
access-object_add {a} v obj t = ground (
  arith,
  index-lt obj.type,
  get_or-set a.obj (object_index obj.type) (object_index t) (some obj) none,
  used-set a.obj (object_index obj.type) (some obj),
  length-set a.obj (object_index obj.type) (some obj),
)
