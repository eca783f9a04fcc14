-- ===== src/Object/Tests.antt =====
-- An empty array, and the theorem at this input.
use fapolicyd.Prelude.{◌≡◌, some, [], ◌∷◌, ◌==◌, if◌then◌else◌}
use fapolicyd.Object.{
  ObjectAttr, FileInfo, path, object_create, object_access, object_add, object_index,
}
use fapolicyd.Object.Laws.{IsValid, object_create-IsValid, access-object_add}

abbrev file : ObjectAttr
file = record { type = path; val = 0; o = some (47 ∷ 97 ∷ []) }

abbrev finfo : FileInfo
finfo = record {
  file_device = 1;
  file_inode = 2;
  file_mode = 33_261;
  file_size = 4;
  file_sec = 5;
  file_nsec = 6;
}

access-object_add_example :
    let a = object_create finfo [] in
    IsValid (object_add a file)
    × (object_access (object_add a file) path
        ≡ (if object_index path == object_index path then some file else object_access a path))
    × ((object_add a file).finfo ≡ finfo)
    × ((object_add a file).digest ≡ [])
unfolding object_create
access-object_add_example = access-object_add (object_create-IsValid finfo []) file path
