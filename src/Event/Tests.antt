-- ===== src/Event/Tests.antt =====
-- Lookups in the example's system, and the theorem at this input.
use fapolicyd.Prelude.{◌≡◌, refl, Option, none, some, inl, arith}
use fapolicyd.Subject.{subj_trust, uval, subject_create, subject_access, subject_add, copied_value}
use fapolicyd.Event.{get_subj_attr, look_up_subj, get_exe, look_up_exe, cache_subj, subject_attr}
use fapolicyd.Event.Example.{opens-Keeps, system, opens}
use fapolicyd.Event.Subjects.{Looked, get_subj_attr-Looked}

trust_of_ls : (get_subj_attr system opens subj_trust).1 ≡ some (subject_attr subj_trust (uval 1))
unfolding get_subj_attr look_up_subj get_exe look_up_exe cache_subj subject_create subject_access
    subject_add copied_value fapolicyd.Prelude.Bytes.bytes_eq
trust_of_ls = refl

get_subj_attr-Looked_example :
    Looked system opens subj_trust (get_subj_attr system opens subj_trust)
get_subj_attr-Looked_example = get_subj_attr-Looked system opens opens-Keeps subj_trust
