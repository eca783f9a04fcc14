-- ===== src/EventCache/Tests.antt =====
-- The table of a subject's states at a subject that opens a file.
use fapolicyd.Prelude.{◌≡◌, refl, true, false, [], ◌∷◌}
use fapolicyd.Subject.{subject_create}
use fapolicyd.Event.Example.{info}
use fapolicyd.EventCache.Visit.{visit}
use fapolicyd.EventCache.Visit.Table.{opens, visited, visit_lem}

visit_lem_example :
    (visit (47 ∷ []) 65_536 false (subject_create info)
      ≡ visited (47 ∷ []) opens (subject_create info))
    × (visit (47 ∷ []) 65_536 true (subject_create info)
        ≡ record { subject = subject_create info; evict = true; skip_path = false })
visit_lem_example = visit_lem (47 ∷ []) 65_536 opens (subject_create info) (refl, refl)
