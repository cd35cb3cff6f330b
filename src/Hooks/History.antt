-- ===== src/Hooks/History.antt =====
-- The invariant of the hooks and of their revisions.
use vehinode.Prelude.{◌≡◌, true, ◌&&◌, some, List, ◌==◌, All, leb}
use vehinode.Prelude.Table.{any}
use vehinode.Prelude.Table.Keys.{UniqueBy}
use vehinode.Models.{Hook, HookRevision, Db}
use vehinode.Hooks.{find_revision}

-- The latest revision of a hook is the one that it runs.
abbrev pub IsSaved : List HookRevision → Hook → Type 0
IsSaved revisions hook =
    (saved : HookRevision) × (find_revision revisions hook.id hook.revision ≡ some saved)
    × (saved.source ≡ hook.source)

-- No revision of a hook is later than the one that it runs, and a revision is of a hook that exists.
abbrev pub IsEarlier : List Hook → HookRevision → Type 0
IsEarlier hooks r =
    (any (λ (h : Hook). h.id == r.hook_id && leb r.revision h.revision) hooks ≡ true)

pub record HasHistory (db : Db) : Type 0 where
  pub unique : UniqueBy (λ (h : Hook). h.id) db.hooks
  pub saved : All (IsSaved db.revisions) db.hooks
  pub earlier : All (IsEarlier db.hooks) db.revisions
