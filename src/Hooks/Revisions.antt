-- ===== src/Hooks/Revisions.antt =====
-- Edits of a hook and the history of its revisions.
use vehinode.Prelude.{
  ◌≡◌, refl, sym, ap, ◌∙◌, subst, arith, ℕ, ◌+◌, String, Bool, true, ◌&&◌, Option, some, none, List,
  [], ◌∷◌, ◌++◌, Bool-cases, Option-cases, inl, inr, ◌==◌, IfSome, ==_refl, eq_iff, if◌then◌else◌,
  ok, All, All-append, leb, leb_refl,
}
use vehinode.Prelude.Table.{find, any, update_where, find-append, any-of_find}
use vehinode.Prelude.Table.Keys.{
  UniqueBy, UniqueBy-update_where, any_unique, find-update_where_self,
}
use vehinode.Prelude.Table.Selection.{All-mono, All-update_where, All-key}
use vehinode.Prelude.Table.Deletion.{All-of_find, any-update_where}
use vehinode.Models.{Key, User, Hook, HookRevision, Db}
use vehinode.Hooks.{
  HookWrite, update_hook, written, changes_source, new_revision, find_revision, get_hook,
}
use vehinode.Hooks.History.{HasHistory, IsSaved, IsEarlier}

module _ (source_error : String → Option String) where
  update_hook_inverse :
      (db : Db) (hook : Hook) (editor : User) (request : HookWrite) (id : Key) (p : Hook × Db)
      → update_hook source_error db hook editor request id ≡ ok p
      → p ≡ (
        written request hook,
        record db {
          hooks = update_where (λ (h : Hook). h.id == hook.id) (written request) db.hooks;
          revisions =
              if changes_source hook request
              then db.revisions ++ new_revision id (written request hook) editor ∷ []
              else db.revisions;
        },
      )
  unfolding update_hook
  update_hook_inverse db hook editor request id p h = ground arith

  module _ (db : Db) (hook : Hook) (history : HasHistory db)
      (found : get_hook db hook.id ≡ some hook) where
    not_later :
        (r : HookRevision)
        → IsEarlier db.hooks r
        → r.hook_id ≡ hook.id
        → leb r.revision hook.revision ≡ true
    not_later r earlier of =
        sym (
          any_unique (λ (h : Hook). h.id) hook.id (λ h. leb r.revision h.revision) db.hooks
            {a = hook} history.unique found)
        ∙ subst (λ k. any (λ (h : Hook). h.id == k && leb r.revision h.revision) db.hooks ≡ true) of
            earlier

    no_next :
        (revisions : List HookRevision)
        → All (IsEarlier db.hooks) revisions
        → find_revision revisions hook.id (hook.revision + 1) ≡ none
    unfolding find
    no_next [] earlier = refl
    no_next (r ∷ rs) earlier = ground (arith, no_next rs earlier.1, not_later r earlier.0)

    module _ (request : HookWrite) (editor : User) (id : Key) where
      abbrev next : Hook
      next = written request hook

      abbrev next_hooks : List Hook
      next_hooks = update_where (λ (h : Hook). h.id == hook.id) (written request) db.hooks

      abbrev next_revisions : List HookRevision
      next_revisions =
          if changes_source hook request
          then db.revisions ++ new_revision id next editor ∷ []
          else db.revisions

      still-IsSaved : (h : Hook) → IsSaved db.revisions h → IsSaved next_revisions h
      still-IsSaved h (saved, there, same) = (
        saved,
        ground (
          arith,
          find-append (λ (r : HookRevision). r.hook_id == h.id && r.revision == h.revision)
              db.revisions (new_revision id next editor ∷ []),
        ),
        same,
      )

      next-IsSaved : IsSaved next_revisions next
      unfolding written find
      next-IsSaved = elim (Bool-cases (changes_source hook request)) [
        | inl changed ↦ (
          new_revision id next editor,
          ground (
            arith,
            find-append
                (λ (r : HookRevision). r.hook_id == hook.id && r.revision == hook.revision + 1)
                db.revisions (new_revision id next editor ∷ []),
            no_next db.revisions history.earlier,
            ==_refl hook.id,
            ==_refl (hook.revision + 1),
          ),
          refl,
        )
        | inr kept ↦
            let (saved, there, same) =
              All-of_find (IsSaved db.revisions) (λ (h : Hook). h.id == hook.id) db.hooks {a = hook}
                found history.saved in
            (saved, ground arith, same ∙ (eq_iff hook.source request.source).0 (ground arith))
      ]

      still-IsEarlier : (r : HookRevision) → IsEarlier db.hooks r → IsEarlier next_hooks r
      unfolding written
      still-IsEarlier r earlier =
          any-update_where (λ (h : Hook). h.id == r.hook_id && leb r.revision h.revision)
            (λ h. h.id == hook.id) (written request) db.hooks (λ h e. ground arith) earlier

      new_revision-IsEarlier : IsEarlier next_hooks (new_revision id next editor)
      unfolding written
      new_revision-IsEarlier =
          any-of_find (λ (h : Hook). h.id == hook.id)
            (λ h. h.id == hook.id && leb next.revision h.revision) next_hooks {a = next}
            (find-update_where_self (λ (h : Hook). h.id) hook.id (written request) db.hooks
              {a = hook} (λ h. refl) found)
            (ground (arith, ==_refl hook.id, leb_refl next.revision))

      next_unique : UniqueBy (λ (h : Hook). h.id) next_hooks
      unfolding written
      next_unique =
          UniqueBy-update_where (λ (h : Hook). h.id) (λ h. h.id == hook.id) (written request)
            db.hooks (λ h. refl) history.unique

      next_revisions-IsEarlier : All (IsEarlier next_hooks) next_revisions
      next_revisions-IsEarlier =
          let old =
            All-mono (IsEarlier db.hooks) (IsEarlier next_hooks) db.revisions still-IsEarlier
              history.earlier in
          elim (Bool-cases (changes_source hook request)) [
            | inl changed ↦ rw changed (
                All-append (IsEarlier next_hooks) db.revisions (new_revision id next editor ∷ [])
                  old (new_revision-IsEarlier, tt))
            | inr kept ↦ rw kept old
          ]

      update-HasHistory : HasHistory (record db { hooks = next_hooks; revisions = next_revisions })
      update-HasHistory = record {
        unique = next_unique;
        saved =
            All-update_where (IsSaved next_revisions) (λ h. h.id == hook.id) (written request)
              db.hooks
              (All-key (λ h. IsSaved next_revisions (written request h)) (λ (h : Hook). h.id)
                hook.id db.hooks {a = hook} history.unique found next-IsSaved)
              (All-mono (IsSaved db.revisions) (IsSaved next_revisions) db.hooks still-IsSaved
                history.saved);
        earlier = next_revisions-IsEarlier;
      }

  revisions_kept :
      (revisions : List HookRevision) (r : HookRevision) (k : Key) (n : ℕ) (b : Bool)
      → IfSome
          (λ saved. find_revision (if b then revisions ++ r ∷ [] else revisions) k n ≡ some saved)
          (find_revision revisions k n)
  revisions_kept revisions r k n b = elim (Option-cases (find_revision revisions k n)) [
    | inl absent ↦ rw absent tt
    | inr (saved, there) ↦ rw there (
        ground (
          arith,
          find-append (λ (x : HookRevision). x.hook_id == k && x.revision == n) revisions (r ∷ []),
        ))
  ]

  -- An edit of a hook keeps the history: every hook runs its latest revision. It stores the requested
  -- source and raises the revision by one exactly when the source changes, and no saved revision is
  -- lost or changed.
  pub update_hook-HasHistory :
      (db : Db) (hook : Hook) (editor : User) (request : HookWrite) (id : Key) (hook' : Hook)
      (db' : Db) (k : Key) (n : ℕ)
      → HasHistory db
      → get_hook db hook.id ≡ some hook
      → update_hook source_error db hook editor request id ≡ ok (hook', db')
      → HasHistory db'
        × (get_hook db' hook.id ≡ some hook')
        × (hook'.source ≡ request.source)
        × (hook'.revision
            ≡ (if changes_source hook request then hook.revision + 1 else hook.revision))
        × IfSome
            (λ saved. find_revision db'.revisions k n ≡ some saved)
            (find_revision db.revisions k n)
  unfolding written
  update_hook-HasHistory db hook editor request id hook' db' k n history found h =
      let e = update_hook_inverse db hook editor request id (hook', db') h in
      let stored : hook' ≡ written request hook = ap (λ p. p.0) e in
      let after : db' ≡ record db {
        hooks = next_hooks db hook history found request editor id;
        revisions = next_revisions db hook history found request editor id;
      } =
        ap (λ p. p.1) e in
      (
        subst HasHistory (sym after) (update-HasHistory db hook history found request editor id),
        rw (after, stored)
            (find-update_where_self (λ (h : Hook). h.id) hook.id (written request) db.hooks
              {a = hook} (λ h. refl) found),
        ap (λ (h : Hook). h.source) stored,
        ap (λ (h : Hook). h.revision) stored,
        rw after (
            revisions_kept db.revisions (new_revision id (written request hook) editor) k n
              (changes_source hook request)),
      )
