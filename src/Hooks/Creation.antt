-- ===== src/Hooks/Creation.antt =====
-- `create_hook` of backend/app/hooks/services.py and the history of revisions.
use mathlib.Core.Bool.{false≢true}
use vehinode.Prelude.{
  ◌≡◌, refl, sym, ap, ◌∙◌, subst, arith, String, false, ◌&&◌, Option, some, none, List, [], ◌∷◌,
  ◌++◌, Bool-cases, inl, inr, ◌==◌, ==_iff, ==_refl, ok, All, All-append, leb,
}
use vehinode.Prelude.Table.{find, any, any_mono, any-append, find-append, is_some-find}
use vehinode.Prelude.Table.Keys.{UniqueBy-add}
use vehinode.Prelude.Table.Selection.{All-mono}
use vehinode.Models.{Key, User, Hook, HookRevision, Db}
use vehinode.Hooks.{HookWrite, create_hook, new_revision, find_revision, get_hook, new_hook}
use vehinode.Hooks.History.{HasHistory, IsSaved, IsEarlier}

module _ (source_error : String → Option String) where
  module _ (db : Db) (history : HasHistory db) (request : HookWrite) (creator : User)
      (id revision_id : Key) (fresh : any (λ (h : Hook). h.id == id) db.hooks ≡ false) where
    abbrev first : Hook
    first = new_hook request creator id

    abbrev first_revision : HookRevision
    first_revision = new_revision revision_id first creator

    of_other : (r : HookRevision) → IsEarlier db.hooks r → (r.hook_id == id) ≡ false
    of_other r earlier = elim (Bool-cases (r.hook_id == id)) [
      | inr other ↦ other
      | inl same ↦ absurd (
          false≢true (
            sym (
              subst (λ k. any (λ (h : Hook). h.id == k) db.hooks ≡ false)
                (sym ((==_iff r.hook_id id).0 same)) fresh)
            ∙ any_mono (λ (h : Hook). h.id == r.hook_id && leb r.revision h.revision)
                (λ h. h.id == r.hook_id) db.hooks (λ h e. ground arith) earlier))
    ]

    none_before :
        (revisions : List HookRevision)
        → All (IsEarlier db.hooks) revisions
        → find_revision revisions id 1 ≡ none
    unfolding find
    none_before [] earlier = refl
    none_before (r ∷ rs) earlier = ground (arith, none_before rs earlier.1, of_other r earlier.0)

    first-IsSaved : IsSaved (db.revisions ++ first_revision ∷ []) first
    unfolding find
    first-IsSaved = (
      first_revision,
      ground (
        arith,
        find-append (λ (r : HookRevision). r.hook_id == id && r.revision == 1) db.revisions
            (first_revision ∷ []),
        none_before db.revisions history.earlier,
        ==_refl id,
      ),
      refl,
    )

    before-IsSaved :
        (h : Hook) → IsSaved db.revisions h → IsSaved (db.revisions ++ first_revision ∷ []) h
    before-IsSaved h (saved, there, same) = (
      saved,
      ground (
        arith,
        find-append (λ (r : HookRevision). r.hook_id == h.id && r.revision == h.revision)
            db.revisions (first_revision ∷ []),
      ),
      same,
    )

    before-IsEarlier :
        (r : HookRevision) → IsEarlier db.hooks r → IsEarlier (db.hooks ++ first ∷ []) r
    before-IsEarlier r earlier = ground (
      arith,
      any-append (λ (h : Hook). h.id == r.hook_id && leb r.revision h.revision) db.hooks
          (first ∷ []),
    )

    first-IsEarlier : IsEarlier (db.hooks ++ first ∷ []) first_revision
    unfolding any
    first-IsEarlier = ground (
      arith,
      any-append (λ (h : Hook). h.id == id && leb 1 h.revision) db.hooks (first ∷ []),
      ==_refl id,
    )

    create-HasHistory : HasHistory (record db {
      hooks = db.hooks ++ first ∷ [];
      revisions = db.revisions ++ first_revision ∷ [];
    })
    create-HasHistory = record {
      unique = UniqueBy-add (λ (h : Hook). h.id) db.hooks first fresh history.unique;
      saved =
          All-append (IsSaved (db.revisions ++ first_revision ∷ [])) db.hooks (first ∷ [])
            (All-mono (IsSaved db.revisions) _ db.hooks before-IsSaved history.saved)
            (first-IsSaved, tt);
      earlier =
          All-append (IsEarlier (db.hooks ++ first ∷ [])) db.revisions (first_revision ∷ [])
            (All-mono (IsEarlier db.hooks) _ db.revisions before-IsEarlier history.earlier)
            (first-IsEarlier, tt);
    }

    get-first : get_hook (record db { hooks = db.hooks ++ first ∷ [] }) id ≡ some first
    unfolding find
    get-first = ground (
      arith,
      find-append (λ (h : Hook). h.id == id) db.hooks (first ∷ []),
      is_some-find (λ (h : Hook). h.id == id) db.hooks,
      ==_refl id,
    )

  -- A hook that is created under a fresh key keeps the history, and runs its first revision.
  create_hook-HasHistory :
      (db : Db) (creator : User) (request : HookWrite) (id revision_id : Key) (hook : Hook)
      (db' : Db)
      → HasHistory db
      → any (λ (h : Hook). h.id == id) db.hooks ≡ false
      → create_hook source_error db creator request id revision_id ≡ ok (hook, db')
      → HasHistory db'
        × (get_hook db' id ≡ some hook)
        × (hook.source ≡ request.source)
        × (hook.revision ≡ 1)
  unfolding create_hook
  create_hook-HasHistory db creator request id revision_id hook db' history fresh h =
      let stored : hook ≡ new_hook request creator id = ground arith in
      let after : db' ≡ record db {
        hooks = db.hooks ++ new_hook request creator id ∷ [];
        revisions =
            db.revisions ++ new_revision revision_id (new_hook request creator id) creator ∷ [];
      } =
        ground arith in
      (
        subst HasHistory (sym after)
            (create-HasHistory db history request creator id revision_id fresh),
        rw (after, stored) (get-first db history request creator id revision_id fresh),
        ap (λ (h : Hook). h.source) stored,
        ap (λ (h : Hook). h.revision) stored,
      )
