-- ===== src/Hooks/Restoring.antt =====
-- Going back to a saved revision of a hook.
use vehinode.Prelude.{
  ◌≡◌, sym, subst, arith, ℕ, String, true, Option, some, ◌==◌, ==_iff, ok, bind_inverse,
}
use vehinode.Prelude.Table.{find-holds}
use vehinode.Models.{Key, User, Hook, HookRevision, Db}
use vehinode.Access.{is_admin, require_admin}
use vehinode.Hooks.{
  update_hook, written, find_revision, get_hook, restore_revision, restoring, required_hook,
  required_revision,
}
use vehinode.Hooks.History.{HasHistory}
use vehinode.Hooks.Revisions.{update_hook-HasHistory}

require_admin_inverse :
    (user admin : User) → require_admin user ≡ ok admin → (is_admin user ≡ true) × (admin ≡ user)
unfolding require_admin
require_admin_inverse user admin h = ground arith

module _ (source_error : String → Option String) where
  restore_steps :
      (db : Db) (user : User) (k : Key) (n : ℕ) (id : Key) (p : Hook × Db)
      → restore_revision source_error db user k n id ≡ ok p
      → (admin : User) × (hook : Hook) × (saved : HookRevision) × (require_admin user ≡ ok admin)
        × (get_hook db k ≡ some hook)
        × (find_revision db.revisions k n ≡ some saved)
        × (update_hook source_error db hook admin (restoring hook saved) id ≡ ok p)
  unfolding restore_revision
  restore_steps db user k n id p h =
      let (admin, e₁, h₁) = bind_inverse (require_admin user) _ h in
      let (hook, e₂, h₂) = bind_inverse (required_hook db k) _ h₁ in
      let (saved, e₃, h₃) =
        bind_inverse (required_revision (find_revision db.revisions k n)) _ h₂ in
      (admin, hook, saved, e₁, ground arith, ground arith, ground arith)

  -- A restoration, which takes an administrator, makes the hook run the source of the saved revision
  -- and keeps its name, filter and switch; the history is kept, with every saved revision in it.
  restore_revision_effect :
      (db : Db) (user : User) (k : Key) (n : ℕ) (id : Key) (hook' : Hook) (db' : Db)
      → HasHistory db
      → restore_revision source_error db user k n id ≡ ok (hook', db')
      → (hook : Hook) × (saved : HookRevision) × (is_admin user ≡ true)
        × (get_hook db k ≡ some hook)
        × (find_revision db.revisions k n ≡ some saved)
        × (get_hook db' k ≡ some hook')
        × (hook'.source ≡ saved.source)
        × (hook'.name ≡ hook.name)
        × (hook'.vehicle_id ≡ hook.vehicle_id)
        × (hook'.enabled ≡ hook.enabled)
        × (find_revision db'.revisions k n ≡ some saved)
        × HasHistory db'
  unfolding update_hook written
  restore_revision_effect db user k n id hook' db' history h =
      let (admin, hook, saved, allowed, found, there, done) =
        restore_steps db user k n id (hook', db') h in
      let key : hook.id ≡ k =
        (==_iff hook.id k).0 (find-holds (λ (h : Hook). h.id == k) db.hooks found) in
      let (history', stored, source, _, kept) =
        update_hook-HasHistory source_error db hook admin (restoring hook saved) id hook' db' k n
          history (subst (λ j. get_hook db j ≡ some hook) (sym key) found) done in
      (
        hook,
        saved,
        (require_admin_inverse user admin allowed).0,
        found,
        there,
        subst (λ j. get_hook db' j ≡ some hook') key stored,
        source,
        ground arith,
        ground arith,
        ground arith,
        ground (arith, kept),
        history',
      )
