-- ===== src/Users/Editing.antt =====
-- What an edit of an account changes, and what it leaves alone.
use vehinode.Prelude.{
  String, sym, subst, ==_iff, Bool-cases, inl, inr, Ensures-ok, ◌≡◌, refl, ◌∙◌, ◌≢◌, Bool, true,
  false, some, none, Option, arith, ◌==◌, if◌then◌else◌, Result, ok,
}
use mathlib.Core.Bool.{false≢true}
use vehinode.Prelude.Table.{find-holds}
use vehinode.Prelude.Table.Keys.{find-update_where_ne}
use vehinode.Models.{Key, User, Db}
use vehinode.Access.{is_admin, get_user}
use vehinode.Users.{
  UserUpdate, UserAccountResponse, account_response, admin_permissions, set_admin, set_active,
  given, assign_profiles, apply_update, update_account,
}
use vehinode.Users.Admins.{
  is_admin-admin_permissions, UniqueUsers, HasActiveAdmin, loaded, apply_update-Loaded, LoadedPair,
}
use vehinode.Users.LastAdmin.{update_account_inverse}

-- The value of a field that the request may leave out.
abbrev pub requested : Option Bool → Bool → Bool
requested none old = old
requested (some b) old = b

module _ (db : Db) (user : User) (edit : UserUpdate) (p : User × Db)
    (h : apply_update db user edit ≡ ok p) where
  kept : (p.0.id ≡ user.id) × (p.0.email ≡ user.email) × (p.0.display_name ≡ user.display_name)
  unfolding apply_update set_admin set_active assign_profiles
  kept = ground arith

  set_fields :
      (p.0.is_active ≡ requested edit.is_active user.is_active)
      × (p.0.can_create_profiles ≡ requested edit.can_create_profiles user.can_create_profiles)
  unfolding apply_update set_admin set_active assign_profiles
  set_fields = ground arith

  set_admin_field : is_admin p.0 ≡ requested edit.is_admin (is_admin user)
  unfolding apply_update set_admin set_active assign_profiles is_admin
  set_admin_field =
      ground (arith, is_admin-admin_permissions user true, is_admin-admin_permissions user false)

-- A step of an edit: it keeps the key and touches no other row.
abbrev Touches : Db → User → User × Db → Type 0
Touches db user p = (p.0.id ≡ user.id) × ((k : Key) → k ≢ user.id → get_user p.1 k ≡ get_user db k)

module _ (db : Db) (user : User) (p : User × Db) where
  set_admin-Touches : (b : Bool) → set_admin db user b ≡ ok p → Touches db user p
  unfolding set_admin
  set_admin-Touches b h = (
    ground arith,
    λ k ne. ground (
      arith,
      find-update_where_ne (λ (u : User). u.id) user.id k
          (λ u. record u { permissions = admin_permissions b u.permissions }) db.users (λ u. refl)
          ne,
    ),
  )

  set_active-Touches : (b : Bool) → set_active db user b ≡ ok p → Touches db user p
  unfolding set_active
  set_active-Touches b h = (
    ground arith,
    λ k ne. ground (
      arith,
      find-update_where_ne (λ (u : User). u.id) user.id k (λ u. record u { is_active = b }) db.users
          (λ u. refl) ne,
    ),
  )

  given-Touches :
      (b : Option Bool) (f : Bool → Result String (User × Db))
      → ((b : Bool) → f b ≡ ok p → Touches db user p)
      → given b f user db ≡ ok p
      → Touches db user p
  given-Touches none f k h = (ground arith, λ j ne. ground arith)
  given-Touches (some b) f k h = k b h

assign_profiles-Touches :
    (b : Option Bool) (db : Db) (user : User) → Touches db user (assign_profiles b user db)
unfolding assign_profiles
assign_profiles-Touches none db user = (refl, λ k ne. refl)
assign_profiles-Touches (some b) db user = (
  refl,
  λ k ne.
      find-update_where_ne (λ (u : User). u.id) user.id k
        (λ u. record u { can_create_profiles = b }) db.users (λ u. refl) ne,
)

Touches-trans :
    (db : Db) (user : User) (p q : User × Db)
    → Touches db user p
    → Touches p.1 p.0 q
    → Touches db user q
Touches-trans db user p q (same, t) (same', t') =
    (same' ∙ same, λ k ne. t' k (λ e. ne (e ∙ same)) ∙ t k ne)

apply_update_steps :
    (db : Db) (user : User) (edit : UserUpdate) (p : User × Db)
    → apply_update db user edit ≡ ok p
    → (q : User × Db) × (given edit.is_admin (set_admin db user) user db ≡ ok q)
      × (r : User × Db) × (given edit.is_active (set_active q.1 q.0) q.0 q.1 ≡ ok r)
      × (p ≡ assign_profiles edit.can_create_profiles r.0 r.1)
unfolding apply_update
apply_update_steps db user edit p h = ground arith

apply_update-Touches :
    (db : Db) (user : User) (edit : UserUpdate) (p : User × Db)
    → apply_update db user edit ≡ ok p
    → Touches db user p
apply_update-Touches db user edit p h =
    let (q, first, r, second, e) = apply_update_steps db user edit p h in
    let t =
      given-Touches db user q edit.is_admin (set_admin db user) (set_admin-Touches db user q)
        first in
    let u =
      given-Touches q.1 q.0 r edit.is_active (set_active q.1 q.0) (set_active-Touches q.1 q.0 r)
        second in
    subst (Touches db user) (sym e) (
      Touches-trans db user r (assign_profiles edit.can_create_profiles r.0 r.1)
        (Touches-trans db user q r t u) (assign_profiles-Touches edit.can_create_profiles r.1 r.0))

stored_user :
    (db : Db) (user : User) (user_id k : Key) (edit : UserUpdate) (p : User × Db)
    → UniqueUsers db
    → HasActiveAdmin db
    → get_user db user_id ≡ some user
    → user.id ≡ user_id
    → apply_update db user edit ≡ ok p
    → get_user p.1 k ≡ (if user_id == k then some p.0 else get_user db k)
stored_user db user user_id k edit p unique has_admin found key done =
    elim (Bool-cases (user_id == k)) [
      | inl same ↦
          let l =
            Ensures-ok LoadedPair (apply_update db user edit) {a = p}
              (apply_update-Loaded db user edit (loaded db user_id user unique has_admin found))
              done in
          let (id, _, _) = kept db user edit p done in
          rw same
            (subst (λ j. get_user p.1 j ≡ some p.0) (id ∙ key ∙ (==_iff user_id k).0 same) l.found)
      | inr other ↦ rw other (
          (apply_update-Touches db user edit p done).1 k
            (λ same. false≢true (sym other ∙ (==_iff user_id k).1 (sym (same ∙ key)))))
    ]

-- A successful PATCH stores the account under the key with the requested fields set and its identity
-- kept, answers with that account, and changes the row of no other account.
update_account_effect :
    (db : Db) (auth : User) (user_id k : Key) (edit : UserUpdate) (r : UserAccountResponse)
    (db' : Db)
    → UniqueUsers db
    → HasActiveAdmin db
    → update_account db auth user_id edit ≡ ok (r, db')
    → (user user' : User) × (get_user db user_id ≡ some user)
      × (get_user db' k ≡ (if user_id == k then some user' else get_user db k))
      × (r ≡ account_response user')
      × (user'.id ≡ user_id)
      × (user'.email ≡ user.email)
      × (user'.display_name ≡ user.display_name)
      × (is_admin user' ≡ requested edit.is_admin (is_admin user))
      × (user'.is_active ≡ requested edit.is_active user.is_active)
      × (user'.can_create_profiles ≡ requested edit.can_create_profiles user.can_create_profiles)
update_account_effect db auth user_id k edit r db' unique has_admin h =
    let (user, found, _, _, p, done, answer, e) =
      update_account_inverse db auth user_id edit r db' h in
    let key : user.id ≡ user_id =
      (==_iff user.id user_id).0 (find-holds (λ (u : User). u.id == user_id) db.users found) in
    let (id, email, name) = kept db user edit p done in
    let (active, profiles) = set_fields db user edit p done in
    let admin = set_admin_field db user edit p done in
    (
      user,
      p.0,
      found,
      rw e (stored_user db user user_id k edit p unique has_admin found key done),
      answer,
      id ∙ key,
      email,
      name,
      admin,
      active,
      profiles,
    )
