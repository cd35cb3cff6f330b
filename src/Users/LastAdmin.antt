-- ===== src/Users/LastAdmin.antt =====
-- The guard of the last active administrator, through the two routes that could remove one.
use vehinode.Prelude.{◌≡◌, true, false, ◌&&◌, ◌||◌, some, arith, ◌==◌, ok, Ensures-ok}
use vehinode.Models.{Key, User, Db}
use vehinode.Access.{is_admin, get_user, require_admin}
use vehinode.Users.{
  UserUpdate, UserAccountResponse, delete_user, apply_update, update_account, account_response,
  is_false, remove_account,
}
use vehinode.Users.Admins.{
  HasActiveAdmin, UniqueUsers, KeepsAdmin, LoadedPair, loaded, apply_update-Loaded,
  delete_user-Keeps,
}

module _ (db : Db) (auth : User) (user_id : Key) where
  -- What a PATCH that succeeds has done: the account was there, and its changes went through.
  pub update_account_inverse :
      (edit : UserUpdate) (r : UserAccountResponse) (db' : Db)
      → update_account db auth user_id edit ≡ ok (r, db')
      → (user : User) × (get_user db user_id ≡ some user)
        × (is_admin auth ≡ true)
        × (user.id == auth.id && (is_false edit.is_admin || is_false edit.is_active) ≡ false)
        × (p : User × Db) × (apply_update db user edit ≡ ok p)
        × (r ≡ account_response p.0)
        × (db' ≡ p.1)
  unfolding update_account require_admin
  update_account_inverse edit r db' h = ground arith

  remove_account_inverse :
      (db' : Db)
      → remove_account db auth user_id ≡ ok db'
      → (user : User) × (get_user db user_id ≡ some user) × (delete_user db user ≡ ok db')
  unfolding remove_account require_admin
  remove_account_inverse db' h = ground arith

module _ (db : Db) (auth : User) (user_id : Key) (unique : UniqueUsers db)
    (has_admin : HasActiveAdmin db) where
  -- A successful PATCH of an account leaves an active administrator and the primary key intact,
  -- whatever combination of changes it makes.
  pub update_account-KeepsAdmin :
      (edit : UserUpdate) (r : UserAccountResponse) (db' : Db)
      → update_account db auth user_id edit ≡ ok (r, db')
      → UniqueUsers db' × HasActiveAdmin db'
  update_account-KeepsAdmin edit r db' h =
      let (user, found, _, _, p, done, _, e) =
        update_account_inverse db auth user_id edit r db' h in
      let l =
        Ensures-ok LoadedPair (apply_update db user edit) {a = p}
          (apply_update-Loaded db user edit (loaded db user_id user unique has_admin found)) done in
      rw e (l.unique, l.has_admin)

  -- A successful DELETE of an account leaves an active administrator and the primary key intact.
  pub remove_account-KeepsAdmin :
      (db' : Db) → remove_account db auth user_id ≡ ok db' → UniqueUsers db' × HasActiveAdmin db'
  remove_account-KeepsAdmin db' h =
      let (user, found, done) = remove_account_inverse db auth user_id db' h in
      Ensures-ok KeepsAdmin (delete_user db user) {a = db'}
        (delete_user-Keeps db user (loaded db user_id user unique has_admin found)) done
