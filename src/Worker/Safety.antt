-- ===== src/Worker/Safety.antt =====
-- The state that `_finish_execution` of backend/app/worker.py stores, and the secrets of the hook.
use vehinode.Prelude.{
  String, ◌+◌, ◌≡◌, refl, ◌⊎◌, inl, inr, false, not, ◌&&◌, some, none, Option, List, [], ◌∷◌, ◌++◌,
  arith, ◌==◌, if◌then◌else◌, Option-cases, ok,
}
use vehinode.Prelude.Table.{
  find, any, any-append, find-append, find-update_where, find-holds, is_some-find,
}
use vehinode.Prelude.Table.Keys.{find-update_where_self}
use vehinode.Json.{
  Json, Double, null, bool, int, float, str, arr, obj, Items, nil, cons, Fields, end, field,
}
use vehinode.Models.{Key, Instant, HookState, HookExecution, ExecutionStatus, Job, Db}
use vehinode.Worker.Secrets.{contains_secret, contains_secret_items, contains_secret_fields, any_in}
use vehinode.Worker.Input.{RuntimeResult}
use vehinode.Worker.{
  is_success, stored_state, finish_execution, finished_execution, secret_error, get_execution,
}

-- Every text of a value, the keys of its objects included.
mutual
  pub texts : Json → List String
  texts null = []
  texts (bool b) = []
  texts (int n) = []
  texts (float d) = []
  texts (str s) = s ∷ []
  texts (arr xs) = texts_items xs
  texts (obj fs) = texts_fields fs

  pub texts_items : Items → List String
  texts_items nil = []
  texts_items (cons x xs) = texts x ++ texts_items xs

  pub texts_fields : Fields → List String
  texts_fields end = []
  texts_fields (field k v fs) = k ∷ (texts v ++ texts_fields fs)

mutual
  unfolding texts contains_secret any

  contains_texts :
      (secrets : List String) (v : Json)
      → contains_secret v secrets ≡ any (any_in secrets) (texts v)
  contains_texts secrets null = refl
  contains_texts secrets (bool b) = refl
  contains_texts secrets (int n) = refl
  contains_texts secrets (float d) = refl
  contains_texts secrets (str s) = ground arith
  contains_texts secrets (arr xs) = contains_texts_items secrets xs
  contains_texts secrets (obj fs) = contains_texts_fields secrets fs

  contains_texts_items :
      (secrets : List String) (xs : Items)
      → contains_secret_items xs secrets ≡ any (any_in secrets) (texts_items xs)
  contains_texts_items secrets nil = refl
  contains_texts_items secrets (cons x xs) = ground (
    arith,
    contains_texts secrets x,
    contains_texts_items secrets xs,
    any-append (any_in secrets) (texts x) (texts_items xs),
  )

  contains_texts_fields :
      (secrets : List String) (fs : Fields)
      → contains_secret_fields fs secrets ≡ any (any_in secrets) (texts_fields fs)
  contains_texts_fields secrets end = refl
  contains_texts_fields secrets (field k v fs) = ground (
    arith,
    contains_texts secrets v,
    contains_texts_fields secrets fs,
    any-append (any_in secrets) (texts v) (texts_fields fs),
  )

module _ (result : RuntimeResult) (secrets : List String) (finished : Instant) (hook_id h : Key)
    (states : List HookState) where
  find-stored_state :
      (s : HookState)
      → find
          (λ (x : HookState). x.hook_id == h)
          (stored_state result secrets finished hook_id states)
        ≡ some s
      → (find (λ (x : HookState). x.hook_id == h) states ≡ some s)
        ⊎ ((s.value ≡ result.state)
            × (contains_secret result.state secrets ≡ false)
            × (result.status ≡ ExecutionStatus.success))
  unfolding stored_state find
  find-stored_state s e = ground (
    arith,
    find-append (λ (x : HookState). x.hook_id == h) states
        (record { hook_id = hook_id; value = result.state; version = 1; updated_at = finished }
          ∷ []),
    find-update_where (λ (x : HookState). x.hook_id == h) (λ x. x.hook_id == hook_id)
        (λ x. record x { value = result.state; version = x.version + 1; updated_at = finished })
        states (λ x. refl),
  )

module _ (db : Db) (job : Job) (execution_id hook_id : Key) (result : RuntimeResult)
    (secrets : List String) (finished : Instant) (duration : Double) (db' : Db)
    (h : finish_execution db job execution_id hook_id result secrets finished duration
      ≡ ok db') where
  -- After an execution is finished, the state of every hook is the one that was stored before, or
  -- it comes from a successful run and no text of it, keys included, contains a secret.
  pub finish_execution-no_secret :
      (k : Key) (s : HookState)
      → find (λ (x : HookState). x.hook_id == k) db'.hook_states ≡ some s
      → (find (λ (x : HookState). x.hook_id == k) db.hook_states ≡ some s)
        ⊎ ((result.status ≡ ExecutionStatus.success)
            × (any (any_in secrets) (texts s.value) ≡ false))
  unfolding finish_execution
  finish_execution-no_secret k s e = ground (
    arith,
    find-stored_state result secrets finished hook_id k db.hook_states s,
    contains_texts secrets result.state,
  )

-- The row of the hook after a run: with a success that leaks nothing its value is the child's state
-- and its version one more than before, or 1 if there was none; otherwise it is as it was.
abbrev pub next_state :
    RuntimeResult → List String → Instant → Key → Option HookState → Option HookState
next_state result secrets finished hook_id old =
    if is_success result.status && not (contains_secret result.state secrets)
    then elim old [
      | none ↦
          some
            (record { hook_id = hook_id; value = result.state; version = 1; updated_at = finished })
      | some s ↦
          some (record s { value = result.state; version = s.version + 1; updated_at = finished })
    ]
    else old

module _ (result : RuntimeResult) (secrets : List String) (finished : Instant) (hook_id : Key)
    (states : List HookState) where
  stored_state_self :
      find
        (λ (x : HookState). x.hook_id == hook_id)
        (stored_state result secrets finished hook_id states)
      ≡ next_state result secrets finished hook_id
          (find (λ (x : HookState). x.hook_id == hook_id) states)
  unfolding stored_state find
  stored_state_self = elim (Option-cases (find (λ (x : HookState). x.hook_id == hook_id) states)) [
    | inl missing ↦ ground (
      arith,
      find-append (λ (x : HookState). x.hook_id == hook_id) states
          (record { hook_id = hook_id; value = result.state; version = 1; updated_at = finished }
            ∷ []),
      is_some-find (λ (x : HookState). x.hook_id == hook_id) states,
    )
    | inr (s, there) ↦ ground (
      arith,
      find-holds (λ (x : HookState). x.hook_id == hook_id) states {a = s} there,
      find-update_where (λ (x : HookState). x.hook_id == hook_id) (λ x. x.hook_id == hook_id)
          (λ x. record x { value = result.state; version = x.version + 1; updated_at = finished })
          states (λ x. refl),
      is_some-find (λ (x : HookState). x.hook_id == hook_id) states,
    )
  ]

-- When an execution is finished, the hook's state moves on exactly after a success whose state
-- contains no secret; a success whose state contains one is stored as a failure.
finish_execution_effect :
    (db : Db) (job : Job) (execution_id hook_id : Key) (result : RuntimeResult)
    (secrets : List String) (finished : Instant) (duration : Double) (db' : Db) (e : HookExecution)
    → finish_execution db job execution_id hook_id result secrets finished duration ≡ ok db'
    → get_execution db execution_id ≡ some e
    → (find (λ (x : HookState). x.hook_id == hook_id) db'.hook_states
        ≡ next_state result secrets finished hook_id
            (find (λ (x : HookState). x.hook_id == hook_id) db.hook_states))
      × (e' : HookExecution) × (get_execution db' execution_id ≡ some e')
      × (e'.status ≡ (
          if is_success result.status && contains_secret result.state secrets
          then ExecutionStatus.failed
          else result.status))
      × (e'.error ≡ (
          if is_success result.status && contains_secret result.state secrets
          then some secret_error
          else result.error))
unfolding finish_execution finished_execution
finish_execution_effect db job execution_id hook_id result secrets finished duration db' e h there =
    (
      ground (arith, stored_state_self result secrets finished hook_id db.hook_states),
      finished_execution result secrets finished duration e,
      ground (
        arith,
        find-update_where_self (λ (x : HookExecution). x.id) execution_id
            (finished_execution result secrets finished duration) db.executions {a = e} (λ x. refl)
            there,
      ),
      refl,
      refl,
    )
