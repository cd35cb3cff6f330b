-- ===== src/Configuration/Installed.antt =====
-- `install_if_newer` of agent/vehicle_agent/config.py, one download after the other.
use vehinode.Prelude.{
  ◌≤◌, ◌≡◌, refl, ◌∙◌, arith, Bool, Option, some, List, [], ◌∷◌, ◌==◌, ltb, Result, ok, err,
  Bool-cases, inl, inr, ◌⊎◌,
}
use vehinode.Prelude.Int.{ℤ}
use vehinode.Json.{Double, Json, Fields}
use vehinode.Configuration.{
  AgentConfiguration, ConfigError, parse, as_server_format, load, install_if_newer, install_each,
}
use vehinode.Configuration.Stored.{parse-as_server_format}

-- The configuration has a later version than the old one, or is the old one.
pub record IsLater (old new : AgentConfiguration) : Type 0 where
  pub version : old.version ≤ new.version
  pub same : new.version ≡ old.version → new ≡ old

IsLater-refl : (c : AgentConfiguration) → IsLater c c
IsLater-refl c = record { version = omega arith; same = λ _. refl }

IsLater-trans : (a b c : AgentConfiguration) → IsLater a b → IsLater b c → IsLater a c
IsLater-trans a b c h k =
    let first = h.version in
    let second = k.version in
    record { version = omega arith; same = λ e. k.same (omega arith) ∙ h.same (omega arith) }

module _ (truncate : Double → Result ConfigError ℤ) (is_profile : Fields → Bool) where
  Result-cases :
      (r : Result ConfigError AgentConfiguration)
      → ((e : ConfigError) × (r ≡ err e)) ⊎ ((c : AgentConfiguration) × (r ≡ ok c))
  Result-cases (ok c) = inr (c, refl)
  Result-cases (err e) = inl (e, refl)

  load-written :
      (content : Json) (c : AgentConfiguration)
      → parse truncate is_profile content ≡ ok c
      → load truncate is_profile (some (as_server_format c)) ≡ ok c
  unfolding load
  load-written content c h = parse-as_server_format truncate is_profile content c h

  install-IsLater :
      (content : Json) (file : Option Json) (old : AgentConfiguration)
      → load truncate is_profile file ≡ ok old
      → (new : AgentConfiguration) × (load truncate is_profile
            (install_if_newer truncate is_profile content file).1
          ≡ ok new)
        × IsLater old new
  unfolding install_if_newer
  install-IsLater content file old h = elim (Result-cases (parse truncate is_profile content)) [
    | inl (e, refused) ↦ (old, ground arith, IsLater-refl old)
    | inr (candidate, accepted) ↦
        let again = load-written content candidate accepted in
        elim (Bool-cases (ltb candidate.version old.version)) [
          | inl older ↦ (old, ground arith, IsLater-refl old)
          | inr not_older ↦ elim (Bool-cases (candidate.version == old.version)) [
            | inl same ↦ (old, ground arith, IsLater-refl old)
            | inr newer ↦ (
              candidate,
              ground arith,
              record { version = ground arith; same = λ e. absurd (ground arith) },
            )
          ]
        ]
  ]

  -- Whatever the server sends, and in whatever order: once the agent has a configuration that it can read,
  -- it has one after every download, its version never decreases, and two configurations of the same
  -- version are the same one.
  pub install_each-IsLater :
      (contents : List Json) (file : Option Json) (old : AgentConfiguration)
      → load truncate is_profile file ≡ ok old
      → (new : AgentConfiguration) × (load truncate is_profile
            (install_each truncate is_profile contents file)
          ≡ ok new)
        × IsLater old new
  unfolding install_each
  install_each-IsLater [] file old h = (old, h, IsLater-refl old)
  install_each-IsLater (content ∷ contents) file old h =
      let (next, read, later) = install-IsLater content file old h in
      let (new, kept, after) =
        install_each-IsLater contents (install_if_newer truncate is_profile content file).1 next
          read in
      (new, kept, IsLater-trans old next new later after)
