-- ===== src/Configuration/Stored.antt =====
-- A configuration that is kept can be read again.
use vehinode.Prelude.{
  ℕ, String, ◌≡◌, refl, arith, Bool, Option, none, some, Result, ok, bind_inverse, Ensures-ok,
}
use vehinode.Prelude.Int.{ℤ, pos, negsuc}
use vehinode.Json.{Double, Json, null, bool, int, float, str, arr, obj, Fields, get}
use vehinode.Configuration.{
  AgentConfiguration, ConfigError, subscript, int_of, or_invalid, at_least_one, seconds_in_bounds,
  profile_of, definition_of, default_seconds, parse, as_server_format, text_or_null, object_or_null,
}

module _ (truncate : Double → Result ConfigError ℤ) (is_profile : Fields → Bool) where
  -- What a configuration that has been parsed keeps to.
  pub record IsConfiguration (c : AgentConfiguration) : Type 0 where
    pub version : at_least_one (pos c.version) ≡ ok c.version
    pub sample : seconds_in_bounds (pos c.sample_seconds) ≡ ok c.sample_seconds
    pub upload : seconds_in_bounds (pos c.upload_seconds) ≡ ok c.upload_seconds
    pub profile :
        definition_of is_profile c.vehicle_profile
          (some (object_or_null c.vehicle_profile_definition))
        ≡ ok c.vehicle_profile_definition

  at_least_one-again : (z : ℤ) {n : ℕ} → at_least_one z ≡ ok n → at_least_one (pos n) ≡ ok n
  at_least_one-again (pos m) {n} h = ground arith
  at_least_one-again (negsuc m) {n} h = absurd (ground arith)

  seconds_in_bounds-again :
      (z : ℤ) {n : ℕ} → seconds_in_bounds z ≡ ok n → seconds_in_bounds (pos n) ≡ ok n
  seconds_in_bounds-again (pos m) {n} h = ground arith
  seconds_in_bounds-again (negsuc m) {n} h = absurd (ground arith)

  definition_of-again :
      (profile : Option String) (o : Option Json) {d : Option Fields}
      → definition_of is_profile profile o ≡ ok d
      → definition_of is_profile profile (some (object_or_null d)) ≡ ok d
  definition_of-again profile none {d} h = ground arith
  definition_of-again profile (some null) {d} h = ground arith
  definition_of-again profile (some (bool b)) {d} h = absurd (ground arith)
  definition_of-again profile (some (int n)) {d} h = absurd (ground arith)
  definition_of-again profile (some (float n)) {d} h = absurd (ground arith)
  definition_of-again profile (some (str s)) {d} h = absurd (ground arith)
  definition_of-again profile (some (arr xs)) {d} h = absurd (ground arith)
  definition_of-again profile (some (obj fs)) {d} h = ground arith

  profile_of-text_or_null :
      (profile : Option String) → profile_of (some (text_or_null profile)) ≡ ok profile
  profile_of-text_or_null none = refl
  profile_of-text_or_null (some s) = refl

  parse-IsConfiguration :
      (content : Json) {c : AgentConfiguration}
      → parse truncate is_profile content ≡ ok c
      → IsConfiguration c
  unfolding parse
  parse-IsConfiguration content {c} h =
      let (v, e₁, h₁) = bind_inverse (or_invalid (subscript "version" content)) _ h in
      let (version, e₂, h₂) = bind_inverse (int_of truncate v) _ h₁ in
      let (sample, e₃, h₃) =
        bind_inverse (default_seconds truncate is_profile "sampling" content) _ h₂ in
      let (upload, e₄, h₄) =
        bind_inverse (default_seconds truncate is_profile "upload" content) _ h₃ in
      let (n, e₅, h₅) = bind_inverse (at_least_one version) _ h₄ in
      let (a, e₆, h₆) = bind_inverse (seconds_in_bounds sample) _ h₅ in
      let (b, e₇, h₇) = bind_inverse (seconds_in_bounds upload) _ h₆ in
      let (profile, e₈, h₈) =
        bind_inverse (profile_of (subscript "vehicle_profile" content)) _ h₇ in
      let (d, e₉, last) =
        bind_inverse
          (definition_of is_profile profile (subscript "vehicle_profile_definition" content)) _
          h₈ in
      let kept : IsConfiguration (record {
        version = n;
        sample_seconds = a;
        upload_seconds = b;
        vehicle_profile = profile;
        vehicle_profile_definition = d;
      }) =
        record {
          version = at_least_one-again version e₅;
          sample = seconds_in_bounds-again sample e₆;
          upload = seconds_in_bounds-again upload e₇;
          profile = definition_of-again profile (subscript "vehicle_profile_definition" content) e₉;
        } in
      Ensures-ok IsConfiguration (ok _) kept last

  IsConfiguration-parse :
      (c : AgentConfiguration)
      → IsConfiguration c
      → parse truncate is_profile (as_server_format c) ≡ ok c
  unfolding parse as_server_format int_of get
  IsConfiguration-parse c is =
      let text = profile_of-text_or_null c.vehicle_profile in
      let version = is.version in
      let sample = is.sample in let upload = is.upload in let profile = is.profile in ground arith

  -- A configuration that the agent accepts can be read back from the file that it writes: the parser
  -- accepts what `as_server_format` makes of it, as the same configuration.
  pub parse-as_server_format :
      (content : Json) (c : AgentConfiguration)
      → parse truncate is_profile content ≡ ok c
      → parse truncate is_profile (as_server_format c) ≡ ok c
  parse-as_server_format content c h = IsConfiguration-parse c (parse-IsConfiguration content h)
