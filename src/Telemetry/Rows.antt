-- ===== src/Telemetry/Rows.antt =====
-- What an upload does to the table of telemetry, and which samples it acknowledges.
use vehinode.Prelude.{
  ◌≡◌, refl, arith, Bool, true, false, not, ◌&&◌, ◌||◌, List, [], ◌∷◌, ◌++◌, map, elem, distinct,
  ◌==◌, ==_iff, elem-append, ◌+◌, length, length-append, if◌then◌else◌, Bool-cases, inl, inr,
}
use mathlib.Core.List.{append-nil, append_assoc}
use vehinode.Prelude.Table.{
  select, any, any-append, find, find-append, find-none_of_any, is_some-find,
}
use vehinode.Prelude.Table.Keys.{UniqueBy, UniqueBy-add}
use vehinode.Models.{Key, Telemetry, Device, Instant}
use vehinode.Telemetry.{
  TelemetrySample, TelemetryBatch, Progress, store_sample, store_samples, sample_ids,
  telemetry_model, batch_models,
}

abbrev pub row_ids : List Telemetry → List Key
row_ids rows = map (λ (t : Telemetry). t.id) rows

abbrev pub has_row : Key → List Telemetry → Bool
has_row k rows = any (λ (t : Telemetry). t.id == k) rows

pub has_row-store_samples :
    (k : Key) (ts : List Telemetry) (p : Progress)
    → has_row k (store_samples ts p).db.telemetry
      ≡ (has_row k p.db.telemetry || elem k (row_ids ts))
unfolding store_samples store_sample any
has_row-store_samples k [] p = ground arith
has_row-store_samples k (t ∷ ts) p = ground (
  arith,
  has_row-store_samples k ts (store_sample t p),
  any-append (λ (t : Telemetry). t.id == k) p.db.telemetry (t ∷ []),
  ==_iff t.id k,
)

-- The samples that are answered as accepted and as duplicates.
pub accepted-store_samples :
    (k : Key) (ts : List Telemetry) (p : Progress)
    → distinct (row_ids ts) ≡ true
    → elem k (store_samples ts p).result.accepted
      ≡ (elem k p.result.accepted || elem k (row_ids ts) && not (has_row k p.db.telemetry))
unfolding store_samples store_sample any
accepted-store_samples k [] p d = ground arith
accepted-store_samples k (t ∷ ts) p d = ground (
  arith,
  accepted-store_samples k ts (store_sample t p),
  any-append (λ (t : Telemetry). t.id == k) p.db.telemetry (t ∷ []),
  elem-append k p.result.accepted (t.id ∷ []),
  ==_iff t.id k,
)

pub duplicates-store_samples :
    (k : Key) (ts : List Telemetry) (p : Progress)
    → distinct (row_ids ts) ≡ true
    → elem k (store_samples ts p).result.duplicates
      ≡ (elem k p.result.duplicates || elem k (row_ids ts) && has_row k p.db.telemetry)
unfolding store_samples store_sample any
duplicates-store_samples k [] p d = ground arith
duplicates-store_samples k (t ∷ ts) p d = ground (
  arith,
  duplicates-store_samples k ts (store_sample t p),
  any-append (λ (t : Telemetry). t.id == k) p.db.telemetry (t ∷ []),
  elem-append k p.result.duplicates (t.id ∷ []),
  ==_iff t.id k,
)

pub length-store_samples :
    (ts : List Telemetry) (p : Progress)
    → length (store_samples ts p).result.accepted + length (store_samples ts p).result.duplicates
      ≡ length p.result.accepted + length p.result.duplicates + length ts
unfolding store_samples store_sample
length-store_samples [] p = ground arith
length-store_samples (t ∷ ts) p = ground (
  arith,
  length-store_samples ts (store_sample t p),
  length-append p.result.accepted (t.id ∷ []),
  length-append p.result.duplicates (t.id ∷ []),
)

UniqueBy-store_sample :
    (t : Telemetry) (p : Progress)
    → UniqueBy (λ (t : Telemetry). t.id) p.db.telemetry
    → UniqueBy (λ (t : Telemetry). t.id) (store_sample t p).db.telemetry
unfolding store_sample
UniqueBy-store_sample t p u = elim (Bool-cases (has_row t.id p.db.telemetry)) [
  | inl taken ↦ rw taken u
  | inr free ↦ rw free (UniqueBy-add (λ (t : Telemetry). t.id) p.db.telemetry t free u)
]

pub UniqueBy-store_samples :
    (ts : List Telemetry) (p : Progress)
    → UniqueBy (λ (t : Telemetry). t.id) p.db.telemetry
    → UniqueBy (λ (t : Telemetry). t.id) (store_samples ts p).db.telemetry
unfolding store_samples
UniqueBy-store_samples [] p u = u
UniqueBy-store_samples (t ∷ ts) p u =
    UniqueBy-store_samples ts (store_sample t p) (UniqueBy-store_sample t p u)

-- The rows that were there before are the rows that are found after.
pub find-store_samples :
    (k : Key) (ts : List Telemetry) (p : Progress)
    → find (λ (t : Telemetry). t.id == k) (store_samples ts p).db.telemetry ≡ (
        if has_row k p.db.telemetry
        then find (λ (t : Telemetry). t.id == k) p.db.telemetry
        else find (λ (t : Telemetry). t.id == k) ts)
unfolding store_samples store_sample any find
find-store_samples k [] p =
    ground (arith, find-none_of_any (λ (t : Telemetry). t.id == k) p.db.telemetry)
find-store_samples k (t ∷ ts) p = ground (
  arith,
  find-store_samples k ts (store_sample t p),
  find-append (λ (t : Telemetry). t.id == k) p.db.telemetry (t ∷ []),
  any-append (λ (t : Telemetry). t.id == k) p.db.telemetry (t ∷ []),
  is_some-find (λ (t : Telemetry). t.id == k) p.db.telemetry,
  ==_iff t.id k,
)

row_ids-models :
    (device : Device) (now : Instant) (boot_id : Key) (ss : List TelemetrySample)
    → row_ids (map (telemetry_model device boot_id now) ss) ≡ sample_ids ss
unfolding telemetry_model
row_ids-models device now boot_id [] = refl
row_ids-models device now boot_id (s ∷ ss) = ground (arith, row_ids-models device now boot_id ss)

-- The rows of an upload have the identifiers of its samples.
pub row_ids-batch_models :
    (device : Device) (now : Instant) (batch : TelemetryBatch)
    → row_ids (batch_models device now batch) ≡ sample_ids batch.samples
row_ids-batch_models device now batch = row_ids-models device now batch.boot_id batch.samples

select_new_ext :
    (t : Telemetry) (rows ts : List Telemetry)
    → elem t.id (row_ids ts) ≡ false
    → select (λ (u : Telemetry). not (has_row u.id (rows ++ t ∷ []))) ts
      ≡ select (λ (u : Telemetry). not (has_row u.id rows)) ts
unfolding select any
select_new_ext t rows [] h = refl
select_new_ext t rows (u ∷ us) h = ground (
  arith,
  select_new_ext t rows us,
  any-append (λ (x : Telemetry). x.id == u.id) rows (t ∷ []),
  ==_iff u.id t.id,
  ==_iff t.id u.id,
)

-- The rows that the loop stores are those whose identifier was not taken.
pub stored-store_samples :
    (ts : List Telemetry) (p : Progress)
    → distinct (row_ids ts) ≡ true
    → (store_samples ts p).stored
      ≡ p.stored ++ select (λ (t : Telemetry). not (has_row t.id p.db.telemetry)) ts
unfolding store_samples store_sample select
stored-store_samples [] p d = ground (arith, append-nil p.stored)
stored-store_samples (t ∷ ts) p d = ground (
  arith,
  stored-store_samples ts (store_sample t p),
  select_new_ext t p.db.telemetry ts,
  append_assoc p.stored (t ∷ []) (select (λ (t : Telemetry). not (has_row t.id p.db.telemetry)) ts),
)
