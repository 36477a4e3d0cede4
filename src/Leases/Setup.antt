-- ===== src/Leases/Setup.antt =====
-- setupRange of plugin.go.
use oooi.Prelude.{
  ℕ, String, List, [], ◌∷◌, Option, none, some, Outcome, ok, err, ◌>>=◌, length, leb, ◌===◌,
  if◌then◌else◌,
}
use oooi.Prelude.Assoc.{Assoc}
use oooi.Leases.Host.{Host}
use oooi.Leases.State.{Record, PluginState}
use oooi.Leases.Storage.{StorageError, LoadError, load_records, register_backing_db}

pub data SetupError : Type 0 where
  invalid_number_of_arguments : ℕ → SetupError
  empty_file_name range_order no_allocator : SetupError
  invalid_ipv4_address invalid_lease_duration : String → SetupError
  lease_storage : StorageError → SetupError
  loading : LoadError → SetupError
  reallocation_failed : ℕ → SetupError
  not_reallocated : ℕ → ℕ → SetupError

abbrev or_fail {ℓ} : {A : Type ℓ} → Option A → SetupError → Outcome SetupError A
or_fail none e = err e
or_fail (some a) e = ok a

abbrev blame {ℓ κ} :
    {A : Type ℓ} {E : Type κ} → (E → SetupError) → Outcome E A → Outcome SetupError A
blame f (ok a) = ok a
blame f (err e) = err (f e)

module _ (h : Host) where
  -- The address that the allocator gives for a loaded record has to be the record's own.
  unfoldable pub check_same : ℕ → Option ℕ × h.Pool → Outcome SetupError h.Pool
  check_same want (none, pool) = err (reallocation_failed want)
  check_same want (some got, pool) =
      if h.ip_string got === h.ip_string want then ok pool else err (not_reallocated want got)

  -- The loop over the loaded records. Go goes over a map in any order: the order of the list.
  unfoldable pub reallocate : Assoc Record → h.Pool → Outcome SetupError h.Pool
  unfolding check_same
  reallocate [] pool = ok pool
  reallocate ((mac, r) ∷ rest) pool = do
    pool' ← check_same r.ip (h.allocate (some r.ip) pool)
    reallocate rest pool'

  unfoldable pub setup_with : String → ℕ → ℕ → String → Outcome SetupError (PluginState h)
  setup_with filename start end lease = do
    pool ← or_fail (h.create start end) no_allocator
    lease_time ← or_fail (h.parse_duration lease) (invalid_lease_duration lease)
    db ← blame lease_storage (register_backing_db h none filename)
    records ← blame loading (load_records h db)
    pool' ← reallocate records pool
    ok (record { records_v4 = records; lease_time = lease_time; leasedb = db; allocator = pool' })

  unfoldable pub setup_args : String → String → String → String → Outcome SetupError (PluginState h)
  unfolding setup_with
  setup_args filename first last lease = if filename === "" then err empty_file_name else do
    start ← or_fail (h.parse_ip4 first) (invalid_ipv4_address first)
    end ← or_fail (h.parse_ip4 last) (invalid_ipv4_address last)
    if leb end start then err range_order else setup_with filename start end lease

  unfoldable pub setup_range : List String → Outcome SetupError (PluginState h)
  unfolding setup_args
  setup_range (filename ∷ first ∷ last ∷ lease ∷ more) = setup_args filename first last lease
  setup_range args = err (invalid_number_of_arguments (length args))
