-- ===== src/Gc.antt =====
-- binary/src/gc.rs: the sweep that removes stored blobs to which no email refers any more. The name
-- of the store's backend and the grace period are arguments. The loop of `run` around it is not
-- modelled: it sleeps, and stops when it is cancelled.
pub mod Sweep
pub mod InUse
use catapulte.Common.{
  ℕ, String, List, [], ◌∷◌, Bool, true, false, ◌||◌, Result, ok, err, str_eq, if◌then◌else◌,
}
use catapulte.Entity.{AnyError, BlobRef}
use catapulte.Port.Types.{EmailRepositoryError}
use catapulte.Port.Call.{
  Exec, Oracle, ask, ret, ◌>>=◌, ◌>>◌, delete_blob, is_cancelled, list_all_attachment_blobs,
  list_keys_older_than,
}

pub data SweepError : Type 0 where
  repository : EmailRepositoryError → SweepError
  listing : AnyError → SweepError

-- The keys that are in use in the backend.
unfoldable pub live_keys : String → List BlobRef → List String
live_keys backend [] = []
live_keys backend (b ∷ bs) =
    let rest = live_keys backend bs in if str_eq b.backend backend then b.key ∷ rest else rest

unfoldable pub contains : String → List String → Bool
contains key [] = false
contains key (k ∷ ks) = str_eq k key || contains key ks

abbrev pub blob_of : String → String → BlobRef
blob_of backend key = record { backend = backend; key = key }

module _ (o : Oracle) where
  -- The loop over the keys of the store. A deletion that fails is logged.
  unfoldable pub sweep_keys : String → List String → List String → Exec (Unit {0})
  sweep_keys backend live [] = ret tt
  sweep_keys backend live (key ∷ rest) = do
    stop ← ask o is_cancelled
    elim stop [
      | true ↦ ret tt
      | false ↦ elim (contains key live) [
        | true ↦ sweep_keys backend live rest
        | false ↦ do ask o (delete_blob (blob_of backend key)); sweep_keys backend live rest
      ]
    ]

  -- What follows the first listing.
  unfoldable pub sweep_store : String → ℕ → List BlobRef → Exec (Result (Unit {0}) SweepError)
  sweep_store backend grace_period live_blobs = do
    on_disk ← ask o (list_keys_older_than grace_period)
    elim on_disk [
      | err e ↦ ret (err (listing e))
      | ok keys ↦ do sweep_keys backend (live_keys backend live_blobs) keys; ret (ok tt)
    ]

  unfoldable pub sweep_once : String → ℕ → Exec (Result (Unit {0}) SweepError)
  sweep_once backend grace_period = do
    stop ← ask o is_cancelled
    elim stop [
      | true ↦ ret (ok tt)
      | false ↦ do
        in_use ← ask o list_all_attachment_blobs
        elim in_use [
          | err e ↦ ret (err (repository e))
          | ok live_blobs ↦ sweep_store backend grace_period live_blobs
        ]
    ]
