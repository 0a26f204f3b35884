-- ===== src/PpHashpool/Hashing.antt =====
-- pp_hashpool.cpp: a round of hash_thd_main in whole, when no other thread runs.
use epic_poold.Base.{ℕ, true, false, Option, none, some, List, [], ◌∷◌, ◌==◌, if◌then◌else◌}
use epic_poold.Vector32.{V32, all_ones}
use epic_poold.Client.{CheckJob}
use epic_poold.PpHashpool.{Dataset}

-- What the code uses of ethash and progpow; a context may be a null pointer.
pub record Ethash : Type 0 where
  pub get_epoch_number : ℕ → ℕ
  pub keccak256 : List ℕ → V32
  pub progpow_hash : Option ℕ → ℕ → V32 → ℕ → V32

unfoldable pub find_ready : List Dataset → ℕ → Option Dataset
find_ready [] epoch = none
find_ready (nds ∷ ds) epoch =
    let later = find_ready ds epoch in if nds.ready_epoch == epoch then some nds else later

unfoldable pub hash_job : Ethash → List Dataset → List ℕ → ℕ → ℕ → CheckJob
unfolding find_ready
hash_job ethash ds blob block_number nonce =
    let job_epoch_number = ethash.get_epoch_number block_number in
    elim (find_ready ds job_epoch_number) [
      | none ↦ record { hash = all_ones; error = true }
      | some nds ↦
          if nds.ready_epoch == job_epoch_number
          then record {
            hash = ethash.progpow_hash nds.dataset_ptr block_number (ethash.keccak256 blob) nonce;
            error = false;
          }
          else record { hash = all_ones; error = true }
    ]
