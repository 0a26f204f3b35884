-- ===== src/Node/Values.antt =====
-- node.cpp: what a job is read from, value by value, without effects.
use epic_poold.Base.{
  ℕ, ◌+◌, ◌/◌, ◌%◌, true, false, not, none, some, List, [], ◌∷◌, ◌++◌, ltb, leb, if◌then◌else◌,
  length, take, drop, replicate, codes, c_string, same_text,
}
use epic_poold.Codec.{hex2bin}
use epic_poold.Vector32.{V32}
use epic_poold.Client.{PowType, randomx, progpow, cuckoo, JobData}
use epic_poold.Rpc.{
  Try, ok, thrown, fault, ◌>>=◌, JsonValues, reads_as, get_array_of, at, get_json_string,
  get_object_member_t, get_array, get_string, get_uint64, get_uint,
}
use epic_poold.Node.{prepow_room}

unfoldable pub pow_type_of : List ℕ → Try PowType
pow_type_of algo =
    if reads_as algo (codes "randomx")
    then ok randomx
    else if reads_as algo (codes "progpow")
    then ok progpow
    else if reads_as algo (codes "cuckoo")
    then ok cuckoo
    else thrown

-- A text into the new job: the bytes that it spells, with 8 zeros behind them. A read or a write
-- outside of the text or the array is a fault.
unfoldable pub store_prepow : List ℕ → JobData → Try Unit × JobData
store_prepow text job =
    if ltb prepow_room (length text / 2)
    then (thrown, job)
    else elim (hex2bin (text ++ 0 ∷ []) (length text) job.prepow) [
      | none ↦ (fault, job)
      | some (false, bytes) ↦ (thrown, record job { prepow = bytes })
      | some (true, bytes) ↦ (
        ok tt,
        record job {
          prepow =
              take (length text / 2) bytes ++ (replicate 8 0 ++ drop (length text / 2 + 8) bytes);
          prepow_len = length text / 2 + 8;
        },
      )
    ]

module _ {V : Type 0} (json : JsonValues V) where
  unfoldable pub bytes_of : List V → Try (List ℕ)
  bytes_of [] = ok []
  bytes_of (entry ∷ entries) = do
    v ← get_uint json entry
    let rest = bytes_of entries
    if leb 256 v then thrown else do bytes ← rest; ok (v % 256 ∷ bytes)

  -- IntArrayToVector.
  unfoldable pub int_array_to_vector : V → Try V32
  unfolding bytes_of
  int_array_to_vector arr_v = do
    arr ← get_array_of json arr_v 32
    bytes ← bytes_of arr
    ok (record { bytes = bytes })

  -- The loop over the difficulties; `block_diff` is what the variable holds so far.
  unfoldable pub block_diff_of : List ℕ → List V → ℕ → Try ℕ
  block_diff_of algo [] block_diff = ok block_diff
  block_diff_of algo (v ∷ entries) block_diff = do
    a ← get_array_of json v 2
    first ← at json a 0
    name ← get_string json first
    let unchanged = block_diff_of algo entries block_diff
    if not (same_text (c_string name) (c_string algo)) then unchanged else do
      second ← at json a 1
      listed ← get_uint64 json second
      block_diff_of algo entries listed

  -- The bounds of an epoch, and the value of its seed.
  unfoldable pub epoch_bounds : V → Try (ℕ × ℕ × V)
  epoch_bounds epoch = do
    epoch_data ← get_array_of json epoch 3
    first ← at json epoch_data 0
    real_start ← get_uint json first
    second ← at json epoch_data 1
    real_end ← get_uint json second
    third ← at json epoch_data 2
    ok (real_start, real_end, third)

  -- A job up to its difficulty; `garbage` is what the uninitialised block_diff holds.
  unfoldable pub job_head : ℕ → V → Try (PowType × ℕ)
  unfolding pow_type_of block_diff_of
  job_head garbage res = do
    algo ← get_json_string json res (codes "algorithm")
    job_type ← pow_type_of algo
    member ← get_object_member_t json res (codes "block_difficulty")
    entries ← get_array json member
    block_diff ← block_diff_of algo entries garbage
    ok (job_type, block_diff)
