-- ===== src/Gid.antt =====
-- Gids: `generate_gid` of src/rmw_publisher.c, and src/rmw_compare_guids_equal.c.
pub mod Unique
use https_github_com_nightdu.Base.{
  ℕ, zero, suc, ◌+◌, ◌/◌, ◌%◌, ◌^◌, Bool, true, false, Option, some, [], ◌∷◌, ◌&&◌, ◌==◌,
  if◌then◌else◌,
}
use https_github_com_nightdu.Platform.{
  Bytes, RmwRet, ok, invalid_argument, incorrect_rmw_implementation,
  rmw_get_implementation_identifier, is_foreign, Gid, Env, World, Outcome, Body, next, ◌>>=◌, ◌>>◌,
  run, return, check_argument_for_null, fail_if, pure,
}

-- memset(dst, 0, n)
pub zeros : ℕ → Bytes
zeros zero = []
zeros (suc n) = 0 ∷ zeros n

-- The first bytes of a little-endian number.
pub bytes_of : ℕ → ℕ → Bytes
bytes_of zero n = []
bytes_of (suc k) n = (n % 256) ∷ bytes_of k (n / 256)

-- memcpy to the front of an array
pub overwrite : Bytes → Bytes → Bytes
overwrite [] ys = []
overwrite (x ∷ xs) [] = x ∷ xs
overwrite (x ∷ xs) (y ∷ ys) = y ∷ overwrite xs ys

-- 0 == memcmp(xs, ys, n)
pub same_bytes : ℕ → Bytes → Bytes → Bool
same_bytes (suc n) (x ∷ xs) (y ∷ ys) = x == y && same_bytes n xs ys
same_bytes _ _ _ = true

-- `sizeof(size_t)`, on a 64-bit machine.
abbrev pub size_of_size_t : ℕ
size_of_size_t = 8

module _ (env : Env) where
  pub gid_of : ℕ → Gid
  gid_of guid = record {
    implementation_identifier = rmw_get_implementation_identifier;
    storage = overwrite (zeros env.gid_storage_size) (bytes_of size_of_size_t guid);
  }

  unfoldable pub generate_gid : {R : Type 0} → Body R Gid
  generate_gid w =
      let guid = (w.dummy_guid + 1) % 2 ^ 64 in next (gid_of guid) (record w { dummy_guid = guid })

  pub rmw_compare_gids_equal :
      Option Gid → Option Gid → Option Bool → World → Outcome (RmwRet × Option Bool)
  rmw_compare_gids_equal gid1 gid2 result = run do
    g1 ← check_argument_for_null "gid1" gid1 (invalid_argument, result)
    fail_if (is_foreign g1.implementation_identifier)
        "Provided gid does not match expected implementation" (incorrect_rmw_implementation, result)
    g2 ← check_argument_for_null "gid2" gid2 (invalid_argument, result)
    fail_if (is_foreign g2.implementation_identifier)
        "Provided gid does not match expected implementation" (incorrect_rmw_implementation, result)
    _ ← check_argument_for_null "result" result (invalid_argument, result)
    if same_bytes env.gid_storage_size g1.storage g2.storage
        then pure (ok, some true)
        else pure (ok, some false)
