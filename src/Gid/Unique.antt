-- ===== src/Gid/Unique.antt =====
-- Distinct gids.
use native.Mathlib.Nat.{pow-suc}
use https_github_com_nightdu.Base.{
  ℕ, zero, suc, ◌+◌, ◌/◌, ◌%◌, ◌^◌, ◌≤◌, ◌<◌, ◌≡◌, refl, Bool, true, false, Option, some, ◌==◌,
  if◌then◌else◌, arith, ◌&&◌, ap, ◌∙◌, [],
}
use https_github_com_nightdu.Platform.{
  null_identifier, RmwRet, ok, Gid, Env, World, done, Run, next, finish, pure,
}
use https_github_com_nightdu.Gid.{
  zeros, bytes_of, overwrite, same_bytes, size_of_size_t, gid_of, generate_gid,
  rmw_compare_gids_equal,
}

digit_eq :
    (k a b : ℕ)
    → a < 256 ^ suc k
    → b < 256 ^ suc k
    → (a % 256 == b % 256 && a / 256 == b / 256) ≡ (a == b)
digit_eq k a b ha hb = ground arith

same_bytes-zeros : (n : ℕ) → same_bytes n (zeros n) (zeros n) ≡ true
unfolding same_bytes zeros
same_bytes-zeros zero = refl
same_bytes-zeros (suc n) = same_bytes-zeros n

-- Comparing the stored digits compares the numbers.
same_bytes-overwrite :
    (n k a b : ℕ)
    → k ≤ n
    → a < 256 ^ k
    → b < 256 ^ k
    → same_bytes n (overwrite (zeros n) (bytes_of k a)) (overwrite (zeros n) (bytes_of k b))
      ≡ (a == b)
unfolding same_bytes overwrite zeros bytes_of
same_bytes-overwrite zero zero a b h ha hb = ground arith
same_bytes-overwrite zero (suc k) a b h ha hb = absurd (omega arith)
same_bytes-overwrite (suc n) zero a b h ha hb = ground (arith, same_bytes-zeros n)
same_bytes-overwrite (suc n) (suc k) a b h ha hb =
    let low =
      same_bytes-overwrite n k (a / 256) (b / 256) (omega arith) (grind (arith, pow-suc))
        (grind (arith, pow-suc)) in
    rw low (digit_eq k a b ha hb)

-- The gid and the world that a step goes on with, and those given if it does not.
abbrev gid_or : Gid → Run Gid Gid → Gid
gid_or g (next h w) = h
gid_or g _ = g

abbrev after : Run Gid Gid → World → World
after (next g w') w = w'
after _ w = w

-- The gid that `generate_gid` gives after `n` others.
pub nth_gid : Env → ℕ → World → Gid
nth_gid env zero w =
    gid_or (record { implementation_identifier = null_identifier; storage = [] })
      (generate_gid env {R = Gid} w)
nth_gid env (suc n) w = nth_gid env n (after (generate_gid env {R = Gid} w) w)

pub nth_gid-zero :
    (env : Env) (w : World) → nth_gid env 0 w ≡ gid_of env ((w.dummy_guid + 1) % 2 ^ 64)
unfolding nth_gid generate_gid
nth_gid-zero env w = refl

pub nth_gid-counter :
    (env : Env) (n : ℕ) (w : World) → nth_gid env n w ≡ gid_of env ((w.dummy_guid + n + 1) % 2 ^ 64)
unfolding nth_gid generate_gid
nth_gid-counter env zero w = ap (gid_of env) (omega arith)
nth_gid-counter env (suc n) w =
    nth_gid-counter env n (record w { dummy_guid = (w.dummy_guid + 1) % 2 ^ 64 })
    ∙ ap (gid_of env) (omega arith)

counters_eq :
    (d m n : ℕ)
    → m < 2 ^ 64
    → n < 2 ^ 64
    → ((d + m + 1) % 2 ^ 64 == (d + n + 1) % 2 ^ 64) ≡ (m == n)
counters_eq d m n hm hn = ground arith

-- Of the gids that one process generates in a row, at most 2^64 of them, any two compare as equal
-- exactly when they are the same one, whatever value the counter started from, provided that a gid
-- has room for a size_t.
pub rmw_compare_gids_equal-generate_gid :
    (env : Env) (w v : World) (m n : ℕ) (r : Bool)
    → size_of_size_t ≤ env.gid_storage_size
    → m < 2 ^ 64
    → n < 2 ^ 64
    → rmw_compare_gids_equal env (some (nth_gid env m w)) (some (nth_gid env n w)) (some r) v
      ≡ done (ok, some (m == n)) v
unfolding rmw_compare_gids_equal gid_of
rmw_compare_gids_equal-generate_gid env w v m n r room hm hn =
    rw
      (nth_gid-counter env m w, nth_gid-counter env n w, stored, counters_eq w.dummy_guid m n hm hn)
      (both (m == n))
  where
    stored :
        same_bytes env.gid_storage_size
          (overwrite (zeros env.gid_storage_size) (bytes_of 8 ((w.dummy_guid + m + 1) % 2 ^ 64)))
          (overwrite (zeros env.gid_storage_size) (bytes_of 8 ((w.dummy_guid + n + 1) % 2 ^ 64)))
        ≡ ((w.dummy_guid + m + 1) % 2 ^ 64 == (w.dummy_guid + n + 1) % 2 ^ 64)
    stored =
        same_bytes-overwrite env.gid_storage_size 8 ((w.dummy_guid + m + 1) % 2 ^ 64)
          ((w.dummy_guid + n + 1) % 2 ^ 64) room (omega arith) (omega arith)

    both :
        (b : Bool)
        → finish (
            (if b then pure {R = RmwRet × Option Bool} (ok, some true) else pure (ok, some false))
              v)
          ≡ done (ok, some b) v
    both true = refl
    both false = refl
