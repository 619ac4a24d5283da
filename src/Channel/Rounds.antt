-- ===== src/Channel/Rounds.antt =====
-- The rounds of `rmw_take_sequence`, and the buffers that they fill.
use https_github_com_nightdu.Base.{
  ℕ, zero, suc, ◌+◌, ◌≤◌, ◌<◌, ◌≡◌, refl, ap, ap₂, sym, ◌∙◌, Bool, true, false, Option, none, some,
  List, [], ◌∷◌, ◌++◌, take, drop, length, arith, get_elem?, set-length, ltb, length-append, ◌==◌,
}
use mathlib.Core.List.{append_assoc}
use https_github_com_nightdu.Platform.{Bytes, ok, is_ok, Env, World, done, Endpoint}
use https_github_com_nightdu.Channel.Receive.{answer}
use https_github_com_nightdu.Subscription.Receive.{Received, rmw_take_with_info}
use https_github_com_nightdu.Subscription.Sequence.{Progress, advance, take_rounds}

-- The buffers after messages were copied to the front of the first ones.
abbrev pub fill : ℕ → List (Option Bytes) → List Bytes → List (Option Bytes)
fill size [] ms = []
fill size (b ∷ bs) [] = b ∷ bs
fill size (none ∷ bs) (m ∷ ms) = none ∷ fill size bs ms
fill size (some b ∷ bs) (m ∷ ms) = some (take size m ++ drop size b) ∷ fill size bs ms

-- No buffer is missing, and each has room for a message.
abbrev pub AllRoom : ℕ → List (Option Bytes) → Type 0
AllRoom n [] = Unit {0}
AllRoom n (none ∷ bs) = ⊥
AllRoom n (some b ∷ bs) = (n ≤ length b) × AllRoom n bs

pub fill-nil : (size : ℕ) (bs : List (Option Bytes)) → fill size bs [] ≡ bs
fill-nil size [] = refl
fill-nil size (b ∷ bs) = refl

module _ (env : Env) (s : Endpoint) where
  -- One round, given what its take did.
  pub take_rounds-suc :
      {R : Type 0} (n : ℕ) (p : Progress) (buffer : Option Bytes) (r : Received) (w w₁ : World)
      → get_elem? p.buffers p.count ≡ some buffer
      → rmw_take_with_info env (some s) buffer (some p.flag) (some tt) w ≡ done r w₁
      → is_ok r.ret ≡ true
      → take_rounds env {R = R} (suc n) s p w ≡ take_rounds env n s (advance p r) w₁
  unfolding take_rounds
  take_rounds-suc n p buffer r w w₁ at out fine = ground arith

pub positive : (n : ℕ) → 0 < n → (0 == n) ≡ false
positive n h = ground arith

pub within : (a b : ℕ) → b ≤ a → ltb a b ≡ false
within a b h = ground arith

pub length-take-le : (n : ℕ) (ms : List Bytes) → length (take n ms) ≤ n
length-take-le zero ms = omega arith
length-take-le (suc n) [] = omega arith
length-take-le (suc n) (m ∷ ms) = omega (arith, length-take-le n ms)

pub length-snoc :
    (pre : List (Option Bytes)) (x : Option Bytes) (k : ℕ)
    → length (pre ++ x ∷ []) + k ≡ length pre + suc k
length-snoc pre x k = omega (arith, length-append {0} pre (x ∷ []))

abbrev pub progress : ℕ → Bool → List (Option Bytes) → Progress
progress k flag bs = record { ret = ok; count = k; flag = flag; buffers = bs }

pub advance-nil :
    (size : ℕ) (pre : List (Option Bytes)) (b : Bytes) (suf : List (Option Bytes)) (flag : Bool)
    → advance (progress (length pre) flag (pre ++ some b ∷ suf)) (answer size b [])
      ≡ progress (length pre) false (pre ++ some b ∷ suf)
unfolding advance
advance-nil size pre b suf flag =
    ap (progress (length pre) false) (set-length pre (some b) (some b) suf)

pub advance-cons :
    (size : ℕ) (pre : List (Option Bytes)) (b : Bytes) (suf : List (Option Bytes)) (flag : Bool)
    (m : Bytes) (ms : List Bytes)
    → let x : Option Bytes = some (take size m ++ drop size b) in
      advance (progress (length pre) flag (pre ++ some b ∷ suf)) (answer size b (m ∷ ms))
      ≡ progress (length (pre ++ x ∷ [])) true ((pre ++ x ∷ []) ++ suf)
unfolding advance
advance-cons size pre b suf flag m ms =
    let x : Option Bytes = some (take size m ++ drop size b) in
    ap₂ (λ k bs. progress k true bs) (omega (arith, length-append {0} pre (x ∷ [])))
      (set-length pre (some b) x suf ∙ sym (append_assoc pre (x ∷ []) suf))
