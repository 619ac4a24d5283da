-- ===== src/Subscription/Sequence.antt =====
-- `rmw_take_sequence` of src/rmw_subscription.c.
use https_github_com_nightdu.Base.{
  ℕ, zero, suc, ◌+◌, Bool, true, false, Option, none, some, List, get_elem?, set, ltb, ◌==◌,
  if◌then◌else◌,
}
use https_github_com_nightdu.Platform.{
  Bytes, RmwRet, ok, invalid_argument, incorrect_rmw_implementation, is_ok, is_foreign, Endpoint,
  Env, World, Outcome, faulted, Body, ◌>>=◌, ◌>>◌, run, call, check_argument_for_null, return_if,
  fail_if, pure,
}
use https_github_com_nightdu.Subscription.Receive.{Received, rmw_take_with_info}

-- `rmw_message_sequence_t`: pointers to message buffers, which may be NULL; `buffers` is `data`.
pub record MessageSequence : Type 0 where
  pub buffers : List (Option Bytes)
  pub size : ℕ
  pub capacity : ℕ

-- `rmw_message_info_sequence_t`; its elements are never written.
pub record InfoSequence : Type 0 where
  pub size : ℕ
  pub capacity : ℕ

pub record SequenceTaken : Type 0 where
  pub ret : RmwRet
  pub messages : Option MessageSequence
  pub infos : Option InfoSequence
  pub taken : Option ℕ

-- The variables of the loop.
pub record Progress : Type 0 where
  pub ret : RmwRet
  pub count : ℕ
  pub flag : Bool
  pub buffers : List (Option Bytes)

abbrev flag_or : Bool → Option Bool → Bool
flag_or b none = b
flag_or b (some c) = c

-- What one round leaves behind, given what its take did.
unfoldable pub advance : Progress → Received → Progress
advance p r =
    let flag = flag_or p.flag r.taken in
    if is_ok r.ret
    then record {
      ret = r.ret;
      count = if flag then p.count + 1 else p.count;
      flag = flag;
      buffers = set p.buffers p.count r.message;
    }
    else record p { ret = r.ret; flag = flag }

module _ (env : Env) where
  -- The rounds that are left. `data[*taken]` beyond the array is a fault, and a take that fails
  -- ends the loop.
  unfoldable pub take_rounds : {R : Type 0} → ℕ → Endpoint → Progress → Body R Progress
  unfolding advance
  take_rounds zero s p = pure p
  take_rounds (suc n) s p = elim (get_elem? p.buffers p.count) [
    | none ↦ λ w. faulted
    | some buffer ↦ do
      r ← call (rmw_take_with_info env (some s) buffer (some p.flag) (some tt))
      elim (is_ok r.ret) [ false ↦ pure (advance p r) | true ↦ take_rounds n s (advance p r) ]
  ]

  unfoldable pub rmw_take_sequence :
      Option Endpoint
      → ℕ
      → Option MessageSequence
      → Option InfoSequence
      → Option ℕ
      → World
      → Outcome SequenceTaken
  unfolding take_rounds
  rmw_take_sequence subscription count message_sequence message_info_sequence taken = run do
    let fail : RmwRet → SequenceTaken = λ r. record {
      ret = r;
      messages = message_sequence;
      infos = message_info_sequence;
      taken = taken;
    }
    s ← check_argument_for_null "subscription" subscription (fail invalid_argument)
    messages ← check_argument_for_null "message_sequence" message_sequence (fail invalid_argument)
    infos ←
        check_argument_for_null "message_info_sequence" message_info_sequence
          (fail invalid_argument)
    _ ← check_argument_for_null "taken" taken (fail invalid_argument)
    return_if (is_foreign s.implementation_identifier) (fail incorrect_rmw_implementation)
    fail_if (0 == count) "count cannot be 0" (fail invalid_argument)
    fail_if (ltb messages.capacity count) "Insufficient capacity in message_sequence"
        (fail invalid_argument)
    fail_if (ltb infos.capacity count) "Insufficient capacity in message_info_sequence"
        (fail invalid_argument)
    let start : Progress = record { ret = ok; count = 0; flag = false; buffers = messages.buffers }
    p ← take_rounds count s start
    pure (record {
      ret = p.ret;
      messages = some (record messages { buffers = p.buffers; size = p.count });
      infos = some (record infos { size = p.count });
      taken = some p.count;
    })
