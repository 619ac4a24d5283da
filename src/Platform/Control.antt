-- ===== src/Platform/Control.antt =====
-- A C body with early returns: a step returns from the function, goes on with a value, or reads
-- through a null pointer.
use https_github_com_nightdu.Base.{
  ℕ, length, leb, if◌then◌else◌, zero, suc, Bool, true, false, String, Option, none, some,
}
use https_github_com_nightdu.Platform.Types.{Ptr, Bytes}
use https_github_com_nightdu.Platform.Trace.{Call, World, log, null_argument, error_set}

pub data Outcome (A : Type 0) : Type 0 where
  done : A → World → Outcome A
  fault : Outcome A

-- What holds of a function's end, if it ends.
abbrev pub Ends : {A : Type 0} → (A → World → Type 0) → Outcome A → Type 0
Ends P (done r w) = P r w
Ends P fault = Unit {0}

pub data Run (R A : Type 0) : Type 0 where
  returned : R → World → Run R A
  next : A → World → Run R A
  faulted : Run R A

abbrev pub Body : Type 0 → Type 0 → Type 0
Body R A = World → Run R A

abbrev pub pure : {R A : Type 0} → A → Body R A
pure a w = next a w

abbrev pub return : {R A : Type 0} → R → Body R A
return r w = returned r w

module _ {R A B : Type 0} where
  abbrev pub and_then : Run R A → (A → Body R B) → Run R B
  and_then (returned r w) k = returned r w
  and_then (next a w) k = k a w
  and_then faulted k = faulted

  infixl 5 ◌>>=◌ ◌>>◌
  abbrev pub ◌>>=◌ : Body R A → (A → Body R B) → Body R B
  m >>= k = λ w. and_then (m w) k

  abbrev pub ◌>>◌ : Body R A → Body R B → Body R B
  m >> n = m >>= λ _. n

-- The end of a body: its last value is what the function returns.
abbrev pub finish : {R : Type 0} → Run R R → Outcome R
finish (returned r w) = done r w
finish (next r w) = done r w
finish faulted = fault

abbrev pub run : {R : Type 0} → Body R R → World → Outcome R
run m w = finish (m w)

-- A call of a function of this repository.
abbrev resume : {R A : Type 0} → Outcome A → Run R A
resume (done a w) = next a w
resume fault = faulted

abbrev pub call : {R A : Type 0} → (World → Outcome A) → Body R A
call f w = resume (f w)

module _ {R : Type 0} where
  abbrev pub tell : Call → Body R (Unit {0})
  tell c w = next tt (log c w)

  -- RMW_SET_ERROR_MSG
  abbrev pub set_error : String → Body R (Unit {0})
  set_error message = tell (error_set message)

  -- RCUTILS_CHECK_ARGUMENT_FOR_NULL(argument, r)
  abbrev pub check_argument_for_null : {A : Type 0} → String → Option A → R → Body R A
  check_argument_for_null name none r w = returned r (log (null_argument name) w)
  check_argument_for_null name (some a) r w = next a w

  -- if (test) { return r; }
  abbrev pub return_if : Bool → R → Body R (Unit {0})
  return_if true r w = returned r w
  return_if false r w = next tt w

  -- if (test) { RMW_SET_ERROR_MSG(message); return r; }
  abbrev pub fail_if : Bool → String → R → Body R (Unit {0})
  fail_if true message r w = returned r (log (error_set message) w)
  fail_if false message r w = next tt w

  -- memcpy of `size` bytes from or to an object: a fault if the object is smaller.
  abbrev pub in_bounds : ℕ → Bytes → Body R (Unit {0})
  in_bounds size bytes w = if leb size (length bytes) then next tt w else faulted

  -- A write of `n` entries to an array with room for `m`: a fault if these are fewer.
  abbrev pub room_for : ℕ → ℕ → Body R (Unit {0})
  room_for n m w = if leb n m then next tt w else faulted

  -- `check_argument_for_null` for an argument that is passed on as an address.
  abbrev pub check_pointer_for_null : String → Ptr → R → Body R (Unit {0})
  check_pointer_for_null name zero r w = returned r (log (null_argument name) w)
  check_pointer_for_null name (suc p) r w = next tt w
