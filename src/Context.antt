-- ===== src/Context.antt =====
-- The life of a context: src/rmw_init.c. The cuInit call, which only builds with CUDA make, is left
-- out.
pub mod Lifecycle
pub mod Transitions
pub mod Copies
use https_github_com_nightdu.Base.{
  ℕ, ◌-◌, ◌^◌, Bool, true, false, not, Option, none, some, is_some, ◌==◌, ◌&&◌, if◌then◌else◌,
}
use https_github_com_nightdu.Platform.{
  RmwRet, ok, bad_alloc, invalid_argument, incorrect_rmw_implementation, is_ok, Identifier,
  rmw_get_implementation_identifier, is_foreign, is_null_identifier, Allocator,
  localhost_only_enabled, InitOptions, Context, CString, return, text_deallocated, Env, World,
  Outcome, Body, ◌>>=◌, ◌>>◌, run, call, tell, check_argument_for_null, return_if, fail_if, pure,
  rcutils_strdup, rmw_security_options_copy, rmw_security_options_fini, hazcat_init, hazcat_fini,
  Ptr,
}

-- (void *)-1, in a 64-bit machine.
abbrev pub all_ones : Ptr
all_ones = 2 ^ 64 - 1

module _ (env : Env) where
  unfoldable pub rmw_init_options_init :
      Option InitOptions → Allocator → World → Outcome (RmwRet × Option InitOptions)
  rmw_init_options_init init_options allocator = run do
    let fail : RmwRet → RmwRet × Option InitOptions = λ r. (r, init_options)
    o ← check_argument_for_null "init_options" init_options (fail invalid_argument)
    return_if (not allocator.is_valid) (fail invalid_argument)
    fail_if (not (is_null_identifier o.implementation_identifier))
        "expected zero-initialized init_options" (fail invalid_argument)
    pure (
      ok,
      some (record {
        instance_id = 0;
        implementation_identifier = rmw_get_implementation_identifier;
        allocator = allocator;
        impl = 0;
        security_options = env.default_security;
        domain_id = env.default_domain_id;
        localhost_only = localhost_only_enabled;
        enclave = none;
      }),
    )

  unfoldable pub rmw_init_options_copy :
      Option InitOptions → Option InitOptions → World → Outcome (RmwRet × Option InitOptions)
  rmw_init_options_copy src dst = run do
    let fail : RmwRet → RmwRet × Option InitOptions = λ r. (r, dst)
    s ← check_argument_for_null "src" src (fail invalid_argument)
    d ← check_argument_for_null "dst" dst (fail invalid_argument)
    fail_if (is_null_identifier s.implementation_identifier) "expected initialized src"
        (fail invalid_argument)
    return_if (is_foreign s.implementation_identifier) (fail incorrect_rmw_implementation)
    fail_if (not (is_null_identifier d.implementation_identifier)) "expected zero-initialized dst"
        (fail invalid_argument)
    return_if (not s.allocator.is_valid) (fail invalid_argument)
    enclave ← rcutils_strdup env s.enclave
    return_if (is_some s.enclave && not (is_some enclave)) (fail bad_alloc)
    copied ← rmw_security_options_copy env s.security_options
    drop_enclave (not (is_ok copied.0)) enclave (fail copied.0)
    pure (ok, some (record s { enclave = enclave; security_options = copied.1 }))
    where
      drop_enclave :
          Bool
          → Option CString
          → RmwRet × Option InitOptions
          → Body (RmwRet × Option InitOptions) (Unit {0})
      drop_enclave failed enclave r =
          if failed then tell (text_deallocated enclave) >> return r else pure tt

  unfoldable pub rmw_init_options_fini :
      Option InitOptions → World → Outcome (RmwRet × Option InitOptions)
  rmw_init_options_fini init_options = run do
    let fail : RmwRet → RmwRet × Option InitOptions = λ r. (r, init_options)
    o ← check_argument_for_null "init_options" init_options (fail invalid_argument)
    return_if (not o.allocator.is_valid) (fail invalid_argument)
    fail_if (is_null_identifier o.implementation_identifier) "expected initialized init_options"
        (fail invalid_argument)
    return_if (is_foreign o.implementation_identifier) (fail incorrect_rmw_implementation)
    return_if (not o.allocator.is_valid) (fail invalid_argument)
    tell (text_deallocated o.enclave)
    ret ← rmw_security_options_fini env o.security_options
    pure (ret, some env.zero_init_options)

  abbrev options_of : Option InitOptions → InitOptions → InitOptions
  options_of none o = o
  options_of (some o') o = o'

  -- The context is written before the options are copied, so a failure leaves it changed.
  unfoldable pub rmw_init :
      Option InitOptions → Option Context → World → Outcome (RmwRet × Option Context)
  unfolding rmw_init_options_copy
  rmw_init options context = run do
    let fail : RmwRet → RmwRet × Option Context = λ r. (r, context)
    o ← check_argument_for_null "options" options (fail invalid_argument)
    c ← check_argument_for_null "context" context (fail invalid_argument)
    fail_if (is_null_identifier o.implementation_identifier) "expected initialized init options"
        (fail invalid_argument)
    fail_if (not (is_some o.enclave)) "expected non-null enclave" (fail invalid_argument)
    fail_if (not (is_null_identifier c.implementation_identifier))
        "expected a zero-initialized context" (fail invalid_argument)
    return_if (is_foreign o.implementation_identifier) (fail incorrect_rmw_implementation)
    copied ← call (rmw_init_options_copy (some o) (some c.options))
    let c' : Context = record {
      instance_id = o.instance_id;
      implementation_identifier = rmw_get_implementation_identifier;
      impl = all_ones;
      options = options_of copied.1 c.options;
    }
    return_if (not (is_ok copied.0)) (copied.0, some c')
    ret ← hazcat_init env
    pure (ret, some c')

  unfoldable pub rmw_shutdown : Option Context → World → Outcome (RmwRet × Option Context)
  rmw_shutdown context = run do
    let fail : RmwRet → RmwRet × Option Context = λ r. (r, context)
    c ← check_argument_for_null "context" context (fail invalid_argument)
    fail_if (is_null_identifier c.implementation_identifier) "expected initialized context"
        (fail invalid_argument)
    return_if (is_foreign c.implementation_identifier) (fail incorrect_rmw_implementation)
    return_if (c.impl == 0) (fail ok)
    ret ← hazcat_fini env
    pure (ret, some (record c { impl = 0 }))

  unfoldable pub rmw_context_fini : Option Context → World → Outcome (RmwRet × Option Context)
  unfolding rmw_init_options_fini
  rmw_context_fini context = run do
    let fail : RmwRet → RmwRet × Option Context = λ r. (r, context)
    c ← check_argument_for_null "context" context (fail invalid_argument)
    fail_if (is_null_identifier c.implementation_identifier) "expected initialized context"
        (fail invalid_argument)
    return_if (is_foreign c.implementation_identifier) (fail incorrect_rmw_implementation)
    fail_if (not (c.impl == 0)) "context has not been shutdown" (fail invalid_argument)
    finished ← call (rmw_init_options_fini (some c.options))
    pure (finished.0, some env.zero_context)
