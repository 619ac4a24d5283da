-- ===== src/Context/Transitions.antt =====
-- What the calls on a context do to one another.
use https_github_com_nightdu.Base.{◌≡◌, true, false, some, is_some, arith}
use https_github_com_nightdu.Platform.{
  RmwRet, ok, invalid_argument, is_foreign, is_null_identifier, InitOptions, Context, Env, World,
  done, log, error_set, security_finished, text_deallocated,
}
use https_github_com_nightdu.Context.{rmw_init, rmw_shutdown, rmw_context_fini}
use https_github_com_nightdu.Context.Lifecycle.{is_running}

module _ (env : Env) where
  -- A call of `rmw_init` that gets past its checks of the arguments (options of this library with an
  -- enclave, and a context without an identifier) leaves the context initialised and running
  -- whatever it returns, also where copying the options failed and hazcat was never started. A
  -- second `rmw_init` on that context, with any options of this library that have an enclave,
  -- returns RMW_RET_INVALID_ARGUMENT and leaves it as it is.
  pub rmw_init_sticks :
      (o o₂ : InitOptions) (c c' : Context) (r : RmwRet) (w w' v : World)
      → is_foreign o.implementation_identifier ≡ false
      → is_some o.enclave ≡ true
      → is_null_identifier c.implementation_identifier ≡ true
      → is_foreign o₂.implementation_identifier ≡ false
      → is_some o₂.enclave ≡ true
      → rmw_init env (some o) (some c) w ≡ done (r, some c') w'
      → (is_running c' ≡ true)
        × (v' : World) × (rmw_init env (some o₂) (some c') v ≡ done (invalid_argument, some c') v')
  unfolding rmw_init
  rmw_init_sticks o o₂ c c' r w w' v own given zero own₂ given₂ e =
      (ground arith, log (error_set "expected a zero-initialized context") v, ground arith)

  -- After a shutdown that found the context running, whatever it returned, a second one returns
  -- RMW_RET_OK, makes no call, and leaves the context as it is.
  pub rmw_shutdown-rmw_shutdown :
      (c c' : Context) (r : RmwRet) (w w' v : World)
      → is_running c ≡ true
      → rmw_shutdown env (some c) w ≡ done (r, some c') w'
      → rmw_shutdown env (some c') v ≡ done (ok, some c') v
  unfolding rmw_shutdown
  rmw_shutdown-rmw_shutdown c c' r w w' v runs e = ground arith

  -- A context that was initialised and then shut down, both with RMW_RET_OK, is finalised to the
  -- zero-initialised context; before the shutdown `rmw_context_fini` refuses it with
  -- RMW_RET_INVALID_ARGUMENT and leaves it as it is.
  pub rmw_context_fini-rmw_init :
      (o : InitOptions) (c c₁ c₂ : Context) (w w₁ v v₁ u : World)
      → rmw_init env (some o) (some c) w ≡ done (ok, some c₁) w₁
      → rmw_shutdown env (some c₁) v ≡ done (ok, some c₂) v₁
      → ((u₁ : World) × (rmw_context_fini env (some c₁) u ≡ done (invalid_argument, some c₁) u₁))
        × ((r : RmwRet) × (u₂ : World) × (rmw_context_fini env (some c₂) u
              ≡ done (r, some env.zero_context) u₂))
  unfolding rmw_init rmw_shutdown rmw_context_fini
  rmw_context_fini-rmw_init o c c₁ c₂ w w₁ v v₁ u e f = (
    (log (error_set "context has not been shutdown") u, ground arith),
    (ret, log (security_finished c₂.options.security_options ret) freed, ground arith),
  )
    where
      freed : World
      freed = log (text_deallocated c₂.options.enclave) u

      ret : RmwRet
      ret = env.finish_security freed.calls c₂.options.security_options
