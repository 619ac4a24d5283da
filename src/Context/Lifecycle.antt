-- ===== src/Context/Lifecycle.antt =====
-- Contexts over any history of `rmw_init`, `rmw_shutdown` and `rmw_context_fini`.
use https_github_com_nightdu.Base.{
  ℕ, suc, ◌+◌, ◌≡◌, Bool, true, some, is_some, [], ◌∷◌, arith, ◌==◌, ◌&&◌, not, if◌then◌else◌, inl,
  inr, Option-cases,
}
use https_github_com_nightdu.Platform.{
  RmwRet, is_ok, is_foreign, is_null_identifier, null_identifier, CString, Security, InitOptions,
  Context, Call, text_duplicated, hazcat_started, hazcat_finished, History, Env, World, done,
}
use https_github_com_nightdu.Context.{rmw_init, rmw_shutdown, rmw_context_fini}

abbrev add_start : Call → ℕ → ℕ
add_start (hazcat_started r) n = suc n
add_start (hazcat_finished r) n = n
add_start _ n = n

abbrev add_finish : Call → ℕ → ℕ
add_finish (hazcat_finished r) n = suc n
add_finish (hazcat_started r) n = n
add_finish _ n = n

-- How often hazcat was started, and how often shut down.
abbrev starts : History → ℕ
starts [] = 0
starts (c ∷ h) = add_start c (starts h)

abbrev finishes : History → ℕ
finishes [] = 0
finishes (c ∷ h) = add_finish c (finishes h)

-- Initialised, and not shut down.
abbrev pub is_running : Context → Bool
is_running c = not (is_foreign c.implementation_identifier) && not (c.impl == 0)

abbrev pub running : Context → ℕ
running c = if is_running c then 1 else 0

-- What the code relies on: the zero-initialised values of rmw carry no identifier, and the copies
-- that rcutils and rmw make of the enclave and of the security options do not fail.
pub record Reliable (env : Env) : Type 0 where
  pub zero_context_null : env.zero_context.implementation_identifier ≡ null_identifier
  pub zero_options_null : env.zero_context.options.implementation_identifier ≡ null_identifier
  pub strdup_some : (h : History) (text : CString) → is_some (env.strdup h (some text)) ≡ true
  pub security_ok :
      (h : History) (security : Security) → is_ok (env.copy_security h security).0 ≡ true

-- One call on a context, whatever it returns; options that are used have a valid allocator.
pub data Step (env : Env) (c : Context) (w : World) (c' : Context) (w' : World) : Type 0 where
  inits :
      (o : InitOptions) (r : RmwRet)
      → o.allocator.is_valid ≡ true
      → rmw_init env (some o) (some c) w ≡ done (r, some c') w'
      → Step env c w c' w'
  shuts_down :
      (r : RmwRet) → rmw_shutdown env (some c) w ≡ done (r, some c') w' → Step env c w c' w'
  finishes_up :
      (r : RmwRet) → rmw_context_fini env (some c) w ≡ done (r, some c') w' → Step env c w c' w'

-- What a process can reach from a zero-initialised context.
pub data Reach (env : Env) (w₀ : World) : Context → World → Type 0 where
  start : {c : Context} → c ≡ env.zero_context → Reach env w₀ c w₀
  next :
      {c c' : Context} {w w' : World} → Reach env w₀ c w → Step env c w c' w' → Reach env w₀ c' w'

-- Every start of hazcat was shut down, but for that of a context which runs.
pub record IsBalanced (w₀ : World) (c : Context) (w : World) : Type 0 where
  balanced : starts w.calls + finishes w₀.calls ≡ finishes w.calls + starts w₀.calls + running c
  zeroed :
      is_null_identifier c.implementation_identifier ≡ true
      → is_null_identifier c.options.implementation_identifier ≡ true

module _ (env : Env) (reliable : Reliable env) (w₀ : World) where
  Step-IsBalanced :
      {c c' : Context} {w w' : World} → Step env c w c' w' → IsBalanced w₀ c w → IsBalanced w₀ c' w'
  unfolding rmw_init rmw_shutdown rmw_context_fini
  Step-IsBalanced {c} {w} (inits o r valid e) b = elim (Option-cases o.enclave) [
    | inl missing ↦ ground arith
    | inr (text, given) ↦ ground (
      arith,
      reliable.strdup_some w.calls text,
      reliable.security_ok (text_duplicated (some text) (env.strdup w.calls (some text)) ∷ w.calls)
          o.security_options,
    )
  ]
  Step-IsBalanced (shuts_down r e) b = ground arith
  Step-IsBalanced (finishes_up r e) b =
      ground (arith, reliable.zero_context_null, reliable.zero_options_null)

  -- Along any history of `rmw_init` (with options whose allocator is valid), `rmw_shutdown` and
  -- `rmw_context_fini` on a context that was zero-initialised, successful or not, the calls of
  -- `hazcat_init` exceed those of `hazcat_fini` by exactly one while the context runs, and by none
  -- else. The environment's copies of enclaves and security options do not fail.
  pub Reach-IsBalanced : {c : Context} {w : World} → Reach env w₀ c w → IsBalanced w₀ c w
  Reach-IsBalanced (start e) =
      ground (arith, reliable.zero_context_null, reliable.zero_options_null)
  Reach-IsBalanced (next r s) = Step-IsBalanced s (Reach-IsBalanced r)
