-- ===== src/Tests/Contexts.antt =====
-- The life of a context.
use https_github_com_nightdu.Base.{◌≡◌, refl, true, none, some, [], ◌∷◌}
use https_github_com_nightdu.Platform.{
  ok, bad_alloc, invalid_argument, RmwRet, rmw_get_implementation_identifier, InitOptions, Context,
  other_localhost_only, World, Outcome, done, fault, Env,
}
use https_github_com_nightdu.Context.{
  rmw_init_options_copy, rmw_init, rmw_shutdown, rmw_context_fini, all_ones,
}
use https_github_com_nightdu.Context.Lifecycle.{
  Reliable, Reach, inits, shuts_down, start, next, IsBalanced, Reach-IsBalanced, is_running,
}
use https_github_com_nightdu.Context.Transitions.{
  rmw_init_sticks, rmw_shutdown-rmw_shutdown, rmw_context_fini-rmw_init,
}
use https_github_com_nightdu.Context.Copies.{Copies, rmw_init_options_copy-Copies}
use https_github_com_nightdu.Simulation.{sim, empty_world, zero_options}

abbrev options : InitOptions
options = record {
  instance_id = 3;
  implementation_identifier = rmw_get_implementation_identifier;
  allocator = record { state = 0; is_valid = true };
  impl = 0;
  security_options = 0;
  domain_id = 0;
  localhost_only = other_localhost_only 0;
  enclave = some (record { address = 50; text = b'/' ∷ [] });
}

abbrev initialised : Context
initialised = record {
  instance_id = 3;
  implementation_identifier = rmw_get_implementation_identifier;
  impl = all_ones;
  options = options;
}

abbrev shut_down : Context
shut_down = record initialised { impl = 0 }

abbrev end : {R : Type 0} → Outcome R → World
end (done r w) = w
end fault = empty_world

abbrev after_init : World
unfolding rmw_init
after_init = end (rmw_init sim (some options) (some sim.zero_context) empty_world)

abbrev after_shutdown : World
unfolding rmw_shutdown
after_shutdown = end (rmw_shutdown sim (some initialised) after_init)

sim-Reliable : Reliable sim
sim-Reliable = record {
  zero_context_null = refl;
  zero_options_null = refl;
  strdup_some = λ h text. refl;
  security_ok = λ h security. refl;
}

-- Initialised, and then shut down.
Reach-shut_down : Reach sim empty_world shut_down after_shutdown
unfolding rmw_init rmw_shutdown
Reach-shut_down = next (next (start refl) (inits options ok refl refl)) (shuts_down ok refl)

Reach-IsBalanced_example : IsBalanced empty_world shut_down after_shutdown
Reach-IsBalanced_example = Reach-IsBalanced sim sim-Reliable empty_world Reach-shut_down

-- The same platform, out of memory for strings.
abbrev poor : Env
poor = record sim { strdup = λ h text. none }

abbrev stuck : Context
stuck = record initialised { options = zero_options }

abbrev after_failure : World
unfolding rmw_init
after_failure = end (rmw_init poor (some options) (some sim.zero_context) empty_world)

rmw_init_sticks_example :
    (is_running stuck ≡ true)
    × (v' : World) × (rmw_init poor (some options) (some stuck) empty_world
        ≡ done (invalid_argument, some stuck) v')
unfolding rmw_init
rmw_init_sticks_example =
    rmw_init_sticks poor options options sim.zero_context stuck bad_alloc empty_world after_failure
      empty_world refl refl refl refl refl refl

rmw_shutdown-rmw_shutdown_example :
    rmw_shutdown sim (some shut_down) empty_world ≡ done (ok, some shut_down) empty_world
unfolding rmw_shutdown
rmw_shutdown-rmw_shutdown_example =
    rmw_shutdown-rmw_shutdown sim initialised shut_down ok after_init after_shutdown empty_world
      refl refl

rmw_context_fini-rmw_init_example :
    ((u₁ : World) × (rmw_context_fini sim (some initialised) empty_world
        ≡ done (invalid_argument, some initialised) u₁))
    × ((r : RmwRet) × (u₂ : World) × (rmw_context_fini sim (some shut_down) empty_world
          ≡ done (r, some sim.zero_context) u₂))
unfolding rmw_init rmw_shutdown
rmw_context_fini-rmw_init_example =
    rmw_context_fini-rmw_init sim options sim.zero_context initialised shut_down empty_world
      after_init after_init after_shutdown empty_world refl refl

rmw_init_options_copy-Copies_example :
    Copies options zero_options empty_world
      (rmw_init_options_copy sim (some options) (some zero_options) empty_world)
rmw_init_options_copy-Copies_example =
    rmw_init_options_copy-Copies sim options zero_options empty_world refl refl refl (λ h. refl)
