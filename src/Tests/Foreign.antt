-- ===== src/Tests/Foreign.antt =====
-- A publisher of another implementation.
use https_github_com_nightdu.Base.{◌≡◌, refl, some}
use https_github_com_nightdu.Platform.{
  incorrect_rmw_implementation, other_identifier, Endpoint, done,
}
use https_github_com_nightdu.Publisher.Send.{rmw_publish}
use https_github_com_nightdu.Handles.Attempts.{publishes}
use https_github_com_nightdu.Handles.Foreign.{call-Refuses}
use https_github_com_nightdu.Simulation.{sim, empty_world, endpoint}
use https_github_com_nightdu.Tests.Topics.{hello}

abbrev stranger : Endpoint
stranger = record (endpoint 1) { implementation_identifier = other_identifier 3 }

call-Refuses_example :
    rmw_publish sim (some stranger) (some hello) empty_world
    ≡ done incorrect_rmw_implementation empty_world
call-Refuses_example = call-Refuses sim empty_world (publishes stranger hello) refl
