-- ===== src/Tests/Exchanges.antt =====
-- Two publications with a take between them.
use https_github_com_nightdu.Base.{◌≡◌, refl, false, [], ◌∷◌, ◌++◌, some, arith}
use https_github_com_nightdu.Platform.{World, ok}
use https_github_com_nightdu.Channel.{queued, room, contents, content, channel}
use https_github_com_nightdu.Channel.Receive.{answer}
use https_github_com_nightdu.Channel.Exchange.{Exchange, Exchange-channel}
use https_github_com_nightdu.Publisher.Send.{rmw_publish}
use https_github_com_nightdu.Subscription.Receive.{rmw_take}
use https_github_com_nightdu.Simulation.{sim, everyone, sim-Hazcat, joined_world, endpoint}
use https_github_com_nightdu.Tests.Topics.{hello, again}
use https_github_com_nightdu.Tests.Handles.{end}

abbrev first_run : World
unfolding rmw_publish
first_run = end (rmw_publish sim (some (endpoint 1)) (some hello) joined_world)

abbrev take_run : World
unfolding rmw_take
take_run = end (rmw_take sim (some (endpoint 2)) (some again) (some false) first_run)

abbrev second_run : World
unfolding rmw_publish
second_run = end (rmw_publish sim (some (endpoint 1)) (some again) take_run)

traffic : Exchange sim everyone 2 3 (hello ∷ again ∷ []) (hello ∷ []) second_run
unfolding queued room contents channel content rmw_publish rmw_take
traffic =
    Exchange.publishes {sent = hello ∷ []} {got = hello ∷ []} {w = take_run} (endpoint 1) again ok
      second_run
      (Exchange.takes {sent = hello ∷ []} {got = []} {w = first_run} (endpoint 2) again false
        (answer 3 again (hello ∷ [])) take_run
        (Exchange.publishes {sent = []} {got = []} {w = joined_world} (endpoint 1) hello ok
          first_run (Exchange.start joined_world refl (omega arith)) refl refl refl refl
          (omega arith) refl)
        refl refl refl refl refl)
      refl refl refl refl (omega arith) refl

Exchange-channel_example : hello ∷ again ∷ [] ≡ (hello ∷ []) ++ channel everyone 2 second_run.calls
Exchange-channel_example =
    Exchange-channel sim everyone 2 3 (sim-Hazcat 2) (hello ∷ again ∷ []) (hello ∷ []) second_run
      traffic
