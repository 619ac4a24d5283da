-- ===== src/Tests/Topics.antt =====
-- Gids, publishing and taking.
use https_github_com_nightdu.Base.{◌≡◌, refl, true, false, [], ◌∷◌, some, map, arith, pos}
use https_github_com_nightdu.Platform.{Bytes, ok, World, done, Call, slot_written, slot_allocated}
use https_github_com_nightdu.Gid.{rmw_compare_gids_equal}
use https_github_com_nightdu.Gid.Unique.{nth_gid, rmw_compare_gids_equal-generate_gid}
use https_github_com_nightdu.Channel.{room, queued, content, contents, channel, IsReady}
use https_github_com_nightdu.Channel.Send.{
  Appends, rmw_publish-channel, rmw_publish_loaned_message-channel,
}
use https_github_com_nightdu.Channel.Receive.{
  loan, rmw_take_loaned_message-channel, rmw_take_with_info-eq-rmw_take,
}
use https_github_com_nightdu.Channel.Delivery.{publish_all, take_all, take_all-publish_all}
use https_github_com_nightdu.Publisher.Send.{rmw_publish, rmw_publish_loaned_message}
use https_github_com_nightdu.Subscription.Receive.{
  rmw_take, rmw_take_with_info, rmw_take_loaned_message,
}
use https_github_com_nightdu.Simulation.{
  sim, everyone, sim-Hazcat, empty_world, joined_world, endpoint,
}

rmw_compare_gids_equal-generate_gid_example :
    rmw_compare_gids_equal sim
      (some (nth_gid sim 3 empty_world))
      (some (nth_gid sim 5 empty_world))
      (some true)
      empty_world
    ≡ done (ok, some false) empty_world
rmw_compare_gids_equal-generate_gid_example =
    rmw_compare_gids_equal-generate_gid sim empty_world empty_world 3 5 true (omega arith)
      (omega arith) (omega arith)

abbrev pub hello : Bytes
hello = 104 ∷ 105 ∷ 33 ∷ []

abbrev pub again : Bytes
again = 1 ∷ 2 ∷ 3 ∷ []

abbrev pub published : World
published = record {
  calls = Call.published (endpoint 1).info 1 3 ok ∷ slot_written 1 hello ∷ joined_world.calls;
  dummy_guid = 0;
}

abbrev loaned : World
loaned = record { calls = slot_written 7 hello ∷ joined_world.calls; dummy_guid = 0 }

rmw_publish-channel_example :
    Appends everyone 2 hello joined_world
      (rmw_publish sim (some (endpoint 1)) (some hello) joined_world)
unfolding queued room
rmw_publish-channel_example =
    rmw_publish-channel sim everyone 2 (sim-Hazcat 2) (endpoint 1) refl refl hello joined_world
      (omega arith) (tt, omega arith)

rmw_publish_loaned_message-channel_example :
    Appends everyone 2 hello loaned (rmw_publish_loaned_message sim (some (endpoint 1)) 7 loaned)
unfolding queued room content
rmw_publish_loaned_message-channel_example =
    rmw_publish_loaned_message-channel sim everyone 2 (sim-Hazcat 2) (endpoint 1) refl refl 7 loaned
      (omega arith) tt (tt, omega arith)

rmw_take_loaned_message-channel_example :
    (w' : World) × (rmw_take_loaned_message sim (some (endpoint 2)) (some 0) (some false) published
      ≡ done (loan (queued everyone 2 published.calls)) w')
    × (channel everyone 2 w'.calls ≡ [])
    × IsReady everyone 2 w'.calls
    × (room everyone 2 w'.calls ≡ 10)
unfolding queued room content contents channel
rmw_take_loaned_message-channel_example =
    rmw_take_loaned_message-channel sim everyone 2 (sim-Hazcat 2) (endpoint 2) refl refl 0 false
      published ((omega arith, tt), omega arith)

rmw_take_with_info-eq-rmw_take_example :
    rmw_take_with_info sim (some (endpoint 2)) (some again) (some false) (some tt) published
    ≡ rmw_take sim (some (endpoint 2)) (some again) (some false) published
rmw_take_with_info-eq-rmw_take_example =
    rmw_take_with_info-eq-rmw_take sim (some (endpoint 2)) (some again) (some false) published

-- The world after `hello` and `again` were published.
abbrev sent_world : World
sent_world = record {
  calls =
      Call.published (endpoint 1).info 2 3 ok
      ∷ slot_written 2 again
      ∷ slot_allocated 9 3 (pos 2)
      ∷ Call.published (endpoint 1).info 1 3 ok
      ∷ slot_written 1 hello
      ∷ slot_allocated 9 3 (pos 1)
      ∷ joined_world.calls;
  dummy_guid = 0;
}

take_all-publish_all_example :
    (w'' : World) × (take_all sim (endpoint 2) hello 2 sent_world
      ≡ done
          (map (λ m. record { ret = ok; message = some m; taken = some true }) (hello ∷ again ∷ []))
          w'')
    × (channel everyone 2 w''.calls ≡ [])
unfolding publish_all rmw_publish queued room contents channel
take_all-publish_all_example =
    take_all-publish_all sim everyone 2 (sim-Hazcat 2) (endpoint 1) (endpoint 2) hello
      (hello ∷ again ∷ []) joined_world sent_world refl refl refl refl refl refl (refl, (refl, tt))
      (omega arith) refl (tt, omega arith) refl
