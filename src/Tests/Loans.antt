-- ===== src/Tests/Loans.antt =====
-- A loan that is published, taken as a loan and returned.
use https_github_com_nightdu.Base.{false, [], some}
use https_github_com_nightdu.Platform.{World}
use https_github_com_nightdu.Publisher.Send.{rmw_borrow_loaned_message, rmw_publish_loaned_message}
use https_github_com_nightdu.Subscription.Receive.{
  rmw_take_loaned_message, rmw_return_loaned_message_from_subscription,
}
use https_github_com_nightdu.Memory.Ledger.{Loans}
use https_github_com_nightdu.Simulation.{sim, joined_world, endpoint}
use https_github_com_nightdu.Tests.Handles.{support, end}

abbrev borrow_run : World
unfolding rmw_borrow_loaned_message
borrow_run =
    end (rmw_borrow_loaned_message sim (some (endpoint 1)) (some support) (some 0) joined_world)

abbrev publish_run : World
unfolding rmw_publish_loaned_message
publish_run = end (rmw_publish_loaned_message sim (some (endpoint 1)) 1 borrow_run)

abbrev take_run : World
unfolding rmw_take_loaned_message
take_run = end (rmw_take_loaned_message sim (some (endpoint 2)) (some 0) (some false) publish_run)

abbrev give_run : World
unfolding rmw_return_loaned_message_from_subscription
give_run = end (rmw_return_loaned_message_from_subscription sim (some (endpoint 2)) 1 take_run)

abbrev no_loans : Loans
no_loans = record { lent = []; held = [] }
