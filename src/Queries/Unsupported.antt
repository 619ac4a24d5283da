-- ===== src/Queries/Unsupported.antt =====
-- No query of the graph succeeds.
use https_github_com_nightdu.Base.{ℕ, ◌≡◌, Bool, true, false, not, String, Option, none, arith}
use https_github_com_nightdu.Platform.{
  Text, RmwRet, is_ok, Allocator, Node, Env, World, Outcome, done, fault,
}
use https_github_com_nightdu.Queries.Graph.{
  ResultArray, names_and_types_by_node, names_and_types, rmw_count_publishers,
  rmw_count_subscribers, rmw_get_subscriber_names_and_types_by_node,
  rmw_get_publisher_names_and_types_by_node, rmw_get_service_names_and_types_by_node,
  rmw_get_client_names_and_types_by_node, rmw_get_service_names_and_types,
  rmw_get_topic_names_and_types,
}
use https_github_com_nightdu.Queries.Info.{
  info_by_topic, rmw_get_publishers_info_by_topic, rmw_get_subscriptions_info_by_topic,
  rmw_get_node_names, rmw_get_node_names_with_enclaves,
}

-- A call returned, with another code than RMW_RET_OK.
abbrev pub fails : Outcome RmwRet → Bool
fails (done r w) = not (is_ok r)
fails fault = false

-- The queries of the graph, with the arguments that a caller may give them.
pub data GraphQuery : Type 0 where
  subscribers_by_node publishers_by_node services_by_node clients_by_node :
      Option Node → Option Allocator → Option Text → Option Text → Option ResultArray → GraphQuery
  service_names topic_names : Option Node → Option Allocator → Option ResultArray → GraphQuery
  publishers_info subscriptions_info :
      Option Node → Option Allocator → Option Text → Option ResultArray → GraphQuery
  node_names : Option Node → Option ResultArray → Option ResultArray → GraphQuery
  node_names_with_enclaves :
      Option Node → Option ResultArray → Option ResultArray → Option ResultArray → GraphQuery
  count_publishers count_subscribers : Option Node → Option Text → Option ℕ → GraphQuery

abbrev pub ask : Env → GraphQuery → World → Outcome RmwRet
ask env (subscribers_by_node owner a name space found) =
    rmw_get_subscriber_names_and_types_by_node env owner a name space found
ask env (publishers_by_node owner a name space found) =
    rmw_get_publisher_names_and_types_by_node env owner a name space found
ask env (services_by_node owner a name space found) =
    rmw_get_service_names_and_types_by_node env owner a name space found
ask env (clients_by_node owner a name space found) =
    rmw_get_client_names_and_types_by_node env owner a name space found
ask env (service_names owner a found) = rmw_get_service_names_and_types env owner a found
ask env (topic_names owner a found) = rmw_get_topic_names_and_types env owner a found
ask env (publishers_info owner a topic found) =
    rmw_get_publishers_info_by_topic env owner a topic found
ask env (subscriptions_info owner a topic found) =
    rmw_get_subscriptions_info_by_topic env owner a topic found
ask env (node_names owner names spaces) = rmw_get_node_names owner names spaces
ask env (node_names_with_enclaves owner names spaces enclaves) =
    rmw_get_node_names_with_enclaves owner names spaces enclaves
ask env (count_publishers owner topic count) = rmw_count_publishers env owner topic count
ask env (count_subscribers owner topic count) = rmw_count_subscribers env owner topic count

module _ (env : Env) (owner : Option Node) (w : World) where
  names_and_types_by_node-fails :
      (result message : String) (allocator : Option Allocator) (name space : Option Text)
      (found : Option ResultArray)
      → fails (names_and_types_by_node env result message owner allocator name space found w) ≡ true
  unfolding names_and_types_by_node
  names_and_types_by_node-fails result message allocator name space found = ground arith

  names_and_types-fails :
      (result message : String) (allocator : Option Allocator) (found : Option ResultArray)
      → fails (names_and_types env result message owner allocator found w) ≡ true
  unfolding names_and_types
  names_and_types-fails result message allocator found = ground arith

  rmw_count-fails :
      (topic : Option Text) (count : Option ℕ)
      → (fails (rmw_count_publishers env owner topic count w) ≡ true)
        × (fails (rmw_count_subscribers env owner topic count w) ≡ true)
  unfolding rmw_count_publishers rmw_count_subscribers
  rmw_count-fails topic count = (ground arith, ground arith)

  info_by_topic-fails :
      (result message : String) (allocator : Option Allocator) (topic : Option Text)
      (found : Option ResultArray)
      → fails (info_by_topic env result message owner allocator topic found w) ≡ true
  unfolding info_by_topic
  info_by_topic-fails result message allocator topic found = ground arith

  rmw_get_node_names-fails :
      (names spaces enclaves : Option ResultArray)
      → (fails (rmw_get_node_names owner names spaces w) ≡ true)
        × (fails (rmw_get_node_names_with_enclaves owner names spaces enclaves w) ≡ true)
  unfolding rmw_get_node_names rmw_get_node_names_with_enclaves
  rmw_get_node_names-fails names spaces enclaves = (ground arith, ground arith)

-- Each of the twelve queries of the graph (for names and types, for the endpoints on a topic or their
-- number, and for the names of nodes) returns, whatever its arguments are and rmw's validation
-- answers, and never with RMW_RET_OK.
pub graph_query_fails : (env : Env) (q : GraphQuery) (w : World) → fails (ask env q w) ≡ true
unfolding rmw_get_subscriber_names_and_types_by_node rmw_get_publisher_names_and_types_by_node
    rmw_get_service_names_and_types_by_node rmw_get_client_names_and_types_by_node
    rmw_get_service_names_and_types rmw_get_topic_names_and_types rmw_get_publishers_info_by_topic
    rmw_get_subscriptions_info_by_topic
graph_query_fails env (subscribers_by_node owner a name space found) w =
    names_and_types_by_node-fails env owner w _ _ a name space found
graph_query_fails env (publishers_by_node owner a name space found) w =
    names_and_types_by_node-fails env owner w _ _ a name space found
graph_query_fails env (services_by_node owner a name space found) w =
    names_and_types_by_node-fails env owner w _ _ a name space found
graph_query_fails env (clients_by_node owner a name space found) w =
    names_and_types_by_node-fails env owner w _ _ a name space found
graph_query_fails env (service_names owner a found) w =
    names_and_types-fails env owner w _ _ a found
graph_query_fails env (topic_names owner a found) w = names_and_types-fails env owner w _ _ a found
graph_query_fails env (publishers_info owner a topic found) w =
    info_by_topic-fails env owner w _ _ a topic found
graph_query_fails env (subscriptions_info owner a topic found) w =
    info_by_topic-fails env owner w _ _ a topic found
graph_query_fails env (node_names owner names spaces) w =
    (rmw_get_node_names-fails env owner w names spaces none).0
graph_query_fails env (node_names_with_enclaves owner names spaces enclaves) w =
    (rmw_get_node_names-fails env owner w names spaces enclaves).1
graph_query_fails env (count_publishers owner topic count) w =
    (rmw_count-fails env owner w topic count).0
graph_query_fails env (count_subscribers owner topic count) w =
    (rmw_count-fails env owner w topic count).1
