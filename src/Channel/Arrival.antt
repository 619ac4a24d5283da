-- ===== src/Channel/Arrival.antt =====
-- A message that was accepted arrives.
use https_github_com_nightdu.Base.{Bool, List}
use https_github_com_nightdu.Platform.{Ptr, Bytes, PubSubData, Env, World}
use https_github_com_nightdu.Channel.{Hazcat}
use https_github_com_nightdu.Channel.Delivery.{wait}

module _ (env : Env) (writes : PubSubData → Bool) (reader : Ptr)
    (hazcat : Hazcat env writes reader) where
  abbrev waits : World → List Bytes
  waits = wait env writes reader hazcat
