-- ===== src/Channel/Sequence.antt =====
-- `rmw_take_sequence` takes what waits, in order.
use https_github_com_nightdu.Base.{◌≡◌, Bool, false, List}
use https_github_com_nightdu.Platform.{Bytes, is_foreign, PubSubData, Ptr, Env, World, Endpoint}
use https_github_com_nightdu.Channel.{Hazcat, channel}

module _ (env : Env) (writes : PubSubData → Bool) (reader : Ptr) (hazcat : Hazcat env writes reader)
    (s : Endpoint) (own : is_foreign s.implementation_identifier ≡ false)
    (reads : s.info.address ≡ reader) where
  abbrev wait : World → List Bytes
  wait w = channel writes reader w.calls
