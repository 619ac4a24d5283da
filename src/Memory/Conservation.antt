-- ===== src/Memory/Conservation.antt =====
-- The ledger of slots balances after any sequence of the calls that send and receive.
use https_github_com_nightdu.Base.{ℕ, ◌+◌, Bool, map}
use https_github_com_nightdu.Platform.{Ptr, PubSubData, Env}
use https_github_com_nightdu.Memory.Ledger.{Loans, Slot, count, slot_of}

module _ (env : Env) (writes : PubSubData → Bool) (reader : Ptr) where
  loans : Slot → Loans → ℕ
  loans x l = count x (map (slot_of env) l.lent) + count x (map (slot_of env) l.held)
