-- ===== src/Client/Tries.antt =====
-- How often a call of the client goes out on the network.
use learn_git.Pd.Router.{Router}
use learn_git.Kv.Messages.{Protobuf, RpcMessage}
use learn_git.Base.{ℕ, ◌+◌, Bytes, ◌≤◌, arith, suc, zero}
use learn_git.Client.Link.{Net, send_raw}
use learn_git.Client.KvClient.{send_to_addr, attempt, call, KvClient, put, get, del, scan}

-- A network that counts its connections.
abbrev pub counting : Net → Net
counting net = record {
  World = net.World × ℕ;
  talk = λ w ip port sent. let done = net.talk w.0 ip port sent in ((done.0, w.1 + 1), done.1);
}

module _ (net : Net) (pb : Protobuf) where
  attempt-counts :
      (w : net.World × ℕ) (addr : Bytes) (req : RpcMessage)
      → (attempt (counting net) pb w addr req).0.1 ≤ w.1 + 1
  unfolding attempt send_raw
  attempt-counts w addr req = ground arith

  send_to_addr-counts :
      (max_retries : ℕ) (w : net.World × ℕ) (router : Router) (addr : Bytes) (req : RpcMessage)
      → (send_to_addr (counting net) pb max_retries w router addr req).0.0.1 ≤ w.1 + max_retries
  unfolding send_to_addr
  send_to_addr-counts zero w router addr req = omega arith
  send_to_addr-counts (suc max_retries) w router addr req =
      grind (arith, attempt-counts w addr req, send_to_addr-counts max_retries)

  call-counts :
      (w : net.World × ℕ) (c : KvClient) (key : Bytes) (req : RpcMessage)
      → (call (counting net) pb w c key req).0.0.1 ≤ w.1 + 3
  unfolding call
  call-counts w c key req = grind (arith, send_to_addr-counts 3)

  -- A put, a get, a delete and a scan each end after at most three connections, whatever the servers
  -- answer, also when they name one another as the leader in a circle.
  pub at_most_three_tries :
      (w : net.World × ℕ) (c : KvClient) (key value end_key : Bytes) (limit : ℕ)
      → ((put (counting net) pb w c key value).0.0.1 ≤ w.1 + 3)
        × ((get (counting net) pb w c key).0.0.1 ≤ w.1 + 3)
        × ((del (counting net) pb w c key).0.0.1 ≤ w.1 + 3)
        × ((scan (counting net) pb w c key end_key limit).0.0.1 ≤ w.1 + 3)
  unfolding put get del scan
  at_most_three_tries w c key value end_key limit =
      (call-counts w c key _, call-counts w c key _, call-counts w c key _, call-counts w c key _)
