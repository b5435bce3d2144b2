-- ===== src/Http/Site.antt =====
-- The site's requests and the handlers that they reach.
use dmqtt.Base.{
  ◌≡◌, ◌≢◌, refl, ap, ◌∙◌, Bytes, [], ◌∷◌, ◌++◌, bytes_eq, false, Option, none, some, arith,
}
use dmqtt.Base.Map.{beq_ne}
use dmqtt.Broker.Topic.{contains}
use dmqtt.Http.{Request, devices_prefix, NodeInfo, BrokerApi, Server, Response}
use dmqtt.Http.Devices.{
  handle_with, handle_parts, split_two, trim_prefix, handle_device, handle_device_by_id,
}

pub split_two-plain : (id : Bytes) → contains b'/' id ≡ false → split_two id ≡ (id, none)
unfolding split_two contains
split_two-plain [] h = refl
split_two-plain (c ∷ id) h = rw (split_two-plain id (ground arith)) (ground arith)

pub trim_prefix-devices :
    (path : Bytes) → trim_prefix devices_prefix (devices_prefix ++ path) ≡ path
unfolding trim_prefix
trim_prefix-devices path = refl

-- The handler of a request for a device, once its path is taken apart.
module _ (s : Server) (api : BrokerApi) (ask : NodeInfo → Option Response) (id : Bytes) where
  pub by_id :
      (r : Request) (path : Bytes) (action : Option Bytes)
      → s.broker_api ≡ some api
      → r.path ≡ devices_prefix ++ path
      → split_two path ≡ (id, action)
      → id ≢ []
      → handle_device_by_id s ask r ≡ handle_device s api ask id action r.method
  unfolding handle_device_by_id handle_with handle_parts
  by_id r path action h p e named =
      ap (handle_with s ask r) h
      ∙ rw (ap (trim_prefix devices_prefix) p ∙ trim_prefix-devices path, e, beq_ne id [] named)
          refl
