-- ===== src/Server/Responses.antt =====
-- The responses of the RPC handlers, and the engine that they leave.
use confidential_ml_feature.Python.Json.{Json}
use confidential_ml_feature.Engine.{Platform, Engine}
use confidential_ml_feature.Engine.Invariant.{Keeps}
use confidential_ml_feature.Server.{Response}

module _ {Keys Model : Type 0} (p : Platform Keys Model) where
  KeepsEngine : Engine Keys Model → Response × Engine Keys Model → Type 0
  KeepsEngine engine r = Keeps engine r.1
