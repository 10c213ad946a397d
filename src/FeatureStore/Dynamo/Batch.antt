-- ===== src/FeatureStore/Dynamo/Batch.antt =====
-- `DynamoDBService.batch_get_feature_sets` against `get_feature_set` of each name, with a client that
-- leaves the serialization to its caller.
use confidential_ml_feature.Prelude.{List}
use mathlib.Core.List.{Memᴰ}
use mathlib.Core.List.Memᴰ as Memᴰ
use confidential_ml_feature.OrderedDict
