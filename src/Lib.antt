-- ===== src/Lib.antt =====
-- Confidential ML feature store: a FastAPI service keeps tenants' feature sets in DynamoDB and asks
-- a server inside an AWS Nitro enclave for predictions. The server decrypts models with data keys
-- that a KMS proxy releases against an attestation document, and keeps keys and models in bounded
-- caches.
--
-- Parts, and the files that model them:
-- * Cbor.antt and Cbor/: the CBOR codec of enclave/attestation.py. `encode` is `_cbor_encode`,
--   `decode_all` is `_cbor_decode`, `value` is `_CBORDecoder.decode`, with its two loops as `items`
--   and `entries`. A decoder's offset is the list of bytes that are left.
-- * Attestation.antt and Attestation/: the parser and `MockNSM` of enclave/attestation.py, and in
--   Device.antt its `get_attestation_document`, in Verified.antt `verify_attestation_document`.
-- * KmsClient.antt and KmsClient/: `EnclaveKMSClient` of enclave/kms_client.py. The cache is an
--   ordered dictionary that each operation takes and returns; what the clock reads is an argument.
-- * Engine.antt and Engine/: `InferenceEngine` of enclave/inference_engine.py. The engine is a record
--   of its loaded models, its limit and the state of the key decryptor.
-- * Wire.antt and Wire/: the frames of both ends, `_encode_frame`, `_recv_exact` and `_decode_frame`
--   of feature_store/services/enclave_client.py, and `_recv_exact`, `_read_message` and the frame of
--   `_write_message` of enclave/server.py. What a socket delivers is a list of pieces.
-- * Server.antt and Server/: `_dispatch_request`, `_handle_predict` and `_handle_connection` of
--   enclave/server.py; Server/Rendering.antt makes the mappings that they return.
-- * EnclaveClient.antt and EnclaveClient/: `EnclaveClient` of
--   feature_store/services/enclave_client.py, with the pool, the closed connections and the time
--   slept in its state; Responses.antt has its public methods, Mock.antt `MockEnclaveClient`, and
--   Resolved.antt `get_enclave_client`.
-- * EndToEnd.antt and EndToEnd/: a call of the client's `predict` together with the enclave's answer.
-- * KmsService.antt and KmsService/: `KMSService` of feature_store/services/kms_service.py.
-- * FeatureStore.antt and FeatureStore/: `FeatureService`
--   (feature_store/services/feature_service.py), `get_current_tenant`
--   (feature_store/middleware/tenant_auth.py), and `DynamoDBService`
--   (feature_store/services/dynamo_service.py), which fills the interface `DataStore` of the other
--   two; FeatureStore/Inference.antt is feature_store/routers/inference.py, on that interface and on
--   `Predictor`, the methods of the client that it calls.
-- * FeatureStore/Web.antt and FeatureStore/Web/: the routes of feature_store/routers/features.py and
--   health.py, the exception handlers of feature_store/utils/exceptions.py, and in Logging.antt the
--   middleware of feature_store/main.py with feature_store/utils/logger.py.
-- * Training.antt and Training/: scripts/train_model.py, whose files the inference route reads.
-- * Threads.antt and Engine/Threads.antt, KmsClient/Threads.antt and EnclaveClient/Threads.antt:
--   threads over one shared state, as a step relation. The last three split the methods into their
--   locked sections and the code between; Server/Lifecycle.antt has the accept loop with the signals
--   that stop it.
-- * Settings.antt and Settings/: the validators of feature_store/config.py.
-- * Python.antt and Python/, OrderedDict.antt: what these use of Python's library: UTF-8, JSON values
--   and the text of flat dicts, `str.strip`, integers as text and as bytes, `OrderedDict`.
-- * Prelude.antt and Prelude/: names, tests, lists and results that all share.
-- * Tests.antt and Tests/: the theorems at concrete inputs.
--
-- The server calls the engine, which calls the key decryptor and, through it, the proxy. An exception
-- is the `err` of a result, and a state is returned beside it, so that what a failed call leaves is
-- part of the model.
--
-- Parameters: boto3's calls, the clock, SHA-256, the attestation provider, the KMS transport and the
-- unwrap handler; the sockets and what they deliver, the files; base64, JSON text, AES-GCM, joblib
-- and the operations of the models; conversions between floats, decimals and times. Floats, decimals
-- and times are opaque numbers. Theorems that need something of these say so in a hypothesis: a hash
-- without collisions, reads of DynamoDB that return the partition asked for, a nonempty JSON text
-- that is read back, a table that keeps what is put and refuses a write whose condition is not met, a
-- client that serializes what it is given, or one that leaves it to its caller, a KMS that binds a
-- ciphertext to its encryption context, a float that converts to itself.
--
-- Bounds: the CBOR decoder runs on fuel, twice the number of bytes and one, since each call of
-- `decode` reads a byte and each loop costs one call more than its items. All other loops are over
-- lists, over the attempts that are left, or over the clock's readings, one for each request of a
-- connection; and the batch read over its three retries.
--
-- Not modelled: what runs inside one section at the same time as another (the locks exclude it), the
-- depth limit of Python's recursion, exceptions that numpy raises after a model's own `predict`, the
-- server's sends that fail, the text and the time of an error response, the validation of request
-- bodies by pydantic, the older `decrypt_ciphertext` of a key client, and the calls that wire up
-- boto3, FastAPI, the logging library and the sockets.
pub mod Prelude
pub mod OrderedDict
pub mod Python
pub mod Cbor
pub mod Attestation
pub mod KmsClient
pub mod KmsService
pub mod Engine
pub mod Wire
pub mod Server
pub mod EnclaveClient
pub mod EndToEnd
pub mod FeatureStore
pub mod Settings
pub mod Threads
pub mod Training
pub mod Tests
