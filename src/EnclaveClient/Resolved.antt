-- ===== src/EnclaveClient/Resolved.antt =====
-- `get_enclave_client` of feature_store/services/enclave_client.py: the client that the requests
-- share. What `get_settings` returns and what the environment holds are arguments of each call.
use confidential_ml_feature.Prelude.{
  length, Ensures, Result-cases, ℕ, ℤ, ◌≡◌, refl, Option, none, some, List, [], ◌∷◌, Result, ok,
  err, ◌>>=◌, if◌then◌else◌, inl, inr, All,
}
use confidential_ml_feature.Settings.{Settings}
use confidential_ml_feature.EnclaveClient

-- What is raised: pydantic's ValidationError from `get_settings`, and the ValueError of `float` and
-- of `int`.
pub data Raised : Type 0 where
  invalid_settings not_a_number : Raised

-- The numbers of the three environment variables, their defaults included, with `none` for a text
-- that is no number. A float is opaque, and a negative int does what 0 does.
pub record Environment : Type 0 where
  pub settings : Option Settings
  pub timeout_seconds : Option ℕ
  pub max_retries : Option ℕ
  pub max_pool_size : Option ℕ

-- The arguments of the client's constructor.
pub data Configured : Type 0 where
  mock : Configured
  remote : (cid port : ℤ) (timeout_seconds : ℕ) → EnclaveClient.Settings → Configured

-- app.state, with all clients that were created, the newest first. A client is the number of those
-- before it.
pub record AppState : Type 0 where
  pub enclave_client : Option ℕ
  pub created : List Configured

abbrev pub or_raised {ℓ} : {A : Type ℓ} → Option A → Raised → Result Raised A
or_raised none e = err e
or_raised (some a) e = ok a

unfoldable pub client_of : Settings → Environment → Result Raised Configured
client_of settings env =
    let configured = (do
      timeout ← or_raised env.timeout_seconds not_a_number
      retries ← or_raised env.max_retries not_a_number
      size ← or_raised env.max_pool_size not_a_number
      ok (
          remote settings.enclave_cid settings.enclave_port timeout
            (record { max_retries = retries; max_pool_size = size }))) in
    if settings.use_mock_enclave then ok mock else configured

-- The new client becomes the shared one; what is raised leaves none.
unfoldable pub share : Result Raised Configured → AppState → Result Raised ℕ × AppState
share (err e) st = (err e, st)
share (ok client) st =
    let number = length st.created in
    (ok number, record { enclave_client = some number; created = client ∷ st.created })

unfoldable pub get_enclave_client : Environment → AppState → Result Raised ℕ × AppState
unfolding client_of share
get_enclave_client env st = elim st.enclave_client [
  | some existing ↦ (ok existing, st)
  | none ↦ share (or_raised env.settings invalid_settings >>= λ settings. client_of settings env) st
]

-- Calls one after another, with what each finds in the environment.
abbrev calls : List Environment → AppState → List (Result Raised ℕ) × AppState
calls [] st = ([], st)
calls (env ∷ envs) st =
    let (r, st') = get_enclave_client env st in let (rs, last) = calls envs st' in (r ∷ rs, last)

data IsShared : AppState → Type 0 where
  fresh : IsShared (record { enclave_client = none; created = [] })
  shared :
      (client : Configured) → IsShared (record { enclave_client = some 0; created = client ∷ [] })

abbrev OnlyOne : Result Raised ℕ × AppState → Type 0
OnlyOne r = Ensures (λ client. client ≡ 0) r.0 × IsShared r.1

get_enclave_client-OnlyOne :
    (env : Environment) (st : AppState) → IsShared st → OnlyOne (get_enclave_client env st)
unfolding get_enclave_client share
get_enclave_client-OnlyOne env st fresh =
    elim (Result-cases
      (or_raised env.settings invalid_settings >>= λ settings. client_of settings env)) [
        | inl (client, e) ↦ rw (e, share) (refl, shared client)
        | inr (raised, e) ↦ rw (e, share) (tt, fresh)
      ]
get_enclave_client-OnlyOne env st (shared client) = (refl, shared client)

-- Of calls one after another, whatever each finds in the environment, all that return give the same
-- client, and no second client is created.
calls-OnlyOne :
    (envs : List Environment) (st : AppState)
    → IsShared st
    → All (Ensures (λ client. client ≡ 0)) (calls envs st).0 × IsShared (calls envs st).1
calls-OnlyOne [] st h = (tt, h)
calls-OnlyOne (env ∷ envs) st h =
    let (here, kept) = get_enclave_client-OnlyOne env st h in
    let (rest, last) = calls-OnlyOne envs (get_enclave_client env st).1 kept in ((here, rest), last)
