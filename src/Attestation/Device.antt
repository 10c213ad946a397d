-- ===== src/Attestation/Device.antt =====
-- `get_attestation_document` of enclave/attestation.py, over the device and the bindings of the
-- Nitro Secure Module, which are a parameter.
use confidential_ml_feature.Prelude.{
  ℕ, ◌≡◌, ap, Bool, Option, none, some, List, ◌∷◌, Bytes, Result, ok, err, if◌then◌else◌, if-elim,
}

-- The `AttestationError`s, by their messages.
pub data Error : Type 0 where
  not_available not_retrieved not_valid : Error

-- Whether the bindings can be imported; `open_nsm_device`, with `none` for an exception;
-- `get_attestation_doc`, with the public key, the user data and the nonce, and with `none` for an
-- exception, and for a response without bytes as its document; and `close_nsm_device`, whose
-- exceptions are dropped.
pub record Device (World : Type 0) : Type 0 where
  pub is_available : Bool
  pub open_nsm_device : World → Option ℕ × World
  pub get_attestation_doc :
      ℕ → Option Bytes → Option Bytes → Option Bytes → World → Option (Option Bytes) × World
  pub close_nsm_device : ℕ → World → World

-- The handles that were opened and that were closed, the newest first.
pub record Handles (World : Type 0) : Type 0 where
  pub opened : List ℕ
  pub closed : List ℕ
  pub world : World

module _ {World : Type 0} (device : Device World) (public_key user_data nonce : Option Bytes) where
  -- The `finally` clause, after the call of `get_attestation_doc`.
  unfoldable pub closed_after : ℕ → World → Handles World → Handles World
  closed_after handle world st = record {
    opened = handle ∷ st.opened;
    closed = handle ∷ st.closed;
    world = device.close_nsm_device handle world;
  }

  -- What follows the `try`: the document of the response.
  unfoldable pub document_of : Option (Option Bytes) → Result Error Bytes
  document_of none = err not_retrieved
  document_of (some none) = err not_valid
  document_of (some (some document)) = ok document

  unfoldable pub with_handle : Option ℕ × World → Handles World → Result Error Bytes × Handles World
  unfolding closed_after document_of
  with_handle (none, world) st = (err not_retrieved, record st { world = world })
  with_handle (some handle, world) st =
      let (response, world') = device.get_attestation_doc handle public_key user_data nonce world in
      (document_of response, closed_after handle world' st)

  -- `get_attestation_document`
  unfoldable pub request_document : Handles World → Result Error Bytes × Handles World
  unfolding with_handle
  request_document st =
      if device.is_available
      then with_handle (device.open_nsm_device st.world) st
      else (err not_available, st)

  abbrev Balanced : Result Error Bytes × Handles World → Type 0
  Balanced r = r.1.opened ≡ r.1.closed

  with_handle-Balanced :
      (r : Option ℕ × World) (st : Handles World)
      → st.opened ≡ st.closed
      → Balanced (with_handle r st)
  unfolding with_handle closed_after
  with_handle-Balanced (none, world) st h = h
  with_handle-Balanced (some handle, world) st h = ap (◌∷◌ handle) h

  -- If each handle that was opened was closed, then so it is after the call, whether it returns or
  -- raises, and whatever the device does.
  pub request_document-Balanced :
      (st : Handles World) → st.opened ≡ st.closed → Balanced (request_document st)
  unfolding request_document
  request_document-Balanced st h =
      if-elim Balanced device.is_available _ _
        (λ _. with_handle-Balanced (device.open_nsm_device st.world) st h) (λ _. h)
