-- ===== src/Engine/Threads/Invariant.antt =====
-- enclave/inference_engine.py: what every interleaving of threads on one `InferenceEngine` keeps.
use mathlib.Core.Path.{subst, sym}
use confidential_ml_feature.Prelude.{
  Option, some, none, ℕ, ◌≡◌, refl, ◌∙◌, List, Text, Bytes, Result, ok, err, Ensures, if-elim,
  Option-cases, inl, inr,
}
use confidential_ml_feature.Python.Strip.{strip, is_empty}
use confidential_ml_feature.OrderedDict
use confidential_ml_feature.OrderedDict.Entries.{All-get}
use confidential_ml_feature.Threads.{System, Reach, IsKept, reach-Holds}
use confidential_ml_feature.Engine.{Exception, LoadedModel, Platform, Engine}
use confidential_ml_feature.Engine.Loading.{Bundle, open_bundle}
use confidential_ml_feature.Engine.Invariant.{
  IsSound, IsValid, Keeps, touched-IsValid, unload_model-Keeps, store_model-Keeps,
  open_model-IsSound,
}
use confidential_ml_feature.Engine.Threads.{
  Task, Request, Work, idle, asked, opening, storing, running, answered, load, infer, unload,
  ask_loaded, ask_names, begin_load, keep_open, decrypt_bundle, begin_predict, begin, advance, Move,
  receive, reply, go_on,
}

-- The name of the model that a request is about, as the engine keys it.
abbrev pub name_of : Option Request → Option Text
name_of (some (load model_name weights)) = some (strip model_name)
name_of (some (infer model_name features latency)) = some (strip model_name)
name_of _ = none

-- What a thread carries between two sections: the name of its own request, and a model that is sound
-- under that name.
abbrev pub Carries : {Model : Type 0} → Option Request → Work Model → Type 0
Carries request (asked r) = request ≡ some r
Carries request (opening name weights) = name_of request ≡ some name
Carries request (storing name m) = (name_of request ≡ some name) × IsSound (name, m)
Carries request (running name m features latency) =
    (name_of request ≡ some name) × IsSound (name, m)
Carries request _ = Unit {0}

module _ {Keys Model : Type 0} where
  -- A thread's move keeps the engine valid, and what it carries sound.
  abbrev pub KeepsAll : Option Request → Engine Keys Model → Work Model × Engine Keys Model → Type 0
  KeepsAll request engine r = Keeps engine r.1 × Carries request r.0

  same : (engine : Engine Keys Model) → IsValid engine → Keeps engine engine
  same engine v = record { valid = v; limit = refl }

  module _ (p : Platform Keys Model) where
    begin_load-KeepsAll :
        (name : Text) (weights : Bytes) (engine : Engine Keys Model)
        → IsValid engine
        → KeepsAll (some (load name weights)) engine (begin_load p name weights engine)
    unfolding begin_load
    begin_load-KeepsAll name weights engine v =
        if-elim (KeepsAll (some (load name weights)) engine) (is_empty (strip name)) _ _
          (λ _. (same engine v, tt))
          (λ _.
            if-elim (KeepsAll (some (load name weights)) engine) (is_empty weights) _ _
              (λ _. (same engine v, tt))
              (λ _. elim (Option-cases (OrderedDict.get (strip name) engine.models)) [
                | inl e ↦ rw e (same engine v, refl)
                | inr (m, e) ↦ rw e (touched-IsValid (strip name) engine v, tt)
              ]))

    begin_predict-KeepsAll :
        (name : Text) (features : List ℕ) (latency : ℕ) (engine : Engine Keys Model)
        → IsValid engine
        → KeepsAll
            (some (infer name features latency))
            engine
            (begin_predict p name features latency engine)
    unfolding begin_predict
    begin_predict-KeepsAll name features latency engine v =
        if-elim (KeepsAll (some (infer name features latency)) engine) (is_empty (strip name)) _ _
          (λ _. (same engine v, tt))
          (λ _. elim (Option-cases (OrderedDict.get (strip name) engine.models)) [
            | inl e ↦ rw e (same engine v, tt)
            | inr (m, e) ↦ rw e (
              touched-IsValid (strip name) engine v,
              (refl, All-get IsSound (strip name) m engine.models v.sound e),
            )
          ])

    keep_open-Carries :
        (request : Option Request) (name : Text) (r : Result Exception (LoadedModel Model))
        → name_of request ≡ some name
        → Ensures (λ m. IsSound (name, m)) r
        → Carries request (keep_open p name r)
    unfolding keep_open
    keep_open-Carries request name (ok m) n h = (n, h)
    keep_open-Carries request name (err e) n h = tt

    decrypt_bundle-KeepsAll :
        (request : Option Request) (name : Text) (r : Result Exception (Bundle × Bytes × Bytes))
        (engine : Engine Keys Model)
        → name_of request ≡ some name
        → IsValid engine
        → KeepsAll request engine (decrypt_bundle p name r engine)
    unfolding decrypt_bundle
    decrypt_bundle-KeepsAll request name (err e) engine n v = (same engine v, tt)
    decrypt_bundle-KeepsAll request name (ok (bundle, key, blob)) engine n v =
        elim (Option-cases (p.decrypt_data_key key bundle.tenant_id engine.keys).0) [
          | inl e ↦ rw (e, decrypt_bundle) (with_keys, tt)
          | inr (k, e) ↦
              rw (e, decrypt_bundle)
                (
                  with_keys,
                  keep_open-Carries request name _ n
                      (open_model-IsSound p name bundle.tenant_id k blob),
                )
        ]
      where
        with_keys :
            Keeps engine
              (record engine { keys = (p.decrypt_data_key key bundle.tenant_id engine.keys).1 })
        with_keys = record {
          valid = record { distinct = v.distinct; bounded = v.bounded; sound = v.sound };
          limit = refl;
        }

    begin-KeepsAll :
        (request : Request) (engine : Engine Keys Model)
        → IsValid engine
        → KeepsAll (some request) engine (begin p request engine)
    unfolding begin
    begin-KeepsAll (load name weights) engine v = begin_load-KeepsAll name weights engine v
    begin-KeepsAll (infer name features latency) engine v =
        begin_predict-KeepsAll name features latency engine v
    begin-KeepsAll (unload name) engine v = (unload_model-Keeps name engine v, tt)
    begin-KeepsAll (ask_loaded name) engine v = (same engine v, tt)
    begin-KeepsAll ask_names engine v = (same engine v, tt)

    advance-KeepsAll :
        (last : Option Request) (w : Work Model) (engine : Engine Keys Model)
        → IsValid engine
        → Carries last w
        → KeepsAll last engine (advance p w engine)
    unfolding advance
    advance-KeepsAll last idle engine v c = (same engine v, tt)
    advance-KeepsAll last (asked request) engine v c =
        subst (λ r. KeepsAll r engine (begin p request engine)) (sym c)
          (begin-KeepsAll request engine v)
    advance-KeepsAll last (opening name weights) engine v c =
        decrypt_bundle-KeepsAll last name (open_bundle p name weights) engine c v
    advance-KeepsAll last (storing name m) engine v c =
        (store_model-Keeps p name m engine c.1 v, tt)
    advance-KeepsAll last (running name m features latency) engine v c = (same engine v, tt)
    advance-KeepsAll last (answered answer) engine v c = (same engine v, tt)

    -- The engine is valid, with this limit.
    abbrev Serves : ℕ → Engine Keys Model → Type 0
    Serves limit engine = IsValid engine × (engine.max_models ≡ limit)

    abbrev Own : Engine Keys Model → Task Model → Type 0
    Own engine (last, w) = Carries last w

    abbrev Any : Task Model → Task Model → Type 0
    Any v w = Unit {0}

    move-Serves :
        (limit : ℕ) (w : Task Model) (e : Engine Keys Model) (w' : Task Model)
        (e' : Engine Keys Model)
        → Move p w e w' e'
        → Serves limit e
        → Own e w
        → Serves limit e' × Own e' w'
    move-Serves limit w e w' e' (receive request) s c = (s, refl)
    move-Serves limit w e w' e' (reply answer) s c = (s, tt)
    move-Serves limit w e w' e' (go_on work {last = last}) s c =
        let (kept, carried) = advance-KeepsAll last work e s.0 c in
        ((kept.valid, kept.limit ∙ s.1), carried)

    advance-IsKept : (limit : ℕ) → IsKept (Move p) (Serves limit) Own Any
    advance-IsKept limit = record {
      apart_sym = λ _. tt;
      own = λ {w} {w'} {m} {m'} move s c. move-Serves limit w m w' m' move s c;
      other = λ _ _ _ c _. (c, tt);
    }

    -- Whatever threads do on a valid engine, in any order: in every state that they reach, the engine
    -- is valid and has the same limit; a thread between two sections goes on under the stripped name
    -- of the request that it was given last; and a model that it holds then, to be stored or to
    -- predict with, is sound under that name.
    pub reach-IsValid :
        (engine : Engine Keys Model) (s : System (Engine Keys Model) (Task Model))
        → IsValid engine
        → Reach (Move p) (record { shared = engine; work = λ _. (none, idle) }) s
        → IsValid s.shared
          × (s.shared.max_models ≡ engine.max_models)
          × ((i : ℕ) → Carries (s.work i).0 (s.work i).1)
    reach-IsValid engine s v r =
        let held =
          reach-Holds (Move p) (Serves engine.max_models) Own Any (advance-IsKept engine.max_models)
            (record { state = (v, refl); each = λ _. tt; two = λ _ _ _. tt }) r in
        (held.state.0, held.state.1, held.each)
