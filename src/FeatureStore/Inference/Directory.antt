-- ===== src/FeatureStore/Inference/Directory.antt =====
-- The directory from which `_load_model_artifacts` reads a model, by the model's name.
use confidential_ml_feature.Prelude.{
  ◌≡◌, refl, ap, ◌∙◌, false, [], ◌∷◌, ◌++◌, append_assoc, append-nil, arith, ◌==◌, ◌=ₜ◌, Text, All,
}
use confidential_ml_feature.Python.Codes.{codes}
use confidential_ml_feature.Python.Strip.{is_empty}
use confidential_ml_feature.FeatureStore.Inference.{
  Parts, Files, split_slash, keep_parts, join, load_model_artifacts, encrypted_model_path,
  encrypted_key_path, model_directory, is_absolute,
}

-- A name that is one part of a path and stands for an entry of a directory.
pub record IsPlain (name : Text) : Type 0 where
  pub some_text : is_empty name ≡ false
  pub no_slash : All (λ c. (c == 47) ≡ false) name
  pub not_dot : (name =ₜ codes ".") ≡ false
  pub not_parent : (name =ₜ codes "..") ≡ false

split_slash-append :
    (a b : Text) → All (λ c. (c == 47) ≡ false) a → split_slash (a ++ 47 ∷ b) ≡ a ∷ split_slash b
unfolding split_slash
split_slash-append [] b h = refl
split_slash-append (c ∷ a) b (h, hs) = rw h (rw (split_slash-append a b hs) refl)

split_slash-one : (a : Text) → All (λ c. (c == 47) ≡ false) a → split_slash a ≡ a ∷ []
unfolding split_slash
split_slash-one [] h = refl
split_slash-one (c ∷ a) (h, hs) = rw h (rw (split_slash-one a hs) refl)

keep_parts-kept :
    (name : Text) (ps : Parts)
    → is_empty name ≡ false
    → (name =ₜ codes ".") ≡ false
    → keep_parts (name ∷ ps) ≡ name ∷ keep_parts ps
unfolding keep_parts
keep_parts-kept name ps h d = rw (h, d) refl

is_absolute-IsPlain : (name rest : Text) → IsPlain name → is_absolute (name ++ rest) ≡ false
is_absolute-IsPlain [] rest n = absurd (ground (arith, n.some_text))
is_absolute-IsPlain (c ∷ s) rest n = n.no_slash.0

keep_parts_one :
    (name : Text)
    → is_empty name ≡ false
    → (name =ₜ codes ".") ≡ false
    → keep_parts (name ∷ []) ≡ name ∷ []
unfolding keep_parts
keep_parts_one name h d = rw (h, d) refl

pub join-IsPlain : (path : Parts) (name : Text) → IsPlain name → join path name ≡ path ++ name ∷ []
unfolding join
join-IsPlain path name n =
    let relative : is_absolute name ≡ false =
      rw (← append-nil name) (is_absolute-IsPlain name [] n) in
    rw relative
      (rw (split_slash-one name n.no_slash) (rw (keep_parts_one name n.some_text n.not_dot) refl))

-- The path that both files have for two plain names.
model_directory-IsPlain :
    (root : Parts) (tenant_id model_name : Text)
    → IsPlain tenant_id
    → IsPlain model_name
    → model_directory root tenant_id model_name ≡ root ++ tenant_id ∷ model_name ∷ []
model_directory-IsPlain root tenant_id model_name t n = rw (join-IsPlain root tenant_id t) (
    join-IsPlain (root ++ tenant_id ∷ []) model_name n
    ∙ append_assoc root (tenant_id ∷ []) (model_name ∷ []))

-- The same answers on a path.
pub record SameAt (files files' : Files) (path path' : Parts) : Type 0 where
  pub is_file : files.is_file path ≡ files'.is_file path'
  pub read_bytes : files.read_bytes path ≡ files'.read_bytes path'

-- `_load_model_artifacts` depends on its two files only.
load_model_artifacts-SameAt :
    (files files' : Files) (root : Parts) (tenant_id other model_name other_name : Text)
    → SameAt files files'
        (encrypted_model_path (model_directory root tenant_id model_name))
        (encrypted_model_path (model_directory root other other_name))
    → SameAt files files'
        (encrypted_key_path (model_directory root tenant_id model_name))
        (encrypted_key_path (model_directory root other other_name))
    → load_model_artifacts files root tenant_id model_name
      ≡ load_model_artifacts files' root other other_name
unfolding load_model_artifacts
load_model_artifacts-SameAt files files' root tenant_id other model_name other_name m k =
    rw (m.is_file, m.read_bytes, k.is_file, k.read_bytes) refl

-- If the tenant and the model's name are plain names, then what is loaded depends only on the files
-- in the model's directory in the tenant's: another file system that agrees on these gives the same
-- artifacts or the same error.
pub load_model_artifacts_own :
    (files files' : Files) (root : Parts) (tenant_id model_name : Text)
    → IsPlain tenant_id
    → IsPlain model_name
    → ((file : Text)
        → SameAt files files'
            (root ++ tenant_id ∷ model_name ∷ file ∷ [])
            (root ++ tenant_id ∷ model_name ∷ file ∷ []))
    → load_model_artifacts files root tenant_id model_name
      ≡ load_model_artifacts files' root tenant_id model_name
load_model_artifacts_own files files' root tenant_id model_name t n same =
    load_model_artifacts-SameAt files files' root tenant_id tenant_id model_name model_name
      (at (codes "encrypted_model.bin")) (at (codes "encrypted_data_key.bin"))
  where
    at :
        (file : Text)
        → SameAt files files'
            (model_directory root tenant_id model_name ++ file ∷ [])
            (model_directory root tenant_id model_name ++ file ∷ [])
    at file =
        rw
          (
            model_directory-IsPlain root tenant_id model_name t n,
            append_assoc root (tenant_id ∷ model_name ∷ []) (file ∷ []),
          )
          (same file)

-- The tenant's directory is there, so that the way up from it leads back to the root.
abbrev pub IsDirectory : Files → Parts → Text → Type 0
IsDirectory files root tenant_id =
    (rest : Parts) → SameAt files files (root ++ tenant_id ∷ codes ".." ∷ rest) (root ++ rest)

-- "../" + other + "/" + name
abbrev pub escaping : Text → Text → Text
escaping other name = codes "../" ++ other ++ 47 ∷ name

split_slash-escaping :
    (other name : Text)
    → IsPlain other
    → IsPlain name
    → split_slash (escaping other name) ≡ codes ".." ∷ other ∷ name ∷ []
split_slash-escaping other name o n =
    split_slash-append (codes "..") (other ++ 47 ∷ name) (refl, (refl, tt))
    ∙ rw (split_slash-append other name o.no_slash) (rw (split_slash-one name n.no_slash) refl)

keep_parts-escaping :
    (other name : Text)
    → IsPlain other
    → IsPlain name
    → keep_parts (codes ".." ∷ other ∷ name ∷ []) ≡ codes ".." ∷ other ∷ name ∷ []
unfolding ◌=ₜ◌
keep_parts-escaping other name o n =
    keep_parts-kept (codes "..") (other ∷ name ∷ []) refl refl
    ∙ ap (λ ps. codes ".." ∷ ps)
        (keep_parts-kept other (name ∷ []) o.some_text o.not_dot
          ∙ ap (λ ps. other ∷ ps) (keep_parts_one name n.some_text n.not_dot))

join_relative :
    (path : Parts) (name : Text)
    → is_absolute name ≡ false
    → join path name ≡ path ++ keep_parts (split_slash name)
unfolding join
join_relative path name h = rw h refl

join-escaping :
    (path : Parts) (other name : Text)
    → IsPlain other
    → IsPlain name
    → join path (escaping other name) ≡ path ++ codes ".." ∷ other ∷ name ∷ []
join-escaping path other name o n =
    join_relative path (escaping other name) refl
    ∙ ap (λ ps. path ++ ps)
        (ap keep_parts (split_slash-escaping other name o n) ∙ keep_parts-escaping other name o n)

-- For plain names, if the tenant's directory is there: a model name of "../", another tenant, "/"
-- and a name loads what that other tenant's model of the name loads.
pub load_model_artifacts_escapes :
    (files : Files) (root : Parts) (tenant_id other name : Text)
    → IsPlain tenant_id
    → IsPlain other
    → IsPlain name
    → IsDirectory files root tenant_id
    → load_model_artifacts files root tenant_id (escaping other name)
      ≡ load_model_artifacts files root other name
load_model_artifacts_escapes files root tenant_id other name t o n up =
    load_model_artifacts-SameAt files files root tenant_id other (escaping other name) name
      (at (codes "encrypted_model.bin")) (at (codes "encrypted_data_key.bin"))
  where
    at :
        (file : Text)
        → SameAt files files
            (model_directory root tenant_id (escaping other name) ++ file ∷ [])
            (model_directory root other name ++ file ∷ [])
    at file =
        rw
          (
            model_directory-IsPlain root other name o n,
            join-IsPlain root tenant_id t,
            join-escaping (root ++ tenant_id ∷ []) other name o n,
          )
          (rw (append_assoc, append_assoc, append_assoc) (up (other ∷ name ∷ file ∷ [])))
