-- ===== src/Artifacts.antt =====
-- src/mycoagent/artifacts.py: the ids of a child's files and the store in memory. `MinIO`'s client is a
-- parameter.
pub mod Keys
pub mod Kept
mod Tests
use Prim.Native.Char.{char}
use myco_agent.Common.{
  ℕ, zero, suc, String, Bool, true, false, not, ◌||◌, Option, none, some, List, [], ◌∷◌, given,
  truthy, ◌==◌, any, or_empty, if◌then◌else◌,
}
use myco_agent.Exec.{Exec, Result, ok, raise, pure, throw, gets, modify, ◌>>=◌, ◌>>◌}
use myco_agent.Table.{find}
use myco_agent.Table as Table
use myco_agent.Text.{
  cat, split, lstrip, rstrip, strip, lower, startswith, removeprefix, replace_char,
}

pub data ArtifactError : Type 0 where
  value_error : String → ArtifactError
  not_found : String → ArtifactError
  not_ready : String → ArtifactError

unfoldable pub safe_name : String → String
safe_name name = lstrip b'/' (replace_char (char b'\\' tt) (char b'/' tt) name)

unfoldable pub key_of : (group job_id subtask_id name : String) → String
key_of group job_id subtask_id name =
    cat group (cat "/" (cat job_id (cat "/" (cat subtask_id (cat "/" name)))))

unfoldable pub artifact_key : (group job_id subtask_id name : String) → Result ArtifactError String
artifact_key group job_id subtask_id name =
    if any (λ part. part == "..") (split b'/' (safe_name name))
    then raise (value_error "artifact name must not contain '..'")
    else ok (key_of group job_id subtask_id (safe_name name))

abbrev pub Blob : Type 0
Blob = List ℕ

pub record Object : Type 0 where
  pub key : String
  pub data_bytes : Blob

-- `MemoryArtifactStore.objects`
pub record ArtifactStore : Type 0 where
  pub objects : List Object

abbrev pub ArtifactM : Type 0 → Type 0
ArtifactM A = Exec ArtifactStore ArtifactError A

unfoldable pub write : (key : String) → Blob → ArtifactStore → ArtifactStore
write key bytes s = record s {
  objects = Table.put Object.key (record { key = key; data_bytes = bytes }) s.objects;
}

abbrev pub store_under : Result ArtifactError String → Blob → ArtifactM String
store_under (ok key) bytes = modify (write key bytes) >> pure key
store_under (raise e) bytes = throw e

unfoldable pub put : (group job_id subtask_id name : String) → Blob → ArtifactM String
put group job_id subtask_id name bytes =
    store_under (artifact_key group job_id subtask_id name) bytes

abbrev pub found_object : (artifact_id : String) → Option Object → Result ArtifactError Blob
found_object artifact_id none = raise (not_found (cat "artifact not found: " artifact_id))
found_object artifact_id (some object) = ok object.data_bytes

unfoldable pub get : (artifact_id : String) → ArtifactStore → Result ArtifactError Blob
get artifact_id s = found_object artifact_id (find Object.key artifact_id s.objects)

-- The files of a workspace, with their paths below its root, each put in turn.
unfoldable pub upload_workspace_files :
    (group job_id subtask_id : String) → List (String × Blob) → ArtifactM (List String)
upload_workspace_files group job_id subtask_id [] = pure []
upload_workspace_files group job_id subtask_id ((rel, bytes) ∷ files) =
    put group job_id subtask_id rel bytes >>= λ id.
    upload_workspace_files group job_id subtask_id files >>= λ ids. pure (id ∷ ids)

unfoldable pub env_bool : Option String → Option Bool
env_bool none = none
env_bool (some value) =
    if value == ""
    then none
    else some (any (λ word. lower (strip value) == word) ("1" ∷ ("true" ∷ ("yes" ∷ ("on" ∷ [])))))

-- The host and the choice of TLS that `S3ArtifactStore.__init__` gives to the client.
unfoldable pub s3_host : (endpoint : String) → (secure : Option Bool) → String × Bool
s3_host endpoint secure =
    (rstrip b'/' (removeprefix "http://" (removeprefix "https://" (strip endpoint))), flag secure)
  where
    flag : Option Bool → Bool
    flag none = startswith "https://" (strip endpoint)
    flag (some given_flag) = given_flag

-- `_ensure_bucket`: `attempt i` is the error of the i-th try to find or make the bucket, if it failed.
unfoldable pub ensure_bucket :
    (tries : ℕ) → (i : ℕ) → (last : String) → (attempt : ℕ → Option String) → Option ArtifactError
ensure_bucket zero i last attempt = some (not_ready (cat "S3/MinIO bucket not ready: " last))
ensure_bucket (suc tries) i last attempt = elim (attempt i) [
  | none ↦ none
  | some error ↦ ensure_bucket tries (suc i) error attempt
]

pub record S3Settings : Type 0 where
  pub endpoint : String
  pub access_key : String
  pub secret_key : String
  pub bucket : String
  pub secure : Option Bool

abbrev pub or_default : Option String → String → String
or_default none default = default
or_default (some value) default = value

-- `none` is the store in memory.
unfoldable pub artifact_store_from_env : (env : String → Option String) → Option S3Settings
artifact_store_from_env env =
    let endpoint = strip (or_default (env "MYCOAGENT_S3_ENDPOINT") "") in
    if not (truthy endpoint)
    then none
    else some record {
      endpoint = endpoint;
      access_key = or_default (env "MYCOAGENT_S3_ACCESS_KEY") "minioadmin";
      secret_key = or_default (env "MYCOAGENT_S3_SECRET_KEY") "minioadmin";
      bucket = or_default (env "MYCOAGENT_S3_BUCKET") "mycoagent";
      secure = env_bool (env "MYCOAGENT_S3_SECURE");
    }
