-- ===== src/Ingestion/Policy.antt =====
-- What the repository of ingestion jobs demands of its configuration and of its arguments
-- (modules/ingestion/services/ingestion-job.repository.ts), and the catalog of error codes
-- (common/observability/fiscal-error-code.ts).
use balanz.Prelude.{
  ℕ, String, Bool, true, false, not, ◌&&◌, ◌||◌, List, [], ◌∷◌, Option, none, some, all, any,
  length, leb, ltb, eqb, codes, utf16_length, includes,
}
use balanz.Http.{Result, plain_error, throw_if}

-- The configuration of the worker, its retention and its limit of active jobs.
pub record Policy : Type 0 where
  pub lease_seconds : ℕ
  pub max_attempts : ℕ
  pub max_retries : ℕ
  pub backoff_seconds : List ℕ
  pub backoff_jitter_percent : ℕ
  pub active_jobs_per_tenant : ℕ
  pub orphan_grace_minutes : ℕ
  pub duplicate_bytes_hours : ℕ
  pub invalid_object_days : ℕ

-- `backoffSeconds.join(',') === '10,30,120'`
abbrev pub is_backoff : List ℕ → Bool
is_backoff (a ∷ b ∷ c ∷ []) = eqb a 10 && eqb b 30 && eqb c 120
is_backoff _ = false

-- the locked policy that the constructor demands
abbrev pub is_locked : Policy → Bool
is_locked p =
    eqb p.lease_seconds 90
    && eqb p.max_attempts 4
    && eqb p.max_retries 3
    && is_backoff p.backoff_seconds
    && eqb p.active_jobs_per_tenant 4
    && eqb p.orphan_grace_minutes 60
    && eqb p.duplicate_bytes_hours 24
    && eqb p.invalid_object_days 7

abbrev is_alphanumeric : ℕ → Bool
is_alphanumeric c = leb 48 c && leb c 57 || leb 65 c && leb c 90 || leb 97 c && leb c 122

abbrev is_worker_id_rest : ℕ → Bool
is_worker_id_rest c = is_alphanumeric c || eqb c 46 || eqb c 95 || eqb c 58 || eqb c 45

abbrev matches_worker_id_codes : List ℕ → Bool
matches_worker_id_codes [] = false
matches_worker_id_codes (c ∷ cs) =
    is_alphanumeric c && all is_worker_id_rest cs && leb (length cs) 127

-- WORKER_ID_PATTERN
unfoldable pub matches_worker_id : String → Bool
matches_worker_id id = matches_worker_id_codes (codes id)

abbrev pub assert_worker_id : String → Result (Unit {0})
assert_worker_id id = throw_if (not (matches_worker_id id)) (plain_error "Worker ID is invalid")

-- CANONICAL_FISCAL_ERROR_CODES
unfoldable pub canonical_fiscal_error_codes : List String
canonical_fiscal_error_codes =
    "CFDI_DUPLICATE" ∷ "CFDI_RFC_FOREIGN" ∷ "CFDI_UUID_HASH_CONFLICT" ∷ "CFDI_UUID_INVALID"
    ∷ "CFDI_VERSION_UNSUPPORTED" ∷ "COMPLEMENT_UNSUPPORTED" ∷ "CONFIGURATION_INVALID"
    ∷ "FISCAL_PERIOD_NOT_CONFIGURED" ∷ "HANDLER_NOT_REGISTERED" ∷ "IDEMPOTENCY_CONFLICT"
    ∷ "IDEMPOTENCY_KEY_EXPIRED" ∷ "IDEMPOTENCY_KEY_REQUIRED" ∷ "INGESTION_ACTIVE_JOB_LIMIT"
    ∷ "INGESTION_FILE_REQUIRED" ∷ "INGESTION_FILE_TOO_LARGE" ∷ "INGESTION_TOO_MANY_FILES"
    ∷ "INGESTION_UNSUPPORTED_MEDIA_TYPE" ∷ "INGESTION_UPLOAD_ABORTED" ∷ "INVALID_HANDLER_RESULT"
    ∷ "JOB_CLAIM_FAILED" ∷ "JOB_LEASE_LOST" ∷ "JOB_NOT_RETRYABLE" ∷ "JOB_RETRY_EXHAUSTED"
    ∷ "JOB_ROOT_OBJECT_UNAVAILABLE" ∷ "JOB_STATE_CONFLICT" ∷ "MALWARE_DETECTED"
    ∷ "MALWARE_SCANNER_ABORTED" ∷ "MALWARE_SCANNER_HEALTH_TIMEOUT"
    ∷ "MALWARE_SCANNER_INVALID_CONFIGURATION" ∷ "MALWARE_SCANNER_LIMIT_EXCEEDED"
    ∷ "MALWARE_SCANNER_PROTOCOL_ERROR" ∷ "MALWARE_SCANNER_TIMEOUT" ∷ "MALWARE_SCANNER_UNAVAILABLE"
    ∷ "MFA_REQUIRED" ∷ "MFA_SETUP_REQUIRED" ∷ "OBJECT_HASH_MISMATCH" ∷ "OBJECT_STORAGE_CONFLICT"
    ∷ "OBJECT_STORAGE_HEALTH_TIMEOUT" ∷ "OBJECT_STORAGE_INVALID_CONFIGURATION"
    ∷ "OBJECT_STORAGE_INVALID_KEY" ∷ "OBJECT_STORAGE_LIMIT_EXCEEDED" ∷ "OBJECT_STORAGE_NOT_FOUND"
    ∷ "OBJECT_STORAGE_SIZE_MISMATCH" ∷ "OBJECT_STORAGE_UNAVAILABLE"
    ∷ "OBJECT_STORAGE_UNSUPPORTED_OPERATION" ∷ "ORPHANED_PENDING_OBJECT" ∷ "PARSER_INTERNAL_ERROR"
    ∷ "PERMISSION_REQUIRED" ∷ "POSTGRES_FISCAL_SCHEMA_NOT_READY" ∷ "POSTGRES_UNAVAILABLE"
    ∷ "RECONCILIATION_CONFLICT" ∷ "RECONCILIATION_FAILED" ∷ "REDIS_WAKEUP_UNAVAILABLE"
    ∷ "RESOURCE_NOT_FOUND" ∷ "RLS_CONTEXT_INVALID" ∷ "RLS_CONTEXT_REQUIRED"
    ∷ "UNEXPECTED_WORKER_ERROR" ∷ "UPLOAD_ALREADY_CONFIRMED" ∷ "UPLOAD_EXPIRED"
    ∷ "UPLOAD_NOT_CONFIRMABLE" ∷ "UPLOAD_CONFIRM_IN_PROGRESS" ∷ "UPLOAD_PAYLOAD_MISMATCH"
    ∷ "WORKER_SHUTDOWN" ∷ "WORKER_STATE_TRANSITION_FAILED" ∷ "WORKER_SUPERVISOR_NOT_RUNNING"
    ∷ "WORKER_SUPERVISOR_STALE" ∷ "WORKER_SUPERVISOR_UNAVAILABLE" ∷ "ZIP_CORRUPT" ∷ "ZIP_EMPTY"
    ∷ "ZIP_LIMIT_EXCEEDED" ∷ "ZIP_UNSAFE_ENTRY" ∷ "ZIP_ENCRYPTED" ∷ "ZIP_NESTED"
    ∷ "ZIP_ENTRY_UNSUPPORTED" ∷ "ZIP_CLEANUP_FAILED" ∷ "ZIP_CANCELLED" ∷ "XML_MALFORMED"
    ∷ "XML_SECURITY_VIOLATION" ∷ []

abbrev pub assert_canonical_fiscal_error_code : String → Result (Unit {0})
assert_canonical_fiscal_error_code value =
    throw_if (not (includes canonical_fiscal_error_codes value))
      (plain_error "Error code must be a canonical safe token")

abbrev is_unsafe_control : ℕ → Bool
is_unsafe_control c = ltb c 32 && not (eqb c 9) && not (eqb c 10) && not (eqb c 13) || eqb c 127

-- containsUnsafeControl
unfoldable pub contains_unsafe_control : String → Bool
contains_unsafe_control value = any is_unsafe_control (codes value)

unfoldable pub is_safe_detail : Option String → Bool
is_safe_detail none = true
is_safe_detail (some detail) =
    leb (utf16_length (codes detail)) 500 && not (contains_unsafe_control detail)
